-- ===== src/Tests/Registry.antt =====
-- A registry with one restaurant: it announces itself with a key, is then open, and its owner protects
-- it by a manifest and hands over to a new root key.
use p4p.Prelude.{
  ℕ, String, ◌==◌, ◌≡◌, refl, arith, Bool, true, false, Option, none, some, List, [], ◌∷◌, ◌<◌,
  strip, concat, if◌then◌else◌,
}
use p4p.Prelude.Result.{ok, err}
use p4p.Registry.Node.{
  Node, primary, NodeDelegation, NodeManifest, NodeManifestKey, NodeManifestRequest,
  NodeRootRotation, HeartbeatRequest,
}
use p4p.Registry.Identity.{change_record}
use p4p.Registry.Source.{local, RegistryCapabilities, local_only}
use p4p.Registry.Store.{
  Outside, HttpException, Stamp, text_or_empty, read_iso, not_iso, aware, valid, invalid,
  RegistryConfig, trusted_only, manual_only, RegistryStore, StoredNode, http,
}
use p4p.Registry.Recording.{identity_scope}
use p4p.Registry.Operations.{announce, heartbeat, node_manifest}
use p4p.Registry.Export.{source_snapshot}
use p4p.Registry.Validation.Snapshot.{require_identity_log, require_event_order}
use p4p.Registry.NodeKeys.Run.{announce-KeepsKey}
use p4p.Registry.Roots.{unchanged}
use p4p.Registry.Roots.Run.{HasManifest, serve_all-KeepsRoot}
use p4p.Registry.Refused.{heartbeat-LocksNode}
use p4p.Registry.Ahead.{signed_ahead-NotExported}
use p4p.Registry.Validation.Log.{history_from, require_record_history, require_record_status}
use p4p.Registry.Validation.Allowed.{Verified}
use p4p.Registry.Validation.{is_signed}
use p4p.Registry.Log.Run.{NodeRequest, announcement, beat, new_manifest, serve, serve_all}
use p4p.Registry.Log.Exported.{InOrder, empty_registry, exported_log-IsAccepted}

-- A signature of a key is the key, and the times are a few hours of one day.
abbrev pub hour : String → Stamp
hour text =
    if text == "09:00"
    then aware 9
    else if text == "12:00"
    then aware 12
    else if text == "14:00"
    then aware 14
    else if text == "20:00"
    then aware 20
    else not_iso

abbrev pub outside : Outside
outside = record {
  verify_payload = λ payload key signature. if key == signature then valid else invalid;
  sign_payload = λ payload key. key;
  announcement_hash = λ node. node.name;
  source_digest = λ payload. payload.snapshot.registry_version;
  fromisoformat = hour;
  urlsplit = λ url. record { scheme = "https"; host = url };
}

abbrev pub every_capability : RegistryCapabilities
every_capability = record {
  can_onboard_nodes = true;
  can_relay_sources = true;
  can_curate_active_index = true;
  can_moderate_directory = true;
  can_issue_trust_claims = true;
  can_reexport_sources = true;
}

abbrev pub config : RegistryConfig
config = record {
  registry_url = "https://registry.example";
  registry_db_path = "";
  registry_admin_token = "token";
  trusted_mirror_upstream_urls = [];
  mirror_discovery_policy = trusted_only;
  registry_source_reexport_policy = local_only;
  curated_index_promotion_policy = manual_only;
  mirror_source_ttl_seconds = 3600;
  registry_private_key = none;
  registry_public_key = none;
  registry_metadata = record { registry_type = local; capabilities = every_capability };
}

abbrev restaurant : Option String → Option String → Node
restaurant key signed_at = record {
  node_id = "mila";
  name = "Mila";
  location = record { lat = "55.7"; lng = "12.6" };
  country = "DK";
  city = "Copenhagen";
  categories = "pizza" ∷ [];
  endpoint = "https://mila.example";
  is_open = true;
  order_mode = "test";
  modules = [];
  node_public_key = key;
  delegation = none;
  signed_at = signed_at;
  signature = key;
  protocol_version = "0.1";
}

abbrev open_sign : Bool → Option String → HeartbeatRequest
open_sign is_open signed_at = record {
  node_id = "mila";
  is_open = is_open;
  signed_at = signed_at;
  signature = some "key-a";
}

abbrev manifest_key : String → NodeManifestKey
manifest_key key = record {
  node_public_key = key;
  role = primary;
  capabilities = "announce" ∷ "heartbeat" ∷ [];
  status = p4p.Registry.Node.active;
  expires_at = none;
}

abbrev manifest : String → ℕ → String → List NodeManifestKey → NodeManifest
manifest root version issued_at keys = record {
  node_id = "mila";
  root_public_key = root;
  manifest_version = version;
  issued_at = issued_at;
  keys = keys;
  signature = root;
}

abbrev rotation : NodeRootRotation
rotation = record {
  node_id = "mila";
  previous_root_public_key = "root-1";
  next_root_public_key = "root-2";
  rotated_at = "14:00";
  signature = "root-1";
}

abbrev first_manifest : List NodeManifestKey → NodeManifestRequest
first_manifest keys = record { manifest = manifest "root-1" 1 "12:00" keys; root_rotation = none }

abbrev second_manifest : NodeManifestRequest
second_manifest = record {
  manifest = manifest "root-2" 2 "14:00" (manifest_key "key-a" ∷ []);
  root_rotation = some rotation;
}

abbrev day : List (ℕ × NodeRequest)
day =
    (10, announcement (restaurant (some "key-a") (some "09:00")))
    ∷ (12, beat (open_sign false (some "12:00")))
    ∷ (13, new_manifest (first_manifest (manifest_key "key-a" ∷ [])))
    ∷ (15, new_manifest second_manifest)
    ∷ []

abbrev first_night : RegistryStore
unfolding serve_all serve
first_night = serve_all outside config day empty_registry

in_order : InOrder outside config 0 15 day empty_registry
unfolding serve strip change_record
in_order = (
  omega arith,
  (
    (λ t iso. ground (arith, iso)),
    (
      omega arith,
      (
        tt,
        (
          omega arith,
          ((refl, ((λ own. refl), tt)), (omega arith, ((refl, (tt, tt)), omega arith))),
        ),
      ),
    ),
  ),
)

exported_log-IsAccepted_example :
    (require_identity_log outside 21 (
        source_snapshot outside 20 config "https://registry.example"
          (serve_all outside config day empty_registry)
          [])
      ≡ ok tt)
    × (require_event_order outside 21 (
          source_snapshot outside 20 config "https://registry.example"
            (serve_all outside config day empty_registry)
            [])
        ≡ ok tt)
exported_log-IsAccepted_example =
    exported_log-IsAccepted outside config day 15 20 21 "https://registry.example" [] in_order
      (omega arith) (omega arith)

abbrev first_announcement : RegistryStore
unfolding announce
first_announcement =
    (announce outside 10 config (restaurant (some "key-a") (some "09:00")) empty_registry).1

-- A later announcement, and one that is signed ahead of the clock.
abbrev again : Node
again = restaurant (some "key-a") (some "14:00")

announce_tests :
    ((announce outside 14 config again first_announcement).0
      ≡ ok (record { node = again; last_seen = 14; last_signed_event_at = some 14 }))
    × ((announce outside 14 config (restaurant (some "key-b") (some "14:00")) first_announcement).0
        ≡ err (http 403 "node_public_key does not match existing node identity"))
    × ((announce outside 14 config (restaurant (some "key-a") (some "09:00")) first_announcement).0
        ≡ err (
            http 409
              "signed_at must be newer than the last accepted signed event for this node_id"))
unfolding announce strip concat
announce_tests = (refl, refl, refl)

announce-KeepsKey_example :
    (text_or_empty again.node_public_key ≡ "key-a")
    × ((is_signed again ≡ true)
        × (Verified outside 14 again
            × ((t : ℕ) × ((read_iso outside "14:00" ≡ aware t) × (9 < t)))))
unfolding announce serve_all serve strip
announce-KeepsKey_example =
    announce-KeepsKey outside "key-a" refl 9 14 config
      ((12, beat (open_sign false (some "12:00"))) ∷ []) first_announcement again
      (record { node = again; last_seen = 14; last_signed_event_at = some 14 })
      (
        record {
          node = restaurant (some "key-a") (some "09:00");
          last_seen = 10;
          last_signed_event_at = some 9;
        },
        (refl, (refl, (9, (refl, omega arith)))),
      )
      refl

abbrev protected : RegistryStore
unfolding node_manifest
protected =
    (node_manifest outside 13 (first_manifest (manifest_key "key-a" ∷ [])) first_announcement).1

has_manifest : HasManifest outside "mila" "root-1" 1 protected.node_manifests
unfolding node_manifest announce strip
has_manifest = (
  record { manifest = (first_manifest (manifest_key "key-a" ∷ [])).manifest; stored_at = 13 },
  (refl, (unchanged "root-1", (omega arith, refl))),
)

serve_all-KeepsRoot_example :
    HasManifest outside "mila" "root-1" 1
      (serve_all outside config ((15, new_manifest second_manifest) ∷ []) protected).node_manifests
serve_all-KeepsRoot_example =
    serve_all-KeepsRoot outside "mila" "root-1" 1 config ((15, new_manifest second_manifest) ∷ [])
      protected has_manifest

manifest_tests :
    ((node_manifest outside 15 second_manifest protected).0
      ≡ ok (record { manifest = second_manifest.manifest; stored_at = 15 }))
    × ((node_manifest outside 15
          (record { manifest = second_manifest.manifest; root_rotation = none })
          protected).0
        ≡ err (http 403 "root_public_key change requires previous-root rotation proof"))
unfolding node_manifest announce strip
manifest_tests = (refl, refl)

-- A restaurant without a key.
abbrev plain : StoredNode
plain = record { node = restaurant none none; last_seen = 10; last_signed_event_at = none }

abbrev plain_registry : RegistryStore
plain_registry = record empty_registry { nodes = ("mila", plain) ∷ [] }

heartbeat-LocksNode_example :
    ((heartbeat outside 11 (open_sign true (some "20:00")) plain_registry).0
      ≡ ok (record { node = restaurant none none; last_seen = 11; last_signed_event_at = some 20 }))
    × ((e : HttpException) × (announce outside 15 config again
            (heartbeat outside 11 (open_sign true (some "20:00")) plain_registry).1
          ≡ (err e, (heartbeat outside 11 (open_sign true (some "20:00")) plain_registry).1)))
unfolding strip read_iso
heartbeat-LocksNode_example =
    heartbeat-LocksNode outside 11 15 20 14 config (open_sign true (some "20:00")) plain
      plain_registry again refl refl refl refl refl refl refl refl (omega arith)

signed_ahead-NotExported_example : ¬ (
    require_event_order outside 16 (
      source_snapshot outside 15 config "https://registry.example"
        (serve_all outside config
          ((14, beat (open_sign true (some "20:00"))) ∷ [])
          (announce outside 10 config again empty_registry).1)
        [])
    ≡ ok tt)
unfolding announce strip
signed_ahead-NotExported_example =
    signed_ahead-NotExported outside 10 again empty_registry config
      (record { node = again; last_seen = 10; last_signed_event_at = some 14 }) 14
      ((14, beat (open_sign true (some "20:00"))) ∷ []) 15 16 "https://registry.example" [] refl
      refl refl (omega arith)

-- A first manifest that leaves out the key of the node keeps the record active, and the log that is
-- exported then is refused.
forgotten_key_test :
    require_identity_log outside 21 (
      source_snapshot outside 20 config "https://registry.example"
        (node_manifest outside 13 (first_manifest (manifest_key "key-b" ∷ [])) first_announcement).1
        [])
    ≡ err
        (http 400 "Registry source identity_records active status requires a current manifest key")
unfolding node_manifest announce require_identity_log strip change_record require_record_history
    history_from identity_scope require_record_status
forgotten_key_test = refl
