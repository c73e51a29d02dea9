-- ===== src/Registry/Validation/Snapshot.antt =====
-- `require_valid_registry_source_snapshot` of registry/validation.py.
use p4p.Prelude.{
  ℕ, String, ◌==◌, Bool, true, false, not, ◌&&◌, ◌||◌, Option, none, some, List, [], ◌∷◌, any,
  member, ltb, leb, if◌then◌else◌,
}
use p4p.Prelude.Dict.{Dict, lookup}
use p4p.Prelude.Result.{Result, ok, require, ◌>>=◌, ◌>>◌}
use p4p.Registry.Node.{Node, NodeManifest, NodeManifestKey}
use p4p.Registry.Identity.{NodeIdentityRecord, RecordKey}
use p4p.Registry.Source.{
  RegistrySourceNode, RegistrySourceManifest, RegistrySourceSnapshot, RegistrySourceResponse,
}
use p4p.Registry.Store.{
  Outside, HttpException, http, raised, Checked, valid, invalid, malformed, node_payload,
  source_payload, truthy, text_or_empty,
}
use p4p.Registry.Validation.{
  has_node_signature_fields, parse_timestamp, require_not_too_far_in_future, require_verdict,
  manifest_key_for_node, manifest_key_is_currently_active,
}
use p4p.Registry.Validation.Manifest.{require_valid_manifest_update}
use p4p.Registry.Validation.Announcement.{is_some}
use p4p.Registry.Validation.Log.{
  has_key, require_unique_records, require_records, require_recorded, require_events,
  require_contiguous, require_latest,
}

abbrev pub is_loopback : String → Bool
is_loopback host = host == "127.0.0.1" || host == "localhost"

unfoldable pub is_loopback_url : Outside → String → Bool
is_loopback_url outside url =
    (outside.urlsplit url).scheme == "http" && is_loopback (outside.urlsplit url).host

-- model_copy(update={"open": not node.open})
abbrev pub flipped : Node → Node
flipped node = record node { is_open = not node.is_open }

module _ (outside : Outside) (now exported_at : ℕ) where
  unfoldable pub require_signed_time : ℕ → Node → Checked
  unfolding parse_timestamp
  require_signed_time last_signed node = if not (truthy node.signed_at) then ok tt else do
    signed_at ← parse_timestamp outside now (text_or_empty node.signed_at) "nodes[].node.signed_at"
    require (leb signed_at last_signed) (
        http 400
          "Registry source nodes last_signed_event_at must not be earlier than node.signed_at")

  unfoldable pub require_last_signed : RegistrySourceNode → Option ℕ → Checked
  unfolding require_not_too_far_in_future require_signed_time
  require_last_signed item none = ok tt
  require_last_signed item (some last_signed) = do
    require_not_too_far_in_future outside now last_signed "nodes[].last_signed_event_at"
    require (leb last_signed exported_at)
        (http 400 "Registry source nodes last_signed_event_at cannot be later than exported_at")
    require (leb last_signed item.last_seen)
        (http 400 "Registry source nodes last_seen must not be earlier than last_signed_event_at")
    require_signed_time last_signed item.node

  unfoldable pub require_source_nodes : List String → List RegistrySourceNode → Checked
  unfolding require_not_too_far_in_future require_last_signed
  require_source_nodes seen [] = ok tt
  require_source_nodes seen (item ∷ items) = do
    require (not (member item.node.node_id seen))
        (http 400 "Registry source snapshot must not repeat node_id values")
    require_not_too_far_in_future outside now item.last_seen "nodes[].last_seen"
    require (leb item.last_seen exported_at)
        (http 400 "Registry source nodes last_seen cannot be later than exported_at")
    require (not (has_node_signature_fields item.node) || is_some item.last_signed_event_at)
        (http 400 "Registry source signed nodes must include last_signed_event_at")
    require_last_signed item item.last_signed_event_at
    require_source_nodes (item.node.node_id ∷ seen) items

  unfoldable pub require_source_manifests : List String → List RegistrySourceManifest → Checked
  unfolding require_valid_manifest_update parse_timestamp require_not_too_far_in_future
  require_source_manifests seen [] = ok tt
  require_source_manifests seen (item ∷ items) = do
    require (not (member item.manifest.node_id seen))
        (http 400 "Registry source snapshot must not repeat manifest node_id values")
    require_valid_manifest_update outside now
        (record { manifest = item.manifest; root_rotation = none }) none
    issued_at ← parse_timestamp outside now item.manifest.issued_at "manifests[].manifest.issued_at"
    require_not_too_far_in_future outside now item.stored_at "manifests[].stored_at"
    require (leb issued_at item.stored_at)
        (http 400 "Registry source manifests stored_at cannot be earlier than manifest.issued_at")
    require (leb item.stored_at exported_at)
        (http 400 "Registry source manifests stored_at cannot be later than exported_at")
    require (leb issued_at exported_at)
        (http 400 "Registry source manifests issued_at cannot be later than exported_at")
    require_source_manifests (item.manifest.node_id ∷ seen) items

  -- The signature of the announcement, or of the announcement before the node opened or closed by
  -- a later heartbeat.
  unfoldable pub announcement_verdict : RegistrySourceNode → ℕ → Result HttpException Bool
  announcement_verdict item signed_at =
      let check = λ (node : Node).
        outside.verify_payload (node_payload node) (text_or_empty item.node.node_public_key)
          (text_or_empty item.node.signature) in
      elim (check item.node) [
        | valid ↦ ok true
        | malformed text ↦ raised 400 text
        | invalid ↦
            if elim item.last_signed_event_at [ none ↦ false | some t ↦ ltb signed_at t ]
            then elim (check (flipped item.node)) [
              | valid ↦ ok true
              | invalid ↦ ok false
              | malformed text ↦ raised 400 text
            ]
            else ok false
      ]

  unfoldable pub entry_is_active : Option NodeManifestKey → Result HttpException Bool
  unfolding manifest_key_is_currently_active
  entry_is_active none = ok false
  entry_is_active (some entry) = manifest_key_is_currently_active outside now entry

  -- Without `signed_at`, or without a signature, the source raises AttributeError.
  unfoldable pub node_signed_at : Option String → Result HttpException ℕ
  unfolding parse_timestamp
  node_signed_at none = raised 500 "Internal Server Error"
  node_signed_at (some signed_at) = parse_timestamp outside now signed_at "nodes[].node.signed_at"

  abbrev node_record_key : Node → RecordKey
  node_record_key node = record {
    node_id = node.node_id;
    node_public_key = text_or_empty node.node_public_key;
  }

  unfoldable pub require_visible_node :
      List NodeIdentityRecord → RegistrySourceNode → NodeManifest → Checked
  unfolding manifest_key_for_node entry_is_active announcement_verdict node_signed_at
  require_visible_node records item manifest = do
    entry ← manifest_key_for_node outside now manifest item.node
    visible ← entry_is_active entry
    require visible (http 400 "Registry source signed nodes must be current-manifest-visible")
    require (any (has_key (node_record_key item.node)) records)
        (http 400 "Registry source signed nodes must have matching identity_records")
    signed_at ← node_signed_at item.node.signed_at
    require (is_some item.node.signature) (http 500 "Internal Server Error")
    verified ← announcement_verdict item signed_at
    require verified (
        http 400
          "Registry source signed nodes must carry a valid current announcement signature or later signed open-state drift")

  unfoldable pub require_protected_node :
      List NodeIdentityRecord → RegistrySourceNode → Option NodeManifest → Checked
  unfolding require_visible_node
  require_protected_node records item none =
      require (not (truthy item.node.node_public_key))
        (http 400 "Registry source signed nodes must have a current manifest")
  require_protected_node records item (some manifest) = do
    require (has_node_signature_fields item.node)
        (http 400 "Registry source manifest-protected nodes must be signed")
    if not (truthy item.node.node_public_key)
        then ok tt
        else require_visible_node records item manifest

  unfoldable pub require_protected_nodes :
      Dict NodeManifest → List NodeIdentityRecord → List RegistrySourceNode → Checked
  unfolding require_protected_node
  require_protected_nodes manifests records [] = ok tt
  require_protected_nodes manifests records (item ∷ items) = do
    require_protected_node records item (lookup item.node.node_id manifests)
    require_protected_nodes manifests records items

abbrev pub manifests_by_node_id : List RegistrySourceManifest → Dict NodeManifest
manifests_by_node_id [] = []
manifests_by_node_id (item ∷ items) =
    (item.manifest.node_id, item.manifest) ∷ manifests_by_node_id items

module _ (outside : Outside) (now : ℕ) where
  unfoldable pub require_identity_log : RegistrySourceSnapshot → Checked
  unfolding require_unique_records require_records require_recorded
  require_identity_log payload = do
    require_unique_records [] payload.identity_records
    require_records (manifests_by_node_id payload.manifests) payload.identity_events
        payload.identity_records
    require_recorded payload.identity_records payload.identity_events

  unfoldable pub require_event_order : RegistrySourceSnapshot → Checked
  unfolding require_events require_contiguous require_latest
  require_event_order payload = do
    require_events outside now payload.exported_at [] 0 none payload.identity_events
    require_contiguous 1 payload.identity_events
    require_latest payload.latest_identity_event_id payload.identity_events

  -- Whether the source is signed by its registry; only a loopback registry may leave that out.
  unfoldable pub require_source_signature :
      RegistrySourceResponse → Option String → Option String → Result HttpException Bool
  unfolding require_verdict
  require_source_signature payload (some public_key) (some signature) = do
    require_verdict "Invalid registry source signature"
        (outside.verify_payload (source_payload payload) public_key signature)
    ok true
  require_source_signature payload none none =
      if is_loopback_url outside payload.snapshot.registry_url
      then ok false
      else raised 403 "Public registry source import requires registry signature"
  require_source_signature payload _ _ =
      raised 400 "registry_public_key and signature must either both be present or both be absent"

  unfoldable pub require_valid_registry_source_snapshot :
      RegistrySourceResponse → Result HttpException Bool
  unfolding require_not_too_far_in_future require_source_nodes require_source_manifests
      require_identity_log require_protected_nodes require_event_order require_source_signature
  require_valid_registry_source_snapshot payload = do
    require (payload.snapshot.registry_version == "0.1") (http 400 "Unsupported registry_version")
    require_not_too_far_in_future outside now payload.snapshot.exported_at "exported_at"
    require_source_nodes outside now payload.snapshot.exported_at [] payload.snapshot.nodes
    require_source_manifests outside now payload.snapshot.exported_at [] payload.snapshot.manifests
    require_identity_log payload.snapshot
    require_protected_nodes outside now payload.snapshot.exported_at
        (manifests_by_node_id payload.snapshot.manifests) payload.snapshot.identity_records
        payload.snapshot.nodes
    require_event_order payload.snapshot
    require_source_signature payload payload.snapshot.registry_public_key payload.snapshot.signature
