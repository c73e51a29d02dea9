-- ===== src/Registry/Recording.antt =====
-- The records and the events of signed announcements, and their statuses under a manifest:
-- `_record_signed_identity` and `_apply_manifest_status` of registry/store.py.
use p4p.Prelude.{
  ℕ, ◌+◌, String, ◌==◌, Bool, true, false, not, ◌&&◌, ◌||◌, Option, none, some, List, [], ◌∷◌, ◌++◌,
  length, if◌then◌else◌,
}
use p4p.Registry.Node.{Node, NodeManifest, NodeManifestKey, ManifestKeyStatus}
use p4p.Registry.Identity.{
  NodeIdentityEvent, NodeIdentityRecord, IdentityScope, loopback, public, IdentityStatus, active,
  revoked, rotated, RecordKey, find_record, change_record,
}
use p4p.Registry.Store.{Outside, StoredManifest, RegistryStore, text_or_empty}
use p4p.Registry.Validation.{find_key, is_active_status, is_signed}

abbrev pub is_loopback_host : String → Bool
is_loopback_host host = host == "127.0.0.1" || host == "localhost"

unfoldable pub identity_scope : Outside → String → IdentityScope
identity_scope outside endpoint =
    if (outside.urlsplit endpoint).scheme == "http"
      && is_loopback_host (outside.urlsplit endpoint).host
    then loopback
    else public

module _ (outside : Outside) (now : ℕ) where
  abbrev pub node_key : Node → RecordKey
  node_key node = record {
    node_id = node.node_id;
    node_public_key = text_or_empty node.node_public_key;
  }

  abbrev pub first_record : Node → NodeIdentityRecord
  first_record node = record {
    node_id = node.node_id;
    node_public_key = text_or_empty node.node_public_key;
    first_seen = now;
    last_seen = now;
    status = active;
    scope = identity_scope outside node.endpoint;
    event_count = 1;
  }

  abbrev pub seen_again : Node → NodeIdentityRecord → NodeIdentityRecord
  seen_again node r = record r {
    last_seen = now;
    scope = identity_scope outside node.endpoint;
    event_count = r.event_count + 1;
  }

  abbrev pub recorded_status : Option NodeIdentityRecord → IdentityStatus
  recorded_status none = active
  recorded_status (some r) = r.status

  abbrev pub recorded :
      Node → Option NodeIdentityRecord → List NodeIdentityRecord → List NodeIdentityRecord
  recorded node none rs = rs ++ first_record node ∷ []
  recorded node (some r) rs = change_record (node_key node) (seen_again node) rs

  abbrev pub identity_event : Node → ℕ → IdentityStatus → NodeIdentityEvent
  identity_event node event_id status = record {
    event_id = event_id;
    node_id = node.node_id;
    node_public_key = text_or_empty node.node_public_key;
    signed_at = text_or_empty node.signed_at;
    announcement_signature = text_or_empty node.signature;
    announcement_hash = outside.announcement_hash node;
    status = status;
    scope = identity_scope outside node.endpoint;
    recorded_at = now;
  }

  unfoldable pub record_signed_identity : Node → RegistryStore → RegistryStore
  record_signed_identity node s =
      if not (is_signed node)
      then s
      else let found = find_record (node_key node) s.identity_records in
        record s {
          identity_records = recorded node found s.identity_records;
          identity_events =
              s.identity_events
              ++ identity_event node (length s.identity_events + 1) (recorded_status found) ∷ [];
        }

  -- The status of the record of a key that an earlier manifest has and the current one has not.
  abbrev pub dropped_status : NodeManifest → NodeManifest → IdentityStatus
  dropped_status previous manifest =
      if not (previous.root_public_key == manifest.root_public_key) then rotated else revoked

  abbrev pub with_identity_status : IdentityStatus → NodeIdentityRecord → NodeIdentityRecord
  with_identity_status status r = record r { status = status }

  abbrev pub key_of : NodeManifest → String → RecordKey
  key_of manifest key = record { node_id = manifest.node_id; node_public_key = key }

  abbrev pub in_manifest : NodeManifest → String → Bool
  in_manifest manifest key = elim (find_key key manifest.keys) [ none ↦ false | some e ↦ true ]

  unfoldable pub drop_keys :
      NodeManifest
      → NodeManifest
      → List NodeManifestKey
      → List NodeIdentityRecord
      → List NodeIdentityRecord
  drop_keys manifest previous [] rs = rs
  drop_keys manifest previous (entry ∷ entries) rs = drop_keys manifest previous entries (
      if in_manifest manifest entry.node_public_key
      then rs
      else change_record (key_of manifest entry.node_public_key)
          (with_identity_status (dropped_status previous manifest)) rs)

  abbrev pub key_status : ManifestKeyStatus → IdentityStatus
  key_status status = if is_active_status status then active else revoked

  unfoldable pub set_key_statuses :
      NodeManifest → List NodeManifestKey → List NodeIdentityRecord → List NodeIdentityRecord
  set_key_statuses manifest [] rs = rs
  set_key_statuses manifest (entry ∷ entries) rs = set_key_statuses manifest entries (
      change_record (key_of manifest entry.node_public_key)
        (with_identity_status (key_status entry.status)) rs)

  unfoldable pub apply_manifest_status :
      NodeManifest → Option StoredManifest → List NodeIdentityRecord → List NodeIdentityRecord
  unfolding drop_keys set_key_statuses
  apply_manifest_status manifest none rs = set_key_statuses manifest manifest.keys rs
  apply_manifest_status manifest (some existing) rs =
      set_key_statuses manifest manifest.keys
        (drop_keys manifest existing.manifest existing.manifest.keys rs)
