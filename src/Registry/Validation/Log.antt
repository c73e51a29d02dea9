-- ===== src/Registry/Validation/Log.antt =====
-- The identity log of an imported source: the parts of `require_valid_registry_source_snapshot`
-- that are about its records and events. A dict that a loop over the events fills is read at one
-- key at a time.
use p4p.Prelude.{
  ℕ, ◌+◌, ◌==◌, Bool, true, false, not, ◌&&◌, Option, none, some, List, [], ◌∷◌, any, last?, ltb,
  leb, nat_eq, if◌then◌else◌,
}
use p4p.Prelude.Dict.{Dict, lookup}
use p4p.Prelude.Result.{ok, require, ◌>>=◌, ◌>>◌}
use p4p.Registry.Node.{NodeManifest, NodeManifestKey}
use p4p.Registry.Identity.{
  NodeIdentityEvent, NodeIdentityRecord, IdentityScope, loopback, public, IdentityStatus, active,
  revoked, RecordKey, record_key, event_key, same_record_key,
}
use p4p.Registry.Store.{Outside, http, Checked}
use p4p.Registry.Validation.{
  parse_timestamp, require_not_too_far_in_future, find_key, is_active_status,
}

abbrev pub has_key : RecordKey → NodeIdentityRecord → Bool
has_key k r = same_record_key (record_key r) k

-- seen_identity_record_keys
unfoldable pub require_unique_records : List NodeIdentityRecord → List NodeIdentityRecord → Checked
require_unique_records seen [] = ok tt
require_unique_records seen (r ∷ rs) = do
  require (not (any (has_key (record_key r)) seen))
      (http 400 "Registry source snapshot must not repeat identity record keys")
  require_unique_records (r ∷ seen) rs

-- The entries at one key of identity_event_counts, identity_first_seen, identity_last_seen and
-- identity_last_scope.
pub record KeyHistory : Type 0 where
  pub count : ℕ
  pub first_seen : Option ℕ
  pub last_seen : Option ℕ
  pub scope : Option IdentityScope

abbrev pub no_history : KeyHistory
no_history = record { count = 0; first_seen = none; last_seen = none; scope = none }

abbrev pub min_or : ℕ → Option ℕ → ℕ
min_or t none = t
min_or t (some u) = if ltb u t then u else t

abbrev pub max_or : ℕ → Option ℕ → ℕ
max_or t none = t
max_or t (some u) = if ltb t u then u else t

abbrev pub add_event : NodeIdentityEvent → KeyHistory → KeyHistory
add_event e h = record {
  count = h.count + 1;
  first_seen = some (min_or e.recorded_at h.first_seen);
  last_seen = some (max_or e.recorded_at h.last_seen);
  scope = some e.scope;
}

unfoldable pub history_from : RecordKey → KeyHistory → List NodeIdentityEvent → KeyHistory
history_from k h [] = h
history_from k h (e ∷ es) =
    history_from k (if same_record_key (event_key e) k then add_event e h else h) es

abbrev pub history : RecordKey → List NodeIdentityEvent → KeyHistory
history k es = history_from k no_history es

abbrev pub is_time : ℕ → Option ℕ → Bool
is_time t none = false
is_time t (some u) = nat_eq t u

abbrev pub is_scope : IdentityScope → Option IdentityScope → Bool
is_scope loopback (some loopback) = true
is_scope public (some public) = true
is_scope _ _ = false

unfoldable pub require_record_history : NodeIdentityRecord → KeyHistory → Checked
require_record_history r h = do
  require (nat_eq r.event_count h.count)
      (http 400 "Registry source identity_records event_count must match identity_events")
  require (is_time r.first_seen h.first_seen)
      (http 400 "Registry source identity_records first_seen must match identity_events")
  require (is_time r.last_seen h.last_seen)
      (http 400 "Registry source identity_records last_seen must match identity_events")
  require (is_scope r.scope h.scope)
      (http 400 "Registry source identity_records scope must match the latest identity event")

abbrev pub is_active_identity : IdentityStatus → Bool
is_active_identity active = true
is_active_identity _ = false

abbrev pub is_revoked : IdentityStatus → Bool
is_revoked revoked = true
is_revoked _ = false

-- The status that the manifest's entry gives, or no active one without an entry.
unfoldable pub require_entry_status : NodeIdentityRecord → Option NodeManifestKey → Checked
require_entry_status r (some entry) =
    require
      (if is_active_status entry.status then is_active_identity r.status else is_revoked r.status)
      (http 400 "Registry source identity_records status must match current manifest key status")
require_entry_status r none =
    require (not (is_active_identity r.status))
      (http 400 "Registry source identity_records active status requires a current manifest key")

unfoldable pub require_record_status : NodeIdentityRecord → Option NodeManifest → Checked
unfolding require_entry_status
require_record_status r none = ok tt
require_record_status r (some manifest) =
    require_entry_status r (find_key r.node_public_key manifest.keys)

unfoldable pub require_records :
    Dict NodeManifest → List NodeIdentityEvent → List NodeIdentityRecord → Checked
require_records manifests events [] = ok tt
require_records manifests events (r ∷ rs) = do
  require_record_history r (history (record_key r) events)
  require_record_status r (lookup r.node_id manifests)
  require_records manifests events rs

unfoldable pub require_recorded : List NodeIdentityRecord → List NodeIdentityEvent → Checked
require_recorded records [] = ok tt
require_recorded records (e ∷ es) = do
  require (any (has_key (event_key e)) records)
      (http 400 "Registry source identity_events must have matching identity_records")
  require_recorded records es

-- The same signed event: seen_identity_event_fingerprints
abbrev pub same_fingerprint : NodeIdentityEvent → NodeIdentityEvent → Bool
same_fingerprint d e =
    d.node_id == e.node_id
    && d.node_public_key == e.node_public_key
    && d.signed_at == e.signed_at
    && d.announcement_signature == e.announcement_signature
    && d.announcement_hash == e.announcement_hash

abbrev pub is_before : ℕ → Option ℕ → Bool
is_before t none = false
is_before t (some previous) = ltb t previous

module _ (outside : Outside) (now exported_at : ℕ) where
  -- The loop over the events, with those before, the previous event_id and recorded_at.
  unfoldable pub require_events :
      List NodeIdentityEvent → ℕ → Option ℕ → List NodeIdentityEvent → Checked
  require_events seen previous_id previous_at [] = ok tt
  require_events seen previous_id previous_at (e ∷ es) = do
    signed_at ← parse_timestamp outside now e.signed_at "identity_events[].signed_at"
    require (not (any (same_fingerprint e) seen))
        (http 400 "Registry source identity_events must not repeat the same signed event")
    require_not_too_far_in_future outside now e.recorded_at "identity_events[].recorded_at"
    require (leb e.recorded_at exported_at)
        (http 400 "Registry source identity_events recorded_at cannot be later than exported_at")
    require (leb signed_at e.recorded_at)
        (http 400 "Registry source identity_events signed_at cannot be later than recorded_at")
    require (ltb previous_id e.event_id)
        (http 400 "Registry source identity_events must be strictly increasing by event_id")
    require (not (is_before e.recorded_at previous_at))
        (http 400 "Registry source identity_events recorded_at must be nondecreasing by event_id")
    require_events (e ∷ seen) e.event_id (some e.recorded_at) es

unfoldable pub require_contiguous : ℕ → List NodeIdentityEvent → Checked
require_contiguous expected [] = ok tt
require_contiguous expected (e ∷ es) = do
  require (nat_eq e.event_id expected)
      (http 400 "Registry source identity_events must be contiguous by event_id")
  require_contiguous (expected + 1) es

abbrev pub last_id : List NodeIdentityEvent → Option ℕ
last_id es = elim (last? es) [ none ↦ none | some e ↦ some e.event_id ]

abbrev pub same_id : Option ℕ → Option ℕ → Bool
same_id none none = true
same_id (some a) (some b) = nat_eq a b
same_id _ _ = false

-- latest_identity_event_id is that of the last event, or left out without events.
unfoldable pub require_latest : Option ℕ → List NodeIdentityEvent → Checked
require_latest latest [] = require (same_id latest none) (
    http 400
      "Registry source latest_identity_event_id must be omitted when identity_events is empty")
require_latest latest (e ∷ es) =
    require (same_id latest (last_id (e ∷ es)))
      (http 400 "Registry source latest_identity_event_id must match the last identity event_id")
