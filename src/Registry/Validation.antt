-- ===== src/Registry/Validation.antt =====
-- registry/validation.py: the checks of signatures, times, delegations and manifests. Each runs at
-- one reading `now` of the clock.
pub mod Manifest
pub mod Announcement
pub mod Log
pub mod Snapshot
pub mod Signature
pub mod Response
pub mod Allowed
pub mod Beats
pub mod Entry
use p4p.Prelude.{
  ℕ, ◌+◌, ◌*◌, String, ◌==◌, concat, Bool, true, false, not, ◌&&◌, ◌||◌, Option, none, some, List,
  [], ◌∷◌, member, subset, ltb, leb, if◌then◌else◌,
}
use p4p.Prelude.Result.{Result, ok, err, require, ◌>>=◌, ◌>>◌}
use p4p.Registry.Node.{
  Node, NodeDelegation, DelegationRole, primary, backup, NodeManifest, NodeManifestKey,
  ManifestKeyStatus, active, revoked,
}
use p4p.Registry.Store.{
  Outside, HttpException, http, raised, Checked, Stamp, not_iso, naive, aware, read_iso, Verdict,
  valid, invalid, malformed, Payload, node_payload, StoredNode, truthy, text_or_empty, second,
}

-- MAX_SIGNED_AT_FUTURE_SKEW_SECONDS
abbrev pub max_skew : ℕ
max_skew = 30 * second

abbrev pub has_node_signature_fields : Node → Bool
has_node_signature_fields node =
    truthy node.node_public_key || truthy node.signed_at || truthy node.signature

abbrev pub is_signed : Node → Bool
is_signed node = truthy node.node_public_key && truthy node.signed_at && truthy node.signature

unfoldable pub stamp_time : String → Stamp → Result HttpException ℕ
stamp_time field_name not_iso =
    raised 400 (concat (field_name ∷ " must be a valid RFC 3339 timestamp" ∷ []))
stamp_time field_name (naive t) =
    raised 400 (concat (field_name ∷ " must include timezone information" ∷ []))
stamp_time field_name (aware t) = ok t

abbrev pub is_active_status : ManifestKeyStatus → Bool
is_active_status active = true
is_active_status revoked = false

abbrev pub same_role : DelegationRole → DelegationRole → Bool
same_role primary primary = true
same_role backup backup = true
same_role _ _ = false

-- The `try` around verify_payload, and the test of its result.
unfoldable pub require_verdict : String → Verdict → Checked
require_verdict detail valid = ok tt
require_verdict detail invalid = raised 400 detail
require_verdict detail (malformed text) = raised 400 text

abbrev pub outlives : Option ℕ → Option ℕ → Bool
outlives (some delegation_expires_at) (some key_expires_at) =
    ltb key_expires_at delegation_expires_at
outlives _ _ = false

abbrev is_key : String → NodeManifestKey → Bool
is_key public_key entry = entry.node_public_key == public_key

abbrev pub find_key : String → List NodeManifestKey → Option NodeManifestKey
find_key public_key [] = none
find_key public_key (entry ∷ entries) =
    if is_key public_key entry then some entry else find_key public_key entries

module _ (outside : Outside) (now : ℕ) where
  unfoldable pub parse_timestamp : String → String → Result HttpException ℕ
  unfolding read_iso stamp_time
  parse_timestamp value field_name = stamp_time field_name (read_iso outside value)

  unfoldable pub require_not_too_far_in_future : ℕ → String → Checked
  require_not_too_far_in_future value field_name =
      require (leb value (now + max_skew))
        (http 400 (concat (field_name ∷ " is too far in the future" ∷ [])))

  -- `signed_at` is not older than the last event, where there is one.
  abbrev pub is_replay : ℕ → Option StoredNode → Bool
  is_replay signed_at none = false
  is_replay signed_at (some stored) = elim stored.last_signed_event_at [
    | none ↦ false
    | some last ↦ leb signed_at last
  ]

  unfoldable pub require_monotonic_signed_event : ℕ → Option StoredNode → String → Checked
  unfolding require_not_too_far_in_future
  require_monotonic_signed_event signed_at stored field_name = do
    require_not_too_far_in_future signed_at field_name
    require (not (is_replay signed_at stored)) (
        http 409 (
          concat (
            field_name ∷ " must be newer than the last accepted signed event for this node_id"
            ∷ [])))

  unfoldable pub require_valid_node_signature : Node → Checked
  unfolding require_verdict
  require_valid_node_signature node = do
    require (is_signed node)
        (http 400 "Signed announcements require node_public_key, signed_at, and signature")
    require_verdict "Invalid node announcement signature" (
        outside.verify_payload (node_payload node) (text_or_empty node.node_public_key)
          (text_or_empty node.signature))

  unfoldable pub manifest_key_expiry : Option String → String → Result HttpException (Option ℕ)
  unfolding parse_timestamp
  manifest_key_expiry none field_name = ok none
  manifest_key_expiry (some value) field_name = do t ← parse_timestamp value field_name; ok (some t)

  abbrev pub is_expired : Option ℕ → Bool
  is_expired none = false
  is_expired (some t) = leb t now

  unfoldable pub require_manifest_key_state : NodeManifestKey → String → String → Checked
  unfolding manifest_key_expiry
  require_manifest_key_state key field_name required_capability = do
    require (is_active_status key.status)
        (http 403 "node_public_key has been revoked in current node manifest")
    require (member required_capability key.capabilities)
        (http 403 (concat ("Current node manifest does not allow " ∷ required_capability ∷ [])))
    expires_at ← manifest_key_expiry key.expires_at field_name
    require (not (is_expired expires_at)) (http 403 "Current node manifest entry has expired")

  unfoldable pub manifest_key_is_currently_active : NodeManifestKey → Result HttpException Bool
  unfolding manifest_key_expiry
  manifest_key_is_currently_active key = if not (is_active_status key.status) then ok false else do
    expires_at ← manifest_key_expiry key.expires_at "manifest.keys[].expires_at"
    ok (not (is_expired expires_at))

  -- The body of the loop at the entry with the key of the node.
  unfoldable pub matching_key :
      NodeDelegation → NodeManifestKey → Result HttpException (Option NodeManifestKey)
  unfolding manifest_key_expiry
  matching_key delegation entry =
      if not (same_role entry.role delegation.role)
      then ok none
      else if not (subset delegation.capabilities entry.capabilities)
      then ok none
      else do
        delegation_expires_at ← manifest_key_expiry delegation.expires_at "delegation.expires_at"
        key_expires_at ← manifest_key_expiry entry.expires_at "manifest.keys[].expires_at"
        ok (if outlives delegation_expires_at key_expires_at then none else some entry)

  unfoldable pub delegated_key :
      NodeManifest → String → Option NodeDelegation → Result HttpException (Option NodeManifestKey)
  unfolding matching_key
  delegated_key manifest public_key none = ok none
  delegated_key manifest public_key (some delegation) =
      if not (delegation.root_public_key == manifest.root_public_key)
      then ok none
      else elim (find_key public_key manifest.keys) [
        | none ↦ ok none
        | some entry ↦ matching_key delegation entry
      ]

  unfoldable pub manifest_key_for_node :
      NodeManifest → Node → Result HttpException (Option NodeManifestKey)
  unfolding delegated_key
  manifest_key_for_node manifest node =
      if not (truthy node.node_public_key)
      then ok none
      else delegated_key manifest (text_or_empty node.node_public_key) node.delegation

  unfoldable pub require_delegation_expiry : ℕ → Option String → Checked
  unfolding parse_timestamp
  require_delegation_expiry issued_at none = ok tt
  require_delegation_expiry issued_at (some value) = do
    expires_at ← parse_timestamp value "delegation.expires_at"
    require (ltb issued_at expires_at)
        (http 400 "delegation.expires_at must be later than delegation.issued_at")
    require (ltb now expires_at) (http 403 "Delegation has expired")

  unfoldable pub require_active_delegation : NodeDelegation → String → String → Checked
  unfolding parse_timestamp require_not_too_far_in_future require_delegation_expiry
  require_active_delegation delegation field_name required_capability = do
    issued_at ← parse_timestamp delegation.issued_at field_name
    require_not_too_far_in_future issued_at field_name
    require (member required_capability delegation.capabilities)
        (http 403 (concat ("Delegation does not allow " ∷ required_capability ∷ [])))
    require_delegation_expiry issued_at delegation.expires_at
