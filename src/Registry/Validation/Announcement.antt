-- ===== src/Registry/Validation/Announcement.antt =====
-- The checks of announcements and heartbeats of registry/validation.py.
use p4p.Prelude.{
  ℕ, String, ◌==◌, Bool, true, false, not, ◌&&◌, ◌||◌, Option, none, some, if◌then◌else◌,
}
use p4p.Prelude.Result.{ok, require, ◌>>=◌, ◌>>◌}
use p4p.Registry.Node.{Node, NodeDelegation, NodeManifestKey, HeartbeatRequest}
use p4p.Registry.Store.{
  Outside, http, raised, Checked, delegation_payload, heartbeat_payload, StoredNode, StoredManifest,
  truthy, text_or_empty,
}
use p4p.Registry.Validation.{
  has_node_signature_fields, parse_timestamp, require_verdict, require_monotonic_signed_event,
  require_valid_node_signature, require_manifest_key_state, manifest_key_for_node,
  require_active_delegation,
}

abbrev pub is_some {ℓ} : {A : Type ℓ} → Option A → Bool
is_some none = false
is_some (some a) = true

-- `existing and existing.node.delegation`
abbrev delegation_of : Option StoredNode → Option NodeDelegation
delegation_of none = none
delegation_of (some stored) = stored.node.delegation

abbrev same_root : NodeDelegation → Option NodeDelegation → Bool
same_root delegation none = true
same_root delegation (some d) = delegation.root_public_key == d.root_public_key

module _ (outside : Outside) (now : ℕ) where
  -- The entry of the manifest that the delegation names, in a state that allows the action.
  unfoldable pub require_entry : Option NodeManifestKey → String → String → Checked
  unfolding require_manifest_key_state
  require_entry none detail capability = raised 403 detail
  require_entry (some entry) detail capability =
      require_manifest_key_state outside now entry "manifest.keys[].expires_at" capability

  unfoldable pub require_valid_delegation :
      Node → NodeDelegation → Option StoredNode → Option StoredManifest → String → Checked
  unfolding require_active_delegation require_verdict manifest_key_for_node require_entry
  require_valid_delegation node delegation existing stored_manifest capability = do
    require (truthy node.node_public_key)
        (http 400 "Delegated announcements require node_public_key")
    require_active_delegation outside now delegation "delegation.issued_at" capability
    require_verdict "Invalid node delegation signature" (
        outside.verify_payload (delegation_payload node) delegation.root_public_key
          delegation.signature)
    elim stored_manifest [
      | none ↦
          require (same_root delegation (delegation_of existing))
            (http 403 "root_public_key does not match existing delegated node identity")
      | some stored ↦ do
        entry ← manifest_key_for_node outside now stored.manifest node
        require_entry entry "node announcement does not match current node manifest" capability
    ]

  unfoldable pub require_valid_node_delegation :
      Node → Option NodeDelegation → Option StoredNode → Option StoredManifest → String → Checked
  unfolding require_valid_delegation
  require_valid_node_delegation node none existing stored_manifest capability = do
    require (not (is_some stored_manifest))
        (http 403 "This node_id is protected by a root manifest")
    require (not (is_some (delegation_of existing)))
        (http 403 "This node_id is protected by a root delegation")
  require_valid_node_delegation node (some delegation) existing stored_manifest capability =
      require_valid_delegation node delegation existing stored_manifest capability

  -- The checks of a signed or delegated announcement.
  unfoldable pub require_signed_announcement :
      Node → Option StoredNode → Option StoredManifest → Checked
  unfolding require_valid_node_signature parse_timestamp require_monotonic_signed_event
      require_valid_node_delegation
  require_signed_announcement node existing stored_manifest = do
    require_valid_node_signature outside now node
    signed_at ← parse_timestamp outside now (text_or_empty node.signed_at) "signed_at"
    require_monotonic_signed_event outside now signed_at existing "signed_at"
    require_valid_node_delegation node node.delegation existing stored_manifest "announce"

  unfoldable pub require_signed_if :
      Bool → Node → Option StoredNode → Option StoredManifest → Checked
  unfolding require_signed_announcement
  require_signed_if test node existing stored_manifest =
      if test then require_signed_announcement node existing stored_manifest else ok tt

  unfoldable pub require_key : Node → Node → Checked
  require_key node existing = do
    require (truthy node.node_public_key && truthy node.signature)
        (http 403 "This node_id is protected by a signing key")
    require (text_or_empty node.node_public_key == text_or_empty existing.node_public_key)
        (http 403 "node_public_key does not match existing node identity")

  -- A key that signed for this node before has to sign again.
  unfoldable pub require_same_key : Node → Option StoredNode → Checked
  unfolding require_key
  require_same_key node none = ok tt
  require_same_key node (some existing) =
      if not (truthy existing.node.node_public_key) then ok tt else require_key node existing.node

  unfoldable pub require_allowed_announcement_update :
      Node → Option StoredNode → Option StoredManifest → Checked
  unfolding require_signed_if require_same_key
  require_allowed_announcement_update node existing stored_manifest = do
    let signed = has_node_signature_fields node
    let delegated = is_some node.delegation
    require (not (is_some stored_manifest && not signed && not delegated))
        (http 403 "This node_id is protected by a current node manifest")
    require (not (delegated && not signed))
        (http 400 "Delegated announcements require node_public_key, signed_at, and signature")
    require_signed_if (signed || delegated) node existing stored_manifest
    require_same_key node existing

  unfoldable pub require_heartbeat_manifest : Node → Option StoredManifest → Checked
  unfolding manifest_key_for_node require_entry
  require_heartbeat_manifest node none = ok tt
  require_heartbeat_manifest node (some stored) = do
    entry ← manifest_key_for_node outside now stored.manifest node
    require_entry entry "Stored node announcement no longer matches current node manifest"
        "heartbeat"

  unfoldable pub require_heartbeat_delegation : Option NodeDelegation → Checked
  unfolding require_active_delegation
  require_heartbeat_delegation none = ok tt
  require_heartbeat_delegation (some delegation) =
      require_active_delegation outside now delegation "delegation.issued_at" "heartbeat"

  unfoldable pub require_signed_heartbeat :
      HeartbeatRequest → StoredNode → Option StoredManifest → Checked
  unfolding require_verdict parse_timestamp require_monotonic_signed_event
      require_heartbeat_delegation require_heartbeat_manifest
  require_signed_heartbeat payload stored stored_manifest = do
    require (truthy payload.signed_at && truthy payload.signature)
        (http 403 "Signed nodes require signed heartbeat updates")
    require_verdict "Invalid heartbeat signature" (
        outside.verify_payload (heartbeat_payload payload)
          (text_or_empty stored.node.node_public_key) (text_or_empty payload.signature))
    signed_at ← parse_timestamp outside now (text_or_empty payload.signed_at) "signed_at"
    require_monotonic_signed_event outside now signed_at (some stored) "signed_at"
    require_heartbeat_delegation stored.node.delegation
    require_heartbeat_manifest stored.node stored_manifest

  unfoldable pub require_valid_heartbeat_signature :
      HeartbeatRequest → StoredNode → Option StoredManifest → Checked
  unfolding require_signed_heartbeat
  require_valid_heartbeat_signature payload stored stored_manifest = do
    require (not (is_some stored_manifest && not (truthy stored.node.node_public_key)))
        (http 403 "Current node manifest requires signed heartbeat updates")
    if not (truthy stored.node.node_public_key)
        then ok tt
        else require_signed_heartbeat payload stored stored_manifest
