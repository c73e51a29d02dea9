-- ===== src/Registry/Validation/Manifest.antt =====
-- `require_valid_manifest_update` of registry/validation.py.
use p4p.Prelude.{
  ℕ, ◌==◌, Bool, true, false, Option, none, some, List, [], ◌∷◌, ltb, leb, if◌then◌else◌,
}
use p4p.Prelude.Result.{ok, require, ◌>>=◌, ◌>>◌}
use p4p.Registry.Node.{NodeManifest, NodeManifestKey, NodeManifestRequest, NodeRootRotation}
use p4p.Registry.Store.{
  Outside, http, raised, Checked, manifest_payload, root_rotation_payload, StoredManifest,
}
use p4p.Registry.Validation.{
  parse_timestamp, require_not_too_far_in_future, manifest_key_expiry, require_verdict,
}

abbrev is_later : ℕ → Option ℕ → Bool
is_later issued_at none = true
is_later issued_at (some expires_at) = ltb issued_at expires_at

abbrev is_none : Option NodeRootRotation → Bool
is_none none = true
is_none (some rotation) = false

module _ (outside : Outside) (now : ℕ) where
  unfoldable pub require_key_expiries : ℕ → List NodeManifestKey → Checked
  unfolding manifest_key_expiry
  require_key_expiries issued_at [] = ok tt
  require_key_expiries issued_at (entry ∷ entries) = do
    expires_at ← manifest_key_expiry outside now entry.expires_at "manifest.keys[].expires_at"
    require (is_later issued_at expires_at)
        (http 400 "manifest key expires_at must be later than manifest.issued_at")
    require_key_expiries issued_at entries

  -- The proof that the previous root key hands over to the root key of the manifest.
  unfoldable pub require_root_rotation :
      NodeManifest → ℕ → NodeManifest → ℕ → Option NodeRootRotation → Checked
  unfolding parse_timestamp require_not_too_far_in_future require_verdict
  require_root_rotation manifest issued_at current current_issued_at none =
      raised 403 "root_public_key change requires previous-root rotation proof"
  require_root_rotation manifest issued_at current current_issued_at (some rotation) = do
    require (rotation.node_id == manifest.node_id)
        (http 400 "root_rotation.node_id must match manifest.node_id")
    require (rotation.previous_root_public_key == current.root_public_key)
        (http 403 "root_rotation.previous_root_public_key does not match current root")
    require (rotation.next_root_public_key == manifest.root_public_key)
        (http 403 "root_rotation.next_root_public_key does not match manifest root")
    rotated_at ← parse_timestamp outside now rotation.rotated_at "root_rotation.rotated_at"
    require_not_too_far_in_future outside now rotated_at "root_rotation.rotated_at"
    require (ltb current_issued_at rotated_at)
        (http 409 "root_rotation.rotated_at must be newer than the current node manifest")
    require (leb rotated_at issued_at)
        (http 400 "manifest.issued_at must be at or after root_rotation.rotated_at")
    require_verdict "Invalid root rotation signature" (
        outside.verify_payload (root_rotation_payload rotation) rotation.previous_root_public_key
          rotation.signature)

  unfoldable pub require_root : NodeManifestRequest → ℕ → NodeManifest → ℕ → Checked
  unfolding require_root_rotation
  require_root payload issued_at current current_issued_at =
      if payload.manifest.root_public_key == current.root_public_key
      then require (is_none payload.root_rotation)
          (http 400 "root_rotation is only allowed when root_public_key changes")
      else require_root_rotation payload.manifest issued_at current current_issued_at
          payload.root_rotation

  unfoldable pub require_successor : NodeManifestRequest → ℕ → Option StoredManifest → Checked
  unfolding parse_timestamp require_root
  require_successor payload issued_at none =
      require (is_none payload.root_rotation)
        (http 400 "root_rotation requires an existing node manifest")
  require_successor payload issued_at (some existing) = do
    let manifest = payload.manifest
    let current = existing.manifest
    current_issued_at ← parse_timestamp outside now current.issued_at "current_manifest.issued_at"
    require (ltb current.manifest_version manifest.manifest_version)
        (http 409 "manifest.manifest_version must be newer than the current node manifest")
    require (ltb current_issued_at issued_at)
        (http 409 "manifest.issued_at must be newer than the current node manifest")
    require_root payload issued_at current current_issued_at

  unfoldable pub require_valid_manifest_update :
      NodeManifestRequest → Option StoredManifest → Checked
  unfolding parse_timestamp require_not_too_far_in_future require_key_expiries require_verdict
      require_successor
  require_valid_manifest_update payload existing = do
    let manifest = payload.manifest
    issued_at ← parse_timestamp outside now manifest.issued_at "manifest.issued_at"
    require_not_too_far_in_future outside now issued_at "manifest.issued_at"
    require_key_expiries issued_at manifest.keys
    require_verdict "Invalid node manifest signature" (
        outside.verify_payload (manifest_payload manifest) manifest.root_public_key
          manifest.signature)
    require_successor payload issued_at existing
