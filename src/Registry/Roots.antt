-- ===== src/Registry/Roots.antt =====
-- The root keys of node manifests (`require_valid_manifest_update` of registry/validation.py and
-- `node_manifest` of registry/routes.py).
pub mod Run
use mathlib.Core.Path.{subst}
use p4p.Prelude.{
  ℕ, ◌≤◌, ◌<◌, String, ◌==◌, ◌≡◌, refl, ap, sym, ◌∙◌, arith, Bool, true, false, not, Option, none,
  some, List, [], ◌∷◌, Bool-cases, Option-cases, inl, inr, ◌⊎◌, clash, eq_iff, ltb, leb, ltb→lt,
  str_eq_refl, if◌then◌else◌,
}
use p4p.Prelude.Dict.{Dict, lookup, insert, lookup-insert}
use p4p.Prelude.Result.{Result, ok, err, require, ◌>>=◌, ◌>>◌, >>-eq-ok, >>=-eq-ok, require-eq-ok}
use p4p.Registry.Node.{Node, NodeManifest, NodeManifestRequest, NodeRootRotation}
use p4p.Registry.Store.{
  Outside, HttpException, http, Checked, valid, manifest_payload, root_rotation_payload,
  StoredManifest, RegistryStore, RegistryConfig,
}
use p4p.Registry.Validation.{parse_timestamp, require_not_too_far_in_future, require_verdict}
use p4p.Registry.Validation.Allowed.{require_verdict-valid}
use p4p.Registry.Validation.Manifest.{
  require_key_expiries, require_root_rotation, require_root, require_successor,
  require_valid_manifest_update,
}

-- A root key hands over to another, each time by a rotation that the key before signed.
pub data RootChain (outside : Outside) : String → String → Type 0 where
  unchanged : (root : String) → RootChain outside root root
  handed_over :
      {first : String} (rotation : NodeRootRotation)
      → RootChain outside first rotation.previous_root_public_key
      → outside.verify_payload
          (root_rotation_payload rotation)
          rotation.previous_root_public_key
          rotation.signature
        ≡ valid
      → RootChain outside first rotation.next_root_public_key

-- A manifest that its own root key signed, of a version and of a root key that follow on others.
abbrev pub Follows : Outside → String → ℕ → NodeManifest → Type 0
Follows outside root version manifest =
    RootChain outside root manifest.root_public_key
    × ((version ≤ manifest.manifest_version)
        × (outside.verify_payload (manifest_payload manifest) manifest.root_public_key
              manifest.signature
            ≡ valid))

module _ (outside : Outside) (now : ℕ) where
  rotated-RootChain :
      (first : String) (manifest : NodeManifest) (issued_at : ℕ) (current : NodeManifest)
      (current_issued_at : ℕ) (rotation : Option NodeRootRotation)
      → RootChain outside first current.root_public_key
      → require_root_rotation outside now manifest issued_at current current_issued_at rotation
        ≡ ok tt
      → RootChain outside first manifest.root_public_key
  unfolding require_root_rotation
  rotated-RootChain first manifest issued_at current current_issued_at none chain h =
      absurd (ground (arith, h))
  rotated-RootChain first manifest issued_at current current_issued_at (some rotation) chain h =
      let (a, h2) = >>-eq-ok (require (rotation.node_id == manifest.node_id) _) _ h in
      let (previous, h3) =
        >>-eq-ok (require (rotation.previous_root_public_key == current.root_public_key) _) _ h2 in
      let (next, h4) =
        >>-eq-ok (require (rotation.next_root_public_key == manifest.root_public_key) _) _ h3 in
      let (t, (time, h5)) =
        >>=-eq-ok (parse_timestamp outside now rotation.rotated_at "root_rotation.rotated_at") _
          h4 in
      let (b, h6) =
        >>-eq-ok (require_not_too_far_in_future outside now t "root_rotation.rotated_at") _ h5 in
      let (c, h7) = >>-eq-ok (require (ltb current_issued_at t) _) _ h6 in
      let (d, verdict) = >>-eq-ok (require (leb t issued_at) _) _ h7 in
      let same =
        (eq_iff rotation.previous_root_public_key current.root_public_key).0
          (require-eq-ok _ _ previous) in
      subst (RootChain outside first)
        ((eq_iff rotation.next_root_public_key manifest.root_public_key).0 (require-eq-ok _ _ next))
        (handed_over rotation (subst (RootChain outside first) (sym same) chain)
          (require_verdict-valid "Invalid root rotation signature" _ verdict))

  root-RootChain :
      (first : String) (payload : NodeManifestRequest) (issued_at : ℕ) (current : NodeManifest)
      (current_issued_at : ℕ)
      → RootChain outside first current.root_public_key
      → require_root outside now payload issued_at current current_issued_at ≡ ok tt
      → RootChain outside first payload.manifest.root_public_key
  unfolding require_root
  root-RootChain first payload issued_at current current_issued_at chain h =
      elim (Bool-cases (payload.manifest.root_public_key == current.root_public_key)) [
        | inl same ↦
            subst (RootChain outside first)
              (sym ((eq_iff payload.manifest.root_public_key current.root_public_key).0 same)) chain
        | inr other ↦
            let changed : require_root outside now payload issued_at current current_issued_at
                ≡ require_root_rotation outside now payload.manifest issued_at current
                    current_issued_at payload.root_rotation =
              rw other refl in
            rotated-RootChain first payload.manifest issued_at current current_issued_at
              payload.root_rotation chain (sym changed ∙ h)
      ]

  pub update-Follows :
      (root : String) (version : ℕ) (payload : NodeManifestRequest) (existing : StoredManifest)
      → Follows outside root version existing.manifest
      → require_valid_manifest_update outside now payload (some existing) ≡ ok tt
      → Follows outside root version payload.manifest
  unfolding require_valid_manifest_update require_successor
  update-Follows root version payload existing (chain, (newer, signed)) h =
      let (issued_at, (time, h2)) =
        >>=-eq-ok (parse_timestamp outside now payload.manifest.issued_at "manifest.issued_at") _
          h in
      let (a, h3) =
        >>-eq-ok (require_not_too_far_in_future outside now issued_at "manifest.issued_at") _ h2 in
      let (b, h4) =
        >>-eq-ok (require_key_expiries outside now issued_at payload.manifest.keys) _ h3 in
      let (verdict, h5) =
        >>-eq-ok
          (require_verdict "Invalid node manifest signature" (
            outside.verify_payload (manifest_payload payload.manifest)
              payload.manifest.root_public_key payload.manifest.signature))
          _ h4 in
      let (current_issued_at, (time', h6)) =
        >>=-eq-ok
          (parse_timestamp outside now existing.manifest.issued_at "current_manifest.issued_at") _
          h5 in
      let (later, h7) =
        >>-eq-ok
          (require (ltb existing.manifest.manifest_version payload.manifest.manifest_version) _) _
          h6 in
      let (c, root') = >>-eq-ok (require (ltb current_issued_at issued_at) _) _ h7 in
      (
        root-RootChain root payload issued_at existing.manifest current_issued_at chain root',
        (
          omega (
            arith,
            newer,
            ltb→lt existing.manifest.manifest_version payload.manifest.manifest_version
                (require-eq-ok _ _ later),
          ),
          require_verdict-valid "Invalid node manifest signature" _ verdict,
        ),
      )
