-- ===== src/Registry/Roots/Run.antt =====
-- The manifests of nodes over a run of requests.
use p4p.Prelude.{ℕ, String, ◌==◌, ◌≡◌, refl, ap, sym, ◌∙◌, some, List, Bool-cases, inl, inr, eq_iff}
use p4p.Prelude.Dict.{Dict, lookup, lookup-insert}
use p4p.Prelude.Result.{ok}
use p4p.Registry.Node.{Node, NodeManifestRequest}
use p4p.Registry.Store.{Outside, StoredManifest, RegistryStore, RegistryConfig}
use p4p.Registry.Validation.Manifest.{require_valid_manifest_update}
use p4p.Registry.Operations.{announce, store_node, store_manifest, announced, put_node}
use p4p.Registry.Runs.{
  beat-keeps, announce-keeps, heartbeat-keeps, node_manifest-keeps, serve_all-keeps,
}
use p4p.Registry.Requests.{manifests-recorded}
use p4p.Registry.Log.Run.{NodeRequest, serve_all}
use p4p.Registry.Roots.{Follows, update-Follows}

-- The node has a manifest that follows on those of `root` and `version`.
abbrev pub HasManifest : Outside → String → String → ℕ → Dict StoredManifest → Type 0
HasManifest outside node_id root version manifests =
    (stored : StoredManifest) × ((lookup node_id manifests ≡ some stored)
      × Follows outside root version stored.manifest)

module _ (outside : Outside) (node_id root : String) (version : ℕ) where
  abbrev Has : RegistryStore → Type 0
  Has s = HasManifest outside node_id root version s.node_manifests

  announce-Has :
      (now : ℕ) (config : RegistryConfig) (node : Node) (s : RegistryStore)
      → Has s
      → Has (announce outside now config node s).1
  unfolding store_node
  announce-Has now config node s has = announce-keeps outside Has now config node s has (λ allowed.
      rw
        (manifests-recorded outside now node (
          put_node outside now node.node_id
            (announced outside now node (lookup node.node_id s.nodes)) s))
        has)

  store_manifest-Has :
      (now : ℕ) (payload : NodeManifestRequest) (s : RegistryStore)
      → Has s
      → require_valid_manifest_update outside now payload
          (lookup payload.manifest.node_id s.node_manifests)
        ≡ ok tt
      → Has (store_manifest outside now payload s).1
  unfolding store_manifest
  store_manifest-Has now payload s (existing, (found, follows)) passed =
      let new : StoredManifest = record { manifest = payload.manifest; stored_at = now } in
      elim (Bool-cases (payload.manifest.node_id == node_id)) [
        | inr other ↦ (
          existing,
          (
            lookup-insert payload.manifest.node_id node_id new s.node_manifests ∙ rw other found,
            follows,
          ),
        )
        | inl own ↦
            let same = (eq_iff payload.manifest.node_id node_id).0 own in
            let found' = ap (λ i. lookup i s.node_manifests) same ∙ found in
            (
              new,
              (
                lookup-insert payload.manifest.node_id node_id new s.node_manifests ∙ rw own refl,
                update-Follows outside now root version payload existing follows
                    (sym (ap (require_valid_manifest_update outside now payload) found') ∙ passed),
              ),
            )
      ]

-- A node that has a manifest signed by its root key has one after any run of requests, of a version
-- that is not lower, signed by its own root key, which is the root key of before or one that the
-- root keys in between have handed over to, each by a rotation that it signed.
pub serve_all-KeepsRoot :
    (outside : Outside) (node_id root : String) (version : ℕ) (config : RegistryConfig)
    (requests : List (ℕ × NodeRequest)) (s : RegistryStore)
    → HasManifest outside node_id root version s.node_manifests
    → HasManifest outside node_id root version (serve_all outside config requests s).node_manifests
serve_all-KeepsRoot outside node_id root version config =
    let Kept : RegistryStore → Type 0 = Has outside node_id root version in
    serve_all-keeps outside Kept config
      (λ now node s has. announce-Has outside node_id root version now config node s has)
      (λ now payload s has.
        heartbeat-keeps outside Kept now payload s has
          (λ stored found passed. beat-keeps outside Kept now payload stored s (λ changed. has)))
      (λ now payload s has.
        node_manifest-keeps outside Kept now payload s has
          (λ passed. store_manifest-Has outside node_id root version now payload s has passed))
