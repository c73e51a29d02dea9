-- ===== src/Registry/Runs.antt =====
-- A property of the store that each kind of request keeps is kept by a run of requests.
use p4p.Prelude.{ℕ, ◌≡◌, Option, none, some, List, [], ◌∷◌, Bool-cases, Option-cases, inl, inr}
use p4p.Prelude.Dict.{lookup}
use p4p.Prelude.Result.{ok}
use p4p.Registry.Node.{Node, NodeManifestRequest, HeartbeatRequest}
use p4p.Registry.Store.{
  Outside, read_iso, RegistryConfig, RegistryStore, StoredNode, truthy, text_or_empty,
}
use p4p.Registry.Validation.Announcement.{
  require_allowed_announcement_update, require_valid_heartbeat_signature,
}
use p4p.Registry.Validation.Manifest.{require_valid_manifest_update}
use p4p.Registry.Validation.Allowed.{announce-allowed}
use p4p.Registry.Operations.{
  always, announce, heartbeat, node_manifest, store_node, store_manifest, store_heartbeat,
  beat_known, beat_signed, beaten, put_node, deserialize_datetime,
}
use p4p.Registry.Requests.{checked-keeps}
use p4p.Registry.Log.Run.{NodeRequest, announcement, beat, new_manifest, serve, serve_all}

module _ (outside : Outside) (P : RegistryStore → Type 0) where
  signed-keeps :
      (now : ℕ) (payload : HeartbeatRequest) (stored : StoredNode) (beat_at : Option ℕ)
      (s : RegistryStore)
      → ((changed : StoredNode) → P (put_node outside now payload.node_id changed s))
      → P (beat_signed outside now payload stored beat_at s).1
  signed-keeps now payload stored none s put =
      put (beaten outside now payload stored.last_signed_event_at stored)
  signed-keeps now payload stored (some t) s put = put (beaten outside now payload (some t) stored)

  -- A heartbeat writes one node.
  pub beat-keeps :
      (now : ℕ) (payload : HeartbeatRequest) (stored : StoredNode) (s : RegistryStore)
      → ((changed : StoredNode) → P (put_node outside now payload.node_id changed s))
      → P (store_heartbeat outside now payload stored s).1
  unfolding store_heartbeat
  beat-keeps now payload stored s put = elim (Bool-cases (truthy payload.signed_at)) [
    | inl signed ↦ rw signed (
        signed-keeps now payload stored
          (deserialize_datetime (read_iso outside (text_or_empty payload.signed_at))) s put)
    | inr unsigned ↦
        rw unsigned (put (beaten outside now payload stored.last_signed_event_at stored))
  ]

  pub announce-keeps :
      (now : ℕ) (config : RegistryConfig) (node : Node) (s : RegistryStore)
      → P s
      → (require_allowed_announcement_update outside now node
              (lookup node.node_id s.nodes)
              (lookup node.node_id s.node_manifests)
            ≡ ok tt
          → P (store_node outside now node s).1)
      → P (announce outside now config node s).1
  unfolding announce
  announce-keeps now config node s kept acts =
      checked-keeps P _ (always (store_node outside now node)) s kept
        (λ passed. acts (announce-allowed config node _ passed))

  pub heartbeat-keeps :
      (now : ℕ) (payload : HeartbeatRequest) (s : RegistryStore)
      → P s
      → ((stored : StoredNode)
          → lookup payload.node_id s.nodes ≡ some stored
          → require_valid_heartbeat_signature outside now payload stored
              (lookup payload.node_id s.node_manifests)
            ≡ ok tt
          → P (store_heartbeat outside now payload stored s).1)
      → P (heartbeat outside now payload s).1
  unfolding heartbeat beat_known
  heartbeat-keeps now payload s kept acts = elim (Option-cases (lookup payload.node_id s.nodes)) [
    | inl unknown ↦ rw unknown kept
    | inr (stored, found) ↦ rw found (
        checked-keeps P _ (store_heartbeat outside now payload stored) s kept
          (λ passed. acts stored found passed))
  ]

  pub node_manifest-keeps :
      (now : ℕ) (payload : NodeManifestRequest) (s : RegistryStore)
      → P s
      → (require_valid_manifest_update outside now payload
              (lookup payload.manifest.node_id s.node_manifests)
            ≡ ok tt
          → P (store_manifest outside now payload s).1)
      → P (node_manifest outside now payload s).1
  unfolding node_manifest
  node_manifest-keeps now payload s kept acts =
      checked-keeps P _ (always (store_manifest outside now payload)) s kept acts

  module _ (config : RegistryConfig)
      (announces : (now : ℕ) (node : Node) (s : RegistryStore)
        → P s
        → P (announce outside now config node s).1)
      (beats : (now : ℕ) (payload : HeartbeatRequest) (s : RegistryStore)
        → P s
        → P (heartbeat outside now payload s).1)
      (manifests : (now : ℕ) (payload : NodeManifestRequest) (s : RegistryStore)
        → P s
        → P (node_manifest outside now payload s).1) where
    pub serve_all-keeps :
        (requests : List (ℕ × NodeRequest)) (s : RegistryStore)
        → P s
        → P (serve_all outside config requests s)
    unfolding serve_all serve
    serve_all-keeps [] s kept = kept
    serve_all-keeps ((now, announcement node) ∷ more) s kept =
        serve_all-keeps more (announce outside now config node s).1 (announces now node s kept)
    serve_all-keeps ((now, beat payload) ∷ more) s kept =
        serve_all-keeps more (heartbeat outside now payload s).1 (beats now payload s kept)
    serve_all-keeps ((now, new_manifest payload) ∷ more) s kept =
        serve_all-keeps more (node_manifest outside now payload s).1 (manifests now payload s kept)
