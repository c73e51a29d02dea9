-- ===== src/Registry/Log/Run.antt =====
-- The identity log over a run of requests.
use p4p.Prelude.{ℕ, ◌≤◌, ◌≡◌, true, some, List, [], ◌∷◌, All}
use p4p.Prelude.Dict.{Dict, lookup}
use p4p.Registry.Node.{Node, NodeManifestRequest, HeartbeatRequest}
use p4p.Registry.Identity.{NodeIdentityEvent}
use p4p.Registry.Store.{Outside, aware, read_iso, StoredNode, RegistryConfig, RegistryStore, truthy}
use p4p.Registry.Operations.{announce, heartbeat, node_manifest}
use p4p.Registry.Log.{IsConsistent, Sequenced, NoRepeat}

pub data NodeRequest : Type 0 where
  announcement : Node → NodeRequest
  beat : HeartbeatRequest → NodeRequest
  new_manifest : NodeManifestRequest → NodeRequest

module _ (outside : Outside) (config : RegistryConfig) where
  unfoldable pub serve : ℕ → NodeRequest → RegistryStore → RegistryStore
  unfolding announce heartbeat node_manifest
  serve now (announcement node) s = (announce outside now config node s).1
  serve now (beat payload) s = (heartbeat outside now payload s).1
  serve now (new_manifest payload) s = (node_manifest outside now payload s).1

  unfoldable pub serve_all : List (ℕ × NodeRequest) → RegistryStore → RegistryStore
  unfolding serve
  serve_all [] s = s
  serve_all ((now, request) ∷ more) s = serve_all more (serve now request s)

-- The node of an event is there, with a key, and its last signed event is not older than the event.
abbrev pub Newest : Outside → Dict StoredNode → NodeIdentityEvent → Type 0
Newest outside nodes e =
    (stored : StoredNode) × ((lookup e.node_id nodes ≡ some stored)
      × ((truthy stored.node.node_public_key ≡ true)
          × ((last : ℕ) × ((stored.last_signed_event_at ≡ some last)
                × ((t : ℕ) × ((read_iso outside e.signed_at ≡ aware t) × (t ≤ last)))))))

pub record IsLogged (outside : Outside) (now : ℕ) (s : RegistryStore) : Type 0 where
  pub consistent : IsConsistent now s.identity_records s.identity_events
  pub ordered : Sequenced 1 0 now s.identity_events
  pub distinct : NoRepeat [] s.identity_events
  pub newest : All (Newest outside s.nodes) s.identity_events
