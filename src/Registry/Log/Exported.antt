-- ===== src/Registry/Log/Exported.antt =====
-- What a registry exports of its identity log after a run of requests, and what an importer checks
-- of it.
use p4p.Prelude.{
  ℕ, ◌≤◌, String, ◌==◌, ◌≡◌, refl, ap, ◌∙◌, arith, true, none, some, List, [], ◌∷◌, any, All,
  All-map, Bool-cases, inl, inr, eq_iff, if◌then◌else◌,
}
use p4p.Prelude.Dict.{Dict, lookup}
use p4p.Prelude.Sorted.{sorted_by, insert_by, All-sorted_by, count-sorted_by, any-sorted_by}
use p4p.Prelude.Result.{ok}
use p4p.Registry.Identity.{NodeIdentityEvent, NodeIdentityRecord, record_key, event_key}
use p4p.Registry.Source.{RegistrySourceNode}
use p4p.Registry.Store.{Outside, StoredManifest, RegistryStore, RegistryConfig}
use p4p.Registry.Export.{source_snapshot, source_manifests, entry_before, record_before}
use p4p.Registry.Validation.Log.{has_key, history, require_record_status}
use p4p.Registry.Validation.Snapshot.{
  manifests_by_node_id, require_identity_log, require_event_order,
}
use p4p.Registry.Log.{Agrees, IsConsistent}
use p4p.Registry.Log.Run.{NodeRequest, announcement, beat, new_manifest, serve, serve_all, IsLogged}
use p4p.Registry.Log.Accepted.{StatusesAgree, event_order-ok, identity_log-ok}
use p4p.Registry.Log.Settled.{Settles, current_manifest, manifest_of}
use p4p.Registry.Log.Recorded.{IsSettled, IsKeyed}
use p4p.Registry.Log.Served.{
  SignedByNow, FitsManifest, announce-IsSettled, heartbeat-IsSettled, node_manifest-IsSettled,
}
use p4p.Registry.Log.Newest.{IsLogged-later}
use p4p.Registry.Log.Kept.{serve-IsLogged}

lookup-insert_by :
    (k j : String) (v : StoredManifest) (d : Dict StoredManifest)
    → lookup j d ≡ none
    → lookup k (insert_by entry_before (j, v) d) ≡ (if j == k then some v else lookup k d)
lookup-insert_by k j v [] h = refl
lookup-insert_by k j v ((i, w) ∷ d) h =
    ground (arith, h, eq_iff i k, eq_iff j k, eq_iff i j, lookup-insert_by k j v d)

lookup-sorted_by :
    (k : String) (d : Dict StoredManifest)
    → IsKeyed d
    → lookup k (sorted_by entry_before d) ≡ lookup k d
lookup-sorted_by k [] h = refl
lookup-sorted_by k ((j, v) ∷ d) (same, (once, h)) =
    lookup-insert_by k j v (sorted_by entry_before d) (lookup-sorted_by j d h ∙ once)
    ∙ ground (arith, lookup-sorted_by k d h)

abbrev KeyIsNode : String × StoredManifest → Type 0
KeyIsNode (k, stored) = stored.manifest.node_id ≡ k

keys_are_nodes : (d : Dict StoredManifest) → IsKeyed d → All KeyIsNode d
keys_are_nodes [] h = tt
keys_are_nodes ((k, stored) ∷ d) (same, (once, h)) = (same, keys_are_nodes d h)

lookup-manifests :
    (k : String) (d : Dict StoredManifest)
    → All KeyIsNode d
    → lookup k (manifests_by_node_id (source_manifests d)) ≡ manifest_of (lookup k d)
lookup-manifests k [] h = refl
lookup-manifests k ((j, stored) ∷ d) (same, h) = rw same (elim (Bool-cases (j == k)) [
  | inl own ↦ rw own refl
  | inr other ↦ rw other (lookup-manifests k d h)
])

exported_manifest :
    (k : String) (d : Dict StoredManifest)
    → IsKeyed d
    → lookup k (manifests_by_node_id (source_manifests (sorted_by entry_before d)))
      ≡ current_manifest d k
exported_manifest k d h =
    lookup-manifests k (sorted_by entry_before d)
      (All-sorted_by entry_before KeyIsNode d (keys_are_nodes d h))
    ∙ ap manifest_of (lookup-sorted_by k d h)

sorted-IsConsistent :
    (now : ℕ) (rs : List NodeIdentityRecord) (es : List NodeIdentityEvent)
    → IsConsistent now rs es
    → IsConsistent now (sorted_by record_before rs) es
sorted-IsConsistent now rs es c = record {
  agree = All-sorted_by record_before (λ r. Agrees now r (history (record_key r) es)) rs c.agree;
  single = λ k. rw (count-sorted_by record_before (has_key k) rs) (c.single k);
  logged =
      All-map (λ e. any (has_key (event_key e)) rs ≡ true)
        (λ e. any (has_key (event_key e)) (sorted_by record_before rs) ≡ true)
        (λ e logged. any-sorted_by record_before (has_key (event_key e)) rs ∙ logged) es c.logged;
}

sorted-StatusesAgree :
    (d : Dict StoredManifest) (rs : List NodeIdentityRecord)
    → IsKeyed d
    → All (Settles d) rs
    → StatusesAgree
        (manifests_by_node_id (source_manifests (sorted_by entry_before d)))
        (sorted_by record_before rs)
sorted-StatusesAgree d rs h settled =
    let Agreed : NodeIdentityRecord → Type 0 = λ r.
      require_record_status r
        (lookup r.node_id (manifests_by_node_id (source_manifests (sorted_by entry_before d))))
      ≡ ok tt in
    All-sorted_by record_before Agreed rs (
      All-map (Settles d) Agreed
        (λ r settles. ap (require_record_status r) (exported_manifest r.node_id d h) ∙ settles) rs
        settled)

-- The registry of one that has served requests up to a time.
pub record IsServed (outside : Outside) (now : ℕ) (s : RegistryStore) : Type 0 where
  pub logged : IsLogged outside now s
  pub settled : IsSettled outside s

module _ (outside : Outside) (config : RegistryConfig) where
  -- What a request needs for an export after it to be accepted.
  abbrev pub Fits : ℕ → NodeRequest → RegistryStore → Type 0
  Fits now (announcement node) s = SignedByNow outside now node
  Fits now (beat payload) s = Unit
  Fits now (new_manifest payload) s = FitsManifest outside now s payload

  -- The requests come one after another, from `before` to `last`, and fit.
  abbrev pub InOrder : ℕ → ℕ → List (ℕ × NodeRequest) → RegistryStore → Type 0
  unfolding serve
  InOrder before last [] s = before ≤ last
  InOrder before last ((now, request) ∷ more) s =
      (before ≤ now)
      × (Fits now request s × InOrder now last more (serve outside config now request s))

  serve-IsSettled :
      (now : ℕ) (request : NodeRequest) (s : RegistryStore)
      → Fits now request s
      → IsSettled outside s
      → IsSettled outside (serve outside config now request s)
  unfolding serve
  serve-IsSettled now (announcement node) s fits l =
      announce-IsSettled outside now s l config node fits
  serve-IsSettled now (beat payload) s fits l = heartbeat-IsSettled outside now s l payload
  serve-IsSettled now (new_manifest payload) s fits l =
      node_manifest-IsSettled outside now s l payload fits

  pub serve_all-IsServed :
      (before last : ℕ) (requests : List (ℕ × NodeRequest)) (s : RegistryStore)
      → InOrder before last requests s
      → IsServed outside before s
      → IsServed outside last (serve_all outside config requests s)
  unfolding serve_all
  serve_all-IsServed before last [] s order l = record {
    logged = IsLogged-later outside before last s order l.logged;
    settled = l.settled;
  }
  serve_all-IsServed before last ((now, request) ∷ more) s (later, (fits, order)) l =
      serve_all-IsServed now last more (serve outside config now request s) order record {
        logged = serve-IsLogged outside before now later s l.logged config request;
        settled = serve-IsSettled now request s fits l.settled;
      }

-- RegistryStore.__init__
abbrev pub empty_registry : RegistryStore
empty_registry = record {
  nodes = [];
  node_manifests = [];
  identity_events = [];
  identity_records = [];
  mirror_sources = [];
  curated_active_index = [];
  curated_promotion_records = [];
  curated_overrides = [];
  directory_claims = [];
  trust_claims = [];
}

empty-IsServed : (outside : Outside) → IsServed outside 0 empty_registry
empty-IsServed outside = record {
  logged = record {
    consistent = record { agree = tt; single = λ k. omega arith; logged = tt };
    ordered = omega arith;
    distinct = tt;
    newest = tt;
  };
  settled = record { in_time = tt; settled = tt; keyed = tt };
}

-- The identity log that a registry exports after any run of requests, from a registry with nothing in
-- it, passes the checks of an importer, where requests come in the order of their times, no
-- announcement is signed ahead of the registry's clock, manifests have each key once, and the first
-- manifest of a node has the keys that the registry has recorded for the node.
pub exported_log-IsAccepted :
    (outside : Outside) (config : RegistryConfig) (requests : List (ℕ × NodeRequest))
    (last exported_at now : ℕ) (registry_url : String) (nodes : List RegistrySourceNode)
    → InOrder outside config 0 last requests empty_registry
    → last ≤ exported_at
    → exported_at ≤ now
    → (require_identity_log outside now (
          source_snapshot outside exported_at config registry_url
            (serve_all outside config requests empty_registry)
            nodes)
        ≡ ok tt)
      × (require_event_order outside now (
            source_snapshot outside exported_at config registry_url
              (serve_all outside config requests empty_registry)
              nodes)
          ≡ ok tt)
exported_log-IsAccepted outside config requests last exported_at now registry_url nodes order later
      imported =
    let s = serve_all outside config requests empty_registry in
    let served =
      serve_all-IsServed outside config 0 last requests empty_registry order
        (empty-IsServed outside) in
    let snapshot = source_snapshot outside exported_at config registry_url s nodes in
    (
      identity_log-ok outside last now snapshot
          (sorted-IsConsistent last s.identity_records s.identity_events served.logged.consistent)
          (sorted-StatusesAgree s.node_manifests s.identity_records served.settled.keyed
            served.settled.settled),
      event_order-ok outside now exported_at last later imported snapshot refl refl
          served.logged.ordered served.logged.distinct served.settled.in_time,
    )
