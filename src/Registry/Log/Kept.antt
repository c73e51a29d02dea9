-- ===== src/Registry/Log/Kept.antt =====
-- Requests keep the identity log in order.
use p4p.Prelude.{
  ℕ, ◌≤◌, ◌≡◌, refl, ap, sym, ◌∙◌, arith, true, false, Option, some, Bool-cases, inl, inr, clash,
}
use p4p.Prelude.Dict.{Dict, lookup}
use p4p.Prelude.Result.{ok}
use p4p.Registry.Node.{HeartbeatRequest}
use p4p.Registry.Store.{Outside, StoredNode, RegistryConfig, RegistryStore, truthy}
use p4p.Registry.Operations.{store_manifest, store_heartbeat, beaten, put_node}
use p4p.Registry.Validation.Announcement.{require_valid_heartbeat_signature}
use p4p.Registry.Validation.Beats.{heartbeat-Verified}
use p4p.Registry.Log.Statuses.{apply_manifest_status-IsConsistent}
use p4p.Registry.Log.Run.{NodeRequest, announcement, beat, new_manifest, serve, IsLogged}
use p4p.Registry.Log.Newest.{Improves, not_replay, IsLogged-later, IsLogged-nodes}
use p4p.Registry.Runs.{beat-keeps, announce-keeps, heartbeat-keeps, node_manifest-keeps}
use p4p.Registry.Log.Announced.{store_node-IsLogged}

pub some_eq : (a b : StoredNode) → some a ≡ some b → a ≡ b
some_eq a b h = ground (arith, h)

-- The node that beats keeps its key, and where it has one its last event is not older.
beaten-Improves :
    (outside : Outside) (now : ℕ) (nodes : Dict StoredNode) (payload : HeartbeatRequest)
    (stored : StoredNode) (beat_at : Option ℕ)
    → lookup payload.node_id nodes ≡ some stored
    → (truthy stored.node.node_public_key ≡ true
        → (last : ℕ) → stored.last_signed_event_at ≡ some last
        → (later : ℕ) × ((beat_at ≡ some later) × (last ≤ later)))
    → Improves nodes payload.node_id (beaten outside now payload beat_at stored)
beaten-Improves outside now nodes payload stored beat_at found grows old found' key last is_last =
    let same = some_eq stored old (sym found ∙ found') in
    let key' : truthy stored.node.node_public_key ≡ true =
      ap (λ (n : StoredNode). truthy n.node.node_public_key) same ∙ key in
    (key', grows key' last (ap (λ (n : StoredNode). n.last_signed_event_at) same ∙ is_last))

module _ (outside : Outside) (before now : ℕ) (h : before ≤ now) (s : RegistryStore)
    (l : IsLogged outside before s) where
  kept_beat :
      (payload : HeartbeatRequest) (stored : StoredNode) (beat_at : Option ℕ)
      → lookup payload.node_id s.nodes ≡ some stored
      → (truthy stored.node.node_public_key ≡ true
          → (last : ℕ) → stored.last_signed_event_at ≡ some last
          → (later : ℕ) × ((beat_at ≡ some later) × (last ≤ later)))
      → IsLogged outside now
          (put_node outside now payload.node_id (beaten outside now payload beat_at stored) s)
  kept_beat payload stored beat_at found grows =
      IsLogged-nodes outside before now s payload.node_id
        (beaten outside now payload beat_at stored) h
        (beaten-Improves outside now s.nodes payload stored beat_at found grows) l

  open_beat :
      (payload : HeartbeatRequest) (stored changed : StoredNode)
      → lookup payload.node_id s.nodes ≡ some stored
      → truthy stored.node.node_public_key ≡ false
      → IsLogged outside now (put_node outside now payload.node_id changed s)
  open_beat payload stored changed found no_key =
      IsLogged-nodes outside before now s payload.node_id changed h
        (λ old found' key last is_last.
          clash
            (ap (λ (n : StoredNode). truthy n.node.node_public_key)
                (some_eq stored old (sym found ∙ found'))
              ∙ key)
            no_key)
        l

  beat-IsLogged :
      (payload : HeartbeatRequest) (stored : StoredNode)
      → lookup payload.node_id s.nodes ≡ some stored
      → require_valid_heartbeat_signature outside now payload stored
          (lookup payload.node_id s.node_manifests)
        ≡ ok tt
      → IsLogged outside now (store_heartbeat outside now payload stored s).1
  unfolding store_heartbeat
  beat-IsLogged payload stored found passed =
      elim (Bool-cases (truthy stored.node.node_public_key)) [
        | inl key ↦
            let (signed, (verified, (t, (iso, newer)))) =
              heartbeat-Verified outside now payload stored
                (lookup payload.node_id s.node_manifests) passed key in
            rw signed (
              rw iso (
                kept_beat payload stored (some t) found (λ k last is_last.
                  (t, (refl, omega (arith, not_replay outside now t last stored is_last newer))))))
        | inr no_key ↦
            beat-keeps outside (IsLogged outside now) now payload stored s
              (λ changed. open_beat payload stored changed found no_key)
      ]

  kept : IsLogged outside now s
  kept = IsLogged-later outside before now s h l

  pub serve-IsLogged :
      (config : RegistryConfig) (request : NodeRequest)
      → IsLogged outside now (serve outside config now request s)
  unfolding serve store_manifest
  serve-IsLogged config (announcement node) =
      announce-keeps outside (IsLogged outside now) now config node s kept
        (λ allowed. store_node-IsLogged outside before now s node h allowed l)
  serve-IsLogged config (beat payload) =
      heartbeat-keeps outside (IsLogged outside now) now payload s kept
        (λ stored found passed. beat-IsLogged payload stored found passed)
  serve-IsLogged config (new_manifest payload) =
      node_manifest-keeps outside (IsLogged outside now) now payload s kept (λ passed. record {
        consistent =
            apply_manifest_status-IsConsistent outside now s.identity_events payload.manifest
              (lookup payload.manifest.node_id s.node_manifests) s.identity_records kept.consistent;
        ordered = kept.ordered;
        distinct = l.distinct;
        newest = l.newest;
      })
