-- ===== src/Registry/Log/Newest.antt =====
-- A change of the stored nodes, and the last event of each key.
use p4p.Prelude.{
  ℕ, ◌≤◌, ◌<◌, String, ◌==◌, ◌≡◌, refl, ap, sym, ◌∙◌, arith, true, false, some, List, [], ◌∷◌, any,
  All, All-map, Bool-cases, inl, inr, eq_iff, leb,
}
use p4p.Prelude.Dict.{Dict, lookup, insert, lookup-insert_other, lookup-insert_self}
use p4p.Registry.Node.{Node}
use p4p.Registry.Identity.{NodeIdentityEvent, IdentityStatus}
use p4p.Registry.Store.{Outside, aware, read_iso, StoredNode, RegistryStore, truthy, text_or_empty}
use p4p.Registry.Recording.{identity_event}
use p4p.Registry.Operations.{put_node}
use p4p.Registry.Validation.{is_replay}
use p4p.Registry.Validation.Log.{same_fingerprint}
use p4p.Registry.Log.Events.{Sequenced-until}
use p4p.Registry.Log.Records.{IsConsistent-later}
use p4p.Registry.Log.Run.{Newest, IsLogged}

-- A stored node that takes the place of one with a key has a key, and an event not older.
abbrev pub Improves : Dict StoredNode → String → StoredNode → Type 0
Improves nodes node_id new =
    (old : StoredNode)
    → lookup node_id nodes ≡ some old
    → truthy old.node.node_public_key ≡ true
    → (last : ℕ) → old.last_signed_event_at ≡ some last
    → (truthy new.node.node_public_key ≡ true)
      × ((later : ℕ) × ((new.last_signed_event_at ≡ some later) × (last ≤ later)))

pub Newest-insert :
    (outside : Outside) (nodes : Dict StoredNode) (node_id : String) (new : StoredNode)
    (e : NodeIdentityEvent)
    → Improves nodes node_id new
    → Newest outside nodes e
    → Newest outside (insert node_id new nodes) e
Newest-insert outside nodes node_id new e improves
      (old, (found, (key, (last, (is_last, (t, (iso, before))))))) =
    elim (Bool-cases (node_id == e.node_id)) [
      | inl own ↦
          let same = (eq_iff node_id e.node_id).0 own in
          let (new_key, (later, (is_later, grows))) =
            improves old (ap (λ i. lookup i nodes) same ∙ found) key last is_last in
          (
            new,
            (
              ap (λ i. lookup i (insert node_id new nodes)) (sym same)
                  ∙ lookup-insert_self node_id new nodes,
              (new_key, (later, (is_later, (t, (iso, omega arith))))),
            ),
          )
      | inr other ↦ (
        old,
        (
          lookup-insert_other node_id e.node_id new nodes other ∙ found,
          (key, (last, (is_last, (t, (iso, before))))),
        ),
      )
    ]

pub not_replay :
    (outside : Outside) (now t last : ℕ) (old : StoredNode)
    → old.last_signed_event_at ≡ some last
    → is_replay outside now t (some old) ≡ false
    → last < t
not_replay outside now t last old is_last newer =
    let shown : is_replay outside now t (some old) ≡ leb t last = rw is_last refl in
    ground (arith, sym shown ∙ newer)

aware_eq : (t u : ℕ) → aware t ≡ aware u → t ≡ u
aware_eq t u h = ground (arith, h)

-- A signed announcement that is later than the events of its node has a fingerprint of its own.
fingerprint_new :
    (outside : Outside) (now t : ℕ) (s : RegistryStore) (node : Node) (id : ℕ)
    (status : IdentityStatus) (e : NodeIdentityEvent)
    → read_iso outside (text_or_empty node.signed_at) ≡ aware t
    → is_replay outside now t (lookup node.node_id s.nodes) ≡ false
    → Newest outside s.nodes e
    → same_fingerprint (identity_event outside now node id status) e ≡ false
fingerprint_new outside now t s node id status e iso newer
      (old, (found, (key, (last, (is_last, (u, (iso', before))))))) =
    elim (Bool-cases (node.node_id == e.node_id)) [
      | inr other ↦ rw other refl
      | inl own ↦ elim (Bool-cases (text_or_empty node.signed_at == e.signed_at)) [
        | inr later ↦ rw own (ground (arith, later))
        | inl same ↦
            let same_id = (eq_iff node.node_id e.node_id).0 own in
            let same_time = aware_eq t u (
              sym iso
              ∙ (ap (read_iso outside) ((eq_iff (text_or_empty node.signed_at) e.signed_at).0 same)
                  ∙ iso')) in
            let newer' : is_replay outside now t (some old) ≡ false =
              sym (ap (is_replay outside now t) (ap (λ i. lookup i s.nodes) same_id ∙ found))
              ∙ newer in
            absurd
              (omega (arith, same_time, before, not_replay outside now t last old is_last newer'))
      ]
    ]

pub fingerprints_new :
    (outside : Outside) (now t : ℕ) (s : RegistryStore) (node : Node) (id : ℕ)
    (status : IdentityStatus) (es : List NodeIdentityEvent)
    → read_iso outside (text_or_empty node.signed_at) ≡ aware t
    → is_replay outside now t (lookup node.node_id s.nodes) ≡ false
    → All (Newest outside s.nodes) es
    → any (same_fingerprint (identity_event outside now node id status)) es ≡ false
fingerprints_new outside now t s node id status [] iso newer newest = refl
fingerprints_new outside now t s node id status (e ∷ es) iso newer (n, newest) =
    rw (fingerprint_new outside now t s node id status e iso newer n)
      (fingerprints_new outside now t s node id status es iso newer newest)

pub IsLogged-later :
    (outside : Outside) (before now : ℕ) (s : RegistryStore)
    → before ≤ now
    → IsLogged outside before s
    → IsLogged outside now s
IsLogged-later outside before now s h l = record {
  consistent = IsConsistent-later before now s.identity_records s.identity_events h l.consistent;
  ordered = Sequenced-until 1 0 before now s.identity_events h l.ordered;
  distinct = l.distinct;
  newest = l.newest;
}

-- The nodes change, the log does not.
pub IsLogged-nodes :
    (outside : Outside) (before now : ℕ) (s : RegistryStore) (node_id : String) (new : StoredNode)
    → before ≤ now
    → Improves s.nodes node_id new
    → IsLogged outside before s
    → IsLogged outside now (put_node outside now node_id new s)
IsLogged-nodes outside before now s node_id new h improves l = record {
  consistent = IsConsistent-later before now s.identity_records s.identity_events h l.consistent;
  ordered = Sequenced-until 1 0 before now s.identity_events h l.ordered;
  distinct = l.distinct;
  newest =
      All-map (Newest outside s.nodes) (Newest outside (insert node_id new s.nodes))
        (λ e n. Newest-insert outside s.nodes node_id new e improves n) s.identity_events l.newest;
}
