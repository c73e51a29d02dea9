-- ===== src/Registry/Log/Records.antt =====
-- An announcement keeps the records and the log in agreement (`_record_signed_identity`).
use p4p.Prelude.{
  ℕ, ◌+◌, ◌≤◌, ◌≡◌, refl, ◌∙◌, arith, true, false, none, some, List, [], ◌∷◌, ◌++◌, any, any-append,
  All-map, All-append_one, length, Bool-cases, Option-cases, inl, inr,
}
use p4p.Registry.Node.{Node}
use p4p.Registry.Identity.{
  NodeIdentityEvent, NodeIdentityRecord, RecordKey, record_key, event_key, find_record,
  change_record, IdentityStatus,
}
use p4p.Registry.Validation.Log.{has_key, history}
use p4p.Registry.Store.{Outside, RegistryStore}
use p4p.Registry.Validation.{is_signed}
use p4p.Registry.Recording.{
  node_key, first_record, seen_again, recorded_status, record_signed_identity,
}
use p4p.Registry.Log.{Agrees, IsConsistent}
use p4p.Registry.Log.Keys.{
  same_record_key_refl, any-change_record, count_key-change_record, KeepsKey,
}
use p4p.Registry.Log.Events.{history_none}
use p4p.Registry.Log.Counted.{
  agree_changed, agree_added, agree_first, count_added, logged_added, added,
}

pub find_record-none :
    (k : RecordKey) (rs : List NodeIdentityRecord)
    → find_record k rs ≡ none
    → any (has_key k) rs ≡ false
find_record-none k [] h = refl
find_record-none k (r ∷ rs) h = ground (arith, h, find_record-none k rs)

pub find_record-some :
    (k : RecordKey) (rs : List NodeIdentityRecord) (r : NodeIdentityRecord)
    → find_record k rs ≡ some r
    → any (has_key k) rs ≡ true
find_record-some k [] r h = ground (arith, h)
find_record-some k (q ∷ rs) r h = ground (arith, h, find_record-some k rs r)

module _ (outside : Outside) (now : ℕ) where
  module _ (node : Node) (id : ℕ) (status : IdentityStatus) where
    IsConsistent-first :
        (before : ℕ) (rs : List NodeIdentityRecord) (es : List NodeIdentityEvent)
        → before ≤ now
        → any (has_key (node_key outside now node)) rs ≡ false
        → IsConsistent before rs es
        → IsConsistent now
            (rs ++ first_record outside now node ∷ [])
            (es ++ (added outside now node id status) ∷ [])
    IsConsistent-first before rs es h none_has c = record {
      agree =
          All-append_one
            (λ r.
              Agrees now r (history (record_key r) (es ++ (added outside now node id status) ∷ [])))
            rs (first_record outside now node)
            (agree_added outside now node id status before es rs h none_has c.agree)
            (agree_first outside now node id status es
              (history_none (node_key outside now node) rs es none_has c.logged));
      single = λ j. count_added outside now node id status rs j none_has (c.single j);
      logged =
          All-append_one
            (λ e. any (has_key (event_key e)) (rs ++ first_record outside now node ∷ []) ≡ true) es
            (added outside now node id status)
            (logged_added outside now node id status es rs c.logged)
            (ground (
              arith,
              same_record_key_refl (node_key outside now node),
              any-append (has_key (event_key (added outside now node id status))) rs
                  (first_record outside now node ∷ []),
            ));
    }

    IsConsistent-again :
        (before : ℕ) (rs : List NodeIdentityRecord) (es : List NodeIdentityEvent)
        → before ≤ now
        → any (has_key (node_key outside now node)) rs ≡ true
        → IsConsistent before rs es
        → IsConsistent now
            (change_record (node_key outside now node) (seen_again outside now node) rs)
            (es ++ (added outside now node id status) ∷ [])
    IsConsistent-again before rs es h has c =
        let keeps : KeepsKey (seen_again outside now node) = λ r. refl in
        record {
          agree = agree_changed outside now node id status before es rs h c.agree;
          single = λ j.
              rw
                (count_key-change_record (seen_again outside now node) keeps
                  (node_key outside now node) j rs)
                (c.single j);
          logged =
              All-append_one
                (λ e.
                  any (has_key (event_key e))
                    (change_record (node_key outside now node) (seen_again outside now node) rs)
                  ≡ true)
                es (added outside now node id status)
                (All-map (λ e. any (has_key (event_key e)) rs ≡ true)
                  (λ e.
                    any (has_key (event_key e))
                      (change_record (node_key outside now node) (seen_again outside now node) rs)
                    ≡ true)
                  (λ e logged.
                    any-change_record (seen_again outside now node) keeps
                      (node_key outside now node) (event_key e) rs
                    ∙ logged)
                  es c.logged)
                (any-change_record (seen_again outside now node) keeps (node_key outside now node)
                    (event_key (added outside now node id status)) rs
                  ∙ has);
        }

-- Time passes.
pub IsConsistent-later :
    (before now : ℕ) (rs : List NodeIdentityRecord) (es : List NodeIdentityEvent)
    → before ≤ now
    → IsConsistent before rs es
    → IsConsistent now rs es
IsConsistent-later before now rs es h c = record {
  agree =
      All-map (λ r. Agrees before r (history (record_key r) es))
        (λ r. Agrees now r (history (record_key r) es))
        (λ r (a, (b, (c', (d, (f, g))))). (a, (b, (c', (d, (f, omega arith)))))) rs c.agree;
  single = c.single;
  logged = c.logged;
}

-- An announcement that is recorded keeps the records and the log in agreement.
pub record_signed_identity-IsConsistent :
    (outside : Outside) (before now : ℕ) (node : Node) (s : RegistryStore)
    → before ≤ now
    → IsConsistent before s.identity_records s.identity_events
    → let t = record_signed_identity outside now node s in
      IsConsistent now t.identity_records t.identity_events
unfolding record_signed_identity
record_signed_identity-IsConsistent outside before now node s h c =
    let key = node_key outside now node in
    elim (Bool-cases (is_signed node)) [
      | inr unsigned ↦
          rw unsigned (IsConsistent-later before now s.identity_records s.identity_events h c)
      | inl signed ↦ elim (Option-cases (find_record key s.identity_records)) [
        | inl none_found ↦ rw signed (
            rw none_found (
              IsConsistent-first outside now node (length s.identity_events + 1)
                (recorded_status outside now none) before s.identity_records s.identity_events h
                (find_record-none key s.identity_records none_found) c))
        | inr (r, found) ↦ rw signed (
            rw found (
              IsConsistent-again outside now node (length s.identity_events + 1)
                (recorded_status outside now (some r)) before s.identity_records s.identity_events h
                (find_record-some key s.identity_records r found) c))
      ]
    ]
