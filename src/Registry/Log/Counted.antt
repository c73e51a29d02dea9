-- ===== src/Registry/Log/Counted.antt =====
-- The records agree with a log that has one event more (`_record_signed_identity`).
use p4p.Prelude.{
  ℕ, ◌+◌, ◌≤◌, ◌≡◌, refl, ap, sym, ◌∙◌, arith, Bool, true, false, some, List, [], ◌∷◌, ◌++◌, any,
  any-append, All, All-map, length, length-append, select, select-append, Bool-cases, inl, inr,
}
use p4p.Registry.Node.{Node}
use p4p.Registry.Identity.{
  NodeIdentityEvent, NodeIdentityRecord, RecordKey, record_key, event_key, same_record_key,
  change_record, IdentityStatus,
}
use p4p.Registry.Validation.Log.{has_key, no_history, history, min_or, max_or}
use p4p.Registry.Store.{Outside}
use p4p.Registry.Recording.{node_key, first_record, seen_again, identity_event}
use p4p.Registry.Log.{Agrees, count_key}
use p4p.Registry.Log.Keys.{same_record_key_eq, same_record_key_refl, same_record_key_sym}
use p4p.Registry.Log.Events.{history_from-append}

select_none {ℓ} :
    {A : Type ℓ} (p : A → Bool) (xs : List A) → any p xs ≡ false → length (select p xs) ≡ 0
select_none p [] h = refl
select_none p (x ∷ xs) h = ground (arith, h, select_none p xs)

-- A record of another key, when the event is added.
Agrees-other :
    (now later : ℕ) (es : List NodeIdentityEvent) (e : NodeIdentityEvent) (r : NodeIdentityRecord)
    → now ≤ later
    → same_record_key (event_key e) (record_key r) ≡ false
    → Agrees now r (history (record_key r) es)
    → Agrees later r (history (record_key r) (es ++ e ∷ []))
Agrees-other now later es e r h other (a, (b, (c, (d, (f, g))))) =
    rw (history_from-append (record_key r) no_history es e)
      (rw other (a, (b, (c, (d, (f, omega arith))))))

min_or_first : (now t : ℕ) → t ≤ now → min_or now (some t) ≡ t
min_or_first now t h = ground (arith, h)

max_or_last : (now t : ℕ) → t ≤ now → max_or now (some t) ≡ now
max_or_last now t h = ground (arith, h)

module _ (outside : Outside) (now : ℕ) where
  -- The record of the key itself.
  Agrees-own :
      (before : ℕ) (es : List NodeIdentityEvent) (node : Node) (id : ℕ) (status : IdentityStatus)
      (r : NodeIdentityRecord)
      → before ≤ now
      → node_key outside now node ≡ record_key r
      → Agrees before r (history (record_key r) es)
      → Agrees now
          (seen_again outside now node r)
          (history (record_key r) (es ++ identity_event outside now node id status ∷ []))
  Agrees-own before es node id status r h own (a, (b, (c, (d, (f, g))))) =
      rw
        (history_from-append (record_key r) no_history es
          (identity_event outside now node id status))
        (rw (ap (λ k. same_record_key k (record_key r)) own ∙ same_record_key_refl (record_key r)) (
          ap (λ n. n + 1) a,
          (
            ap (λ o. some (min_or now o)) b ∙ ap some (min_or_first now r.first_seen (omega arith)),
            (
              ap (λ o. some (max_or now o)) c ∙ ap some (max_or_last now r.last_seen (omega arith)),
              (refl, (omega arith, omega arith)),
            ),
          ),
        ))

  module _ (node : Node) (id : ℕ) (status : IdentityStatus) where
    abbrev pub added : NodeIdentityEvent
    added = identity_event outside now node id status

    -- Every record, after the one of the key was changed.
    pub agree_changed :
        (before : ℕ) (es : List NodeIdentityEvent) (rs : List NodeIdentityRecord)
        → before ≤ now
        → All (λ r. Agrees before r (history (record_key r) es)) rs
        → All
            (λ r. Agrees now r (history (record_key r) (es ++ added ∷ [])))
            (change_record (node_key outside now node) (seen_again outside now node) rs)
    unfolding change_record
    agree_changed before es [] h agree = tt
    agree_changed before es (r ∷ rs) h (a, agree) = (
      elim (Bool-cases (same_record_key (record_key r) (node_key outside now node))) [
        | inl own ↦ rw own (
            Agrees-own before es node id status r h
              (sym (same_record_key_eq (record_key r) (node_key outside now node) own)) a)
        | inr other ↦ rw other (
            Agrees-other before now es added r h
              (same_record_key_sym (record_key r) (node_key outside now node) other) a)
      ],
      agree_changed before es rs h agree,
    )

    pub agree_added :
        (before : ℕ) (es : List NodeIdentityEvent) (rs : List NodeIdentityRecord)
        → before ≤ now
        → any (has_key (node_key outside now node)) rs ≡ false
        → All (λ r. Agrees before r (history (record_key r) es)) rs
        → All (λ r. Agrees now r (history (record_key r) (es ++ added ∷ []))) rs
    agree_added before es [] h none_has agree = tt
    agree_added before es (r ∷ rs) h none_has (a, agree) = (
      Agrees-other before now es added r h
          (same_record_key_sym (record_key r) (node_key outside now node)
            (ground (arith, none_has)))
          a,
      agree_added before es rs h (ground (arith, none_has)) agree,
    )

    pub agree_first :
        (es : List NodeIdentityEvent)
        → history (node_key outside now node) es ≡ no_history
        → Agrees now
            (first_record outside now node)
            (history (node_key outside now node) (es ++ added ∷ []))
    agree_first es nothing =
        rw (history_from-append (node_key outside now node) no_history es added) (
          rw (same_record_key_refl (node_key outside now node))
            (rw nothing (refl, (refl, (refl, (refl, (omega arith, omega arith)))))))

    pub count_added :
        (rs : List NodeIdentityRecord) (j : RecordKey)
        → any (has_key (node_key outside now node)) rs ≡ false
        → count_key j rs ≤ 1
        → count_key j (rs ++ first_record outside now node ∷ []) ≤ 1
    count_added rs j none_has single =
        rw (select-append (has_key j) rs (first_record outside now node ∷ [])) (
          rw
            (length-append (select (has_key j) rs)
              (select (has_key j) (first_record outside now node ∷ [])))
            (elim (Bool-cases (has_key j (first_record outside now node))) [
              | inl own ↦ rw own (
                  omega (
                    arith,
                    ap (λ k. count_key k rs)
                        (sym (same_record_key_eq (node_key outside now node) j own)),
                    select_none (has_key (node_key outside now node)) rs none_has,
                  ))
              | inr other ↦ rw other (omega arith)
            ]))

    pub logged_added :
        (es : List NodeIdentityEvent) (rs : List NodeIdentityRecord)
        → All (λ e. any (has_key (event_key e)) rs ≡ true) es
        → All
            (λ e. any (has_key (event_key e)) (rs ++ first_record outside now node ∷ []) ≡ true)
            es
    logged_added es rs =
        All-map (λ e. any (has_key (event_key e)) rs ≡ true)
          (λ e. any (has_key (event_key e)) (rs ++ first_record outside now node ∷ []) ≡ true)
          (λ e h.
            rw (any-append (has_key (event_key e)) rs (first_record outside now node ∷ []))
              (rw h refl))
          es
