-- ===== src/Registry/Log/Events.antt =====
-- How the history of a key, the numbering and the fingerprints grow with the log.
use p4p.Prelude.{
  ℕ, ◌+◌, ◌≤◌, ◌≡◌, refl, ap, ◌∙◌, arith, true, false, List, [], ◌∷◌, ◌++◌, any, All, length,
  Bool-cases, inl, inr, if◌then◌else◌,
}
use p4p.Registry.Identity.{
  NodeIdentityEvent, NodeIdentityRecord, RecordKey, event_key, same_record_key,
}
use p4p.Registry.Validation.Log.{
  has_key, KeyHistory, no_history, add_event, history_from, history, same_fingerprint,
}
use p4p.Registry.Log.{Sequenced, NoRepeat}
use p4p.Registry.Log.Keys.{same_record_key_eq}

abbrev pub after_event : RecordKey → NodeIdentityEvent → KeyHistory → KeyHistory
after_event k e h = if same_record_key (event_key e) k then add_event e h else h

pub history_from-append :
    (k : RecordKey) (h : KeyHistory) (es : List NodeIdentityEvent) (e : NodeIdentityEvent)
    → history_from k h (es ++ e ∷ []) ≡ after_event k e (history_from k h es)
unfolding history_from
history_from-append k h [] e = refl
history_from-append k h (d ∷ es) e = history_from-append k (after_event k d h) es e

-- Without an event of the key there is no history of it.
history_from_none :
    (k : RecordKey) (h : KeyHistory) (es : List NodeIdentityEvent)
    → All (λ e. same_record_key (event_key e) k ≡ false) es
    → history_from k h es ≡ h
unfolding history_from
history_from_none k h [] other = refl
history_from_none k h (e ∷ es) (other, others) = rw other (history_from_none k h es others)

any_key :
    (k : RecordKey) (rs : List NodeIdentityRecord) (e : NodeIdentityEvent)
    → any (has_key k) rs ≡ false
    → any (has_key (event_key e)) rs ≡ true
    → same_record_key (event_key e) k ≡ false
any_key k rs e none_has has = elim (Bool-cases (same_record_key (event_key e) k)) [
  | inl own ↦ absurd (
      ground (
        arith,
        has,
        none_has,
        ap (λ j. any (has_key j) rs) (same_record_key_eq (event_key e) k own),
      ))
  | inr other ↦ other
]

others :
    (k : RecordKey) (rs : List NodeIdentityRecord) (es : List NodeIdentityEvent)
    → any (has_key k) rs ≡ false
    → All (λ e. any (has_key (event_key e)) rs ≡ true) es
    → All (λ e. same_record_key (event_key e) k ≡ false) es
others k rs [] none_has logged = tt
others k rs (e ∷ es) none_has (has, logged) =
    (any_key k rs e none_has has, others k rs es none_has logged)

pub history_none :
    (k : RecordKey) (rs : List NodeIdentityRecord) (es : List NodeIdentityEvent)
    → any (has_key k) rs ≡ false
    → All (λ e. any (has_key (event_key e)) rs ≡ true) es
    → history k es ≡ no_history
history_none k rs es none_has logged =
    history_from_none k no_history es (others k rs es none_has logged)

pub Sequenced-append :
    (id at now later : ℕ) (es : List NodeIdentityEvent) (e : NodeIdentityEvent)
    → Sequenced id at now es
    → e.event_id ≡ length es + id
    → now ≤ e.recorded_at
    → e.recorded_at ≤ later
    → Sequenced id at later (es ++ e ∷ [])
Sequenced-append id at now later [] e h number g f = (number ∙ omega arith, (omega arith, f))
Sequenced-append id at now later (d ∷ es) e (a, (b, more)) number g f =
    (a, (b, Sequenced-append (id + 1) d.recorded_at now later es e more (number ∙ omega arith) g f))

pub Sequenced-until :
    (id at now later : ℕ) (es : List NodeIdentityEvent)
    → now ≤ later
    → Sequenced id at now es
    → Sequenced id at later es
Sequenced-until id at now later [] h ordered = omega arith
Sequenced-until id at now later (e ∷ es) h (a, (b, more)) =
    (a, (b, Sequenced-until (id + 1) e.recorded_at now later es h more))

pub NoRepeat-append :
    (seen es : List NodeIdentityEvent) (e : NodeIdentityEvent)
    → NoRepeat seen es
    → any (same_fingerprint e) seen ≡ false
    → any (same_fingerprint e) es ≡ false
    → NoRepeat seen (es ++ e ∷ [])
NoRepeat-append seen [] e distinct before within = (before, tt)
NoRepeat-append seen (d ∷ es) e (h, distinct) before within = (
  h,
  NoRepeat-append (d ∷ seen) es e distinct (ground (arith, before, within))
      (ground (arith, within)),
)
