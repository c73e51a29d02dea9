-- ===== src/Registry/Log/Accepted.antt =====
-- What an importer accepts (`require_identity_log`, `require_event_order`).
use p4p.Prelude.{
  ℕ, ◌+◌, ◌≤◌, ◌<◌, ◌≡◌, refl, arith, Bool, true, false, Option, none, some, List, [], ◌∷◌, any,
  All, length, select, nat_eq_self, le→leb, lt→ltb, le→ltb,
}
use p4p.Prelude.Dict.{Dict, lookup}
use p4p.Prelude.Result.{ok}
use p4p.Registry.Node.{NodeManifest}
use p4p.Registry.Identity.{
  NodeIdentityEvent, NodeIdentityRecord, RecordKey, record_key, event_key, IdentityScope, loopback,
  public,
}
use p4p.Registry.Source.{RegistrySourceSnapshot}
use p4p.Registry.Validation.{max_skew, parse_timestamp, stamp_time, require_not_too_far_in_future}
use p4p.Registry.Validation.Log.{
  has_key, KeyHistory, history, is_time, is_scope, require_unique_records, require_record_history,
  require_record_status, require_records, require_recorded, is_before, require_events,
  require_contiguous, last_id, same_id, require_latest,
}
use p4p.Registry.Validation.Snapshot.{
  manifests_by_node_id, require_identity_log, require_event_order,
}
use p4p.Registry.Store.{Outside, aware, read_iso}
use p4p.Registry.Log.{Agrees, count_key, IsConsistent, Sequenced, NoRepeat}
use p4p.Registry.Log.Keys.{same_record_key_refl}

-- The status of each record goes with the manifest of its node.
abbrev pub StatusesAgree : Dict NodeManifest → List NodeIdentityRecord → Type 0
StatusesAgree manifests rs =
    All (λ r. require_record_status r (lookup r.node_id manifests) ≡ ok tt) rs

-- Each event was signed no later than it was recorded.
abbrev pub SignedInTime : Outside → NodeIdentityEvent → Type 0
SignedInTime outside e = (t : ℕ) × ((read_iso outside e.signed_at ≡ aware t) × (t ≤ e.recorded_at))

is_time_self : (t : ℕ) → is_time t (some t) ≡ true
is_time_self t = ground arith

is_scope_self : (scope : IdentityScope) → is_scope scope (some scope) ≡ true
is_scope_self loopback = refl
is_scope_self public = refl

record_history-ok :
    (now : ℕ) (r : NodeIdentityRecord) (h : KeyHistory)
    → Agrees now r h
    → require_record_history r h ≡ ok tt
unfolding require_record_history
record_history-ok now r h (a, (b, (c, (d, (f, g))))) = rw a (
    rw b (
      rw c (
        rw d (
          rw (is_time_self r.first_seen) (
            rw (is_time_self r.last_seen)
              (rw (is_scope_self r.scope) (rw (nat_eq_self r.event_count) refl)))))))

records-ok :
    (now : ℕ) (manifests : Dict NodeManifest) (es : List NodeIdentityEvent)
    (rs : List NodeIdentityRecord)
    → All (λ r. Agrees now r (history (record_key r) es)) rs
    → StatusesAgree manifests rs
    → require_records manifests es rs ≡ ok tt
unfolding require_records
records-ok now manifests es [] agree statuses = refl
records-ok now manifests es (r ∷ rs) (a, agree) (status, statuses) =
    rw (record_history-ok now r (history (record_key r) es) a)
      (rw status (records-ok now manifests es rs agree statuses))

any_none {ℓ} :
    {A : Type ℓ} (p : A → Bool) (xs : List A) → length (select p xs) ≡ 0 → any p xs ≡ false
any_none p [] h = refl
any_none p (x ∷ xs) h = ground (arith, h, any_none p xs)

unique_records-ok :
    (seen rs : List NodeIdentityRecord)
    → ((k : RecordKey) → count_key k seen + count_key k rs ≤ 1)
    → require_unique_records seen rs ≡ ok tt
unfolding require_unique_records
unique_records-ok seen [] single = refl
unique_records-ok seen (r ∷ rs) single =
    rw
      (any_none (has_key (record_key r)) seen
        (ground (arith, single (record_key r), same_record_key_refl (record_key r))))
      (unique_records-ok (r ∷ seen) rs (λ k. ground (arith, single k)))

recorded-ok :
    (rs : List NodeIdentityRecord) (es : List NodeIdentityEvent)
    → All (λ e. any (has_key (event_key e)) rs ≡ true) es
    → require_recorded rs es ≡ ok tt
unfolding require_recorded
recorded-ok rs [] logged = refl
recorded-ok rs (e ∷ es) (has, logged) = rw has (recorded-ok rs es logged)

Sequenced-ends :
    (id at last : ℕ) (es : List NodeIdentityEvent) → Sequenced id at last es → at ≤ last
Sequenced-ends id at last [] h = h
Sequenced-ends id at last (e ∷ es) (a, (b, more)) =
    omega (arith, Sequenced-ends (id + 1) e.recorded_at last es more)

contiguous-ok :
    (id at last : ℕ) (es : List NodeIdentityEvent)
    → Sequenced id at last es
    → require_contiguous id es ≡ ok tt
unfolding require_contiguous
contiguous-ok id at last [] h = refl
contiguous-ok id at last (e ∷ es) (a, (b, more)) =
    rw a (rw (nat_eq_self id) (contiguous-ok (id + 1) e.recorded_at last es more))

same_id_self : (o : Option ℕ) → same_id o o ≡ true
same_id_self none = refl
same_id_self (some n) = nat_eq_self n

latest-ok : (es : List NodeIdentityEvent) → require_latest (last_id es) es ≡ ok tt
unfolding require_latest
latest-ok [] = refl
latest-ok (e ∷ es) = rw (same_id_self (last_id (e ∷ es))) refl

module _ (outside : Outside) (now exported_at last : ℕ) (h : last ≤ exported_at)
    (g : exported_at ≤ now) where
  events-ok :
      (id at previous_id : ℕ) (previous_at : Option ℕ) (seen es : List NodeIdentityEvent)
      → previous_id < id
      → ((t : ℕ) → at ≤ t → is_before t previous_at ≡ false)
      → Sequenced id at last es
      → NoRepeat seen es
      → All (SignedInTime outside) es
      → require_events outside now exported_at seen previous_id previous_at es ≡ ok tt
  unfolding require_events parse_timestamp stamp_time require_not_too_far_in_future
  events-ok id at previous_id previous_at seen [] before later ordered distinct signed = refl
  events-ok id at previous_id previous_at seen (e ∷ es) before later (a, (b, more)) (new, distinct)
        ((t, (iso, in_time)), signed) =
      let ends = Sequenced-ends (id + 1) e.recorded_at last es more in
      rw iso (
        rw new (
          rw (le→leb e.recorded_at (now + max_skew) (omega arith)) (
            rw (le→leb e.recorded_at exported_at (omega arith)) (
              rw (le→leb t e.recorded_at in_time) (
                rw (lt→ltb previous_id e.event_id (omega arith)) (
                  rw (later e.recorded_at b) (
                    events-ok (id + 1) e.recorded_at e.event_id (some e.recorded_at) (e ∷ seen) es
                      (omega arith) (λ u v. le→ltb u e.recorded_at v) more distinct signed)))))))

  -- An importer accepts the numbering and the times of the events of a log that a registry keeps.
  pub event_order-ok :
      (payload : RegistrySourceSnapshot)
      → payload.exported_at ≡ exported_at
      → payload.latest_identity_event_id ≡ last_id payload.identity_events
      → Sequenced 1 0 last payload.identity_events
      → NoRepeat [] payload.identity_events
      → All (SignedInTime outside) payload.identity_events
      → require_event_order outside now payload ≡ ok tt
  unfolding require_event_order
  event_order-ok payload exported latest ordered distinct signed = rw exported (
      rw
        (events-ok 1 0 0 none [] payload.identity_events (omega arith) (λ t p. refl) ordered
          distinct signed)
        (rw (contiguous-ok 1 0 last payload.identity_events ordered)
          (rw latest (latest-ok payload.identity_events))))

-- An importer accepts the records of a log that a registry keeps, if their statuses go with the
-- manifests.
pub identity_log-ok :
    (outside : Outside) (at now : ℕ) (payload : RegistrySourceSnapshot)
    → IsConsistent at payload.identity_records payload.identity_events
    → StatusesAgree (manifests_by_node_id payload.manifests) payload.identity_records
    → require_identity_log outside now payload ≡ ok tt
unfolding require_identity_log
identity_log-ok outside at now payload c statuses =
    rw (unique_records-ok [] payload.identity_records (λ k. omega (arith, c.single k))) (
      rw
        (records-ok at (manifests_by_node_id payload.manifests) payload.identity_events
          payload.identity_records c.agree statuses)
        (recorded-ok payload.identity_records payload.identity_events c.logged))
