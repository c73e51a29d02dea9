-- ===== src/Registry/Log.antt =====
-- What the registry keeps true of its identity log (registry/store.py), and what an importer asks
-- of it (registry/validation.py).
pub mod Keys
pub mod Events
pub mod Counted
pub mod Records
pub mod Statuses
pub mod Accepted
pub mod Run
pub mod Newest
pub mod Announced
pub mod Kept
pub mod Settled
pub mod Dropped
pub mod Recorded
pub mod Served
pub mod Exported
use p4p.Prelude.{
  ℕ, ◌+◌, ◌≤◌, String, ◌≡◌, Bool, true, false, Option, none, some, List, [], ◌∷◌, any, All, length,
  select,
}
use p4p.Registry.Identity.{NodeIdentityEvent, NodeIdentityRecord, RecordKey, record_key, event_key}
use p4p.Registry.Validation.Log.{has_key, KeyHistory, history, same_fingerprint}

-- A record that says of its key what the events say, none of them later than `now`.
abbrev pub Agrees : ℕ → NodeIdentityRecord → KeyHistory → Type 0
Agrees now r h =
    (h.count ≡ r.event_count)
    × ((h.first_seen ≡ some r.first_seen)
        × ((h.last_seen ≡ some r.last_seen)
            × ((h.scope ≡ some r.scope) × ((r.first_seen ≤ r.last_seen) × (r.last_seen ≤ now)))))

abbrev pub count_key : RecordKey → List NodeIdentityRecord → ℕ
count_key k rs = length (select (has_key k) rs)

pub record IsConsistent (now : ℕ) (records : List NodeIdentityRecord)
    (events : List NodeIdentityEvent) : Type 0 where
  pub agree : All (λ r. Agrees now r (history (record_key r) events)) records
  pub single : (k : RecordKey) → count_key k records ≤ 1
  pub logged : All (λ e. any (has_key (event_key e)) records ≡ true) events

-- The numbers of the events follow one another from `id`, and their times from `at` to `now`.
abbrev pub Sequenced : ℕ → ℕ → ℕ → List NodeIdentityEvent → Type 0
Sequenced id at now [] = at ≤ now
Sequenced id at now (e ∷ es) =
    (e.event_id ≡ id) × ((at ≤ e.recorded_at) × Sequenced (id + 1) e.recorded_at now es)

-- No event has the fingerprint of an earlier one, or of one of `seen`.
abbrev pub NoRepeat : List NodeIdentityEvent → List NodeIdentityEvent → Type 0
NoRepeat seen [] = Unit
NoRepeat seen (e ∷ es) = (any (same_fingerprint e) seen ≡ false) × NoRepeat (e ∷ seen) es
