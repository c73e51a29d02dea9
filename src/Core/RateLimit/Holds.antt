-- ===== src/Core/RateLimit/Holds.antt =====
-- What the bucket of a key holds in a run, and what its rule promises.
use p4p.Prelude.{
  ℕ, ◌+◌, ◌≤◌, ◌*◌, ◌≡◌, refl, ap, sym, ◌∙◌, arith, false, not, List, [], ◌∷◌, length,
  length-select, leb, Bool-cases, inl, inr, ◌⊎◌,
}
use mathlib.Core.Path.{subst}
use native.Mathlib.Nat.{mul-le-mul_right}
use p4p.Core.RateLimit.{
  RateLimitRule, max_window, new_limiter, BucketKey, RateLimiter, same_key, cleanup, rate_limit,
}
use p4p.Core.RateLimit.Window.{
  admit_next, recent, Counts, Ordered, Ordered-until, admit_next-Counts, admit_next-Ordered,
}
use p4p.Core.RateLimit.Run.{Arrival, serve, serve_all, view, serve-own, serve-other}
use p4p.Core.RateLimit.Stale.{without_stale-Counts, without_stale-Ordered}

-- The bucket and the times that were let through, as the limiter keeps them for a rule.
abbrev pub Holds : ℕ → ℕ → ℕ → List ℕ × List ℕ → Type 0
Holds requests window last state = Counts requests window last state × Ordered 0 state.0 last

pub cleanup-Holds :
    (requests window last now : ℕ) (k : BucketKey) (l : RateLimiter) (through : List ℕ)
    → window ≤ l.cleanup_interval
    → last ≤ now
    → Holds requests window last (view k (l, through))
    → Holds requests window now (view k (cleanup now l, through))
unfolding cleanup
cleanup-Holds requests window last now k l through w h (counts, ordered) =
    elim (Bool-cases (leb (l.last_cleanup + l.cleanup_interval) now)) [
      | inl due ↦ rw due (
        without_stale-Counts requests window l.cleanup_interval last now (l.buckets k) through w h
            ordered counts,
        without_stale-Ordered l.cleanup_interval last now (l.buckets k) h ordered,
      )
      | inr early ↦ rw early (
        (λ later g. counts.0 later (omega arith), counts.1),
        Ordered-until 0 last now (l.buckets k) h ordered,
      )
    ]

cleanup-interval_lem :
    (now : ℕ) (l : RateLimiter) → (cleanup now l).cleanup_interval ≡ l.cleanup_interval
unfolding cleanup
cleanup-interval_lem now l = ground arith

admit_next-Holds :
    (requests window now : ℕ) (state : List ℕ × List ℕ)
    → Holds requests window now state
    → Holds requests window now (admit_next requests window now state)
admit_next-Holds requests window now state (counts, ordered) = (
  admit_next-Counts requests window now now state (omega arith) counts,
  admit_next-Ordered requests window now now state (omega arith) ordered,
)

-- The request has another key, or the rule has these numbers.
abbrev pub Uses : BucketKey → ℕ → ℕ → Arrival → Type 0
Uses k requests window_seconds a =
    (same_key a.key k ≡ false)
    ⊎ ((a.rule.requests ≡ requests) × (a.rule.window_seconds ≡ window_seconds))

-- The requests come in order, and those with the key are under its rule.
abbrev pub Arrives : BucketKey → ℕ → ℕ → ℕ → List Arrival → ℕ → Type 0
Arrives k requests window_seconds first [] last = first ≤ last
Arrives k requests window_seconds first (a ∷ more) last =
    (first ≤ a.now)
    × (Uses k requests window_seconds a × Arrives k requests window_seconds a.now more last)

serve-Holds :
    (ticks : ℕ) (k : BucketKey) (requests window_seconds last : ℕ) (a : Arrival) (l : RateLimiter)
    (through : List ℕ)
    → window_seconds * ticks ≤ l.cleanup_interval
    → last ≤ a.now
    → Uses k requests window_seconds a
    → Holds requests (window_seconds * ticks) last (view k (l, through))
    → Holds requests (window_seconds * ticks) a.now (view k (serve ticks k a (l, through)))
serve-Holds ticks k requests window_seconds last a l through w h uses holds =
    let clean = cleanup-Holds requests (window_seconds * ticks) last a.now k l through w h holds in
    elim uses [
      | inl other ↦
          subst (Holds requests (window_seconds * ticks) a.now)
            (sym (serve-other ticks k a l through other)) clean
      | inr (few, long) ↦ elim (Bool-cases (same_key a.key k)) [
        | inl own ↦
            subst (Holds requests (window_seconds * ticks) a.now)
              (sym (serve-own ticks k a l through own))
              (rw few (
                rw long (
                  admit_next-Holds requests (window_seconds * ticks) a.now
                    (view k (cleanup a.now l, through)) clean)))
        | inr other ↦
            subst (Holds requests (window_seconds * ticks) a.now)
              (sym (serve-other ticks k a l through other)) clean
      ]
    ]

serve-interval_lem :
    (ticks : ℕ) (k : BucketKey) (a : Arrival) (l : RateLimiter) (through : List ℕ)
    → (serve ticks k a (l, through)).0.cleanup_interval ≡ l.cleanup_interval
unfolding serve rate_limit
serve-interval_lem ticks k a l through = cleanup-interval_lem a.now l

pub serve_all-interval_lem :
    (ticks : ℕ) (k : BucketKey) (arrivals : List Arrival) (l : RateLimiter) (through : List ℕ)
    → (serve_all ticks k arrivals (l, through)).0.cleanup_interval ≡ l.cleanup_interval
unfolding serve_all
serve_all-interval_lem ticks k [] l through = refl
serve_all-interval_lem ticks k (a ∷ more) l through =
    let (next, passed) = serve ticks k a (l, through) in
    serve_all-interval_lem ticks k more next passed ∙ serve-interval_lem ticks k a l through

pub serve_all-Holds :
    (ticks : ℕ) (k : BucketKey) (requests window_seconds first last : ℕ) (arrivals : List Arrival)
    (l : RateLimiter) (through : List ℕ)
    → window_seconds * ticks ≤ l.cleanup_interval
    → Arrives k requests window_seconds first arrivals last
    → Holds requests (window_seconds * ticks) first (view k (l, through))
    → Holds requests
        (window_seconds * ticks)
        last
        (view k (serve_all ticks k arrivals (l, through)))
unfolding serve_all
serve_all-Holds ticks k requests window_seconds first last [] l through w h (counts, ordered) = (
  (λ later g. counts.0 later (omega arith), counts.1),
  Ordered-until 0 first last (l.buckets k) h ordered,
)
serve_all-Holds ticks k requests window_seconds first last (a ∷ more) l through w (h, (uses, rest))
      holds =
    let (next, passed) = serve ticks k a (l, through) in
    serve_all-Holds ticks k requests window_seconds a.now last more next passed
      (omega (arith, w, serve-interval_lem ticks k a l through)) rest
      (serve-Holds ticks k requests window_seconds first a l through w h uses holds)

-- The rule is one of the list.
abbrev pub IsRule : RateLimitRule → List RateLimitRule → Type 0
IsRule rule [] = ⊥
IsRule rule (r ∷ rules) = (r ≡ rule) ⊎ IsRule rule rules

max_window-IsRule :
    (rule : RateLimitRule) (rules : List RateLimitRule)
    → IsRule rule rules
    → rule.window_seconds ≤ max_window rules
max_window-IsRule rule [] h = absurd h
max_window-IsRule rule (r ∷ []) (inl h) = rw h (omega arith)
max_window-IsRule rule (r ∷ []) (inr h) = absurd h
max_window-IsRule rule (r ∷ s ∷ rules) (inl h) = ground (arith, ap (λ x. x.window_seconds) h)
max_window-IsRule rule (r ∷ s ∷ rules) (inr h) =
    ground (arith, max_window-IsRule rule (s ∷ rules) h)

-- The window of a rule is not longer than the interval of the cleanup.
pub window-IsRule :
    (ticks : ℕ) (rule : RateLimitRule) (rules : List RateLimitRule)
    → IsRule rule rules
    → rule.window_seconds * ticks ≤ max_window rules * ticks
window-IsRule ticks rule rules h = mul-le-mul_right ticks (max_window-IsRule rule rules h)

-- Requests of any keys come in order to a new limiter, and those with the key are under one of
-- its rules. Of those with the key that are let through, at most as many as the rule allows lie in
-- the window that ends when the run does.
pub serve_all_limited :
    (ticks : ℕ) (k : BucketKey) (rule : RateLimitRule) (rules : List RateLimitRule) (start last : ℕ)
    (arrivals : List Arrival)
    → IsRule rule rules
    → Arrives k rule.requests rule.window_seconds start arrivals last
    → length (
        recent
          (rule.window_seconds * ticks)
          last
          (serve_all ticks k arrivals (new_limiter ticks rules start, [])).1)
      ≤ rule.requests
serve_all_limited ticks k rule rules start last arrivals known arrives =
    let (l, through) = serve_all ticks k arrivals (new_limiter ticks rules start, []) in
    let (counts, ordered) =
      serve_all-Holds ticks k rule.requests rule.window_seconds start last arrivals
        (new_limiter ticks rules start) [] (window-IsRule ticks rule rules known) arrives
        (((λ now g. refl), omega arith), omega arith) in
    omega (
      arith,
      counts.0 last (omega arith),
      counts.1,
      length-select (λ t. not (leb (t + rule.window_seconds * ticks) last)) (l.buckets k),
    )
