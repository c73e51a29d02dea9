-- ===== src/Core/RateLimit/Retry.antt =====
-- The client that comes back after the time it was told.
use p4p.Prelude.{
  ℕ, ◌+◌, ◌-◌, ◌*◌, ◌/◌, ◌≤◌, ◌<◌, ◌≡◌, refl, ap, sym, ◌∙◌, arith, true, false, none, some, List,
  [], ◌∷◌, length, leb, ltb, Bool-cases, inl, inr, ◌⊎◌, str_eq_refl, clash, Option,
}
use mathlib.Core.Path.{subst}
use native.Mathlib.Nat.{lt-mul-div-succ, mul_comm}
use p4p.Core.RateLimit.{
  new_limiter, same_key, RateLimiter, BucketKey, RateLimitRule, cleanup, expire, admit, retry_after,
  rate_limit,
}
use p4p.Core.RateLimit.Window.{Ordered, expire-Ordered, length-expire}
use p4p.Core.RateLimit.Stale.{without_stale-cases}
use p4p.Core.RateLimit.Run.{Arrival, serve_all, is_allowed}
use p4p.Core.RateLimit.Holds.{IsRule, Arrives}
use p4p.Core.RateLimit.Allows.{rate_limit-allows, run-Holds}

-- The first time of the bucket has left the window by then.
retry_after-leaves :
    (ticks seconds now t : ℕ) (times : List ℕ)
    → 0 < ticks
    → t ≤ now
    → t + seconds * ticks ≤ now + retry_after ticks seconds now (t ∷ times) * ticks
unfolding retry_after
retry_after-leaves ticks seconds now t times h g = omega (
  arith,
  g,
  lt-mul-div-succ (seconds * ticks - (now - t)) h,
  mul_comm ticks ((seconds * ticks - (now - t)) / ticks + 1),
)

expire-leaves :
    (w later t : ℕ) (times : List ℕ)
    → t + w ≤ later
    → length (expire w later (t ∷ times)) < length (t ∷ times)
unfolding expire
expire-leaves w later t times h = ground (arith, h, length-expire w later times)

-- The bucket of the key when its requests are counted.
abbrev pub counted : ℕ → RateLimitRule → BucketKey → ℕ → RateLimiter → List ℕ
counted ticks rule k now l = expire (rule.window_seconds * ticks) now ((cleanup now l).buckets k)

same_key_refl : (k : BucketKey) → same_key k k ≡ true
same_key_refl k =
    rw (str_eq_refl k.client_host) (rw (str_eq_refl k.method) (rw (str_eq_refl k.path) refl))

abbrev seconds_or_zero : Option ℕ → ℕ
seconds_or_zero none = 0
seconds_or_zero (some seconds) = seconds

full-bucket :
    (ticks : ℕ) (rule : RateLimitRule) (k : BucketKey) (now : ℕ) (l : RateLimiter)
    → ltb (length (counted ticks rule k now l)) rule.requests ≡ false
    → ((rate_limit ticks rule k now l).0
        ≡ some (retry_after ticks rule.window_seconds now (counted ticks rule k now l)))
      × ((rate_limit ticks rule k now l).1.buckets k ≡ counted ticks rule k now l)
unfolding rate_limit admit
full-bucket ticks rule k now l full = (rw full refl, rw full (rw (same_key_refl k) refl))

-- What a request that is not let through leaves.
refused :
    (ticks : ℕ) (rule : RateLimitRule) (k : BucketKey) (now seconds : ℕ) (l : RateLimiter)
    → (rate_limit ticks rule k now l).0 ≡ some seconds
    → (rule.requests ≤ length (counted ticks rule k now l))
      × ((retry_after ticks rule.window_seconds now (counted ticks rule k now l) ≡ seconds)
          × ((rate_limit ticks rule k now l).1.buckets k ≡ counted ticks rule k now l))
refused ticks rule k now seconds l h =
    elim (Bool-cases (ltb (length (counted ticks rule k now l)) rule.requests)) [
      | inl free ↦ clash (rate_limit-allows ticks rule k now l ∙ free) (ap is_allowed h)
      | inr full ↦
          let (answer, bucket) = full-bucket ticks rule k now l full in
          (ground (arith, full), (ap seconds_or_zero (sym answer ∙ h), bucket))
    ]

cleanup-bucket :
    (now : ℕ) (k : BucketKey) (l : RateLimiter)
    → ((cleanup now l).buckets k ≡ l.buckets k) ⊎ ((cleanup now l).buckets k ≡ [])
unfolding cleanup
cleanup-bucket now k l = elim (Bool-cases (leb (l.last_cleanup + l.cleanup_interval) now)) [
  | inl due ↦ elim (without_stale-cases l.cleanup_interval now (l.buckets k)) [
    | inl kept ↦ inl (rw due kept)
    | inr (gone, stale) ↦ inr (rw due gone)
  ]
  | inr early ↦ inl (rw early refl)
]

counted-leaves :
    (ticks : ℕ) (rule : RateLimitRule) (k : BucketKey) (later t : ℕ) (times : List ℕ)
    (l : RateLimiter)
    → l.buckets k ≡ t ∷ times
    → t + rule.window_seconds * ticks ≤ later
    → length (counted ticks rule k later l) < length (t ∷ times)
counted-leaves ticks rule k later t times l bucket h = elim (cleanup-bucket later k l) [
  | inl kept ↦ rw (kept ∙ bucket) (expire-leaves (rule.window_seconds * ticks) later t times h)
  | inr gone ↦ rw gone (omega (arith, length-expire (rule.window_seconds * ticks) later []))
]

Ordered-ends : (first last : ℕ) (times : List ℕ) → Ordered first times last → first ≤ last
Ordered-ends first last [] ordered = ordered
Ordered-ends first last (t ∷ times) (g, ordered) =
    omega (arith, g, Ordered-ends t last times ordered)

-- A full bucket has room at the time that the client was told.
told-leaves :
    (ticks : ℕ) (rule : RateLimitRule) (k : BucketKey) (now seconds : ℕ) (bucket : List ℕ)
    (l : RateLimiter)
    → 0 < ticks
    → 0 < length bucket
    → Ordered 0 bucket now
    → retry_after ticks rule.window_seconds now bucket ≡ seconds
    → l.buckets k ≡ bucket
    → length (counted ticks rule k (now + seconds * ticks) l) < length bucket
told-leaves ticks rule k now seconds [] l h some_times ordered told same = absurd (omega arith)
told-leaves ticks rule k now seconds (t ∷ times) l h some_times (g, ordered) told same =
    counted-leaves ticks rule k (now + seconds * ticks) t times l same (
      subst (λ s. t + rule.window_seconds * ticks ≤ now + s * ticks) told
        (retry_after-leaves ticks rule.window_seconds now t times h
          (Ordered-ends t now times ordered)))

allows : (a b : ℕ) → a < b → ltb a b ≡ true
allows a b h = ground (arith, h)

retry-allowed :
    (ticks : ℕ) (rule : RateLimitRule) (k : BucketKey) (now seconds : ℕ) (l : RateLimiter)
    → 0 < ticks
    → 0 < rule.requests
    → length (counted ticks rule k now l) ≤ rule.requests
    → Ordered 0 (counted ticks rule k now l) now
    → (rate_limit ticks rule k now l).0 ≡ some seconds
    → is_allowed
        (rate_limit ticks rule k (now + seconds * ticks) (rate_limit ticks rule k now l).1).0
      ≡ true
retry-allowed ticks rule k now seconds l h some_requests few ordered told =
    let (full, (wait, same)) = refused ticks rule k now seconds l told in
    let next = (rate_limit ticks rule k now l).1 in
    rate_limit-allows ticks rule k (now + seconds * ticks) next
    ∙ allows (length (counted ticks rule k (now + seconds * ticks) next)) rule.requests (
        omega (
          arith,
          few,
          full,
          told-leaves ticks rule k now seconds (counted ticks rule k now l) next h (omega arith)
              ordered wait same,
        ))

-- Requests of any keys came in order to a new limiter whose clock ticks. If a request under one of
-- its rules, which lets through at least one request and is also that of the earlier ones with its
-- key, is refused and told a number of seconds, then the same request is let through when these
-- have passed, if no other request comes in between.
pub rate_limit-retry :
    (ticks : ℕ) (a : Arrival) (rules : List RateLimitRule) (start seconds : ℕ)
    (arrivals : List Arrival)
    → 0 < ticks
    → 0 < a.rule.requests
    → IsRule a.rule rules
    → Arrives a.key a.rule.requests a.rule.window_seconds start arrivals a.now
    → (rate_limit ticks a.rule a.key a.now
        (serve_all ticks a.key arrivals (new_limiter ticks rules start, [])).0).0
      ≡ some seconds
    → is_allowed
        (rate_limit ticks a.rule a.key
          (a.now + seconds * ticks)
          (rate_limit ticks a.rule a.key a.now
            (serve_all ticks a.key arrivals (new_limiter ticks rules start, [])).0).1).0
      ≡ true
rate_limit-retry ticks a rules start seconds arrivals h some_requests known arrives told =
    let w = a.rule.window_seconds * ticks in
    let (l, through) = serve_all ticks a.key arrivals (new_limiter ticks rules start, []) in
    let (counts, ordered) = run-Holds ticks a rules start arrivals known arrives in
    let bucket = (cleanup a.now l).buckets a.key in
    retry-allowed ticks a.rule a.key a.now seconds l h some_requests
      (omega (arith, counts.1, length-expire w a.now bucket))
      (expire-Ordered w a.now 0 a.now bucket ordered) told
