-- ===== src/Core/RateLimit/Allows.antt =====
-- When the middleware lets a request through.
use p4p.Prelude.{
  ℕ, ◌+◌, ◌*◌, ◌≡◌, refl, ap, sym, ◌∙◌, arith, false, List, [], ◌∷◌, length, leb, ltb, Bool-cases,
  inl, inr,
}
use p4p.Core.RateLimit.{
  new_limiter, RateLimiter, BucketKey, RateLimitRule, cleanup, expire, admit, rate_limit,
}
use p4p.Core.RateLimit.Window.{recent, Ordered}
use p4p.Core.RateLimit.Run.{view, Arrival, serve_all, is_allowed}
use p4p.Core.RateLimit.Holds.{
  Holds, IsRule, window-IsRule, Arrives, cleanup-Holds, serve_all-Holds, serve_all-interval_lem,
}

recent_all :
    (window now first last : ℕ) (times : List ℕ)
    → leb (first + window) now ≡ false
    → Ordered first times last
    → recent window now times ≡ times
recent_all window now first last [] h ordered = refl
recent_all window now first last (t ∷ times) h (g, ordered) =
    let later : leb (t + window) now ≡ false = ground (arith, h, g) in
    rw later (ap (λ rest. t ∷ rest) (recent_all window now t last times later ordered))

-- In a bucket that is in order, dropping from the front leaves just the times in the window.
expire-recent :
    (window now first last : ℕ) (times : List ℕ)
    → Ordered first times last
    → expire window now times ≡ recent window now times
unfolding expire
expire-recent window now first last [] ordered = refl
expire-recent window now first last (t ∷ times) (g, ordered) =
    elim (Bool-cases (leb (t + window) now)) [
      | inl stale ↦ rw stale (expire-recent window now t last times ordered)
      | inr fresh ↦
          rw fresh (ap (λ rest. t ∷ rest) (sym (recent_all window now t last times fresh ordered)))
    ]

pub rate_limit-allows :
    (ticks : ℕ) (rule : RateLimitRule) (k : BucketKey) (now : ℕ) (l : RateLimiter)
    → is_allowed (rate_limit ticks rule k now l).0
      ≡ ltb
          (length (expire (rule.window_seconds * ticks) now ((cleanup now l).buckets k)))
          rule.requests
unfolding rate_limit admit
rate_limit-allows ticks rule k now l =
    elim (Bool-cases (
      ltb (length (expire (rule.window_seconds * ticks) now ((cleanup now l).buckets k)))
        rule.requests)) [ inl free ↦ rw free refl | inr full ↦ rw full refl ]

-- The bucket of a key after a run, when a request comes and the cleanup was made.
pub run-Holds :
    (ticks : ℕ) (a : Arrival) (rules : List RateLimitRule) (start : ℕ) (arrivals : List Arrival)
    → IsRule a.rule rules
    → Arrives a.key a.rule.requests a.rule.window_seconds start arrivals a.now
    → Holds a.rule.requests (a.rule.window_seconds * ticks) a.now (
        view a.key (
          cleanup a.now (serve_all ticks a.key arrivals (new_limiter ticks rules start, [])).0,
          (serve_all ticks a.key arrivals (new_limiter ticks rules start, [])).1,
        ))
run-Holds ticks a rules start arrivals known arrives =
    let fresh = new_limiter ticks rules start in
    let (l, through) = serve_all ticks a.key arrivals (fresh, []) in
    let w = window-IsRule ticks a.rule rules known in
    let holds =
      serve_all-Holds ticks a.key a.rule.requests a.rule.window_seconds start a.now arrivals fresh
        [] w arrives (((λ now g. refl), omega arith), omega arith) in
    cleanup-Holds a.rule.requests (a.rule.window_seconds * ticks) a.now a.now a.key l through
      (omega (arith, w, serve_all-interval_lem ticks a.key arrivals fresh [])) (omega arith) holds

-- After requests of any keys that came in order to a new limiter, a request under one of its
-- rules, which is also that of the earlier ones with its key, is let through exactly if fewer
-- than `requests` of those with its key that were let through lie in the window that ends now.
pub rate_limit-serve_all :
    (ticks : ℕ) (a : Arrival) (rules : List RateLimitRule) (start : ℕ) (arrivals : List Arrival)
    → IsRule a.rule rules
    → Arrives a.key a.rule.requests a.rule.window_seconds start arrivals a.now
    → is_allowed
        (rate_limit ticks a.rule a.key a.now
          (serve_all ticks a.key arrivals (new_limiter ticks rules start, [])).0).0
      ≡ ltb
          (length (
            recent
              (a.rule.window_seconds * ticks)
              a.now
              (serve_all ticks a.key arrivals (new_limiter ticks rules start, [])).1))
          a.rule.requests
rate_limit-serve_all ticks a rules start arrivals known arrives =
    let (l, through) = serve_all ticks a.key arrivals (new_limiter ticks rules start, []) in
    let (counts, ordered) = run-Holds ticks a rules start arrivals known arrives in
    rate_limit-allows ticks a.rule a.key a.now l
    ∙ ap (λ n. ltb n a.rule.requests)
        (ap length (
            expire-recent (a.rule.window_seconds * ticks) a.now 0 a.now
              ((cleanup a.now l).buckets a.key) ordered)
          ∙ sym (counts.0 a.now (omega arith)))
