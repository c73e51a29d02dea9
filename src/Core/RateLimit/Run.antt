-- ===== src/Core/RateLimit/Run.antt =====
-- A run of the middleware: requests with all kinds of keys, one after another.
use p4p.Prelude.{
  ℕ, String, ◌*◌, ◌≡◌, refl, ap, ◌∙◌, arith, Bool, true, false, ◌&&◌, Option, none, some, List, [],
  ◌∷◌, ◌++◌, length, ltb, Bool-cases, inl, inr, if◌then◌else◌,
}
use mathlib.Core.Path.{subst}
use text.Mathlib.TextEquality.{eq_iff}
use p4p.Core.RateLimit.{
  RateLimitRule, BucketKey, RateLimiter, same_key, cleanup, expire, admit, rate_limit,
}
use p4p.Core.RateLimit.Window.{admit_next}

pub record Arrival : Type 0 where
  pub rule : RateLimitRule
  pub key : BucketKey
  pub now : ℕ

abbrev pub is_allowed : Option ℕ → Bool
is_allowed none = true
is_allowed (some retry) = false

-- One request, and the times at which requests with the key were let through so far.
unfoldable pub serve : ℕ → BucketKey → Arrival → RateLimiter × List ℕ → RateLimiter × List ℕ
serve ticks k a (l, through) =
    let (answer, next) = rate_limit ticks a.rule a.key a.now l in
    (next, (if same_key a.key k && is_allowed answer then through ++ a.now ∷ [] else through))

unfoldable pub serve_all :
    ℕ → BucketKey → List Arrival → RateLimiter × List ℕ → RateLimiter × List ℕ
serve_all ticks k [] s = s
serve_all ticks k (a ∷ more) s = serve_all ticks k more (serve ticks k a s)

-- The bucket of the key, and the times.
abbrev pub view : BucketKey → RateLimiter × List ℕ → List ℕ × List ℕ
view k (l, through) = (l.buckets k, through)

named : String → String → String → BucketKey
named client_host method path = record { client_host = client_host; method = method; path = path }

same_key_eq : (j k : BucketKey) → same_key j k ≡ true → j ≡ k
unfolding named
same_key_eq j k h =
    ap (λ x. named x j.method j.path) ((eq_iff j.client_host k.client_host).0 (ground (arith, h)))
    ∙ (ap (λ x. named k.client_host x j.path) ((eq_iff j.method k.method).0 (ground (arith, h)))
        ∙ ap (λ x. named k.client_host k.method x) ((eq_iff j.path k.path).0 (ground (arith, h))))

serve-itself :
    (ticks : ℕ) (a : Arrival) (l : RateLimiter) (through : List ℕ)
    → same_key a.key a.key ≡ true
    → view a.key (serve ticks a.key a (l, through))
      ≡ admit_next a.rule.requests
          (a.rule.window_seconds * ticks)
          a.now
          (view a.key (cleanup a.now l, through))
unfolding serve rate_limit admit_next admit
serve-itself ticks a l through h =
    elim (Bool-cases (
      ltb (length (expire (a.rule.window_seconds * ticks) a.now ((cleanup a.now l).buckets a.key)))
        a.rule.requests)) [ inl free ↦ rw h (rw free refl) | inr full ↦ rw h (rw full refl) ]

pub serve-own :
    (ticks : ℕ) (k : BucketKey) (a : Arrival) (l : RateLimiter) (through : List ℕ)
    → same_key a.key k ≡ true
    → view k (serve ticks k a (l, through))
      ≡ admit_next a.rule.requests
          (a.rule.window_seconds * ticks)
          a.now
          (view k (cleanup a.now l, through))
serve-own ticks k a l through h =
    subst
      (λ j.
        same_key a.key j ≡ true
        → view j (serve ticks j a (l, through))
          ≡ admit_next a.rule.requests (a.rule.window_seconds * ticks) a.now
              (view j (cleanup a.now l, through)))
      (same_key_eq a.key k h) (serve-itself ticks a l through) h

pub serve-other :
    (ticks : ℕ) (k : BucketKey) (a : Arrival) (l : RateLimiter) (through : List ℕ)
    → same_key a.key k ≡ false
    → view k (serve ticks k a (l, through)) ≡ view k (cleanup a.now l, through)
unfolding serve rate_limit
serve-other ticks k a l through h = rw h refl
