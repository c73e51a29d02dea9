-- ===== src/Core/RateLimit.antt =====
-- `InMemoryRateLimitMiddleware` of p4p_core/http_hardening.py: what its call does under the lock,
-- for the rule and the key of the request. The clock gives whole ticks.
pub mod Window
pub mod Run
pub mod Stale
pub mod Holds
pub mod Allows
pub mod Retry
use p4p.Prelude.{
  ℕ, ◌+◌, ◌-◌, ◌*◌, ◌/◌, String, ◌==◌, Bool, true, false, not, ◌&&◌, Option, none, some, List, [],
  ◌∷◌, ◌++◌, length, last?, leb, ltb, if◌then◌else◌,
}

pub record RateLimitRule : Type 0 where
  pub method : String
  pub path : String
  pub requests : ℕ
  pub window_seconds : ℕ

-- (client_host, method, rule.path)
pub record BucketKey : Type 0 where
  pub client_host : String
  pub method : String
  pub path : String

abbrev pub same_key : BucketKey → BucketKey → Bool
same_key a b = a.client_host == b.client_host && a.method == b.method && a.path == b.path

-- `_buckets`: the times of the requests that were let through, the oldest first. It is a
-- defaultdict(deque), so a key that is not there and an empty deque are the same.
abbrev pub Buckets : Type 0
Buckets = BucketKey → List ℕ

pub record RateLimiter : Type 0 where
  pub buckets : Buckets
  pub cleanup_interval : ℕ
  pub last_cleanup : ℕ

abbrev pub larger : ℕ → ℕ → ℕ
larger a b = if leb a b then b else a

-- max((rule.window_seconds for rule in rules), default=60)
abbrev pub max_window : List RateLimitRule → ℕ
max_window [] = 60
max_window (r ∷ []) = r.window_seconds
max_window (r ∷ s ∷ rules) = larger r.window_seconds (max_window (s ∷ rules))

-- `__init__`, at the time `start`.
abbrev pub new_limiter : ℕ → List RateLimitRule → ℕ → RateLimiter
new_limiter ticks rules start = record {
  buckets = λ k. [];
  cleanup_interval = max_window rules * ticks;
  last_cleanup = start;
}

-- `timestamps[-1] <= now - interval`, or no timestamps
abbrev pub is_stale : ℕ → ℕ → List ℕ → Bool
is_stale interval now times = elim (last? times) [ none ↦ true | some t ↦ leb (t + interval) now ]

abbrev pub without_stale : ℕ → ℕ → List ℕ → List ℕ
without_stale interval now times = if is_stale interval now times then [] else times

abbrev pub set_bucket : BucketKey → List ℕ → Buckets → Buckets
set_bucket key times buckets k = if same_key key k then times else buckets k

unfoldable pub cleanup : ℕ → RateLimiter → RateLimiter
cleanup now l =
    if leb (l.last_cleanup + l.cleanup_interval) now
    then record l {
      buckets = λ k. without_stale l.cleanup_interval now (l.buckets k);
      last_cleanup = now;
    }
    else l

-- `while bucket and bucket[0] <= now - window: bucket.popleft()`
unfoldable pub expire : ℕ → ℕ → List ℕ → List ℕ
expire window now [] = []
expire window now (t ∷ times) =
    let rest = expire window now times in if leb (t + window) now then rest else t ∷ times

-- The new bucket, and whether the request is let through.
unfoldable pub admit : ℕ → ℕ → ℕ → List ℕ → List ℕ × Bool
unfolding expire
admit requests window now times =
    let recent = expire window now times in
    if ltb (length recent) requests then (recent ++ now ∷ [], true) else (recent, false)

-- `retry_after`, in seconds, for a request that is not let through.
unfoldable pub retry_after : ℕ → ℕ → ℕ → List ℕ → ℕ
retry_after ticks_per_second window_seconds now [] = window_seconds
retry_after ticks_per_second window_seconds now (t ∷ times) =
    (window_seconds * ticks_per_second - (now - t)) / ticks_per_second + 1

-- The whole of the locked part: whether the request is let through, `retry_after` otherwise.
unfoldable pub rate_limit : ℕ → RateLimitRule → BucketKey → ℕ → RateLimiter → Option ℕ × RateLimiter
unfolding cleanup admit retry_after
rate_limit ticks_per_second rule key now l =
    let clean = cleanup now l in
    let (times, allowed) =
      admit rule.requests (rule.window_seconds * ticks_per_second) now (clean.buckets key) in
    (
      if allowed then none else some (retry_after ticks_per_second rule.window_seconds now times),
      record clean { buckets = set_bucket key times clean.buckets },
    )
