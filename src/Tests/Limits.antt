-- ===== src/Tests/Limits.antt =====
-- A rate limiter with two clients, a check of one event, and an event that is recorded twice.
use p4p.Prelude.{
  ℕ, String, ◌≡◌, ◌≤◌, refl, arith, true, false, none, some, List, [], ◌∷◌, length, ltb, inl, inr,
}
use p4p.Prelude.Result.{ok}
use p4p.Core.Event.{ModuleResultEvent}
use p4p.Core.RateLimit.{
  RateLimiter, new_limiter, RateLimitRule, BucketKey, cleanup, expire, admit, retry_after,
  rate_limit,
}
use p4p.Core.RateLimit.Window.{recent}
use p4p.Core.RateLimit.Run.{Arrival, serve, serve_all, is_allowed}
use p4p.Core.RateLimit.Holds.{Arrives, serve_all_limited}
use p4p.Core.RateLimit.Allows.{rate_limit-serve_all}
use p4p.Core.RateLimit.Retry.{rate_limit-retry}
use p4p.Pilot.Store.Events.{record_order_event_once}
use p4p.Pilot.Store.Events.Once.{record_order_event_once-repeat}
use p4p.Tests.{store, blocked_event}

-- Two orders in a minute.
abbrev two_orders : RateLimitRule
two_orders = record { method = "POST"; path = "/order"; requests = 2; window_seconds = 60 }

abbrev guest : String → BucketKey
guest host = record { client_host = host; method = "POST"; path = "/order" }

abbrev order_at : String → ℕ → Arrival
order_at host now = record { rule = two_orders; key = guest host; now = now }

abbrev evening : List Arrival
evening =
    order_at "10.0.0.1" 5
    ∷ order_at "10.0.0.2" 6
    ∷ order_at "10.0.0.1" 30
    ∷ order_at "10.0.0.1" 40
    ∷ []

abbrev limiter : RateLimiter
limiter = new_limiter 1 (two_orders ∷ []) 0

rate_limit_tests :
    ((rate_limit 1 two_orders
        (guest "10.0.0.1")
        50
        (serve_all 1 (guest "10.0.0.1") evening (limiter, [])).0).0
      ≡ some 16)
    × ((rate_limit 1 two_orders
          (guest "10.0.0.1")
          65
          (serve_all 1 (guest "10.0.0.1") evening (limiter, [])).0).0
        ≡ none)
    × ((serve_all 1 (guest "10.0.0.1") evening (limiter, [])).1 ≡ 5 ∷ 30 ∷ [])
unfolding cleanup expire admit retry_after rate_limit serve serve_all
rate_limit_tests = (refl, refl, refl)

evening-Arrives : Arrives (guest "10.0.0.1") 2 60 0 evening 50
evening-Arrives = (
  omega arith,
  (
    inr (refl, refl),
    (
      omega arith,
      (inl refl, (omega arith, (inr (refl, refl), (omega arith, (inr (refl, refl), omega arith))))),
    ),
  ),
)

serve_all_limited_example :
    length (recent 60 50 (serve_all 1 (guest "10.0.0.1") evening (limiter, [])).1) ≤ 2
serve_all_limited_example =
    serve_all_limited 1 (guest "10.0.0.1") two_orders (two_orders ∷ []) 0 50 evening (inl refl)
      evening-Arrives

rate_limit-serve_all_example :
    is_allowed
      (rate_limit 1 two_orders
        (guest "10.0.0.1")
        50
        (serve_all 1 (guest "10.0.0.1") evening (limiter, [])).0).0
    ≡ ltb (length (recent 60 50 (serve_all 1 (guest "10.0.0.1") evening (limiter, [])).1)) 2
rate_limit-serve_all_example =
    rate_limit-serve_all 1 (order_at "10.0.0.1" 50) (two_orders ∷ []) 0 evening (inl refl)
      evening-Arrives

rate_limit-retry_example :
    is_allowed
      (rate_limit 1 two_orders
        (guest "10.0.0.1")
        66
        (rate_limit 1 two_orders
          (guest "10.0.0.1")
          50
          (serve_all 1 (guest "10.0.0.1") evening (limiter, [])).0).1).0
    ≡ true
unfolding cleanup expire admit retry_after rate_limit serve serve_all
rate_limit-retry_example =
    rate_limit-retry 1 (order_at "10.0.0.1" 50) (two_orders ∷ []) 0 16 evening (omega arith)
      (omega arith) (inl refl) evening-Arrives refl

abbrev keyed_event : ModuleResultEvent
keyed_event = record blocked_event { idempotency_key = some "payment:o-1" }

record_order_event_once-repeat_example :
    record_order_event_once keyed_event (record_order_event_once keyed_event (store [] [])).1
    ≡ (ok false, (record_order_event_once keyed_event (store [] [])).1)
record_order_event_once-repeat_example =
    record_order_event_once-repeat keyed_event keyed_event "payment:o-1" (store [] []) refl refl
      refl
