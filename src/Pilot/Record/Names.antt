-- ===== src/Pilot/Record/Names.antt =====
-- Which names recording appends to the log of order events.
use p4p.Prelude.{String, List, [], ◌∷◌, ◌++◌, map, ◌≡◌, refl, sym, ap, inl, inr}
use mathlib.Core.Path.{subst}
use mathlib.Core.List.{append-nil}
use p4p.Prelude.Result.{Result, err}
use p4p.Core.Event.{ModuleResultEvent}
use p4p.Core.Flow.Validate.{event_name}
use p4p.Pilot.Config.{Config, World}
use p4p.Pilot.Store.{Exec, Error, ◌>>=◌}
use p4p.Pilot.Store.Adds.{event_names, Added-then, Adds, Added-continue, Adds-assoc}
use p4p.Pilot.Record.{EventArgs, built_event, build_result_event, record_order_flow_event, emit}
use p4p.Pilot.Record.Logs.{logged, built_event-names, record_order_flow_event-cases}

names-append_one :
    (es : List ModuleResultEvent) (e : ModuleResultEvent)
    → map event_name (es ++ e ∷ []) ≡ map event_name es ++ e.event ∷ []
names-append_one [] e = refl
names-append_one (x ∷ es) e = ap (λ l. x.event ∷ l) (names-append_one es e)

module _ (config : Config) (world : World) where
  -- Building an event appends nothing, and gives one of the name that was asked for.
  pub Adds-build :
      {B : Type 0} (Q : Result Error B → List String → Type 0) (a : EventArgs)
      (f : ModuleResultEvent → Exec B)
      → ((x : Error) → Q (err x) [])
      → ((e : ModuleResultEvent) → e.event ≡ a.event → Adds Q (f e))
      → Adds Q (build_result_event config world a >>= f)
  unfolding ◌>>=◌ build_result_event
  Adds-build Q a f k g = record {
    run = λ s.
        Added-continue Q s s (built_event config world a s.now) f refl k
          λ e h. g e (built_event-names config world a s.now h).0;
  }

  -- Recording an event appends its name, or nothing where it raises.
  pub Adds-record :
      {B : Type 0} (Q : Result Error B → List String → Type 0) (e : ModuleResultEvent)
      (f : ModuleResultEvent → Exec B)
      → ((x : Error) → Q (err x) [])
      → Adds (λ r more. Q r (e.event ∷ more)) (f e)
      → Adds Q (record_order_flow_event config world e >>= f)
  unfolding ◌>>=◌
  Adds-record Q e f k g = record {
    run = λ s. elim (record_order_flow_event-cases config world e s) [
      | inl (x, h) ↦ rw h ([], (sym (append-nil (event_names s)), k x))
      | inr (c, h) ↦
          rw h
            (Added-then Q s (logged e s) (e.event ∷ []) (f e) (names-append_one s.order_events e) g)
    ];
  }

  -- What `emit` appends before the rest runs.
  pub Adds-emit :
      {B : Type 0} (Q : Result Error B → List String → Type 0) (a : EventArgs)
      (f : ModuleResultEvent → Exec B)
      → ((x : Error) → Q (err x) [])
      → ((e : ModuleResultEvent) → Adds (λ r more. Q r (a.event ∷ more)) (f e))
      → Adds Q (emit config world a >>= f)
  unfolding emit
  Adds-emit Q a f k g =
      Adds-assoc Q (build_result_event config world a) (record_order_flow_event config world) f (
        Adds-build Q a (λ e. record_order_flow_event config world e >>= f) k
          λ e name.
            Adds-record Q e f k
              (subst (λ n. Adds (λ r more. Q r (n ∷ more)) (f e)) (sym name) (g e)))
