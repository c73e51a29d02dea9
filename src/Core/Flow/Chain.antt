-- ===== src/Core/Flow/Chain.antt =====
-- What the order flow promises: the events of an order, those that only observe left out, are a
-- path through the transitions of its contract.
use p4p.Prelude.{
  String, ◌==◌, ◌≡◌, refl, arith, true, false, Option, none, some, List, [], ◌∷◌, ◌++◌, map, select,
  last?, sym, Bool-cases, inl, inr,
}
use p4p.Prelude.Dict.{Dict}
use p4p.Prelude.Result.{ok}
use p4p.Core.Event.{ModuleResultEvent}
use p4p.Core.Manifest.{ModuleManifest}
use p4p.Core.Flow.Contract.{build_pilot_order_flow_contract}
use p4p.Core.Flow.Base.{FlowContract, Transitions}
use p4p.Core.Flow.Contract.Rules.{allowed}
use p4p.Core.Flow.Contract.Built.{IsTerminal, build_terminal}
use p4p.Core.Flow.Validate.{event_name, name_of, is_flow_event, previous_name, validate_flow}
use p4p.Core.Flow.Validate.Accepted.{validate_flow-Follows}

-- Each name may follow the one before it; `previous` is before the first.
abbrev pub Chained : Transitions → Option String → List String → Type 0
Chained t previous [] = Unit {0}
Chained t previous (x ∷ xs) = (allowed t previous x ≡ true) × Chained t (some x) xs

abbrev pub end : Option String → List String → Option String
end previous [] = previous
end previous (x ∷ xs) = end (some x) xs

abbrev pub flow_names : List ModuleResultEvent → List String
flow_names es = map event_name (select is_flow_event es)

-- The events are a path of the contract from its start.
abbrev pub IsFlow : FlowContract → List ModuleResultEvent → Type 0
IsFlow c es = Chained c.transitions none (flow_names es)

Chained-append :
    (t : Transitions) (previous : Option String) (xs : List String) (x : String)
    → Chained t previous xs
    → allowed t (end previous xs) x ≡ true
    → Chained t previous (xs ++ x ∷ [])
Chained-append t previous [] x h a = (a, tt)
Chained-append t previous (y ∷ ys) x (b, h) a = (b, Chained-append t (some y) ys x h a)

Chained-suffix :
    (t : Transitions) (previous : Option String) (xs ys : List String)
    → Chained t previous (xs ++ ys)
    → Chained t (end previous xs) ys
Chained-suffix t previous [] ys h = h
Chained-suffix t previous (x ∷ xs) ys (a, h) = Chained-suffix t (some x) xs ys h

last_name :
    (previous : Option String) (e : ModuleResultEvent) (es : List ModuleResultEvent)
    → name_of (last? (e ∷ es)) ≡ end previous (map event_name (e ∷ es))
last_name previous e [] = refl
last_name previous e (f ∷ es) = last_name (some e.event) f es

previous_name-end : (es : List ModuleResultEvent) → previous_name es ≡ end none (flow_names es)
unfolding previous_name
previous_name-end es = go (select is_flow_event es)
  where
    go : (fs : List ModuleResultEvent) → name_of (last? fs) ≡ end none (map event_name fs)
    go [] = refl
    go (f ∷ fs) = last_name none f fs

-- An event that only observes leaves the flow as it is.
pub flow_names-observes :
    (es : List ModuleResultEvent) (e : ModuleResultEvent)
    → is_flow_event e ≡ false
    → flow_names (es ++ e ∷ []) ≡ flow_names es
flow_names-observes [] e h = ground arith
flow_names-observes (x ∷ es) e h = ground (arith, flow_names-observes es e h)

flow_names-append :
    (es : List ModuleResultEvent) (e : ModuleResultEvent)
    → is_flow_event e ≡ true
    → flow_names (es ++ e ∷ []) ≡ flow_names es ++ e.event ∷ []
flow_names-append [] e h = ground arith
flow_names-append (x ∷ es) e h = ground (arith, flow_names-append es e h)

viewed-observes :
    (e : ModuleResultEvent) → is_flow_event e ≡ true → (e.event == "ORDER_STATUS_VIEWED") ≡ false
viewed-observes e h = ground arith

-- An event that the validation accepts keeps the log a path of the contract.
pub validate_flow-IsFlow :
    (c : FlowContract) (es : List ModuleResultEvent) (e : ModuleResultEvent)
    → IsFlow c es
    → validate_flow c es e ≡ ok tt
    → IsFlow c (es ++ e ∷ [])
validate_flow-IsFlow c es e log h = elim (Bool-cases (is_flow_event e)) [
  | inr o ↦ rw (flow_names-observes es e o) log
  | inl f ↦ rw (flow_names-append es e f) (
      Chained-append c.transitions none (flow_names es) e.event log
        (rw (sym (previous_name-end es)) (validate_flow-Follows c es e (viewed-observes e f) h).0))
]

-- A path of a built contract ends where the order is in human hands or its print is confirmed.
module _ (catalog : Dict ModuleManifest) (enabled : List String)
    (manifests : List ModuleManifest) where
  abbrev contract : FlowContract
  contract = build_pilot_order_flow_contract catalog enabled manifests

  pub Chained-terminal :
      (previous : Option String) (xs ys : List String) (x : String)
      → Chained contract.transitions previous (xs ++ x ∷ ys)
      → IsTerminal x
      → ys ≡ []
  Chained-terminal previous xs [] x h t = refl
  Chained-terminal previous xs (y ∷ ys) x h t = absurd (
      ground (
        arith,
        (Chained-suffix contract.transitions previous xs (x ∷ y ∷ ys) h).1.0,
        build_terminal catalog enabled manifests x y t,
      ))
