-- ===== src/Core/Flow/Validate/Accepted.antt =====
-- What an event that the validation accepts satisfies, and what it refuses.
use p4p.Prelude.{
  String, ◌==◌, eq_iff, ◌≡◌, refl, arith, Bool, true, false, Option, none, some, List, [], ◌∷◌,
  ◌++◌, All, if◌then◌else◌, member, same, ap,
}
use p4p.Prelude.Dict.{lookup}
use p4p.Prelude.Result.{Result, ok, err, require}
use p4p.Core.Event.{ModuleResultEvent}
use p4p.Core.Flow.Base.{FlowContract}
use p4p.Core.Flow.Contract.Rules.{allowed}
use p4p.Core.Flow.Validate.{
  FlowError, contract_phase, trigger_event, latest_matching_event, previous_name, meets,
  check_trigger, check_transition, check_notification, check_human, validate_flow,
}

-- What an accepted event of the flow satisfies: it follows the last one by a rule of the contract,
-- with the source and the phase that the contract gives it.
abbrev pub Follows : FlowContract → List ModuleResultEvent → ModuleResultEvent → Type 0
Follows c existing next =
    (allowed c.transitions (previous_name existing) next.event ≡ true)
    × ((meets (lookup next.event c.expected_sources) (some next.source_module) ≡ true)
        × (meets (lookup next.event c.expected_phases) (contract_phase next) ≡ true))

-- An accepted event other than a customer's view follows the flow.
pub validate_flow-Follows :
    (c : FlowContract) (existing : List ModuleResultEvent) (next : ModuleResultEvent)
    → (next.event == "ORDER_STATUS_VIEWED") ≡ false
    → validate_flow c existing next ≡ ok tt
    → Follows c existing next
unfolding validate_flow check_transition contract_phase previous_name
validate_flow-Follows c existing next flow h = (ground arith, (ground arith, ground arith))

same-some : (a : Option String) (b : String) → same a (some b) ≡ true → a ≡ some b
same-some none b h = absurd (ground arith)
same-some (some a) b h = ap some ((eq_iff a b).0 h)

require-ok : {A : Type 0} (b : Bool) (e : A) → require b e ≡ ok tt → b ≡ true
require-ok true e h = refl
require-ok false e h = absurd (ground arith)

parts :
    (c : FlowContract) (existing : List ModuleResultEvent) (next : ModuleResultEvent)
    → (next.event == "ORDER_STATUS_VIEWED") ≡ false
    → validate_flow c existing next ≡ ok tt
    → (check_notification c (previous_name existing) next ≡ ok tt)
      × (check_human c existing next ≡ ok tt)
unfolding validate_flow
parts c existing next flow h = (ground arith, ground arith)

abbrev IsUnlisted : List String → ModuleResultEvent → Type 0
IsUnlisted names e = member e.event names ≡ false

-- The newest of the events whose name is listed: it is listed, and none after it is.
abbrev pub IsNewest : List String → List ModuleResultEvent → ModuleResultEvent → Type 0
IsNewest names existing t =
    (before : List ModuleResultEvent) × ((after : List ModuleResultEvent) × ((existing
          ≡ before ++ t ∷ after)
        × ((member t.event names ≡ true) × All (IsUnlisted names) after)))

abbrev Latest : List String → List ModuleResultEvent → Option ModuleResultEvent → Type 0
Latest names existing none = All (IsUnlisted names) existing
Latest names existing (some t) = IsNewest names existing t

Latest-here :
    (names : List String) (e : ModuleResultEvent) (es : List ModuleResultEvent) (listed : Bool)
    → member e.event names ≡ listed
    → All (IsUnlisted names) es
    → Latest names (e ∷ es) (if listed then some e else none)
Latest-here names e es true h rest = ([], (es, (refl, (h, rest))))
Latest-here names e es false h rest = (h, rest)

Latest-later :
    (names : List String) (e : ModuleResultEvent) (es : List ModuleResultEvent)
    (r : Option ModuleResultEvent)
    → Latest names es r
    → Latest names
        (e ∷ es)
        (elim r [ some later ↦ some later | none ↦ if member e.event names then some e else none ])
Latest-later names e es none rest = Latest-here names e es (member e.event names) refl rest
Latest-later names e es (some t) (before, (after, (parts_of, rest))) =
    (e ∷ before, (after, (ap (λ xs. e ∷ xs) parts_of, rest)))

latest_matching_event-Latest :
    (names : List String) (es : List ModuleResultEvent)
    → Latest names es (latest_matching_event es names)
unfolding latest_matching_event
latest_matching_event-Latest names [] = tt
latest_matching_event-Latest names (e ∷ es) =
    Latest-later names e es (latest_matching_event es names) (latest_matching_event-Latest names es)

-- What the hand-over names is the newest of the listed events, and there is one.
abbrev pub NamesNewest : List String → List ModuleResultEvent → Option String → Type 0
NamesNewest names existing given =
    (t : ModuleResultEvent) × (IsNewest names existing t × (given ≡ some t.event))

check_trigger-ok :
    (names : List String) (existing : List ModuleResultEvent) (newest : Option ModuleResultEvent)
    (given : Option String)
    → Latest names existing newest
    → check_trigger newest given ≡ ok tt
    → NamesNewest names existing given
check_trigger-ok names existing none given l h = absurd (ground arith)
check_trigger-ok names existing (some t) given l h =
    (t, (l, same-some given t.event (require-ok (same given (some t.event)) _ h)))

check_human-ok :
    (c : FlowContract) (existing : List ModuleResultEvent) (next : ModuleResultEvent)
    → (next.event == "ORDER_NEEDS_HUMAN") ≡ true
    → check_human c existing next ≡ ok tt
    → NamesNewest c.human_trigger_events existing (trigger_event next)
unfolding check_human trigger_event latest_matching_event
check_human-ok c existing next e h =
    check_trigger-ok c.human_trigger_events existing
      (latest_matching_event existing c.human_trigger_events) (trigger_event next)
      (latest_matching_event-Latest c.human_trigger_events existing) (ground arith)

-- An accepted ORDER_NEEDS_HUMAN names, as its trigger, one of the events that it is checked against:
-- it is among those for which the contract calls a human, and none after it is.
pub validate_flow-human :
    (c : FlowContract) (existing : List ModuleResultEvent) (next : ModuleResultEvent)
    → next.event ≡ "ORDER_NEEDS_HUMAN"
    → validate_flow c existing next ≡ ok tt
    → NamesNewest c.human_trigger_events existing (trigger_event next)
validate_flow-human c existing next e h =
    check_human-ok c existing next (ap (λ x. x == "ORDER_NEEDS_HUMAN") e)
      (parts c existing next (ap (λ x. x == "ORDER_STATUS_VIEWED") e) h).1

-- An event that no rule allows is refused.
pub validate_flow-refuses :
    (c : FlowContract) (existing : List ModuleResultEvent) (next : ModuleResultEvent)
    → (next.event == "ORDER_STATUS_VIEWED") ≡ false
    → allowed c.transitions (previous_name existing) next.event ≡ false
    → (e : FlowError) × (validate_flow c existing next ≡ err e)
validate_flow-refuses c existing next flow forbidden_next = go (validate_flow c existing next) refl
  where
    go :
        (r : Result FlowError Unit)
        → validate_flow c existing next ≡ r
        → (e : FlowError) × (validate_flow c existing next ≡ err e)
    go (ok u) h =
        absurd (ground (arith, forbidden_next, (validate_flow-Follows c existing next flow h).0))
    go (err e) h = (e, h)
