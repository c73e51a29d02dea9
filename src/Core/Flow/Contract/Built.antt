-- ===== src/Core/Flow/Contract/Built.antt =====
-- The readings of a built contract: its rules, its trigger events, its sources and its phases.
use p4p.Prelude.{
  eq_iff, ◌⊎◌, inl, inr, String, ◌≡◌, refl, ◌∙◌, Bool, true, false, ◌||◌, Option, none, some, List,
  [], ◌∷◌, ◌++◌, arith, any, member, str_eq_refl,
}
use p4p.Prelude.Dict.{Dict}
use p4p.Core.Manifest.{ModuleManifest}
use p4p.Core.Flow.Contract.{
  extend_contract, pilot_order_flow_extensions, payment_flow_extensions, first_payment_module_id,
  enabled_payment_flow_module_id, build_pilot_order_flow_contract, stock_flow_extension,
  payment_flow_extension, stock_payment_flow_extension,
}
use p4p.Core.Flow.Base.{
  FlowContract, FlowExtension, base_pilot_order_flow_contract, base_transitions,
}
use p4p.Core.Flow.Contract.Rules.{
  Adds, AllAdd, applied, allowed, permits, allowed-merged_transitions, extend_all-sorted_extensions,
}

-- The module of the list that takes the payment of an order is one of the list.
member-enabled_payment_flow_module_id :
    (catalog : Dict ModuleManifest) (enabled : List String) {m : String}
    → first_payment_module_id catalog enabled ≡ some m
    → member m enabled ≡ true
unfolding first_payment_module_id
member-enabled_payment_flow_module_id catalog [] h = ground arith
member-enabled_payment_flow_module_id catalog (i ∷ ids) {m} h =
    ground
      (arith, member-enabled_payment_flow_module_id catalog ids {m = m}, eq_iff m i, str_eq_refl m)

abbrev pub allows : Option String → String → FlowContract → Bool
allows previous next c = allowed c.transitions previous next

abbrev pub extension_permits : Option String → String → FlowExtension → Bool
extension_permits previous next e = permits e.add_transitions previous next

Adds-allows :
    (previous : Option String) (next : String) (e : FlowExtension)
    → e.replace_transitions ≡ []
    → Adds (allows previous next) (extension_permits previous next) e
unfolding extend_contract
Adds-allows previous next e plain c =
    rw plain (allowed-merged_transitions c.transitions e.add_transitions previous next)

AllAdd-allows :
    (previous : Option String) (next : String) (m : Option String)
    → AllAdd
        (allows previous next)
        (extension_permits previous next)
        (pilot_order_flow_extensions ++ payment_flow_extensions m)
AllAdd-allows previous next none = (Adds-allows previous next stock_flow_extension refl, tt)
AllAdd-allows previous next (some m) = (
  Adds-allows previous next stock_flow_extension refl,
  (
    Adds-allows previous next (payment_flow_extension m) refl,
    (Adds-allows previous next (stock_payment_flow_extension m) refl, tt),
  ),
)

abbrev pub IsTerminal : String → Type 0
IsTerminal last = (last ≡ "ORDER_NEEDS_HUMAN") ⊎ (last ≡ "PRINT_SUCCESS_CONFIRMED")

-- A reading of the built contract that the three extensions extend.
module _ (catalog : Dict ModuleManifest) (enabled : List String)
    (manifests : List ModuleManifest) where
  build-reading :
      (g : FlowContract → Bool) (h : FlowExtension → Bool)
      → ((m : Option String)
          → AllAdd g h (pilot_order_flow_extensions ++ payment_flow_extensions m))
      → g (build_pilot_order_flow_contract catalog enabled manifests) ≡ (
          g base_pilot_order_flow_contract
          || any (applied enabled g h) (
              pilot_order_flow_extensions
              ++ payment_flow_extensions
                  (enabled_payment_flow_module_id catalog enabled manifests)))
  unfolding build_pilot_order_flow_contract
  build-reading g h all =
      extend_all-sorted_extensions enabled g h
        (pilot_order_flow_extensions
          ++ payment_flow_extensions (enabled_payment_flow_module_id catalog enabled manifests))
        (all (enabled_payment_flow_module_id catalog enabled manifests))
        base_pilot_order_flow_contract

  -- A built contract allows exactly what the base contract or an extension that applies allows.
  pub build-allows :
      (previous : Option String) (next : String)
      → allowed
          (build_pilot_order_flow_contract catalog enabled manifests).transitions
          previous
          next
        ≡ (allowed base_transitions previous next
            || any (applied enabled (allows previous next) (extension_permits previous next)) (
                pilot_order_flow_extensions
                ++ payment_flow_extensions
                    (enabled_payment_flow_module_id catalog enabled manifests)))
  build-allows previous next =
      build-reading (allows previous next) (extension_permits previous next)
        (AllAdd-allows previous next)

  silent_after_human :
      (next : String) (m : Option String)
      → any
          (applied enabled
            (allows (some "ORDER_NEEDS_HUMAN") next)
            (extension_permits (some "ORDER_NEEDS_HUMAN") next))
          (pilot_order_flow_extensions ++ payment_flow_extensions m)
        ≡ false
  silent_after_human next none = ground arith
  silent_after_human next (some m) = ground arith

  silent_after_print :
      (next : String) (m : Option String)
      → any
          (applied enabled
            (allows (some "PRINT_SUCCESS_CONFIRMED") next)
            (extension_permits (some "PRINT_SUCCESS_CONFIRMED") next))
          (pilot_order_flow_extensions ++ payment_flow_extensions m)
        ≡ false
  silent_after_print next none = ground arith
  silent_after_print next (some m) = ground arith

  -- After `ORDER_NEEDS_HUMAN` or `PRINT_SUCCESS_CONFIRMED` a contract allows nothing.
  pub build_terminal :
      (last next : String)
      → IsTerminal last
      → allowed
          (build_pilot_order_flow_contract catalog enabled manifests).transitions
          (some last)
          next
        ≡ false
  build_terminal last next (inl e) = rw e (
      build-allows (some "ORDER_NEEDS_HUMAN") next
      ∙ silent_after_human next (enabled_payment_flow_module_id catalog enabled manifests))
  build_terminal last next (inr e) = rw e (
      build-allows (some "PRINT_SUCCESS_CONFIRMED") next
      ∙ silent_after_print next (enabled_payment_flow_module_id catalog enabled manifests))
