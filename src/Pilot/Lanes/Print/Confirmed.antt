-- ===== src/Pilot/Lanes/Print/Confirmed.antt =====
-- When the event that the print lane builds says that a print is confirmed.
use p4p.Prelude.{
  String, ◌==◌, ◌≡◌, refl, arith, Bool, true, false, clash, if◌then◌else◌, sym, ap, ◌∙◌, Bool-cases,
  inl, inr, member, [], ◌∷◌,
}
use p4p.Prelude.Dict.{Dict}
use p4p.Core.Event.{Value}
use p4p.Pilot.Order.{StoredOrder}
use p4p.Pilot.Config.{Config, World}
use p4p.Pilot.Record.{EventArgs}
use p4p.Pilot.Print.Adapter.{PrintAdapter, PrintAdapterDecision, printer, screen, target_id, decide}
use p4p.Pilot.Print.Driver.{PrintDriver, PrintDriverResult, deliver}
use p4p.Pilot.Print.Sensor.{PrintSensorObservation}
use p4p.Prelude.{strip, lower}
use p4p.Pilot.Lanes.Print.Events.{
  no_problem, precheck_problem, precheck_metadata, after_delivery, concluded, decided,
  result_metadata, build_print_precheck_event, build_print_postcheck_event,
  build_print_result_event,
}
use p4p.Pilot.Lanes.Print.{print_result_args, printed}

-- The reading shows no problem on a printer; a screen has no sensor.
abbrev pub clear : PrintAdapter → PrintSensorObservation → Bool
clear screen seen = true
clear printer seen = member seen.state ("" ∷ "ok" ∷ "confirmed" ∷ [])

abbrev pub is_confirmed : EventArgs → Bool
is_confirmed a = a.event == "PRINT_SUCCESS_CONFIRMED"

precheck_problem-confirmed :
    (o : StoredOrder) (state : String) (m : Dict Value)
    → is_confirmed (precheck_problem o state m) ≡ false
precheck_problem-confirmed o state m = elim (Bool-cases (state == "paper_out")) [
  | inl a ↦ rw a refl
  | inr a ↦ elim (Bool-cases (state == "paper_low")) [
    | inl b ↦ rw a (rw b refl)
    | inr b ↦ elim (Bool-cases (member state ("offline" ∷ "printer_offline" ∷ []))) [
      | inl c ↦ rw a (rw b (rw c refl))
      | inr c ↦ rw a (rw b (rw c refl))
    ]
  ]
]

build_print_precheck_event-confirmed :
    (o : StoredOrder) (adapter : PrintAdapter) (seen : PrintSensorObservation) (base : Dict Value)
    (result : EventArgs)
    → is_confirmed (printed result (build_print_precheck_event adapter seen o base)) ≡ true
    → (is_confirmed result ≡ true) × (clear adapter seen ≡ true)
unfolding build_print_precheck_event
build_print_precheck_event-confirmed o screen seen base result h = (h, refl)
build_print_precheck_event-confirmed o printer seen base result h =
    elim (Bool-cases (no_problem seen.state)) [
      | inl b ↦ (ground arith, b)
      | inr b ↦ absurd (
          ground
            (arith, precheck_problem-confirmed o seen.state (precheck_metadata printer seen base)))
    ]

after_delivery-failed :
    (o : StoredOrder) (adapter : PrintAdapter) (driver : PrintDriver)
    (seen : PrintSensorObservation) (d : PrintAdapterDecision) (m : Dict Value)
    (r : PrintDriverResult)
    → r.success ≡ false
    → is_confirmed (after_delivery adapter driver seen o d m r) ≡ false
after_delivery-failed o adapter driver seen d m r e = rw e refl

after_delivery-problem :
    (o : StoredOrder) (driver : PrintDriver) (seen : PrintSensorObservation)
    (d : PrintAdapterDecision) (m : Dict Value) (r : PrintDriverResult)
    → r.success ≡ true
    → no_problem seen.state ≡ false
    → is_confirmed (after_delivery printer driver seen o d m r) ≡ false
unfolding build_print_postcheck_event
after_delivery-problem o driver seen d m r e p = rw e (rw p refl)

after_delivery-confirmed :
    (o : StoredOrder) (adapter : PrintAdapter) (driver : PrintDriver)
    (seen : PrintSensorObservation) (d : PrintAdapterDecision) (m : Dict Value)
    (r : PrintDriverResult)
    → is_confirmed (after_delivery adapter driver seen o d m r) ≡ true
    → (r.success ≡ true) × (clear adapter seen ≡ true)
after_delivery-confirmed o adapter driver seen d m r h = elim (Bool-cases r.success) [
  | inr e ↦ clash h (after_delivery-failed o adapter driver seen d m r e)
  | inl e ↦ (e, go adapter h e)
]
  where
    go :
        (adapter : PrintAdapter)
        → is_confirmed (after_delivery adapter driver seen o d m r) ≡ true
        → r.success ≡ true
        → clear adapter seen ≡ true
    go screen h e = refl
    go printer h e = elim (Bool-cases (no_problem seen.state)) [
      | inl p ↦ p
      | inr p ↦ clash h (after_delivery-problem o driver seen d m r e p)
    ]

module _ (config : Config) (world : World) where
  concluded-confirmed :
      (o : StoredOrder) (adapter : PrintAdapter) (driver : PrintDriver)
      (seen : PrintSensorObservation) (d : PrintAdapterDecision) (m : Dict Value)
      → is_confirmed (concluded config world adapter driver seen o d m) ≡ true
      → ((d.event == "PRINT_SUCCESS_CONFIRMED") ≡ true)
        × (((deliver config world driver (target_id adapter) o).success ≡ true)
            × (clear adapter seen ≡ true))
  concluded-confirmed o adapter driver seen d m h =
      elim (Bool-cases (d.event == "PRINT_SUCCESS_CONFIRMED")) [
        | inl e ↦ (
          e,
          after_delivery-confirmed o adapter driver seen d m
              (deliver config world driver (target_id adapter) o)
              (sym (
                  ap
                    (λ b. is_confirmed (
                      if b
                      then after_delivery adapter driver seen o d m
                          (deliver config world driver (target_id adapter) o)
                      else decided o d m))
                    e)
                ∙ h),
        )
        | inr e ↦ clash h (
            ap
              (λ b. is_confirmed (
                if b
                then after_delivery adapter driver seen o d m
                    (deliver config world driver (target_id adapter) o)
                else decided o d m))
              e
            ∙ e)
      ]

  pub print_result_args-confirmed :
      (o : StoredOrder) (adapter : PrintAdapter) (driver : PrintDriver)
      (before after : PrintSensorObservation) (base : Dict Value)
      → is_confirmed (print_result_args config world o adapter driver before after base) ≡ true
      → (((decide adapter (lower (strip config.print_module_mode))).event
            == "PRINT_SUCCESS_CONFIRMED")
          ≡ true)
        × (((deliver config world driver (target_id adapter) o).success ≡ true)
            × ((clear adapter before ≡ true) × (clear adapter after ≡ true)))
  unfolding build_print_result_event build_print_precheck_event print_result_args
  print_result_args-confirmed o adapter driver before after base h =
      let mode = lower (strip config.print_module_mode) in
      let (result, was_clear) =
        build_print_precheck_event-confirmed o adapter before base
          (build_print_result_event config world adapter driver mode after o base) h in
      let (mode_confirms, (delivered, is_clear)) =
        concluded-confirmed o adapter driver after (decide adapter mode)
          (result_metadata adapter driver mode after base (decide adapter mode).metadata) result in
      (mode_confirms, (delivered, (was_clear, is_clear)))
