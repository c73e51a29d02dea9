-- ===== src/Pilot/Lanes/Decisions/Payments.antt =====
-- What the built-in payment modules decide, and the events that they record.
use p4p.Prelude.{
  ℕ, ◌==◌, ◌≡◌, refl, sym, arith, Bool, false, strip, lower, none, some, [], ◌∷◌, ◌≤◌, leb→le,
  le→leb, inl, inr, ◌⊎◌, clash,
}
use p4p.Prelude.Result.{ok}
use p4p.Pilot.Order.{StoredOrder}
use p4p.Pilot.Config.{Config, World}
use p4p.Pilot.Store.{Store}
use p4p.Pilot.Store.Adds.{Adds, Adds-after, Adds-if}
use p4p.Pilot.Record.Names.{Adds-emit}
use p4p.Pilot.Lanes.Cash.{cash_mode, cash_fails, execute_payment_cash_module}
use p4p.Pilot.Lanes.Godpay.{godpay_roll, godpay_accepts, execute_godpay_mock_module}
use p4p.Pilot.Lanes.Decisions.{
  Adds-step_to, Quiet-update_order_payment_method, Quiet-order_amount, Decides, goes_on, stops,
  Decided, Decided-Added,
}

module _ (config : Config) where
  -- The configured mode is none of those that fail.
  abbrev pub IsPayable : Type 0
  IsPayable =
      ((lower (strip config.payment_cash_mode) == "failed") ≡ false)
      × (((lower (strip config.payment_cash_mode) == "unavailable") ≡ false)
          × ((lower (strip config.payment_cash_mode) == "payment_failed") ≡ false))

  cash_fails-IsPayable : cash_fails config ≡ false → IsPayable
  unfolding cash_fails cash_mode
  cash_fails-IsPayable h = (ground arith, (ground arith, ground arith))

  IsPayable-cash_fails : IsPayable → cash_fails config ≡ false
  unfolding cash_fails cash_mode
  IsPayable-cash_fails (a, (b, d)) = ground (arith, a, b, d)

module _ (config : Config) (world : World) where
  -- The roll is the one that the configuration forces, or the one that is drawn for the order.
  abbrev pub Rolls : StoredOrder → ℕ → Type 0
  Rolls o n =
      (config.godpay_force_roll ≡ some n)
      ⊎ ((config.godpay_force_roll ≡ none) × (n ≡ world.godpay_draw o.order_id))

  godpay_roll-Rolls : (o : StoredOrder) (n : ℕ) → Rolls o n → godpay_roll config world o ≡ n
  unfolding godpay_roll
  godpay_roll-Rolls o n (inl h) = rw h refl
  godpay_roll-Rolls o n (inr (h, e)) = rw h (sym e)

  execute_payment_cash_module-Decides :
      (o : StoredOrder)
      → Adds
          (Decides
            (IsPayable config)
            ("PAYMENT_REQUIRED" ∷ "PAYMENT_MODE_CHANGED" ∷ [])
            ("PAYMENT_REQUIRED" ∷ "PAYMENT_FAILED" ∷ "ORDER_NEEDS_HUMAN" ∷ []))
          (execute_payment_cash_module config world o)
  unfolding execute_payment_cash_module
  execute_payment_cash_module-Decides o =
      Adds-after _ _ _ (λ s. refl) (λ x. tt)
        λ base.
          Adds-emit config world _ _ _ (λ x. tt)
            λ e.
              Adds-if _ (cash_fails config) _ _
                (λ b.
                  Adds-emit config world _ _ _ (λ x. tt)
                    λ e2.
                      Adds-emit config world _ _ _ (λ x. tt)
                        λ e3.
                          Adds-step_to _ o _ _ (λ x. tt)
                            λ u.
                              stops (IsPayable config) _ _ u
                                λ good. clash b (IsPayable-cash_fails config good))
                (λ b.
                  Adds-emit config world _ _ _ (λ x. tt)
                    λ e2.
                      Adds-step_to _ o _ _ (λ x. tt)
                        λ u. goes_on (IsPayable config) _ _ u (cash_fails-IsPayable config b))

  execute_godpay_mock_module-Decides :
      (o : StoredOrder) (n : ℕ)
      → Rolls o n
      → Adds
          (Decides
            (n ≤ config.godpay_success_threshold)
            ("PAYMENT_REQUIRED" ∷ "PAYMENT_MODE_CHANGED" ∷ [])
            ("PAYMENT_REQUIRED" ∷ "PAYMENT_FAILED" ∷ "ORDER_NEEDS_HUMAN" ∷ []))
          (execute_godpay_mock_module config world o)
  unfolding execute_godpay_mock_module godpay_accepts
  execute_godpay_mock_module-Decides o n h =
      let roll = godpay_roll-Rolls o n h in
      Adds-after _ _ _ (Quiet-order_amount o) (λ x. tt)
        λ amount.
          Adds-after _ _ _ (λ s. refl) (λ x. tt)
            λ base.
              Adds-emit config world _ _ _ (λ x. tt)
                λ e.
                  Adds-if _ (godpay_accepts config world o) _ _
                    (λ b.
                      Adds-emit config world _ _ _ (λ x. tt)
                        λ e2.
                          Adds-after _ _ _ (Quiet-update_order_payment_method _ _) (λ x. tt)
                            λ u.
                              Adds-step_to _ o _ _ (λ x. tt)
                                λ v.
                                  goes_on (n ≤ config.godpay_success_threshold) _ _ v
                                    (leb→le n config.godpay_success_threshold (rw (sym roll) b)))
                    (λ b.
                      Adds-emit config world _ _ _ (λ x. tt)
                        λ e2.
                          Adds-emit config world _ _ _ (λ x. tt)
                            λ e3.
                              Adds-step_to _ o _ _ (λ x. tt)
                                λ u. stops (n ≤ config.godpay_success_threshold) _ _ u λ good.
                                  clash (le→leb n config.godpay_success_threshold good)
                                    (rw (sym roll) b))

  -- Where the cash module returns: it allows the next step, the configured mode is not failed,
  -- unavailable or payment_failed, and it recorded PAYMENT_REQUIRED and then PAYMENT_MODE_CHANGED;
  -- or it does not allow it, the mode is one of those, and it recorded PAYMENT_REQUIRED,
  -- PAYMENT_FAILED and ORDER_NEEDS_HUMAN.
  pub execute_payment_cash_module-decides :
      (o : StoredOrder) (s : Store) {r : StoredOrder × Bool}
      → (execute_payment_cash_module config world o s).0 ≡ ok r
      → Decided
          (IsPayable config)
          ("PAYMENT_REQUIRED" ∷ "PAYMENT_MODE_CHANGED" ∷ [])
          ("PAYMENT_REQUIRED" ∷ "PAYMENT_FAILED" ∷ "ORDER_NEEDS_HUMAN" ∷ [])
          s
          (execute_payment_cash_module config world o s).1
          r
  execute_payment_cash_module-decides o s h =
      Decided-Added _ _ _ s (execute_payment_cash_module config world o s)
        ((execute_payment_cash_module-Decides o).run s) h

  -- Where the mock payment returns, with `n` the roll that is forced or else drawn: it allows the
  -- next step, `n` is not above the threshold, and it recorded PAYMENT_REQUIRED and then
  -- PAYMENT_MODE_CHANGED; or it does not allow it, `n` is above the threshold, and it recorded
  -- PAYMENT_REQUIRED, PAYMENT_FAILED and ORDER_NEEDS_HUMAN.
  pub execute_godpay_mock_module-decides :
      (o : StoredOrder) (n : ℕ) (s : Store) {r : StoredOrder × Bool}
      → Rolls o n
      → (execute_godpay_mock_module config world o s).0 ≡ ok r
      → Decided
          (n ≤ config.godpay_success_threshold)
          ("PAYMENT_REQUIRED" ∷ "PAYMENT_MODE_CHANGED" ∷ [])
          ("PAYMENT_REQUIRED" ∷ "PAYMENT_FAILED" ∷ "ORDER_NEEDS_HUMAN" ∷ [])
          s
          (execute_godpay_mock_module config world o s).1
          r
  execute_godpay_mock_module-decides o n s roll h =
      Decided-Added _ _ _ s (execute_godpay_mock_module config world o s)
        ((execute_godpay_mock_module-Decides o n roll).run s) h
