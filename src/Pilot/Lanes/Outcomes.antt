-- ===== src/Pilot/Lanes/Outcomes.antt =====
-- When an external payment module allows the next step.
use p4p.Prelude.{
  String, ◌≡◌, refl, sym, ap, ◌∙◌, arith, Bool, true, false, strip, Option, none, some,
}
use p4p.Prelude.Result.{Result, ok, err}
use p4p.Prelude.Dict.{Dict, get_or}
use p4p.Core.Event.{Value}
use p4p.Core.Manifest.{ModuleManifest}
use p4p.Pilot.Order.{StoredOrder}
use p4p.Pilot.Config.{
  Config, World, PaymentPayload, PostResult, request_failed, not_an_object, replied,
}
use p4p.Pilot.Store.{Store, Error}
use p4p.Pilot.Store.Yields.{Yields, Yields-bind, Yields-if}
use p4p.Pilot.Lanes.Common.{step_to}
use p4p.Pilot.Lanes.External.{
  conclude, run_external, external_payment_manifest, record_external_payment_failure,
  execute_external_payment_module, exchange, payment_url, confirm_payment, after_create,
  checked_exchange,
}
use p4p.Pilot.Lanes.Reply.{
  Exchange, crashed, confirmed_as, refused, changed, external_payment_url_error, after_confirm,
}

-- The lane's flag is this one.
abbrev pub Allows : Bool → StoredOrder × Bool → Type 0
Allows b r = r.1 ≡ b

flag : Bool → Result Error (StoredOrder × Bool) → Bool
flag default (ok r) = r.1
flag default (err x) = default

step_to-Allows : (o : StoredOrder) (m : String) (b : Bool) → Yields (Allows b) (step_to o m b)
unfolding flag
step_to-Allows o m b = Yields-bind (Allows b) _ _ λ u s r e. ap (flag b) (sym e)

module _ (config : Config) (world : World) where
  -- The payment service confirmed the payment: both calls succeeded, and the payload says so.
  abbrev pub confirms : Exchange → Bool
  confirms (crashed e) = false
  confirms (refused reason outcome retryable metadata) = false
  confirms (confirmed_as payload) = changed payload

  conclude-Allows :
      (o : StoredOrder) (id action_id key : String) (metadata : Dict Value) (x : Exchange)
      → Yields (Allows (confirms x)) (conclude config world o id action_id key metadata x)
  unfolding conclude record_external_payment_failure
  conclude-Allows o id action_id key metadata (crashed x) = λ s r e. absurd (ground arith)
  conclude-Allows o id action_id key metadata (refused reason outcome retryable extra) =
      Yields-bind _ _ _ λ _. Yields-bind _ _ _ λ _. step_to-Allows o _ _
  conclude-Allows o id action_id key metadata (confirmed_as payload) = Yields-bind _ _ _ λ _.
      Yields-if _ (changed payload) _ _ (λ b. Yields-bind _ _ _ λ _. rw b (step_to-Allows o _ _))
        (λ b. Yields-bind _ _ _ λ _. rw b (step_to-Allows o _ _))

  run_external-Allows :
      (o : StoredOrder) (id : String) (m : ModuleManifest)
      → Yields
          (Allows (confirms (exchange config world (payment_url config world m))))
          (run_external config world o id (some m))
  unfolding run_external
  run_external-Allows o id m =
      Yields-bind _ _ _
        λ amount. Yields-bind _ _ _ λ base. Yields-bind _ _ _ λ _. conclude-Allows o _ _ _ _ _

  -- The confirm call came back with a payload that says so.
  abbrev IsPaid : PostResult → Type 0
  IsPaid r = (paid : PaymentPayload) × ((r ≡ replied paid) × (changed paid ≡ true))

  confirms-after_confirm : (r : PostResult) → confirms (after_confirm r) ≡ true → IsPaid r
  confirms-after_confirm request_failed h = absurd (ground arith)
  confirms-after_confirm not_an_object h = absurd (ground arith)
  confirms-after_confirm (replied paid) h = (paid, (refl, h))

  confirms-confirm_payment :
      (url : String) (created : PaymentPayload)
      → confirms (confirm_payment config world url created) ≡ true
      → IsPaid (world.post_confirm url (strip (get_or "payment_id" created.fields "")))
  confirms-confirm_payment url created h =
      confirms-after_confirm
        (world.post_confirm url (strip (get_or "payment_id" created.fields ""))) (ground arith)

  -- Both calls came back with an object, and the second one says that the payment is made.
  abbrev pub IsExchanged : String → PostResult → Type 0
  IsExchanged url r =
      (created : PaymentPayload) × ((r ≡ replied created)
        × IsPaid (world.post_confirm url (strip (get_or "payment_id" created.fields ""))))

  confirms-after_create :
      (url : String) (r : PostResult)
      → confirms (after_create config world url r) ≡ true
      → (config.payment_external_auto_confirm ≡ true) × IsExchanged url r
  confirms-after_create url request_failed h = absurd (ground arith)
  confirms-after_create url not_an_object h = absurd (ground arith)
  confirms-after_create url (replied created) h =
      (ground arith, (created, (refl, confirms-confirm_payment url created (ground arith))))

  confirms-checked_exchange :
      (url : String) (problem : Result Error (Option String))
      → confirms (checked_exchange config world url problem) ≡ true
      → (problem ≡ ok none)
        × ((config.payment_external_auto_confirm ≡ true) × IsExchanged url (world.post_create url))
  confirms-checked_exchange url (err e) h = absurd (ground arith)
  confirms-checked_exchange url (ok (some reason)) h = absurd (ground arith)
  confirms-checked_exchange url (ok none) h =
      (refl, confirms-after_create url (world.post_create url) (ground arith))

  -- An external payment module, where it returns, allows the next step only if its URL is one that
  -- is allowed, the node confirms by itself, the create call and the confirm call both came back
  -- with an object, and the confirmed object says that the payment is made.
  pub execute_external_payment_module-allows :
      (o : StoredOrder) (id : String) (m : ModuleManifest) (s : Store) {r : StoredOrder × Bool}
      → external_payment_manifest config world id ≡ some m
      → (execute_external_payment_module config world o id s).0 ≡ ok r
      → r.1 ≡ true
      → (external_payment_url_error world (payment_url config world m) ≡ ok none)
        × ((config.payment_external_auto_confirm ≡ true)
            × IsExchanged
                (payment_url config world m)
                (world.post_create (payment_url config world m)))
  unfolding execute_external_payment_module exchange
  execute_external_payment_module-allows o id m s {r} e h k =
      let url = payment_url config world m in
      confirms-checked_exchange url (external_payment_url_error world url) (
        sym (
          run_external-Allows o id m s r
            (sym (ap (λ x. (run_external config world o id x s).0) e) ∙ h))
        ∙ k)
