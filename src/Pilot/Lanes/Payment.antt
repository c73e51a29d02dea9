-- ===== src/Pilot/Lanes/Payment.antt =====
-- Which payment modules run, and the payment lane (`enabled_module_executors`,
-- `execute_module_lane`).
use p4p.Prelude.{
  String, ◌==◌, true, false, Bool, not, ◌&&◌, ◌||◌, none, some, List, [], ◌∷◌, ◌++◌, map, select,
  if◌then◌else◌,
}
use p4p.Core.Manifest.{ModuleManifest}
use p4p.Pilot.Order.{StoredOrder}
use p4p.Pilot.Config.{Config, World}
use p4p.Pilot.Store.{Store, Exec, pure, ◌>>=◌}
use p4p.Pilot.Modules.{module_enabled, effective_payment_module_id}
use p4p.Pilot.Lanes.Common.{payment_cash_module_id, godpay_mock_module_id}
use p4p.Pilot.Lanes.Cash.{execute_payment_cash_module}
use p4p.Pilot.Lanes.Godpay.{execute_godpay_mock_module}
use p4p.Pilot.Lanes.External.{
  external_payment_manifest, execute_external_payment_module, execute_unavailable_payment_module,
}

-- `ModuleExecutor.execute`: one of the two built-in functions, or the function for a module with
-- an entry point.
pub data Executor : Type 0 where
  cash godpay : Executor
  external : String → Executor

-- The two fields that tell the executors apart; every one of them is in the lane "payment".
pub record ModuleExecutor : Type 0 where
  pub module_id : String
  pub lane : String
  pub executor : Executor

abbrev pub executor : String → Executor → ModuleExecutor
executor id e = record { module_id = id; lane = "payment"; executor = e }

abbrev pub module_executors : List ModuleExecutor
module_executors = executor payment_cash_module_id cash ∷ executor godpay_mock_module_id godpay ∷ []

module _ (config : Config) (world : World) where
  abbrev has_external : ModuleManifest → Bool
  unfolding external_payment_manifest
  has_external m = elim (external_payment_manifest config world m.module_id) [
    | none ↦ false
    | some _ ↦ true
  ]

  unfoldable pub external_payment_executors : List ModuleExecutor
  unfolding external_payment_manifest
  external_payment_executors =
      map (λ (m : ModuleManifest). executor m.module_id (external m.module_id))
        (select has_external config.manifests)

  abbrev pub runs_in : String → Store → ModuleExecutor → Bool
  runs_in lane s e =
      let active = effective_payment_module_id config s in
      e.lane == lane
      && module_enabled config e.module_id
      && (not (lane == "payment") || active == "" || e.module_id == active)

  unfoldable pub enabled_module_executors : String → Store → List ModuleExecutor
  unfolding external_payment_executors
  enabled_module_executors lane s =
      select (runs_in lane s) (module_executors ++ external_payment_executors)

  unfoldable pub execute_module : Executor → StoredOrder → Exec (StoredOrder × Bool)
  unfolding execute_payment_cash_module execute_godpay_mock_module execute_external_payment_module
  execute_module cash order = execute_payment_cash_module config world order
  execute_module godpay order = execute_godpay_mock_module config world order
  execute_module (external id) order = execute_external_payment_module config world order id

  -- The executors in turn, until one does not allow the next step.
  unfoldable pub run_executors : List ModuleExecutor → StoredOrder → Exec (StoredOrder × Bool)
  unfolding execute_module
  run_executors [] order = pure (order, true)
  run_executors (e ∷ rest) order = do
    outcome ← execute_module e.executor order
    if outcome.1 then run_executors rest outcome.0 else pure (outcome.0, false)

  abbrev pub is_empty : List ModuleExecutor → Bool
  is_empty [] = true
  is_empty (_ ∷ _) = false

  unfoldable pub execute_module_lane : String → StoredOrder → Exec (StoredOrder × Bool)
  unfolding enabled_module_executors run_executors execute_unavailable_payment_module
  execute_module_lane lane order s =
      if lane == "payment"
        && not (effective_payment_module_id config s == "")
        && is_empty (enabled_module_executors lane s)
      then execute_unavailable_payment_module config world order s
      else run_executors (enabled_module_executors lane s) order s
