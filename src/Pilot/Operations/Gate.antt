-- ===== src/Pilot/Operations/Gate.antt =====
-- When the node takes an order, and which actions an operator can settle.
use p4p.Prelude.{
  String, ◌==◌, strip, ◌≡◌, refl, arith, Bool, true, false, not, ◌&&◌, ◌||◌, Option, none, some,
  member, [], ◌∷◌, Bool-cases, if◌then◌else◌, clash, ap, sym, ◌∙◌, inl, inr,
}
use p4p.Prelude.Dict.{get_or}
use p4p.Prelude.Result.{ok}
use p4p.Pilot.Order.{OrderRequest}
use p4p.Pilot.Config.{Config, World}
use p4p.Pilot.Store.{Store, Exec, unknown, OrderAction}
use p4p.Pilot.Store.Outbox.{find_action, order_actions, finish_order_action}
use p4p.Pilot.Lanes.Stock.{or_default}
use p4p.Pilot.Operations.{
  node_state, node_accepts_orders, live_blocked, order_rejected, public_order, Resolution,
  resolved_status, operator_resolve_order_action, resolve_found, or_404,
}

-- The mode that the node falls back to is not "live".
menu_only-live :
    {A : Type 0} (mode : String) → (if mode == "live" then "menu_only" else mode) ≡ "live" → A
menu_only-live mode h = elim (Bool-cases (mode == "live")) [
  | inl e ↦
      clash (ap (λ x. x == "live") (sym (ap (λ b. if b then "menu_only" else mode) e) ∙ h)) refl
  | inr e ↦ clash (ap (λ x. x == "live") (sym (ap (λ b. if b then "menu_only" else mode) e) ∙ h)) e
]

and-true : (b : Bool) → b ≡ (b && true && true)
and-true true = refl
and-true false = refl

gated :
    (mode : String) (a b c : Bool)
    → (if mode == "live" && not a && (b || c) then "menu_only" else mode) ≡ "live"
    → a ≡ false
    → (b ≡ false) × (c ≡ false)
gated mode true b c h k = absurd (ground arith)
gated mode false false false h k = (refl, refl)
gated mode false true c h k =
    menu_only-live mode (ap (λ b. if b then "menu_only" else mode) (and-true (mode == "live")) ∙ h)
gated mode false false true h k =
    menu_only-live mode (ap (λ b. if b then "menu_only" else mode) (and-true (mode == "live")) ∙ h)

module _ (config : Config) (world : World) where
  -- A node that takes no orders rejects each request, and nothing is written.
  pub public_order-gate :
      (i t : String) (p : OrderRequest) (s : Store)
      → node_accepts_orders config (node_state config s) ≡ false
      → (reason : String) × (public_order config world i t p s ≡ (ok (order_rejected reason), s))
  unfolding public_order node_accepts_orders
  public_order-gate i t p s h = elim (Bool-cases (node_state config s).is_open) [
    | inr closed ↦ ("closed", rw closed refl)
    | inl is_open ↦
        elim (Bool-cases (member (node_state config s).order_mode ("test" ∷ "live" ∷ []))) [
          | inl m ↦ absurd (ground (arith, h, is_open, m))
          | inr m ↦ ("orders_disabled", rw is_open (rw m refl))
        ]
  ]

  -- A node whose operator chose the mode "live" is live only if nothing blocks it and its setup is
  -- complete.
  pub node_state-live :
      (s : Store)
      → (strip (get_or "order_mode" s.state "") == "") ≡ false
      → (node_state config s).order_mode ≡ "live"
      → (live_blocked config ≡ false)
        × ((strip (get_or "setup_completed_at" s.state "") == "") ≡ false)
  unfolding node_state
  node_state-live s chosen h =
      gated (or_default (strip (get_or "order_mode" s.state "")) config.node_order_mode_default)
        (strip (get_or "order_mode" s.state "") == "") (live_blocked config)
        (strip (get_or "setup_completed_at" s.state "") == "") h chosen

resolve_found-unknown :
    (resolution : Resolution) (n : String) (a : OrderAction) (s : Store) {b : OrderAction}
    → (resolve_found resolution n a s).0 ≡ ok b
    → (a.status ≡ unknown) × (b.status ≡ resolved_status resolution)
unfolding finish_order_action
resolve_found-unknown resolution n a s h = (ground arith, ground arith)

or_404-some :
    {A B : Type 0} (f : B → Exec A) (o : Option B) (s : Store) {a : A}
    → (or_404 f o s).0 ≡ ok a
    → (b : B) × ((o ≡ some b) × ((f b s).0 ≡ ok a))
or_404-some f none s h = absurd (ground arith)
or_404-some f (some b) s h = (b, (refl, h))

-- An operator settles an action only if the order has it and its outcome is unknown; the action
-- then has the status that the operator gave.
pub operator_resolve_order_action-unknown :
    (order_id action_id : String) (resolution : Resolution) (n : String) (s : Store)
    {b : OrderAction}
    → (operator_resolve_order_action order_id action_id resolution n s).0 ≡ ok b
    → (a : OrderAction) × ((find_action action_id (order_actions order_id s) ≡ some a)
        × ((a.status ≡ unknown) × (b.status ≡ resolved_status resolution)))
unfolding operator_resolve_order_action
operator_resolve_order_action-unknown order_id action_id resolution n s h =
    let (a, (e, k)) =
      or_404-some (resolve_found resolution n) (find_action action_id (order_actions order_id s)) s
        h in
    (a, (e, resolve_found-unknown resolution n a s k))
