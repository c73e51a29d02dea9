-- ===== src/Pilot/Modules/Payment.antt =====
-- Which payment module is in effect.
use p4p.Prelude.{
  String, ◌==◌, strip, ◌≡◌, refl, arith, true, Option, none, some, Bool-cases, Option-cases, inl,
  inr, ◌⊎◌,
}
use p4p.Prelude.Dict.{get_or}
use p4p.Core.Manifest.{ModuleManifest, get, module_is_payment}
use p4p.Pilot.Config.{Config}
use p4p.Pilot.Store.{Store}
use p4p.Pilot.Modules.{
  payment_only, payment_module_manifest, effective_payment_module_id, is_some,
  active_payment_module_state_key,
}

module _ (config : Config) where
  -- There is an enabled manifest for the id, and it takes payments.
  abbrev pub TakesPayments : String → Type 0
  TakesPayments id =
      (m : ModuleManifest) × ((payment_module_manifest config id ≡ some m)
        × (module_is_payment m ≡ true))

  payment_only-is_payment :
      (o : Option ModuleManifest) {m : ModuleManifest}
      → payment_only config o ≡ some m
      → module_is_payment m ≡ true
  payment_only-is_payment none h = absurd (ground arith)
  payment_only-is_payment (some m) h = ground arith

  manifest-is_payment :
      (id : String) {m : ModuleManifest}
      → payment_module_manifest config id ≡ some m
      → module_is_payment m ≡ true
  unfolding payment_module_manifest
  manifest-is_payment id {m} h = elim (Bool-cases (strip id == "")) [
    | inl b ↦ absurd (ground (arith, h, b))
    | inr b ↦
        payment_only-is_payment (get config.manifests (strip id)) {m = m} (ground (arith, h, b))
  ]

  takes_payments :
      (id : String) → is_some (payment_module_manifest config id) ≡ true → TakesPayments id
  takes_payments id h = elim (Option-cases (payment_module_manifest config id)) [
    | inl n ↦ absurd (ground (arith, h, n))
    | inr (m, e) ↦ (m, (e, manifest-is_payment id e))
  ]

  -- The payment module in effect is enabled and takes payments, or there is none: the persisted
  -- choice and the configured one count only if they do.
  pub effective_payment_module_id-TakesPayments :
      (s : Store)
      → (effective_payment_module_id config s ≡ "")
        ⊎ TakesPayments (effective_payment_module_id config s)
  unfolding effective_payment_module_id
  effective_payment_module_id-TakesPayments s =
      let persisted = strip (get_or active_payment_module_state_key s.state "") in
      let configured = strip config.payment_module_id in
      elim (Bool-cases (is_some (payment_module_manifest config persisted))) [
        | inl p ↦ inr (rw p (takes_payments persisted p))
        | inr p ↦ elim (Bool-cases (is_some (payment_module_manifest config configured))) [
          | inl c ↦ inr (rw p (rw c (takes_payments configured c)))
          | inr c ↦ inl (rw p (rw c refl))
        ]
      ]
