-- ===== src/Registry/Requests.antt =====
-- What a request keeps, and what its acceptance tells of its checks.
use p4p.Prelude.{ℕ, ◌≡◌, refl, arith, Bool-cases, inl, inr}
use p4p.Prelude.Result.{ok, err}
use p4p.Registry.Node.{Node}
use p4p.Registry.Store.{Outside, HttpException, Checked, RegistryStore}
use p4p.Registry.Validation.{is_signed}
use p4p.Registry.Recording.{record_signed_identity}
use p4p.Registry.Operations.{Request, checked}

-- A property of the store that a request keeps where its checks accept it.
pub checked-keeps {ℓ} :
    {A : Type 0} (P : RegistryStore → Type ℓ) (check : Checked) (act : Request A)
    (s : RegistryStore)
    → P s
    → (check ≡ ok tt → P (act s).1)
    → P (checked check act s).1
checked-keeps P (err e) act s kept acts = kept
checked-keeps P (ok u) act s kept acts = acts refl

-- What the checks and the state after it tell of an accepted request.
pub checked-accepts :
    {A : Type 0} (check : Checked) (act : Request A) (s : RegistryStore) {a : A}
    → (checked check act s).0 ≡ ok a
    → (check ≡ ok tt) × ((checked check act s).1 ≡ (act s).1)
checked-accepts (err e) act s h = absurd (ground (arith, h))
checked-accepts (ok u) act s h = (refl, refl)

module _ (outside : Outside) (now : ℕ) (node : Node) (s : RegistryStore) where
  pub nodes-recorded : (record_signed_identity outside now node s).nodes ≡ s.nodes
  unfolding record_signed_identity
  nodes-recorded = elim (Bool-cases (is_signed node)) [
    | inl signed ↦ rw signed refl
    | inr unsigned ↦ rw unsigned refl
  ]

  pub manifests-recorded :
      (record_signed_identity outside now node s).node_manifests ≡ s.node_manifests
  unfolding record_signed_identity
  manifests-recorded = elim (Bool-cases (is_signed node)) [
    | inl signed ↦ rw signed refl
    | inr unsigned ↦ rw unsigned refl
  ]

-- Where the checks do not accept a request, it gives an exception and changes nothing.
pub checked-refuses :
    {A : Type 0} (check : Checked) (act : Request A) (s : RegistryStore)
    → ¬ (check ≡ ok tt)
    → (e : HttpException) × (checked check act s ≡ (err e, s))
checked-refuses (err e) act s refused = (e, refl)
checked-refuses (ok u) act s refused = absurd (refused refl)
