-- ===== src/Prelude/Sorted.antt =====
-- Python's `sorted`, by a key whose strict order is given.
use mathlib.Core.Path.{◌≡◌, refl}
use mathlib.Core.Bool.{Bool}
use mathlib.Core.List.{List, [], ◌∷◌}
use native.Mathlib.Omega.{arith}
use p4p.Prelude.Tests.{Bool-cases, if◌then◌else◌}
use p4p.Prelude.Lists.{All, any, length, select}
use mathlib.Core.Logic.{inl, inr}

module _ {ℓ} {A : Type ℓ} (before : A → A → Bool) where
  abbrev pub insert_by : A → List A → List A
  insert_by x [] = x ∷ []
  insert_by x (y ∷ ys) = if before y x then y ∷ insert_by x ys else x ∷ y ∷ ys

  abbrev pub sorted_by : List A → List A
  sorted_by [] = []
  sorted_by (x ∷ xs) = insert_by x (sorted_by xs)

  All-insert_by {κ} :
      (P : A → Type κ) (x : A) (xs : List A) → P x → All P xs → All P (insert_by x xs)
  All-insert_by P x [] p h = (p, tt)
  All-insert_by P x (y ∷ ys) p (q, h) = elim (Bool-cases (before y x)) [
    | inl later ↦ rw later (q, All-insert_by P x ys p h)
    | inr first ↦ rw first (p, (q, h))
  ]

  pub All-sorted_by {κ} : (P : A → Type κ) (xs : List A) → All P xs → All P (sorted_by xs)
  All-sorted_by P [] h = tt
  All-sorted_by P (x ∷ xs) (p, h) = All-insert_by P x (sorted_by xs) p (All-sorted_by P xs h)

  count-insert_by :
      (p : A → Bool) (x : A) (xs : List A)
      → length (select p (insert_by x xs)) ≡ length (select p (x ∷ xs))
  count-insert_by p x [] = refl
  count-insert_by p x (y ∷ ys) = ground (arith, count-insert_by p x ys)

  -- Sorting keeps how many satisfy a test.
  pub count-sorted_by :
      (p : A → Bool) (xs : List A) → length (select p (sorted_by xs)) ≡ length (select p xs)
  count-sorted_by p [] = refl
  count-sorted_by p (x ∷ xs) =
      ground (arith, count-insert_by p x (sorted_by xs), count-sorted_by p xs)

  any-insert_by : (p : A → Bool) (x : A) (xs : List A) → any p (insert_by x xs) ≡ any p (x ∷ xs)
  any-insert_by p x [] = refl
  any-insert_by p x (y ∷ ys) = ground (arith, any-insert_by p x ys)

  pub any-sorted_by : (p : A → Bool) (xs : List A) → any p (sorted_by xs) ≡ any p xs
  any-sorted_by p [] = refl
  any-sorted_by p (x ∷ xs) = ground (arith, any-insert_by p x (sorted_by xs), any-sorted_by p xs)
