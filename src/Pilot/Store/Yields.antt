-- ===== src/Pilot/Store/Yields.antt =====
-- What holds of the value that code returns, where it returns one.
use p4p.Prelude.{◌≡◌, refl, arith, Bool, true, false, if◌then◌else◌}
use p4p.Prelude.Result.{Result, ok, err}
use p4p.Pilot.Store.{Store, Exec, Error, continue, ◌>>=◌}

abbrev pub Yields : {A : Type 0} → (A → Type 0) → Exec A → Type 0
Yields {A} P m = (s : Store) (a : A) → (m s).0 ≡ ok a → P a

yields-continue :
    {A B : Type 0} (P : B → Type 0) (r : Result Error A) (f : A → Exec B) (s : Store) (b : B)
    → ((a : A) → Yields P (f a))
    → (continue r f s).0 ≡ ok b
    → P b
yields-continue P (ok a) f s b h e = h a s b e
yields-continue P (err x) f s b h e = absurd (ground arith)

pub Yields-bind :
    {A B : Type 0} (P : B → Type 0) (m : Exec A) (f : A → Exec B)
    → ((a : A) → Yields P (f a))
    → Yields P (m >>= f)
unfolding ◌>>=◌
Yields-bind P m f h s b e = yields-continue P (m s).0 f (m s).1 b h e

-- What the test says may be used in each branch.
pub Yields-if :
    {A : Type 0} (P : A → Type 0) (b : Bool) (m n : Exec A)
    → (b ≡ true → Yields P m)
    → (b ≡ false → Yields P n)
    → Yields P (if b then m else n)
Yields-if P true m n h k = h refl
Yields-if P false m n h k = k refl
