-- ===== src/Pilot/Store/Adds.antt =====
-- The names of the events that code appends to the log, with what it returns.
use p4p.Prelude.{
  String, List, [], ◌∷◌, ◌++◌, map, ◌≡◌, refl, sym, ap, ◌∙◌, Bool, true, false, if◌then◌else◌, All,
}
use mathlib.Core.List.{append-nil, append_assoc}
use p4p.Prelude.Result.{Result, ok, err}
use p4p.Core.Flow.Validate.{event_name}
use p4p.Pilot.Store.{Store, Exec, Error, continue, ◌>>=◌}

abbrev pub event_names : Store → List String
event_names s = map event_name s.order_events

-- What is returned and the names that are appended, related by `Q`.
abbrev pub Added :
    {A : Type 0} → (Result Error A → List String → Type 0) → Store → Result Error A × Store → Type 0
Added Q s p = (new : List String) × ((event_names p.1 ≡ event_names s ++ new) × Q p.0 new)

pub record Adds {A : Type 0} (Q : Result Error A → List String → Type 0) (m : Exec A) : Type 0 where
  pub run : (s : Store) → Added Q s (m s)

-- The log stays as it is.
abbrev pub Quiet : {A : Type 0} → Exec A → Type 0
Quiet m = (s : Store) → event_names (m s).1 ≡ event_names s

-- Code that runs after names were appended.
pub Added-then :
    {A : Type 0} (Q : Result Error A → List String → Type 0) (s t : Store) (names : List String)
    (m : Exec A)
    → event_names t ≡ event_names s ++ names
    → Adds (λ r more. Q r (names ++ more)) m
    → Added Q s (m t)
Added-then Q s t names m h k =
    let (more, (e, q)) = k.run t in
    (names ++ more, (e ∙ (ap (λ l. l ++ more) h ∙ append_assoc (event_names s) names more), q))

pub Added-continue :
    {A B : Type 0} (Q : Result Error B → List String → Type 0) (s t : Store) (r : Result Error A)
    (f : A → Exec B)
    → event_names t ≡ event_names s
    → ((x : Error) → Q (err x) [])
    → ((a : A) → r ≡ ok a → Adds Q (f a))
    → Added Q s (continue r f t)
Added-continue Q s t (ok a) f h k g =
    Added-then Q s t [] (f a) (h ∙ sym (append-nil (event_names s))) (g a refl)
Added-continue Q s t (err x) f h k g = ([], (h ∙ sym (append-nil (event_names s)), k x))

Added-assoc :
    {A B D : Type 0} (Q : Result Error D → List String → Type 0) (s t : Store) (r : Result Error A)
    (g : A → Exec B) (f : B → Exec D)
    → Added Q s (continue r (λ a. g a >>= f) t)
    → Added Q s (continue (continue r g t).0 f (continue r g t).1)
unfolding ◌>>=◌
Added-assoc Q s t (ok a) g f h = h
Added-assoc Q s t (err x) g f h = h

pub Adds-assoc :
    {A B D : Type 0} (Q : Result Error D → List String → Type 0) (m : Exec A) (g : A → Exec B)
    (f : B → Exec D)
    → Adds Q (m >>= λ a. g a >>= f)
    → Adds Q (m >>= g >>= f)
unfolding ◌>>=◌
Adds-assoc Q m g f h = record { run = λ s. Added-assoc Q s (m s).1 (m s).0 g f (h.run s) }

pub Adds-Quiet :
    {A : Type 0} (Q : Result Error A → List String → Type 0) (m : Exec A)
    → Quiet m
    → ((r : Result Error A) → Q r [])
    → Adds Q m
Adds-Quiet Q m h q = record { run = λ s. ([], (h s ∙ sym (append-nil (event_names s)), q (m s).0)) }

-- After code that appends nothing.
pub Adds-after :
    {A B : Type 0} (Q : Result Error B → List String → Type 0) (m : Exec A) (f : A → Exec B)
    → Quiet m
    → ((x : Error) → Q (err x) [])
    → ((a : A) → Adds Q (f a))
    → Adds Q (m >>= f)
unfolding ◌>>=◌
Adds-after Q m f h k g = record {
  run = λ s. Added-continue Q s (m s).1 (m s).0 f (h s) k λ a e. g a;
}

-- What the test says may be used in each branch.
pub Adds-if :
    {A : Type 0} (Q : Result Error A → List String → Type 0) (b : Bool) (m n : Exec A)
    → (b ≡ true → Adds Q m)
    → (b ≡ false → Adds Q n)
    → Adds Q (if b then m else n)
Adds-if Q true m n h k = h refl
Adds-if Q false m n h k = k refl

pub Adds-map :
    {A : Type 0} (P Q : Result Error A → List String → Type 0) (m : Exec A)
    → ((r : Result Error A) (new : List String) → P r new → Q r new)
    → Adds P m
    → Adds Q m
Adds-map P Q m f h = record {
  run = λ s. let (new, (e, p)) = h.run s in (new, (e, f (m s).0 new p));
}

-- Of the names that the code appends, the one that is given comes only where `C` holds.
abbrev pub Guards : {A : Type 0} → String → Type 0 → Exec A → Type 0
Guards {A} name C m =
    Adds (λ (r : Result Error A) (new : List String). All (λ n. n ≡ name → C) new) m

pub Guards-more :
    {A : Type 0} (name : String) (C : Type 0) (n : String) (m : Exec A)
    → (n ≡ name → C)
    → Guards name C m
    → Adds (λ r more. All (λ n. n ≡ name → C) (n ∷ more)) m
Guards-more name C n m h g = Adds-map _ _ m (λ r new all. (h, all)) g

All-append : {A : Type 0} (P : A → Type 0) (xs ys : List A) → All P xs → All P ys → All P (xs ++ ys)
All-append P [] ys h k = k
All-append P (x ∷ xs) ys (p, h) k = (p, All-append P xs ys h k)

Guards-continue :
    {A B : Type 0} (name : String) (C : Type 0) (s t : Store) (new : List String)
    (r : Result Error A) (f : A → Exec B)
    → event_names t ≡ event_names s ++ new
    → All (λ n. n ≡ name → C) new
    → ((a : A) → Guards name C (f a))
    → Added (λ q more. All (λ n. n ≡ name → C) more) s (continue r f t)
Guards-continue name C s t new (ok a) f e all g =
    Added-then (λ q more. All (λ n. n ≡ name → C) more) s t new (f a) e
      (Adds-map _ _ (f a) (λ r more rest. All-append _ new more all rest) (g a))
Guards-continue name C s t new (err x) f e all g = (new, (e, all))

pub Guards-bind :
    {A B : Type 0} (name : String) (C : Type 0) (m : Exec A) (f : A → Exec B)
    → Guards name C m
    → ((a : A) → Guards name C (f a))
    → Guards name C (m >>= f)
unfolding ◌>>=◌
Guards-bind name C m f h g = record {
  run =
      λ s. let (new, (e, all)) = h.run s in Guards-continue name C s (m s).1 new (m s).0 f e all g;
}

pub Guards-Quiet :
    {A : Type 0} (name : String) (C : Type 0) (m : Exec A) → Quiet m → Guards name C m
Guards-Quiet name C m h = Adds-Quiet _ m h λ r. tt
