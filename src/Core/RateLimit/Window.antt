-- ===== src/Core/RateLimit/Window.antt =====
-- The requests on one bucket, and the times of them that count.
use p4p.Prelude.{
  ℕ, ◌+◌, ◌≤◌, ◌≡◌, refl, ap, sym, ◌∙◌, arith, not, List, [], ◌∷◌, ◌++◌, length, length-append,
  select, select-append, last?, some, leb, ltb, Bool-cases, inl, inr, if◌then◌else◌,
}
use p4p.Core.RateLimit.{expire, admit}

-- A request: the bucket, and the times of all requests that were let through so far.
unfoldable pub admit_next : ℕ → ℕ → ℕ → List ℕ × List ℕ → List ℕ × List ℕ
unfolding admit
admit_next requests window now (times, through) =
    let (next, allowed) = admit requests window now times in
    (next, (if allowed then through ++ now ∷ [] else through))

-- The times that lie in the window that ends at this time.
abbrev pub recent : ℕ → ℕ → List ℕ → List ℕ
recent window now = select (λ t. not (leb (t + window) now))

recent-expire :
    (window now later : ℕ) (times : List ℕ)
    → now ≤ later
    → recent window later (expire window now times) ≡ recent window later times
unfolding expire
recent-expire window now later [] h = refl
recent-expire window now later (t ∷ times) h =
    ground (arith, recent-expire window now later times h)

pub length-expire :
    (window now : ℕ) (times : List ℕ) → length (expire window now times) ≤ length times
unfolding expire
length-expire window now [] = omega arith
length-expire window now (t ∷ times) = ground (arith, length-expire window now times)

-- The bucket has what counts of the requests that were let through, from this time on.
abbrev pub Counts : ℕ → ℕ → ℕ → List ℕ × List ℕ → Type 0
Counts requests window last (times, through) =
    ((now : ℕ) → last ≤ now → length (recent window now through) ≡ length (recent window now times))
    × (length times ≤ requests)

append-counts :
    (window now later : ℕ) (times through : List ℕ)
    → length (recent window later through) ≡ length (recent window later times)
    → length (recent window later (through ++ now ∷ []))
      ≡ length (recent window later (times ++ now ∷ []))
append-counts window now later times through h =
    rw (select-append (λ t. not (leb (t + window) later)) through (now ∷ [])) (
      rw (select-append (λ t. not (leb (t + window) later)) times (now ∷ [])) (
        rw (length-append (recent window later through) (recent window later (now ∷ []))) (
          rw (length-append (recent window later times) (recent window later (now ∷ [])))
            (rw h refl))))

pub admit_next-Counts :
    (requests window last now : ℕ) (state : List ℕ × List ℕ)
    → last ≤ now
    → Counts requests window last state
    → Counts requests window now (admit_next requests window now state)
unfolding admit_next admit
admit_next-Counts requests window last now (times, through) h (same, few) =
    elim (Bool-cases (ltb (length (expire window now times)) requests)) [
      | inl free ↦ rw free (
        λ later g.
            append-counts window now later (expire window now times) through
              (same later (omega arith) ∙ sym (ap length (recent-expire window now later times g))),
        ground (
          arith,
          length-append (expire window now times) (now ∷ []),
          length-expire window now times,
        ),
      )
      | inr full ↦ rw full (
        λ later g.
            same later (omega arith) ∙ sym (ap length (recent-expire window now later times g)),
        omega (arith, length-expire window now times),
      )
    ]

-- The times come in order, from the first number to the second.
abbrev pub Ordered : ℕ → List ℕ → ℕ → Type 0
Ordered first [] last = first ≤ last
Ordered first (now ∷ later) last = (first ≤ now) × Ordered now later last

Ordered-from :
    (first second last : ℕ) (times : List ℕ)
    → first ≤ second
    → Ordered second times last
    → Ordered first times last
Ordered-from first second last [] h ordered = omega arith
Ordered-from first second last (t ∷ times) h (g, ordered) = (omega arith, ordered)

pub Ordered-until :
    (first last now : ℕ) (times : List ℕ)
    → last ≤ now
    → Ordered first times last
    → Ordered first times now
Ordered-until first last now [] h ordered = omega arith
Ordered-until first last now (t ∷ times) h (g, ordered) =
    (g, Ordered-until t last now times h ordered)

Ordered-append :
    (first now : ℕ) (times : List ℕ)
    → Ordered first times now
    → Ordered first (times ++ now ∷ []) now
Ordered-append first now [] ordered = (ordered, omega arith)
Ordered-append first now (t ∷ times) (g, ordered) = (g, Ordered-append t now times ordered)

pub expire-Ordered :
    (window now first last : ℕ) (times : List ℕ)
    → Ordered first times last
    → Ordered first (expire window now times) last
unfolding expire
expire-Ordered window now first last [] ordered = ordered
expire-Ordered window now first last (t ∷ times) (g, ordered) = ground (
  arith,
  g,
  ordered,
  Ordered-from first t last (expire window now times) g
      (expire-Ordered window now t last times ordered),
)

pub admit_next-Ordered :
    (requests window last now : ℕ) (state : List ℕ × List ℕ)
    → last ≤ now
    → Ordered 0 state.0 last
    → Ordered 0 (admit_next requests window now state).0 now
unfolding admit_next admit
admit_next-Ordered requests window last now (times, through) h ordered =
    elim (Bool-cases (ltb (length (expire window now times)) requests)) [
      | inl free ↦ rw free (
          Ordered-append 0 now (expire window now times) (
            Ordered-until 0 last now (expire window now times) h
              (expire-Ordered window now 0 last times ordered)))
      | inr full ↦ rw full (
          Ordered-until 0 last now (expire window now times) h
            (expire-Ordered window now 0 last times ordered))
    ]

Ordered-last? :
    (first last t : ℕ) (times : List ℕ)
    → Ordered first times last
    → last? times ≡ some t
    → first ≤ t
Ordered-last? first last t [] ordered h = absurd (ground (arith, h))
Ordered-last? first last t (a ∷ []) (g, ordered) h = ground (arith, g, h)
Ordered-last? first last t (a ∷ b ∷ times) (g, ordered) h =
    omega (arith, g, Ordered-last? a last t (b ∷ times) ordered h)

recent-cons :
    (window later t : ℕ) (times : List ℕ)
    → t + window ≤ later
    → length (recent window later (t ∷ times)) ≡ length (recent window later times)
recent-cons window later t times h = ground (arith, h)

-- Nothing of a bucket whose last time is stale counts any more.
pub recent-stale :
    (window later first last t : ℕ) (times : List ℕ)
    → Ordered first times last
    → last? times ≡ some t
    → t + window ≤ later
    → length (recent window later times) ≡ 0
recent-stale window later first last t [] ordered h stale = refl
recent-stale window later first last t (a ∷ []) ordered h stale =
    recent-cons window later a [] (ground (arith, h, stale))
recent-stale window later first last t (a ∷ b ∷ times) (g, ordered) h stale =
    recent-cons window later a (b ∷ times)
      (omega (arith, stale, Ordered-last? a last t (b ∷ times) ordered h))
    ∙ recent-stale window later a last t (b ∷ times) ordered h stale
