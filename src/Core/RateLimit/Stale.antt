-- ===== src/Core/RateLimit/Stale.antt =====
-- The cleanup of stale buckets.
use p4p.Prelude.{
  ℕ, ◌+◌, ◌≤◌, ◌≡◌, refl, ◌∙◌, arith, true, some, List, [], ◌∷◌, length, last?, Bool-cases, inl,
  inr, ◌⊎◌,
}
use p4p.Core.RateLimit.{is_stale, without_stale}
use p4p.Core.RateLimit.Window.{recent, Counts, Ordered, Ordered-until, recent-stale}

pub without_stale-cases :
    (interval now : ℕ) (times : List ℕ)
    → (without_stale interval now times ≡ times)
      ⊎ ((without_stale interval now times ≡ []) × (is_stale interval now times ≡ true))
without_stale-cases interval now times = elim (Bool-cases (is_stale interval now times)) [
  | inl h ↦ inr (rw h refl, h)
  | inr h ↦ inl (rw h refl)
]

last?-cons : (a : ℕ) (times : List ℕ) → (t : ℕ) × (last? (a ∷ times) ≡ some t)
last?-cons a [] = (a, refl)
last?-cons a (b ∷ times) = last?-cons b times

stale-last? :
    (interval now t : ℕ) (times : List ℕ)
    → last? times ≡ some t
    → is_stale interval now times ≡ true
    → t + interval ≤ now
stale-last? interval now t times h stale = ground (arith, h, stale)

stale-nothing :
    (window interval last now later : ℕ) (times : List ℕ)
    → window ≤ interval
    → now ≤ later
    → Ordered 0 times last
    → is_stale interval now times ≡ true
    → length (recent window later times) ≡ 0
stale-nothing window interval last now later [] w h ordered stale = refl
stale-nothing window interval last now later (a ∷ times) w h ordered stale =
    let (t, t_last) = last?-cons a times in
    recent-stale window later 0 last t (a ∷ times) ordered t_last
      (omega (arith, w, h, stale-last? interval now t (a ∷ times) t_last stale))

pub without_stale-Counts :
    (requests window interval last now : ℕ) (times through : List ℕ)
    → window ≤ interval
    → last ≤ now
    → Ordered 0 times last
    → Counts requests window last (times, through)
    → Counts requests window now (without_stale interval now times, through)
without_stale-Counts requests window interval last now times through w h ordered (same, few) =
    elim (without_stale-cases interval now times) [
      | inl kept ↦ rw kept (λ later g. same later (omega arith), few)
      | inr (gone, stale) ↦ rw gone (
        λ later g.
            same later (omega arith)
            ∙ stale-nothing window interval last now later times w g ordered stale,
        omega arith,
      )
    ]

pub without_stale-Ordered :
    (interval last now : ℕ) (times : List ℕ)
    → last ≤ now
    → Ordered 0 times last
    → Ordered 0 (without_stale interval now times) now
without_stale-Ordered interval last now times h ordered =
    elim (without_stale-cases interval now times) [
      | inl kept ↦ rw kept (Ordered-until 0 last now times h ordered)
      | inr (gone, stale) ↦ rw gone (omega arith)
    ]
