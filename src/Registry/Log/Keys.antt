-- ===== src/Registry/Log/Keys.antt =====
-- Keys of records, and how a record is found and changed.
use mathlib.Core.Path.{subst}
use p4p.Prelude.{
  String, ◌≡◌, refl, ap, sym, ◌∙◌, arith, true, false, List, [], ◌∷◌, any, eq_iff, str_eq_refl,
  Bool-cases, inl, inr, clash,
}
use p4p.Registry.Identity.{
  NodeIdentityRecord, RecordKey, record_key, same_record_key, change_record, change_if,
}
use p4p.Registry.Validation.Log.{has_key}
use p4p.Registry.Log.{count_key}

named : String → String → RecordKey
named node_id key = record { node_id = node_id; node_public_key = key }

pub same_record_key_eq : (a b : RecordKey) → same_record_key a b ≡ true → a ≡ b
unfolding named
same_record_key_eq a b h =
    ap (λ x. named x a.node_public_key) ((eq_iff a.node_id b.node_id).0 (ground (arith, h)))
    ∙ ap (named b.node_id) ((eq_iff a.node_public_key b.node_public_key).0 (ground (arith, h)))

pub same_record_key_refl : (a : RecordKey) → same_record_key a a ≡ true
same_record_key_refl a = rw (str_eq_refl a.node_id) (rw (str_eq_refl a.node_public_key) refl)

-- A change that leaves the key alone.
abbrev pub KeepsKey : (NodeIdentityRecord → NodeIdentityRecord) → Type 0
KeepsKey f = (r : NodeIdentityRecord) → record_key (f r) ≡ record_key r

module _ (f : NodeIdentityRecord → NodeIdentityRecord) (keeps : KeepsKey f) (k : RecordKey) where
  record_key-change_if : (r : NodeIdentityRecord) → record_key (change_if k f r) ≡ record_key r
  record_key-change_if r = elim (Bool-cases (same_record_key (record_key r) k)) [
    | inl own ↦ rw own (keeps r)
    | inr other ↦ rw other refl
  ]

  pub has_key-change_if :
      (j : RecordKey) (r : NodeIdentityRecord) → has_key j (change_if k f r) ≡ has_key j r
  has_key-change_if j r = ap (λ i. same_record_key i j) (record_key-change_if r)

  pub any-change_record :
      (j : RecordKey) (rs : List NodeIdentityRecord)
      → any (has_key j) (change_record k f rs) ≡ any (has_key j) rs
  unfolding change_record
  any-change_record j [] = refl
  any-change_record j (r ∷ rs) = rw (has_key-change_if j r) (rw (any-change_record j rs) refl)

  pub count_key-change_record :
      (j : RecordKey) (rs : List NodeIdentityRecord)
      → count_key j (change_record k f rs) ≡ count_key j rs
  unfolding change_record
  count_key-change_record j [] = refl
  count_key-change_record j (r ∷ rs) = elim (Bool-cases (has_key j r)) [
    | inl own ↦ rw (has_key-change_if j r) (rw own (omega (arith, count_key-change_record j rs)))
    | inr other ↦ rw (has_key-change_if j r) (rw other (count_key-change_record j rs))
  ]

pub same_record_key_sym :
    (a b : RecordKey) → same_record_key a b ≡ false → same_record_key b a ≡ false
same_record_key_sym a b h = elim (Bool-cases (same_record_key b a)) [
  | inl same ↦
      clash
        (subst (λ k. same_record_key a k ≡ true) (sym (same_record_key_eq b a same))
          (same_record_key_refl a))
        h
  | inr other ↦ other
]
