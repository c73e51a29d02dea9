-- ===== src/Core/Flow/Contract/Rules.antt =====
-- What the contract of a set of enabled modules allows, in closed form: the base contract's rules
-- and those of each extension that applies, whatever the order of the extensions.
use p4p.Prelude.{
  String, eq_iff, ◌≡◌, refl, ap, ◌∙◌, ◌↔◌, Bool, true, false, ◌&&◌, ◌||◌, Option, none, some, List,
  [], ◌∷◌, ◌++◌, arith, any, member, member-append, Bool-cases, inl, inr, if◌then◌else◌,
}
use p4p.Core.Flow.Contract.{
  merged_transitions, extend_contract, insert_extension, sorted_extensions, extend_all,
}
use p4p.Core.Flow.Base.{
  Transitions, key_eq, rule, set_rule, rule_or_empty, FlowContract, FlowExtension, applies_to,
}

key_eq_iff : (a b : Option String) → (key_eq a b ≡ true) ↔ (a ≡ b)
key_eq_iff none none = ground arith
key_eq_iff none (some b) = ground arith
key_eq_iff (some a) none = ground arith
key_eq_iff (some a) (some b) = ground (arith, eq_iff a b)

rule-set_rule :
    (k j : Option String) (ns : List String) (t : Transitions)
    → rule j (set_rule k ns t) ≡ (if key_eq k j then some ns else rule j t)
rule-set_rule k j ns [] = refl
rule-set_rule k j ns ((i, ms) ∷ t) =
    ground (arith, key_eq_iff k j, key_eq_iff i k, key_eq_iff i j, rule-set_rule k j ns t)

-- May `next` follow `previous` under these rules?
abbrev pub allowed : Transitions → Option String → String → Bool
allowed t previous next = member next (rule_or_empty (rule previous t))

-- Does some added rule allow it?
abbrev pub permits : Transitions → Option String → String → Bool
permits [] previous next = false
permits ((k, ns) ∷ t) previous next =
    (key_eq k previous && member next ns) || permits t previous next

allowed-set_rule :
    (t : Transitions) (k previous : Option String) (ns : List String) (next : String)
    → allowed (set_rule k (rule_or_empty (rule k t) ++ ns) t) previous next
      ≡ (allowed t previous next || (key_eq k previous && member next ns))
allowed-set_rule t k previous ns next = elim (Bool-cases (key_eq k previous)) [
  | inl e ↦
      rw (rule-set_rule k previous (rule_or_empty (rule k t) ++ ns) t, e)
        (rw (member-append next (rule_or_empty (rule k t)) ns, (key_eq_iff k previous).0 e))
  | inr e ↦ rw (rule-set_rule k previous (rule_or_empty (rule k t) ++ ns) t, e) (ground arith)
]

-- The merge adds exactly the rules that are given.
pub allowed-merged_transitions :
    (t additions : Transitions) (previous : Option String) (next : String)
    → allowed (merged_transitions t additions) previous next
      ≡ (allowed t previous next || permits additions previous next)
unfolding merged_transitions
allowed-merged_transitions t [] previous next = ground arith
allowed-merged_transitions t ((k, ns) ∷ additions) previous next =
    allowed-merged_transitions (set_rule k (rule_or_empty (rule k t) ++ ns) t) additions previous
      next
    ∙ rw (allowed-set_rule t k previous ns next) (ground arith)

-- What an extension adds to a Boolean reading `g` of the contract.
module _ (g : FlowContract → Bool) (h : FlowExtension → Bool) where
  abbrev pub Adds : FlowExtension → Type 0
  Adds e = (c : FlowContract) → g (extend_contract c e) ≡ (g c || h e)

  abbrev pub AllAdd : List FlowExtension → Type 0
  AllAdd [] = Unit
  AllAdd (e ∷ es) = Adds e × AllAdd es

  AllAdd-insert_extension :
      (x : FlowExtension) (es : List FlowExtension)
      → Adds x
      → AllAdd es
      → AllAdd (insert_extension x es)
  unfolding insert_extension
  AllAdd-insert_extension x [] a _ = (a, tt)
  AllAdd-insert_extension x (y ∷ ys) a (b, bs) = ground (arith, AllAdd-insert_extension x ys a bs)

  AllAdd-sorted_extensions : (es : List FlowExtension) → AllAdd es → AllAdd (sorted_extensions es)
  unfolding sorted_extensions
  AllAdd-sorted_extensions [] _ = tt
  AllAdd-sorted_extensions (x ∷ xs) (a, rest) =
      AllAdd-insert_extension x (sorted_extensions xs) a (AllAdd-sorted_extensions xs rest)

module _ (enabled : List String) (g : FlowContract → Bool) (h : FlowExtension → Bool) where
  -- The extension applies, and adds to the reading.
  abbrev pub applied : FlowExtension → Bool
  applied e = applies_to enabled e && h e

  extend_all-adds :
      (es : List FlowExtension)
      → AllAdd g h es
      → (c : FlowContract) → g (extend_all enabled c es) ≡ (g c || any applied es)
  unfolding extend_all
  extend_all-adds [] a c = ground arith
  extend_all-adds (e ∷ es) (first, others) c =
      ground (
        arith,
        extend_all-adds es others (extend_contract c e),
        extend_all-adds es others c,
        first c,
      )

  any-insert_extension :
      (x : FlowExtension) (es : List FlowExtension)
      → any applied (insert_extension x es) ≡ (applied x || any applied es)
  unfolding insert_extension
  any-insert_extension x [] = refl
  any-insert_extension x (y ∷ ys) = ground (arith, any-insert_extension x ys)

  any-sorted_extensions :
      (es : List FlowExtension) → any applied (sorted_extensions es) ≡ any applied es
  unfolding sorted_extensions
  any-sorted_extensions [] = refl
  any-sorted_extensions (x ∷ xs) =
      any-insert_extension x (sorted_extensions xs)
      ∙ ap (λ b. applied x || b) (any-sorted_extensions xs)

  -- The order in which the extensions are applied does not matter to such a reading.
  pub extend_all-sorted_extensions :
      (es : List FlowExtension)
      → AllAdd g h es
      → (c : FlowContract)
      → g (extend_all enabled c (sorted_extensions es)) ≡ (g c || any applied es)
  extend_all-sorted_extensions es all c =
      extend_all-adds (sorted_extensions es) (AllAdd-sorted_extensions g h es all) c
      ∙ ap (λ b. g c || b) (any-sorted_extensions es)
