-- ===== src/Policy/Changes.antt =====
-- What a change of the rules does to what they match: src/policy/engine/rules.rs.
use enclave.Common.{
  ℕ, ◌≡◌, refl, inl, inr, Bool, true, false, List, [], ◌∷◌, ◌++◌, Option, none, some, Text, arith,
  any, any-append, starts_with, starts_with-append, text_eq, text_eq_iff, text_eq_refl, Bool-cases,
  Option-cases,
}
use enclave.Policy.{
  PolicyRule, matches_pattern, matches_any, same_uid, strip_star, push_new, upsert_rules,
}
use enclave.Policy.Decision.{denies, allows}

same_uid_refl : (uid : Option ℕ) → same_uid uid uid ≡ true
same_uid_refl none = refl
same_uid_refl (some u) = ground arith

pub eq_of_same_uid : (u v : Option ℕ) → same_uid u v ≡ true → u ≡ v
eq_of_same_uid none none h = refl
eq_of_same_uid none (some v) h = cc
eq_of_same_uid (some u) none h = cc
eq_of_same_uid (some u) (some v) h = ground arith

strip_star-append : (s p : Text) → strip_star s ≡ some p → s ≡ p ++ b'*' ∷ []
unfolding strip_star
strip_star-append [] p h = cc
strip_star-append (c ∷ []) p h = ground arith
strip_star-append (c ∷ d ∷ s) p h = elim (Option-cases (strip_star (d ∷ s))) [
  | inl e ↦ absurd (ground arith)
  | inr (q, e) ↦ ground (arith, strip_star-append (d ∷ s) q e)
]

-- A pattern matches itself.
matches_pattern_refl : (s : Text) → matches_pattern s s ≡ true
unfolding matches_pattern
matches_pattern_refl s = elim (Option-cases (strip_star s)) [
  | inl e ↦ ground (arith, text_eq_refl s)
  | inr (p, e) ↦
      let q = strip_star-append s p e in
      let r : starts_with s p ≡ true = rw q (starts_with-append p (b'*' ∷ [])) in ground arith
]

abbrev pub named : Text → List Text → Bool
named x xs = any (λ y. text_eq y x) xs

matches_any_of_named : (x : Text) (xs : List Text) → named x xs ≡ true → matches_any xs x ≡ true
matches_any_of_named x [] h = cc
matches_any_of_named x (y ∷ xs) h = elim (Bool-cases (text_eq y x)) [
  | inl e ↦ let q = matches_pattern_refl x in let p = (text_eq_iff y x).0 e in ground arith
  | inr e ↦ ground (arith, matches_any_of_named x xs)
]

matches_any-push_new : (x : Text) (xs : List Text) → matches_any (push_new x xs) x ≡ true
unfolding push_new
matches_any-push_new x xs = elim (Bool-cases (named x xs)) [
  | inl e ↦ ground (arith, matches_any_of_named x xs e)
  | inr e ↦
      ground (
        arith,
        any-append (λ pattern. matches_pattern pattern x) xs (x ∷ []),
        matches_pattern_refl x,
      )
]

-- The rule of the uid that an allow or a deny is added to matches the action from then on.
pub denies-upsert :
    (uid : Option ℕ) (action : Text) (rules : List PolicyRule)
    → any (denies uid action) (upsert_rules uid action false rules) ≡ true
unfolding upsert_rules
denies-upsert uid action [] = ground (arith, same_uid_refl uid, matches_pattern_refl action)
denies-upsert uid action (rule ∷ rules) = elim (Bool-cases (same_uid rule.uid uid)) [
  | inl e ↦ ground (arith, matches_any-push_new action rule.deny)
  | inr e ↦ ground (arith, denies-upsert uid action rules)
]

pub allows-upsert :
    (uid : Option ℕ) (action : Text) (rules : List PolicyRule)
    → any (allows uid action) (upsert_rules uid action true rules) ≡ true
unfolding upsert_rules
allows-upsert uid action [] = ground (arith, same_uid_refl uid, matches_pattern_refl action)
allows-upsert uid action (rule ∷ rules) = elim (Bool-cases (same_uid rule.uid uid)) [
  | inl e ↦ ground (arith, matches_any-push_new action rule.allow)
  | inr e ↦ ground (arith, allows-upsert uid action rules)
]

-- Rules of other uids are left alone.
module _ (uid other : Option ℕ) (action b : Text) (is_allow : Bool)
    (ne : same_uid uid other ≡ false) where
  pub denies-upsert_other :
      (rules : List PolicyRule)
      → any (denies other b) (upsert_rules uid action is_allow rules) ≡ any (denies other b) rules
  unfolding upsert_rules
  denies-upsert_other [] = ground arith
  denies-upsert_other (rule ∷ rules) = elim (Bool-cases (same_uid rule.uid uid)) [
    | inl e ↦ let q = eq_of_same_uid rule.uid uid e in ground arith
    | inr e ↦ ground (arith, denies-upsert_other rules)
  ]

  pub allows-upsert_other :
      (rules : List PolicyRule)
      → any (allows other b) (upsert_rules uid action is_allow rules) ≡ any (allows other b) rules
  unfolding upsert_rules
  allows-upsert_other [] = ground arith
  allows-upsert_other (rule ∷ rules) = elim (Bool-cases (same_uid rule.uid uid)) [
    | inl e ↦ let q = eq_of_same_uid rule.uid uid e in ground arith
    | inr e ↦ ground (arith, allows-upsert_other rules)
  ]
