-- ===== src/Policy/Invariant.antt =====
-- The shape of the rule list that the commands keep: src/policy/engine/rules.rs.
use enclave.Common.{
  ℕ, ◌≡◌, refl, inl, inr, Bool, true, false, not, ◌&&◌, ◌||◌, List, [], ◌∷◌, Option, none, some,
  Text, arith, any, filter, any-append, text_eq, text_eq_iff, text_eq_refl, Bool-cases, Result, ok,
  err,
}
use enclave.Policy.{
  PolicyRule, Policy, same_uid, push_new, retain_other, amend, upsert_rules, upsert_rule,
  add_allow_rule, add_deny_rule, set_default_allow, clear_rules, PolicyError,
}
use enclave.Policy.Changes.{named, eq_of_same_uid}
use enclave.Policy.Effects.{upsert_rule-ok}

abbrev has_uid : Option ℕ → List PolicyRule → Bool
has_uid uid rules = any (λ rule. same_uid rule.uid uid) rules

-- One rule to a uid, and no text in both lists of a rule.
abbrev pub IsTidy : List PolicyRule → Type 0
IsTidy [] = Unit
IsTidy (rule ∷ rules) =
    (has_uid rule.uid rules ≡ false)
    × ((x : Text) → (named x rule.allow && named x rule.deny) ≡ false)
    × IsTidy rules

named-push_new :
    (x a : Text) (xs : List Text) → named x (push_new a xs) ≡ (named x xs || text_eq a x)
unfolding push_new
named-push_new x a xs = elim (Bool-cases (named a xs)) [
  | inl e ↦ elim (Bool-cases (text_eq a x)) [
    | inl f ↦ let q = (text_eq_iff a x).0 f in ground arith
    | inr f ↦ ground arith
  ]
  | inr e ↦ ground (arith, any-append (λ y. text_eq y x) xs (a ∷ []))
]

named-retain_other :
    (x a : Text) (xs : List Text) → named x (retain_other a xs) ≡ (named x xs && not (text_eq a x))
unfolding retain_other
named-retain_other x a [] = refl
named-retain_other x a (y ∷ xs) = elim (Bool-cases (text_eq y a)) [
  | inl e ↦ let q = (text_eq_iff y a).0 e in ground (arith, named-retain_other x a xs)
  | inr e ↦ elim (Bool-cases (text_eq y x)) [
    | inl f ↦
        let q = (text_eq_iff y x).0 f in
        let n : text_eq a x ≡ false = ground (arith, text_eq_iff a x, text_eq_refl x) in
        ground (arith, named-retain_other x a xs)
    | inr f ↦ ground (arith, named-retain_other x a xs)
  ]
]

amend-disjoint :
    (a x : Text) (is_allow : Bool) (rule : PolicyRule)
    → (named x rule.allow && named x rule.deny) ≡ false
    → (named x (amend a is_allow rule).allow && named x (amend a is_allow rule).deny) ≡ false
unfolding amend
amend-disjoint a x true rule h =
    ground (arith, named-push_new x a rule.allow, named-retain_other x a rule.deny)
amend-disjoint a x false rule h =
    ground (arith, named-push_new x a rule.deny, named-retain_other x a rule.allow)

has_uid-upsert :
    (uid other : Option ℕ) (a : Text) (is_allow : Bool) (rules : List PolicyRule)
    → has_uid other (upsert_rules uid a is_allow rules)
      ≡ (has_uid other rules || same_uid uid other)
unfolding upsert_rules
has_uid-upsert uid other a true [] = ground arith
has_uid-upsert uid other a false [] = ground arith
has_uid-upsert uid other a is_allow (rule ∷ rules) = elim (Bool-cases (same_uid rule.uid uid)) [
  | inl e ↦ let q = eq_of_same_uid rule.uid uid e in ground arith
  | inr e ↦ ground (arith, has_uid-upsert uid other a is_allow rules)
]

amend-uid :
    (a : Text) (is_allow : Bool) (rule : PolicyRule) → (amend a is_allow rule).uid ≡ rule.uid
unfolding amend
amend-uid a true rule = refl
amend-uid a false rule = refl

same_uid_comm : (u v : Option ℕ) → same_uid u v ≡ same_uid v u
same_uid_comm none none = refl
same_uid_comm none (some v) = refl
same_uid_comm (some u) none = refl
same_uid_comm (some u) (some v) = ground arith

upsert_rules-IsTidy :
    (uid : Option ℕ) (a : Text) (is_allow : Bool) (rules : List PolicyRule)
    → IsTidy rules
    → IsTidy (upsert_rules uid a is_allow rules)
unfolding upsert_rules
upsert_rules-IsTidy uid a true [] t = (refl, λ x. ground arith, tt)
upsert_rules-IsTidy uid a false [] t = (refl, λ x. ground arith, tt)
upsert_rules-IsTidy uid a is_allow (rule ∷ rules) t = elim (Bool-cases (same_uid rule.uid uid)) [
  | inl e ↦
      rw e (rw (amend-uid a is_allow rule) t.0, λ x. amend-disjoint a x is_allow rule (t.1 x), t.2)
  | inr e ↦ rw e (
    ground (arith, has_uid-upsert uid rule.uid a is_allow rules, same_uid_comm uid rule.uid),
    t.1,
    upsert_rules-IsTidy uid a is_allow rules t.2,
  )
]

filter-has_uid :
    (uid : Option ℕ) (p : PolicyRule → Bool) (rules : List PolicyRule)
    → has_uid uid rules ≡ false
    → has_uid uid (filter p rules) ≡ false
filter-has_uid uid p [] h = refl
filter-has_uid uid p (rule ∷ rules) h = ground (arith, filter-has_uid uid p rules)

filter-IsTidy :
    (p : PolicyRule → Bool) (rules : List PolicyRule) → IsTidy rules → IsTidy (filter p rules)
filter-IsTidy p [] t = tt
filter-IsTidy p (rule ∷ rules) t = elim (Bool-cases (p rule)) [
  | inl e ↦ rw e (filter-has_uid rule.uid p rules t.0, t.1, filter-IsTidy p rules t.2)
  | inr e ↦ rw e (filter-IsTidy p rules t.2)
]

-- A history of the commands that change the rules; one that is refused changes nothing.
pub data Command : Type 0 where
  allow deny : Option ℕ → Text → Command
  clear : Option ℕ → Command
  set_default : Bool → Command

abbrev kept_on_error : Policy → Result PolicyError Policy → Policy
kept_on_error policy (ok changed) = changed
kept_on_error policy (err e) = policy

abbrev command : Policy → Command → Policy
command policy (allow uid action) = kept_on_error policy (add_allow_rule uid action policy)
command policy (deny uid action) = kept_on_error policy (add_deny_rule uid action policy)
command policy (clear uid) = clear_rules uid policy
command policy (set_default b) = set_default_allow b policy

abbrev pub commands : Policy → List Command → Policy
commands policy [] = policy
commands policy (c ∷ cs) = commands (command policy c) cs

kept-IsTidy :
    (uid : Option ℕ) (a : Text) (is_allow : Bool) (policy : Policy) (r : Result PolicyError Policy)
    → upsert_rule uid a is_allow policy ≡ r
    → IsTidy policy.rules
    → IsTidy (kept_on_error policy r).rules
kept-IsTidy uid a is_allow policy (err e) h t = t
kept-IsTidy uid a is_allow policy (ok changed) h t =
    rw (upsert_rule-ok uid a is_allow policy changed h)
      (upsert_rules-IsTidy uid a is_allow policy.rules t)

add_allow_rule_lem :
    (uid : Option ℕ) (a : Text) (policy : Policy)
    → upsert_rule uid a true policy ≡ add_allow_rule uid a policy
unfolding add_allow_rule
add_allow_rule_lem uid a policy = refl

add_deny_rule_lem :
    (uid : Option ℕ) (a : Text) (policy : Policy)
    → upsert_rule uid a false policy ≡ add_deny_rule uid a policy
unfolding add_deny_rule
add_deny_rule_lem uid a policy = refl

command-IsTidy :
    (policy : Policy) (c : Command) → IsTidy policy.rules → IsTidy (command policy c).rules
unfolding clear_rules set_default_allow
command-IsTidy policy (allow uid a) t =
    kept-IsTidy uid a true policy _ (add_allow_rule_lem uid a policy) t
command-IsTidy policy (deny uid a) t =
    kept-IsTidy uid a false policy _ (add_deny_rule_lem uid a policy) t
command-IsTidy policy (clear none) t = tt
command-IsTidy policy (clear (some uid)) t = filter-IsTidy _ policy.rules t
command-IsTidy policy (set_default b) t = t

-- However a tidy policy is changed by the commands, it holds at most one
-- rule for a uid and one for everybody, and no rule both allows and denies the same pattern.
pub commands-IsTidy :
    (policy : Policy) (cs : List Command) → IsTidy policy.rules → IsTidy (commands policy cs).rules
commands-IsTidy policy [] t = t
commands-IsTidy policy (c ∷ cs) t =
    commands-IsTidy (command policy c) cs (command-IsTidy policy c t)
