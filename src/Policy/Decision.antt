-- ===== src/Policy/Decision.antt =====
-- How a policy decides: src/policy/engine/decision.rs.
use mathlib.Core.Path.{ap₂}
use mathlib.Core.Logic.{∥∥₁_elim}
use mathlib.Core.List.{Perm, Permᴰ}
use enclave.Common.{
  ℕ, ◌≡◌, refl, sym, ap, ◌∙◌, Bool, true, false, ◌&&◌, ◌||◌, List, [], ◌∷◌, Option, none, some,
  Text, arith, any, filter, any-filter, if◌then◌else◌,
}
use enclave.Policy.{
  PolicyRule, Policy, matches_any, group_from, evaluate_rule_group, evaluate_policy_decision,
  same_uid,
}

-- What a group of rules says, without the order: a deny beats an allow.
abbrev pub verdict : Bool → Bool → Option Bool
verdict denies allows = if denies then some false else if allows then some true else none

abbrev pub denies : Option ℕ → Text → PolicyRule → Bool
denies uid action rule = same_uid rule.uid uid && matches_any rule.deny action

abbrev pub allows : Option ℕ → Text → PolicyRule → Bool
allows uid action rule = same_uid rule.uid uid && matches_any rule.allow action

group_from_lem :
    (action : Text) (matched : Bool) (rules : List PolicyRule)
    → group_from action matched rules
      ≡ verdict
          (any (λ r. matches_any r.deny action) rules)
          (matched || any (λ r. matches_any r.allow action) rules)
unfolding group_from
group_from_lem action true [] = refl
group_from_lem action false [] = refl
group_from_lem action matched (rule ∷ rules) =
    ground (arith, group_from_lem action (matches_any rule.allow action || matched) rules)

evaluate_rule_group_lem :
    (uid : Option ℕ) (action : Text) (rules : List PolicyRule)
    → evaluate_rule_group (filter (λ rule. same_uid rule.uid uid) rules) action
      ≡ verdict (any (denies uid action) rules) (any (allows uid action) rules)
unfolding evaluate_rule_group
evaluate_rule_group_lem uid action rules =
    group_from_lem action false (filter (λ rule. same_uid rule.uid uid) rules)
    ∙ ap₂ verdict (any-filter _ _ rules) (any-filter _ _ rules)

-- A decision of the first group stands; otherwise the second decides.
abbrev pub first_decision : Option Bool → Option Bool → Option Bool
first_decision (some d) other = some d
first_decision none other = other

-- The decision is: deny if a rule of the uid denies the action, else allow if one allows it, else
-- deny if a rule for everybody denies it, else allow if one allows it, else none.
pub evaluate_policy_decision_lem :
    (policy : Policy) (uid : ℕ) (action : Text)
    → evaluate_policy_decision policy uid action
      ≡ first_decision
          (verdict
            (any (denies (some uid) action) policy.rules)
            (any (allows (some uid) action) policy.rules))
          (verdict (any (denies none action) policy.rules) (any (allows none action) policy.rules))
unfolding evaluate_policy_decision
evaluate_policy_decision_lem policy uid action = ground (
  arith,
  evaluate_rule_group_lem (some uid) action policy.rules,
  evaluate_rule_group_lem none action policy.rules,
)

any-permᴰ : (p : PolicyRule → Bool) {xs ys : List PolicyRule} → Permᴰ xs ys → any p xs ≡ any p ys
any-permᴰ p Permᴰ.nil = refl
any-permᴰ p (Permᴰ.cons e d) = ap₂ ◌||◌ (ap p e) (any-permᴰ p d)
any-permᴰ p (Permᴰ.swap {a} {b} {a' = a'} {b' = b'} {l = l} e f) = ground (arith, ap p e, ap p f)
any-permᴰ p (Permᴰ.trans d d') = any-permᴰ p d ∙ any-permᴰ p d'

same_decision :
    (rules rules' : List PolicyRule) (version version' : ℕ) (default default' : Bool) (uid : ℕ)
    (action : Text)
    → Permᴰ rules rules'
    → evaluate_policy_decision
        (record { version = version; default_allow = default; rules = rules })
        uid
        action
      ≡ evaluate_policy_decision
          (record { version = version'; default_allow = default'; rules = rules' })
          uid
          action
same_decision rules rules' version version' default default' uid action d =
    evaluate_policy_decision_lem _ uid action
    ∙ ap₂ first_decision
        (ap₂ verdict (any-permᴰ (denies (some uid) action) d)
          (any-permᴰ (allows (some uid) action) d))
        (ap₂ verdict (any-permᴰ (denies none action) d) (any-permᴰ (allows none action) d))
    ∙ sym (evaluate_policy_decision_lem _ uid action)

Option_Bool_set : IsSet (Option Bool)
Option_Bool_set = hlevel

-- The decision does not depend on the order of the rules.
pub decision-perm :
    (policy : Policy) (rules : List PolicyRule) (uid : ℕ) (action : Text)
    → Perm policy.rules rules
    → evaluate_policy_decision policy uid action
      ≡ evaluate_policy_decision (record policy { rules = rules }) uid action
decision-perm policy rules uid action p = ∥∥₁_elim p (Option_Bool_set _ _) (
    same_decision policy.rules rules policy.version policy.version policy.default_allow
      policy.default_allow uid action)
