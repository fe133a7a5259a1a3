-- ===== src/Policy/Effects.antt =====
-- What the commands that change the policy do to its decisions: src/policy/engine/rules.rs.
use enclave.Common.{
  ℕ, ◌≡◌, ◌≢◌, refl, ap, ◌∙◌, inl, inr, Bool, true, false, not, ◌&&◌, List, [], ◌∷◌, Option, none,
  some, Text, arith, any, filter, if◌then◌else◌, ◌==◌, Bool-cases, ok,
}
use enclave.Policy.{
  PolicyRule, Policy, matches_any, evaluate_policy_decision, same_uid, upsert_rules, upsert_rule,
  add_allow_rule, add_deny_rule, clear_rules,
}
use enclave.Policy.Decision.{verdict, denies, allows, evaluate_policy_decision_lem}
use enclave.Policy.Changes.{
  denies-upsert, allows-upsert, denies-upsert_other, allows-upsert_other, eq_of_same_uid,
}

pub upsert_rule-ok :
    (uid : Option ℕ) (action : Text) (is_allow : Bool) (policy changed : Policy)
    → upsert_rule uid action is_allow policy ≡ ok changed
    → changed ≡ record policy { rules = upsert_rules uid action is_allow policy.rules }
unfolding upsert_rule
upsert_rule-ok uid action is_allow policy changed h = ground arith

-- After a deny rule for a uid is added, that uid is refused the action, whatever else the policy
-- says.
pub add_deny_rule-denies :
    (uid : ℕ) (action : Text) (policy changed : Policy)
    → add_deny_rule (some uid) action policy ≡ ok changed
    → evaluate_policy_decision changed uid action ≡ some false
unfolding add_deny_rule
add_deny_rule-denies uid action policy changed h =
    let e = upsert_rule-ok (some uid) action false policy changed h in
    rw (e, evaluate_policy_decision_lem)
      (ground (arith, denies-upsert (some uid) action policy.rules))

-- After an allow rule for a uid is added, its own rules decide on the action, and no rule for
-- everybody can: it is allowed unless one of its own rules denies it by another pattern.
pub add_allow_rule-decides :
    (uid : ℕ) (action : Text) (policy changed : Policy)
    → add_allow_rule (some uid) action policy ≡ ok changed
    → evaluate_policy_decision changed uid action
      ≡ some (not (any (denies (some uid) action) changed.rules))
unfolding add_allow_rule
add_allow_rule-decides uid action policy changed h =
    let e = upsert_rule-ok (some uid) action true policy changed h in
    rw (e, evaluate_policy_decision_lem)
      (ground (arith, allows-upsert (some uid) action policy.rules))

-- A change for one uid leaves every decision about another as it was, and the default too.
pub upsert_rule-other :
    (uid other : ℕ) (action asked : Text) (is_allow : Bool) (policy changed : Policy)
    → uid ≢ other
    → upsert_rule (some uid) action is_allow policy ≡ ok changed
    → (evaluate_policy_decision changed other asked ≡ evaluate_policy_decision policy other asked)
      × (changed.default_allow ≡ policy.default_allow)
upsert_rule-other uid other action asked is_allow policy changed ne h =
    let e = upsert_rule-ok (some uid) action is_allow policy changed h in
    let n : same_uid (some uid) (some other) ≡ false = ground arith in
    (
      rw e (
          evaluate_policy_decision_lem _ other asked
          ∙ ground (
            arith,
            evaluate_policy_decision_lem policy other asked,
            denies-upsert_other (some uid) (some other) action asked is_allow n policy.rules,
            allows-upsert_other (some uid) (some other) action asked is_allow n policy.rules,
            denies-upsert_other (some uid) none action asked is_allow refl policy.rules,
            allows-upsert_other (some uid) none action asked is_allow refl policy.rules,
          )),
      ap (λ (p : Policy). p.default_allow) e,
    )

clash : (a b c : Option ℕ) → a ≡ b → same_uid a c ≡ false → same_uid c b ≡ false
clash (some u) (some v) (some w) e h = ground arith
clash none none none e h = absurd (cc)
clash a b none e h = ground arith
clash none b (some w) e h = ground arith
clash (some u) none (some w) e h = refl

any-cleared :
    (uid : ℕ) (other : Option ℕ) (p : PolicyRule → Bool) (rules : List PolicyRule)
    → any
        (λ rule. same_uid rule.uid other && p rule)
        (filter (λ rule. not (same_uid rule.uid (some uid))) rules)
      ≡ (not (same_uid (some uid) other) && any (λ rule. same_uid rule.uid other && p rule) rules)
any-cleared uid other p [] = ground arith
any-cleared uid other p (rule ∷ rules) = elim (Bool-cases (same_uid rule.uid (some uid))) [
  | inl e ↦
      let q = eq_of_same_uid rule.uid (some uid) e in ground (arith, any-cleared uid other p rules)
  | inr e ↦ elim (Bool-cases (same_uid rule.uid other)) [
    | inl f ↦
        let q = eq_of_same_uid rule.uid other f in
        let n : same_uid (some uid) other ≡ false = clash rule.uid other (some uid) q e in
        ground (arith, any-cleared uid other p rules)
    | inr f ↦ ground (arith, any-cleared uid other p rules)
  ]
]

-- Clearing a uid's rules leaves it with the rules for everybody, and all others as they were;
-- clearing all rules leaves no decision but the default.
pub clear_rules-decision :
    (uid other : ℕ) (action : Text) (policy : Policy)
    → (evaluate_policy_decision (clear_rules (some uid) policy) other action ≡ (
        if uid == other
        then verdict (any (denies none action) policy.rules) (any (allows none action) policy.rules)
        else evaluate_policy_decision policy other action))
      × (evaluate_policy_decision (clear_rules none policy) other action ≡ none)
unfolding clear_rules
clear_rules-decision uid other action policy = (
  evaluate_policy_decision_lem _ other action
      ∙ ground (
        arith,
        evaluate_policy_decision_lem policy other action,
        any-cleared uid (some other) (λ rule. matches_any rule.deny action) policy.rules,
        any-cleared uid (some other) (λ rule. matches_any rule.allow action) policy.rules,
        any-cleared uid none (λ rule. matches_any rule.deny action) policy.rules,
        any-cleared uid none (λ rule. matches_any rule.allow action) policy.rules,
      ),
  evaluate_policy_decision_lem _ other action,
)
