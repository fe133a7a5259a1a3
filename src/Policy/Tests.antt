-- ===== src/Policy/Tests.antt =====
-- Decisions and changes of a small policy: src/policy/engine.
use enclave.Common.{◌≡◌, ◌↔◌, refl, true, false, [], ◌∷◌, none, some, codes, ok, err}
use enclave.Policy.{
  PolicyRule, Policy, root_only, bad_length, evaluate_policy_decision, matches_pattern,
  add_allow_rule, authorize, is_root_only, is_policy_exempt,
}
use enclave.Policy.Decision.{evaluate_policy_decision_lem}
use enclave.Policy.Access.{MayRun, authorize_iff}

abbrev for_all : PolicyRule
for_all = record { uid = none; allow = codes "*" ∷ []; deny = codes "sandbox.*" ∷ [] }

abbrev for_five : PolicyRule
for_five = record { uid = some 5; allow = codes "sandbox.list" ∷ []; deny = [] }

abbrev two_rules : Policy
two_rules = record { version = 1; default_allow = false; rules = for_all ∷ for_five ∷ [] }

decisions :
    (evaluate_policy_decision two_rules 5 (codes "sandbox.list") ≡ some true)
    × (evaluate_policy_decision two_rules 6 (codes "sandbox.list") ≡ some false)
    × (evaluate_policy_decision two_rules 5 (codes "workspace.exec") ≡ some true)
unfolding evaluate_policy_decision matches_pattern
decisions = (refl, refl, refl)

authorized :
    (authorize (ok two_rules) 0 (codes "sandbox.wipe") ≡ ok tt)
    × (authorize (ok two_rules) 5 (codes "policy.allow") ≡ err root_only)
    × (authorize (err root_only) 5 (codes "ping") ≡ ok tt)
unfolding authorize is_root_only is_policy_exempt
authorized = (refl, refl, refl)

empty_refused : add_allow_rule none [] two_rules ≡ err bad_length
unfolding add_allow_rule
empty_refused = refl

evaluate_policy_decision_lem_example :
    evaluate_policy_decision two_rules 6 (codes "sandbox.list") ≡ some false
unfolding matches_pattern
evaluate_policy_decision_lem_example =
    evaluate_policy_decision_lem two_rules 6 (codes "sandbox.list")

authorize_iff_example :
    (authorize (ok two_rules) 5 (codes "sandbox.list") ≡ ok tt)
    ↔ MayRun (ok two_rules) 5 (codes "sandbox.list")
authorize_iff_example = authorize_iff (ok two_rules) 5 (codes "sandbox.list")
