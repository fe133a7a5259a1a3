-- ===== src/Policy/Access.antt =====
-- Who gets through: src/policy/engine/authorize.rs.
use enclave.Common.{
  ℕ, ◌≡◌, ◌⊎◌, ◌↔◌, refl, inl, inr, true, false, none, some, Text, arith, ◌==◌, Bool-cases, Result,
  ok, err,
}
use enclave.Policy.{
  Policy, PolicyError, evaluate_policy_decision, is_policy_exempt, is_root_only, judge, authorize,
}

-- What the policy has to say for an action to pass.
abbrev pub Permits : Policy → ℕ → Text → Type 0
Permits policy uid action =
    (evaluate_policy_decision policy uid action ≡ some true)
    ⊎ ((evaluate_policy_decision policy uid action ≡ none) × (policy.default_allow ≡ true))

judge_iff :
    (policy : Policy) (uid : ℕ) (action : Text)
    → (judge policy uid action ≡ ok tt) ↔ Permits policy uid action
unfolding judge
judge_iff policy uid action = ground arith

-- When a request passes: for root always; for anybody else if the action is not one of root's own
-- and is either exempt or permitted by a policy that could be loaded.
abbrev pub MayRun : Result PolicyError Policy → ℕ → Text → Type 0
MayRun load uid action =
    (uid ≡ 0)
    ⊎ ((is_root_only action ≡ false)
        × ((is_policy_exempt action ≡ true)
            ⊎ ((policy : Policy) × (load ≡ ok policy) × Permits policy uid action)))

to_MayRun :
    (load : Result PolicyError Policy) (uid : ℕ) (action : Text)
    → authorize load uid action ≡ ok tt
    → MayRun load uid action
unfolding authorize
to_MayRun (err e) uid action h = ground arith
to_MayRun (ok policy) uid action h = elim (Bool-cases (uid == 0)) [
  | inl root ↦ inl (ground arith)
  | inr other ↦ elim (Bool-cases (is_root_only action)) [
    | inl r ↦ absurd (ground arith)
    | inr r ↦ elim (Bool-cases (is_policy_exempt action)) [
      | inl x ↦ inr (r, inl x)
      | inr x ↦ inr (r, inr (policy, refl, ground arith))
    ]
  ]
]

of_MayRun :
    (load : Result PolicyError Policy) (uid : ℕ) (action : Text)
    → MayRun load uid action
    → authorize load uid action ≡ ok tt
unfolding authorize
of_MayRun load uid action (inl root) = ground arith
of_MayRun load uid action (inr (r, inl x)) = ground arith
of_MayRun load uid action (inr (r, inr (policy, e, q))) =
    ground (arith, (judge_iff policy uid action).1 q)

-- `authorize` lets a request pass exactly when it may run.
pub authorize_iff :
    (load : Result PolicyError Policy) (uid : ℕ) (action : Text)
    → (authorize load uid action ≡ ok tt) ↔ MayRun load uid action
authorize_iff load uid action = (to_MayRun load uid action, of_MayRun load uid action)
