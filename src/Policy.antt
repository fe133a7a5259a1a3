-- ===== src/Policy.antt =====
-- Who may run which action: src/policy/types.rs and src/policy/engine. The policy that a request is
-- judged by is an argument, as `load_policy` returns it; a change of the policy is the function that
-- `with_policy_mut` is given.
pub mod Decision
pub mod Changes
pub mod Effects
pub mod Invariant
mod Tests
pub mod Access
use enclave.Common.{
  ℕ, Bool, true, false, not, ◌||◌, List, [], ◌∷◌, ◌++◌, Option, none, some, Text, codes, text_eq,
  starts_with, utf8_len, is_ascii_alphanumeric, any, all, filter, ltb, ◌==◌, if◌then◌else◌, Result,
  ok, err, ◌>>=◌,
}

pub record PolicyRule : Type 0 where
  pub uid : Option ℕ
  pub allow : List Text
  pub deny : List Text

pub record Policy : Type 0 where
  pub version : ℕ
  pub default_allow : Bool
  pub rules : List PolicyRule

abbrev pub default_policy : Policy
default_policy = record { version = 1; default_allow = true; rules = [] }

pub data PolicyError : Type 0 where
  bad_length invalid_character root_only denied default_denied not_loaded : PolicyError

-- `str::strip_suffix('*')`.
strip_star : Text → Option Text
strip_star [] = none
strip_star (c ∷ []) = if c == b'*' then some [] else none
strip_star (c ∷ d ∷ s) = elim (strip_star (d ∷ s)) [ none ↦ none | some p ↦ some (c ∷ p) ]

matches_stripped : Text → Text → Option Text → Bool
matches_stripped pattern action none = text_eq action pattern
matches_stripped pattern action (some prefix) = starts_with action prefix

pub matches_pattern : Text → Text → Bool
unfolding strip_star matches_stripped
matches_pattern pattern action =
    if text_eq pattern (codes "*")
    then true
    else matches_stripped pattern action (strip_star pattern)

abbrev pub matches_any : List Text → Text → Bool
matches_any patterns action = any (λ pattern. matches_pattern pattern action) patterns

-- The loop of `evaluate_rule_group`, with `allow_matched`.
group_from : Text → Bool → List PolicyRule → Option Bool
group_from action allow_matched [] = if allow_matched then some true else none
group_from action allow_matched (rule ∷ rules) =
    let rest = group_from action (matches_any rule.allow action || allow_matched) rules in
    if matches_any rule.deny action then some false else rest

pub evaluate_rule_group : List PolicyRule → Text → Option Bool
unfolding group_from
evaluate_rule_group rules action = group_from action false rules

abbrev pub same_uid : Option ℕ → Option ℕ → Bool
same_uid none none = true
same_uid (some u) (some v) = u == v
same_uid _ _ = false

pub evaluate_policy_decision : Policy → ℕ → Text → Option Bool
unfolding evaluate_rule_group
evaluate_policy_decision policy uid action =
    elim (evaluate_rule_group (filter (λ rule. same_uid rule.uid (some uid)) policy.rules) action) [
      | some decision ↦ some decision
      | none ↦ evaluate_rule_group (filter (λ rule. same_uid rule.uid none) policy.rules) action
    ]

abbrev contains : List Text → Text → Bool
contains names action = any (λ name. text_eq name action) names

abbrev pub policy_exempt_actions : List Text
policy_exempt_actions =
    codes "ping" ∷ codes "shutdown" ∷ codes "daemon.health" ∷ codes "policy.get" ∷ []

abbrev pub root_only_actions : List Text
root_only_actions =
    codes "policy.set_default"
    ∷ codes "policy.allow"
    ∷ codes "policy.deny"
    ∷ codes "policy.clear"
    ∷ []

pub is_policy_exempt : Text → Bool
is_policy_exempt action = contains policy_exempt_actions action

pub is_root_only : Text → Bool
is_root_only action = contains root_only_actions action

-- The end of `authorize`: what the policy says.
judge : Policy → ℕ → Text → Result PolicyError (Unit {0})
judge policy uid action = elim (evaluate_policy_decision policy uid action) [
  | some true ↦ ok tt
  | some false ↦ err denied
  | none ↦ if policy.default_allow then ok tt else err default_denied
]

-- `load` is what `load_policy` returns.
pub authorize : Result PolicyError Policy → ℕ → Text → Result PolicyError (Unit {0})
unfolding judge
authorize load uid action =
    if uid == 0
    then ok tt
    else if is_root_only action
    then err root_only
    else if is_policy_exempt action
    then ok tt
    else (load >>= λ policy. judge policy uid action)

-- Adds a text that is not there yet, at the end.
push_new : Text → List Text → List Text
push_new action xs = if any (λ x. text_eq x action) xs then xs else xs ++ action ∷ []

retain_other : Text → List Text → List Text
retain_other action xs = filter (λ x. not (text_eq x action)) xs

amend : Text → Bool → PolicyRule → PolicyRule
unfolding push_new retain_other
amend action is_allow rule =
    if is_allow
    then record rule { allow = push_new action rule.allow; deny = retain_other action rule.deny }
    else record rule { allow = retain_other action rule.allow; deny = push_new action rule.deny }

new_rule : Option ℕ → Text → Bool → PolicyRule
new_rule uid action is_allow =
    if is_allow
    then record { uid = uid; allow = action ∷ []; deny = [] }
    else record { uid = uid; allow = []; deny = action ∷ [] }

-- The loop up to its `break`, and the push where no rule was found.
pub upsert_rules : Option ℕ → Text → Bool → List PolicyRule → List PolicyRule
unfolding amend new_rule
upsert_rules uid action is_allow [] = new_rule uid action is_allow ∷ []
upsert_rules uid action is_allow (rule ∷ rules) =
    if same_uid rule.uid uid
    then amend action is_allow rule ∷ rules
    else rule ∷ upsert_rules uid action is_allow rules

is_pattern_char : ℕ → Bool
is_pattern_char c = is_ascii_alphanumeric c || c == b'.' || c == b'*' || c == b'_' || c == b'-'

abbrev is_empty : Text → Bool
is_empty [] = true
is_empty (_ ∷ _) = false

validate_action_pattern : Text → Result PolicyError (Unit {0})
unfolding is_pattern_char
validate_action_pattern action =
    if is_empty action || ltb 120 (utf8_len action)
    then err bad_length
    else if all is_pattern_char action
    then ok tt
    else err invalid_character

pub upsert_rule : Option ℕ → Text → Bool → Policy → Result PolicyError Policy
unfolding upsert_rules validate_action_pattern
upsert_rule uid action is_allow policy = validate_action_pattern action >>= λ _.
    ok (record policy { rules = upsert_rules uid action is_allow policy.rules })

pub add_allow_rule : Option ℕ → Text → Policy → Result PolicyError Policy
unfolding upsert_rule
add_allow_rule uid action policy = upsert_rule uid action true policy

pub add_deny_rule : Option ℕ → Text → Policy → Result PolicyError Policy
unfolding upsert_rule
add_deny_rule uid action policy = upsert_rule uid action false policy

pub set_default_allow : Bool → Policy → Policy
set_default_allow default_allow policy = record policy { default_allow = default_allow }

pub clear_rules : Option ℕ → Policy → Policy
clear_rules none policy = record policy { rules = [] }
clear_rules (some uid) policy = record policy {
  rules = filter (λ rule. not (same_uid rule.uid (some uid))) policy.rules;
}
