-- ===== src/Auth/Resolution/Shared.antt =====
-- Which environment tokens read one slot: `env_token_slot` of src/auth/resolution.rs.
use enclave.Common.{
  ◌≡◌, ◌≢◌, refl, ap, ◌∙◌, ◌⊎◌, inl, inr, List, [], ◌∷◌, Option, none, some, arith, Bool-cases,
  Text, text_eq, text_eq_refl, trim, ok, ok-injective,
}
use enclave.Auth.Slots.{slot_for_env_token-injective}
use enclave.Auth.Resolution.{
  providers, env_of, provider_of, to_ascii_uppercase, provider_env_var, provider_for_env_var,
  slot_or, env_token_slot,
}

-- A provider that the table gives for a variable has a variable in it.
env_of-provider_of :
    (table : List (Text × Text)) (env_var name : Text)
    → provider_of table env_var ≡ some name
    → env_of table name ≢ none
env_of-provider_of [] env_var name h q = absurd (ground (arith, h))
env_of-provider_of ((n, env) ∷ table) env_var name h q = elim (Bool-cases (text_eq env env_var)) [
  | inl t ↦ absurd (ground (arith, text_eq_refl name, h, q, t))
  | inr t ↦ env_of-provider_of table env_var name (ground (arith, h, t)) (ground (arith, q))
]

-- Two environment tokens read one slot only if they are the same, or the slot is that of a provider.
pub env_token_slot-shared :
    (env_var other slot : Text)
    → env_token_slot env_var ≡ ok slot
    → env_token_slot other ≡ ok slot
    → (env_var ≡ other) ⊎ (provider_env_var slot ≢ none)
unfolding env_token_slot provider_env_var provider_for_env_var slot_or
env_token_slot-shared env_var other slot =
    go (provider_for_env_var env_var) (provider_for_env_var other) refl refl
  where
    go :
        (p q : Option Text)
        → provider_for_env_var env_var ≡ p
        → provider_for_env_var other ≡ q
        → slot_or p env_var ≡ ok slot
        → slot_or q other ≡ ok slot
        → (env_var ≡ other) ⊎ (provider_env_var slot ≢ none)
    go none none e f h k = inl (slot_for_env_token-injective env_var other slot h k)
    go (some p) q e f h k = inr (
        env_of-provider_of providers (to_ascii_uppercase (trim env_var)) slot
          (e ∙ ap some (ok-injective p slot h)))
    go none (some q) e f h k = inr (
        env_of-provider_of providers (to_ascii_uppercase (trim other)) slot
          (f ∙ ap some (ok-injective q slot k)))
