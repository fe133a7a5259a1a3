-- ===== src/Auth/Resolution/Tests.antt =====
-- What two declarations resolve to.
use enclave.Common.{
  ◌≡◌, ◌≢◌, ◌⊎◌, none, refl, Bool, true, false, [], ◌∷◌, Option, some, if◌then◌else◌, Text, codes,
  text_eq, Result, ok, err,
}
use enclave.Auth.{slot_for_env_token, validate_env_token_name, TokenScope, shared, user, for_owner}
use enclave.Auth.Resolution.{
  WorkspaceAuthToken, merge_channels, resolve_providers, resolve_env_tokens, credentials,
  injectable, provider_env_var, provider_for_env_var, slot_or, env_token_slot,
}
use enclave.Auth.Resolution.Shared.{env_token_slot-shared}
use enclave.Auth.Resolution.Channels.{credentials-own_scope}

abbrev store : TokenScope → Text → Result Bool (Option Text)
store shared name = ok (some (codes "operator"))
store (user id) name = if text_eq name (codes "github") then ok (some (codes "abc")) else err false

abbrev own_store : TokenScope → Text → Result Bool (Option Text)
own_store shared name = err true
own_store (user id) name =
    if text_eq name (codes "github") then ok (some (codes "abc")) else err false

abbrev github : WorkspaceAuthToken
github = record { name = codes "github"; env_var = codes "GITHUB_TOKEN"; token = codes "abc" }

credentials_once :
    credentials store
      (some (codes "u"))
      (codes "github" ∷ codes "npm" ∷ [])
      (codes "GITHUB_TOKEN" ∷ [])
    ≡ github ∷ []
unfolding credentials merge_channels resolve_providers resolve_env_tokens provider_env_var
    provider_for_env_var slot_or env_token_slot for_owner
credentials_once = refl

injectable_twice :
    injectable store (some (codes "u")) (codes "github" ∷ []) (codes "GITHUB_TOKEN" ∷ [])
    ≡ (github ∷ [], github ∷ [])
unfolding injectable resolve_providers resolve_env_tokens provider_env_var provider_for_env_var
    slot_or env_token_slot for_owner
injectable_twice = refl

credentials-own_scope_example :
    credentials store (some (codes "u")) (codes "github" ∷ []) []
    ≡ credentials own_store (some (codes "u")) (codes "github" ∷ []) []
unfolding for_owner
credentials-own_scope_example =
    credentials-own_scope store own_store (some (codes "u")) (codes "github" ∷ []) [] (λ name. refl)

-- The name of a provider, written as a variable, reads the slot that the provider's own variable reads.
shares_slot :
    (env_token_slot (codes "GITHUB") ≡ ok (codes "github"))
    × (env_token_slot (codes "GITHUB_TOKEN") ≡ ok (codes "github"))
unfolding env_token_slot provider_for_env_var slot_or slot_for_env_token validate_env_token_name
shares_slot = (refl, refl)

env_token_slot-shared_example :
    (codes "GITHUB" ≡ codes "GITHUB_TOKEN") ⊎ (provider_env_var (codes "github") ≢ none)
env_token_slot-shared_example =
    env_token_slot-shared (codes "GITHUB") (codes "GITHUB_TOKEN") (codes "github") shares_slot.0
      shares_slot.1
