-- ===== src/Auth/Resolution.antt =====
-- The credentials a workspace is entitled to: src/auth/resolution.rs and src/auth/providers.rs. The store
-- of tokens is a parameter; what is only logged is left out.
pub mod Channels
pub mod Shared
mod Tests
use enclave.Common.{
  Bool, List, [], ◌∷◌, ◌++◌, Option, none, some, if◌then◌else◌, any, Text, codes, text_eq, trim,
  is_ascii_lowercase, ◌-◌, ℕ, Result, ok, err,
}
use enclave.Auth.{NameError, slot_for_env_token, TokenScope, for_owner}

abbrev pub providers : List (Text × Text)
providers =
    (codes "enclave", codes "ENCLAVE_TOKEN")
    ∷ (codes "github", codes "GITHUB_TOKEN")
    ∷ (codes "npm", codes "NPM_TOKEN")
    ∷ []

abbrev pub env_of : List (Text × Text) → Text → Option Text
env_of [] provider = none
env_of ((name, env) ∷ table) provider =
    if text_eq name provider then some env else env_of table provider

abbrev pub provider_of : List (Text × Text) → Text → Option Text
provider_of [] env_var = none
provider_of ((name, env) ∷ table) env_var =
    if text_eq env env_var then some name else provider_of table env_var

abbrev pub to_ascii_uppercase : Text → Text
to_ascii_uppercase [] = []
to_ascii_uppercase (c ∷ s) = (if is_ascii_lowercase c then c - 32 else c) ∷ to_ascii_uppercase s

pub provider_env_var : Text → Option Text
provider_env_var provider = env_of providers provider

pub provider_for_env_var : Text → Option Text
provider_for_env_var env_var = provider_of providers (to_ascii_uppercase (trim env_var))

pub record WorkspaceAuthToken : Type 0 where
  pub name : Text
  pub env_var : Text
  pub token : Text

slot_or : Option Text → Text → Result NameError Text
slot_or (some provider) env_var = ok provider
slot_or none env_var = slot_for_env_token env_var

pub env_token_slot : Text → Result NameError Text
unfolding provider_for_env_var slot_or
env_token_slot env_var = slot_or (provider_for_env_var env_var) env_var

-- Whether a name is among those of the tokens.
abbrev pub has_name : Text → List WorkspaceAuthToken → Bool
has_name name tokens = any (λ existing. text_eq existing.name name) tokens

pub merge_channels : List WorkspaceAuthToken → List WorkspaceAuthToken → List WorkspaceAuthToken
merge_channels credentials [] = credentials
merge_channels credentials (token ∷ env) =
    merge_channels
      (if has_name token.name credentials then credentials else credentials ++ token ∷ []) env

-- `storage::load_token` gives an error, no token, or a token; only a token is pushed.
module _ {E : Type 0} where
  abbrev pub push_loaded :
      Text → Text → Result E (Option Text) → List WorkspaceAuthToken → List WorkspaceAuthToken
  push_loaded name env_var (err e) rest = rest
  push_loaded name env_var (ok none) rest = rest
  push_loaded name env_var (ok (some token)) rest =
      record { name = name; env_var = env_var; token = token } ∷ rest

  abbrev pub with_provider :
      Text
      → Option Text
      → Result E (Option Text)
      → List WorkspaceAuthToken
      → List WorkspaceAuthToken
  with_provider provider none loaded rest = rest
  with_provider provider (some env_var) loaded rest = push_loaded provider env_var loaded rest

  abbrev pub with_slot :
      Text
      → Result NameError Text
      → (Text → Result E (Option Text))
      → List WorkspaceAuthToken
      → List WorkspaceAuthToken
  with_slot env_var (err e) load rest = rest
  with_slot env_var (ok slot) load rest = push_loaded slot env_var (load slot) rest

module _ {E : Type 0} (load_token : TokenScope → Text → Result E (Option Text)) where
  pub resolve_providers : Option Text → List Text → List WorkspaceAuthToken
  unfolding provider_env_var
  resolve_providers owner [] = []
  resolve_providers owner (provider ∷ auth_providers) =
      with_provider provider (provider_env_var provider) (load_token (for_owner owner) provider)
        (resolve_providers owner auth_providers)

  pub resolve_env_tokens : Option Text → List Text → List WorkspaceAuthToken
  unfolding env_token_slot
  resolve_env_tokens owner [] = []
  resolve_env_tokens owner (env_var ∷ env_tokens) =
      with_slot env_var (env_token_slot env_var) (load_token (for_owner owner))
        (resolve_env_tokens owner env_tokens)

  pub injectable :
      Option Text → List Text → List Text → List WorkspaceAuthToken × List WorkspaceAuthToken
  unfolding resolve_providers resolve_env_tokens
  injectable owner auth_providers env_tokens =
      (resolve_providers owner auth_providers, resolve_env_tokens owner env_tokens)

  pub credentials : Option Text → List Text → List Text → List WorkspaceAuthToken
  unfolding merge_channels resolve_providers resolve_env_tokens
  credentials owner auth_providers env_tokens =
      merge_channels (resolve_providers owner auth_providers) (resolve_env_tokens owner env_tokens)
