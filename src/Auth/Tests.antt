-- ===== src/Auth/Tests.antt =====
-- Runs of src/auth/names.rs and src/auth/scope.rs.
use enclave.Auth.{
  NameError, validate_token_name, validate_env_token_name, slot_for_env_token, validate_user_id,
}
use enclave.Common.{ok, err, codes, ◌≡◌, refl}

gh_slot : slot_for_env_token (codes "_GH_TOKEN2") ≡ ok (codes "_gh-token2")
unfolding slot_for_env_token validate_env_token_name
gh_slot = refl

refuses_lower : slot_for_env_token (codes "Gh") ≡ err NameError.bad_character
unfolding slot_for_env_token validate_env_token_name
refuses_lower = refl

refuses_empty : validate_token_name (codes "") ≡ err NameError.empty_name
unfolding validate_token_name
refuses_empty = refl

accepts_agent : validate_user_id (codes "agent.1") ≡ ok tt
unfolding validate_user_id
accepts_agent = refl

refuses_parent : validate_user_id (codes "..") ≡ err NameError.dots
unfolding validate_user_id
refuses_parent = refl
