-- ===== src/Auth.antt =====
-- The names that credentials are stored under: src/auth/names.rs and src/auth/scope.rs.
-- An error is told by its kind, without its text.
pub mod Slots
pub mod Scrub
pub mod Resolution
mod Tests
use enclave.Common.{
  ℕ, Bool, true, false, not, ◌&&◌, ◌||◌, List, [], ◌∷◌, Option, none, some, ltb, ◌==◌,
  if◌then◌else◌, all, map, Text, codes, text_eq, utf8_len, is_ascii_lowercase, is_ascii_uppercase,
  is_ascii_digit, is_ascii_alphanumeric, is_empty, to_ascii_lowercase, Result, ok, err, refuse_if,
  ◌>>◌,
}

pub data NameError : Type 0 where
  empty_name : NameError
  too_long : NameError
  bad_first : NameError
  bad_character : NameError
  dots : NameError

abbrev pub max_env_token_len : ℕ
max_env_token_len = 64

abbrev pub is_token_first : ℕ → Bool
is_token_first c = is_ascii_lowercase c || is_ascii_digit c || c == b'_'

abbrev pub is_token_char : ℕ → Bool
is_token_char c = is_ascii_lowercase c || is_ascii_digit c || c == b'-'

pub validate_token_name : Text → Result NameError (Unit {0})
validate_token_name [] = err empty_name
validate_token_name (first ∷ chars) =
    refuse_if (not (is_token_first first)) bad_first
    >> refuse_if (not (all is_token_char chars)) bad_character

abbrev pub is_env_first : ℕ → Bool
is_env_first c = is_ascii_uppercase c || c == b'_'

abbrev pub is_env_char : ℕ → Bool
is_env_char c = is_ascii_uppercase c || is_ascii_digit c || c == b'_'

pub validate_env_token_name : Text → Result NameError (Unit {0})
validate_env_token_name [] = err empty_name
validate_env_token_name (first ∷ chars) =
    refuse_if (ltb max_env_token_len (utf8_len (first ∷ chars))) too_long
    >> refuse_if (not (is_env_first first)) bad_first
    >> refuse_if (not (all is_env_char chars)) bad_character

-- `replace('_', "-")`.
abbrev pub dashes : Text → Text
dashes s = map (λ c. if c == b'_' then b'-' else c) s

-- `_` is kept at the start.
abbrev pub slot_of_lowered : Text → Text
slot_of_lowered [] = []
slot_of_lowered (c ∷ rest) = if c == b'_' then b'_' ∷ dashes rest else dashes (c ∷ rest)

pub slot_for_env_token : Text → Result NameError Text
unfolding validate_env_token_name
slot_for_env_token env_token =
    validate_env_token_name env_token >> ok (slot_of_lowered (to_ascii_lowercase env_token))

abbrev pub max_user_id_len : ℕ
max_user_id_len = 64

-- The namespace of a token.
pub data TokenScope : Type 0 where
  shared : TokenScope
  user : Text → TokenScope

pub for_owner : Option Text → TokenScope
for_owner none = shared
for_owner (some user_id) = user user_id

pub user_id : TokenScope → Option Text
user_id shared = none
user_id (user id) = some id

abbrev pub is_user_char : ℕ → Bool
is_user_char c = is_ascii_alphanumeric c || c == b'+' || c == b'-' || c == b'_' || c == b'.'

pub validate_user_id : Text → Result NameError (Unit {0})
validate_user_id id =
    refuse_if (is_empty id) empty_name
    >> refuse_if (ltb max_user_id_len (utf8_len id)) too_long
    >> refuse_if (text_eq id (codes ".") || text_eq id (codes "..")) dots
    >> refuse_if (not (all is_user_char id)) bad_character
