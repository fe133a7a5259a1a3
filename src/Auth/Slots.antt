-- ===== src/Auth/Slots.antt =====
-- Where an environment token is stored: src/auth/names.rs; and where a user's tokens are:
-- src/auth/scope.rs.
use enclave.Auth.{
  empty_name, too_long, bad_first, bad_character, dots, max_env_token_len, is_token_first,
  is_token_char, validate_token_name, is_env_first, is_env_char, validate_env_token_name, dashes,
  slot_of_lowered, slot_for_env_token, is_user_char, max_user_id_len, validate_user_id,
}
use enclave.Common.{
  ℕ, ◌+◌, true, false, not, ◌||◌, [], ◌∷◌, ltb, ◌==◌, if◌then◌else◌, all, Text, codes, text_eq,
  text_eq_iff, utf8_len, is_ascii_uppercase, to_ascii_lowercase, ok, refuse_if, refuse_if-ok,
  bind-ok, ok-injective, ◌>>◌, ◌≡◌, ◌≢◌, refl, sym, ap, ◌∙◌, lacks, is_empty, arith,
}

abbrev lowered : ℕ → ℕ
lowered c = if is_ascii_uppercase c then c + 32 else c

abbrev slot_char : ℕ → ℕ
slot_char c = if lowered c == b'_' then b'-' else lowered c

slot_char-valid : (c : ℕ) → is_env_char c ≡ true → is_token_char (slot_char c) ≡ true
slot_char-valid c h = ground arith

slot_char-injective :
    (a b : ℕ) → is_env_char a ≡ true → is_env_char b ≡ true → slot_char a ≡ slot_char b → a ≡ b
slot_char-injective a b h k e = ground arith

dashes-valid :
    (s : Text) → all is_env_char s ≡ true → all is_token_char (dashes (to_ascii_lowercase s)) ≡ true
dashes-valid [] h = refl
dashes-valid (c ∷ s) h = ground (arith, dashes-valid s, slot_char-valid c)

dashes-injective :
    (s t : Text)
    → all is_env_char s ≡ true
    → all is_env_char t ≡ true
    → dashes (to_ascii_lowercase s) ≡ dashes (to_ascii_lowercase t)
    → s ≡ t
dashes-injective [] [] h k e = refl
dashes-injective [] (b ∷ t) h k e = absurd (ground (arith, e))
dashes-injective (a ∷ s) [] h k e = absurd (ground (arith, e))
dashes-injective (a ∷ s) (b ∷ t) h k e =
    ground (arith, e, dashes-injective s t, slot_char-injective a b)

-- The slot of a name whose first character is one a name can start with.
slot_of_lowered-cons :
    (c : ℕ) (s : Text)
    → is_env_first c ≡ true
    → slot_of_lowered (to_ascii_lowercase (c ∷ s)) ≡ lowered c ∷ dashes (to_ascii_lowercase s)
slot_of_lowered-cons c s h = ground arith

lowered-first : (c : ℕ) → is_env_first c ≡ true → is_token_first (lowered c) ≡ true
lowered-first c h = ground arith

lowered-injective :
    (a b : ℕ) → is_env_first a ≡ true → is_env_first b ≡ true → lowered a ≡ lowered b → a ≡ b
lowered-injective a b h k e = ground arith

-- What an accepted name looks like.
valid_env_token :
    (c : ℕ) (s : Text)
    → validate_env_token_name (c ∷ s) ≡ ok tt
    → (is_env_first c ≡ true) × (all is_env_char s ≡ true)
unfolding validate_env_token_name
valid_env_token c s h =
    let long = refuse_if (ltb max_env_token_len (utf8_len (c ∷ s))) too_long in
    let (u, first, chars) =
      bind-ok (long >> refuse_if (not (is_env_first c)) bad_first)
        (λ u. refuse_if (not (all is_env_char s)) bad_character) tt h in
    let (v, short, start) =
      bind-ok long (λ v. refuse_if (not (is_env_first c)) bad_first) u first in
    let starts = refuse_if-ok (not (is_env_first c)) bad_first u start in
    let all_ok = refuse_if-ok (not (all is_env_char s)) bad_character tt chars in
    (ground (arith, starts), ground (arith, all_ok))

-- A slot that was given comes from an accepted name.
slot-validated :
    (t slot : Text)
    → slot_for_env_token t ≡ ok slot
    → (validate_env_token_name t ≡ ok tt) × (slot_of_lowered (to_ascii_lowercase t) ≡ slot)
unfolding slot_for_env_token
slot-validated t slot h =
    let (u, valid, same) =
      bind-ok (validate_env_token_name t) (λ u. ok (slot_of_lowered (to_ascii_lowercase t))) slot
        h in
    (valid, ok-injective (slot_of_lowered (to_ascii_lowercase t)) slot same)

-- The slot of every accepted environment token name is a name that a token can be stored under.
pub slot_for_env_token_storable :
    (t slot : Text) → slot_for_env_token t ≡ ok slot → validate_token_name slot ≡ ok tt
unfolding validate_token_name validate_env_token_name
slot_for_env_token_storable [] slot h = absurd (ground (arith, slot-validated [] slot h))
slot_for_env_token_storable (c ∷ s) slot h =
    let (valid, same) = slot-validated (c ∷ s) slot h in
    let (first, chars) = valid_env_token c s valid in
    let shape = sym same ∙ slot_of_lowered-cons c s first in
    ap validate_token_name shape ∙ ground (arith, lowered-first c first, dashes-valid s chars)

pub slot_for_env_token-injective :
    (t t' slot : Text) → slot_for_env_token t ≡ ok slot → slot_for_env_token t' ≡ ok slot → t ≡ t'
unfolding validate_env_token_name
slot_for_env_token-injective [] t' slot h k = absurd (ground (arith, slot-validated [] slot h))
slot_for_env_token-injective (c ∷ s) [] slot h k = absurd (ground (arith, slot-validated [] slot k))
slot_for_env_token-injective (c ∷ s) (d ∷ r) slot h k =
    let (valid, same) = slot-validated (c ∷ s) slot h in
    let (valid', same') = slot-validated (d ∷ r) slot k in
    let (first, chars) = valid_env_token c s valid in
    let (first', chars') = valid_env_token d r valid' in
    let equal =
      sym (slot_of_lowered-cons c s first) ∙ same ∙ sym same' ∙ slot_of_lowered-cons d r first' in
    ground (arith, equal, lowered-injective c d first first', dashes-injective s r chars chars')

all-lacks_slash : (s : Text) → all is_user_char s ≡ true → lacks b'/' s ≡ true
all-lacks_slash [] h = refl
all-lacks_slash (c ∷ s) h = ground (arith, all-lacks_slash s)

-- A user id that is accepted is one path component: not empty, without a separator, and neither
-- the directory itself nor its parent.
pub validate_user_id_component :
    (id : Text)
    → validate_user_id id ≡ ok tt
    → (is_empty id ≡ false) × (lacks b'/' id ≡ true) × (id ≢ codes ".") × (id ≢ codes "..")
unfolding validate_user_id
validate_user_id_component id h =
    let nonempty = refuse_if (is_empty id) empty_name in
    let short = refuse_if (ltb max_user_id_len (utf8_len id)) too_long in
    let no_dots = refuse_if (text_eq id (codes ".") || text_eq id (codes "..")) dots in
    let last = refuse_if (not (all is_user_char id)) bad_character in
    let (u, first, chars) = bind-ok (nonempty >> short >> no_dots) (λ u. last) tt h in
    let (v, second, dot) = bind-ok (nonempty >> short) (λ v. no_dots) u first in
    let (w, third, fits) = bind-ok nonempty (λ w. short) v second in
    let all_ok = refuse_if-ok (not (all is_user_char id)) bad_character tt chars in
    let dotless = refuse_if-ok (text_eq id (codes ".") || text_eq id (codes "..")) dots u dot in
    (
      refuse_if-ok (is_empty id) empty_name w third,
      all-lacks_slash id (ground (arith, all_ok)),
      λ e. ground (arith, dotless, text_eq_iff id (codes ".")),
      λ e. ground (arith, dotless, text_eq_iff id (codes "..")),
    )
