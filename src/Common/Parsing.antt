-- ===== src/Common/Parsing.antt =====
-- The parts of `str` that the parsers use, on lists of code points.
use Prim.Native.Nat.{ℕ, suc, ◌+◌, ◌-◌, ◌*◌, ◌/◌, ◌%◌, ◌^◌, ◌≤◌, ◌<◌}
use mathlib.Core.Path.{◌≡◌, refl, sym, ap, ◌∙◌}
use mathlib.Core.Logic.{inl, inr}
use mathlib.Core.Bool.{Bool, true, false, not, ◌&&◌, ◌||◌}
use mathlib.Core.List.{List, [], ◌∷◌, ◌++◌}
use mathlib.Core.Option.{Option, none, some}
use native.Mathlib.Omega.{arith}
use native.Mathlib.Decide.{dec_lt}
use enclave.Common.Tests.{leb, ltb, ◌==◌, if◌then◌else◌, Bool-cases}
use enclave.Common.Lists.{all}
use enclave.Common.Chars.{Text, is_ascii_digit, is_ascii_uppercase}

-- `char::is_whitespace`: White_Space of Unicode.
abbrev pub is_whitespace : ℕ → Bool
is_whitespace c =
    (leb 9 c && leb c 13)
    || c == 0x20
    || c == 0x85
    || c == 0xA0
    || c == 0x1680
    || (leb 0x2000 c && leb c 0x200A)
    || c == 0x2028
    || c == 0x2029
    || c == 0x202F
    || c == 0x205F
    || c == 0x3000

abbrev pub is_empty : Text → Bool
is_empty [] = true
is_empty (c ∷ s) = false

abbrev pub trim_start : Text → Text
trim_start [] = []
trim_start (c ∷ s) = if is_whitespace c then trim_start s else c ∷ s

abbrev end_with : ℕ → Text → Text
end_with c [] = if is_whitespace c then [] else c ∷ []
end_with c (d ∷ s) = c ∷ d ∷ s

abbrev pub trim_end : Text → Text
trim_end [] = []
trim_end (c ∷ s) = end_with c (trim_end s)

abbrev pub trim : Text → Text
trim s = trim_end (trim_start s)

abbrev first_at : ℕ → ℕ → Text → Option (Text × Text) → Option (Text × Text)
first_at c x s (some (a, b)) = some (x ∷ a, b)
first_at c x s none = if x == c then some ([], s) else none

-- `rsplit_once`: around the last `c`.
abbrev pub rsplit_once : ℕ → Text → Option (Text × Text)
rsplit_once c [] = none
rsplit_once c (x ∷ s) = first_at c x s (rsplit_once c s)

abbrev onto_first : ℕ → List Text → List Text
onto_first x [] = (x ∷ []) ∷ []
onto_first x (p ∷ ps) = (x ∷ p) ∷ ps

abbrev pub split : ℕ → Text → List Text
split c [] = [] ∷ []
split c (x ∷ s) = if x == c then [] ∷ split c s else onto_first x (split c s)

abbrev pub to_ascii_lowercase : Text → Text
to_ascii_lowercase [] = []
to_ascii_lowercase (c ∷ s) = (if is_ascii_uppercase c then c + 32 else c) ∷ to_ascii_lowercase s

-- The digits of a u16, with the number read so far.
abbrev parse_digits : ℕ → Text → Option ℕ
parse_digits n [] = some n
parse_digits n (c ∷ s) =
    let rest = parse_digits (n * 10 + (c - b'0')) s in
    if is_ascii_digit c && leb (n * 10 + (c - b'0')) 65535 then rest else none

-- `parse::<u16>`, which takes a sign `+`.
abbrev pub parse_u16 : Text → Option ℕ
parse_u16 [] = none
parse_u16 (c ∷ []) = parse_digits 0 (c ∷ [])
parse_u16 (c ∷ d ∷ s) = if c == b'+' then parse_digits 0 (d ∷ s) else parse_digits 0 (c ∷ d ∷ s)

-- The digits of an unsigned integer of a width, with the number read so far.
abbrev parse_unsigned_digits : ℕ → ℕ → Text → Option ℕ
parse_unsigned_digits width n [] = some n
parse_unsigned_digits width n (c ∷ s) =
    let rest = parse_unsigned_digits width (n * 10 + (c - b'0')) s in
    if is_ascii_digit c && ltb (n * 10 + (c - b'0')) (2 ^ width) then rest else none

-- `parse` for an unsigned integer, which takes a sign `+`.
abbrev pub parse_unsigned : ℕ → Text → Option ℕ
parse_unsigned width [] = none
parse_unsigned width (c ∷ []) = parse_unsigned_digits width 0 (c ∷ [])
parse_unsigned width (c ∷ d ∷ s) =
    if c == b'+'
    then parse_unsigned_digits width 0 (d ∷ s)
    else parse_unsigned_digits width 0 (c ∷ d ∷ s)

-- The decimal digits of a number below 10^fuel.
abbrev pub decimal_from : ℕ → ℕ → Text
decimal_from ℕ.zero n = []
decimal_from (ℕ.suc fuel) n =
    let rest = decimal_from fuel (n / 10) in
    if ltb n 10 then (b'0' + n) ∷ [] else rest ++ (b'0' + n % 10) ∷ []

-- `Display for u16`: five digits are enough.
unfoldable pub decimal : ℕ → Text
decimal n = decimal_from 5 n

abbrev pub lacks : ℕ → Text → Bool
lacks c = all (λ x. not (x == c))

pub split-lacks : (c : ℕ) (s : Text) → lacks c s ≡ true → split c s ≡ s ∷ []
split-lacks c [] h = refl
split-lacks c (x ∷ s) h = ground (arith, split-lacks c s)

pub split-append : (c : ℕ) (s t : Text) → lacks c s ≡ true → split c (s ++ c ∷ t) ≡ s ∷ split c t
split-append c [] t h = ground arith
split-append c (x ∷ s) t h = ground (arith, split-append c s t)

rsplit_once-lacks : (c : ℕ) (s : Text) → lacks c s ≡ true → rsplit_once c s ≡ none
rsplit_once-lacks c [] h = refl
rsplit_once-lacks c (x ∷ s) h = ground (arith, rsplit_once-lacks c s)

pub rsplit_once-append :
    (c : ℕ) (s t : Text) → lacks c t ≡ true → rsplit_once c (s ++ c ∷ t) ≡ some (s, t)
rsplit_once-append c [] t h = ground (arith, rsplit_once-lacks c t)
rsplit_once-append c (x ∷ s) t h = ground (arith, rsplit_once-append c s t)

pub trim_end-append :
    (s t : Text) (c : ℕ) → trim_end (c ∷ t) ≡ c ∷ t → trim_end (s ++ c ∷ t) ≡ s ++ c ∷ t
trim_end-append [] t c h = h
trim_end-append (x ∷ []) t c h = ground (arith, h)
trim_end-append (x ∷ y ∷ s) t c h = ground (arith, trim_end-append (y ∷ s) t c h)

parse_digits-append :
    (s t : Text) (n m : ℕ) → parse_digits n s ≡ some m → parse_digits n (s ++ t) ≡ parse_digits m t
parse_digits-append [] t n m h = ground arith
parse_digits-append (c ∷ s) t n m h =
    ground (arith, parse_digits-append s t (n * 10 + (c - b'0')) m)

-- The numbers of at most this many digits are below it.
abbrev power_of_ten : ℕ → ℕ
power_of_ten ℕ.zero = 1
power_of_ten (ℕ.suc fuel) = 10 * power_of_ten fuel

parse_digits-digit :
    (n d : ℕ) → d < 10 → n * 10 + d ≤ 65535 → parse_digits n ((b'0' + d) ∷ []) ≡ some (n * 10 + d)
parse_digits-digit n d h small = ground arith

decimal-step :
    (fuel n : ℕ)
    → ltb n 10 ≡ false
    → decimal_from (suc fuel) n ≡ decimal_from fuel (n / 10) ++ (b'0' + n % 10) ∷ []
decimal-step fuel n h =
    ap (λ b. if b then (b'0' + n) ∷ [] else decimal_from fuel (n / 10) ++ (b'0' + n % 10) ∷ []) h

parse_digits-decimal :
    (fuel n : ℕ)
    → n ≤ 65535
    → n < power_of_ten (suc fuel)
    → parse_digits 0 (decimal_from (suc fuel) n) ≡ some n
parse_digits-decimal ℕ.zero n small fits = ground arith
parse_digits-decimal (ℕ.suc fuel) n small fits = elim (dec_lt n 10) [
  | yes p ↦ ground arith
  | no p ↦
      let ih = parse_digits-decimal fuel (n / 10) (omega arith) (omega arith) in
      let joined =
        parse_digits-append (decimal_from (suc fuel) (n / 10)) ((b'0' + n % 10) ∷ []) 0 (n / 10)
          ih in
      let last = parse_digits-digit (n / 10) (n % 10) (omega arith) (omega arith) in
      let whole : n / 10 * 10 + n % 10 ≡ n = omega arith in
      ap (parse_digits 0) (decimal-step (suc fuel) n (ground (arith, p)))
      ∙ joined
      ∙ last
      ∙ ap some whole
]

lacks-append : (c : ℕ) (s t : Text) → lacks c s ≡ true → lacks c t ≡ true → lacks c (s ++ t) ≡ true
lacks-append c [] t h k = k
lacks-append c (x ∷ s) t h k = ground (arith, lacks-append c s t)

-- A character that is no digit does not occur in a number.
lacks-decimal_from :
    (c fuel n : ℕ) → is_ascii_digit c ≡ false → lacks c (decimal_from fuel n) ≡ true
lacks-decimal_from c ℕ.zero n h = refl
lacks-decimal_from c (ℕ.suc fuel) n h = elim (Bool-cases (ltb n 10)) [
  | inl q ↦ ground (arith, q)
  | inr q ↦
      ap (lacks c) (decimal-step fuel n q)
      ∙ lacks-append c (decimal_from fuel (n / 10)) ((b'0' + n % 10) ∷ [])
          (lacks-decimal_from c fuel (n / 10) h) (ground arith)
]

pub lacks-decimal : (c n : ℕ) → is_ascii_digit c ≡ false → lacks c (decimal n) ≡ true
unfolding decimal
lacks-decimal c n h = lacks-decimal_from c 5 n h

is_empty-append : (s t : Text) → is_empty t ≡ false → is_empty (s ++ t) ≡ false
is_empty-append [] t h = h
is_empty-append (x ∷ s) t h = refl

is_empty-decimal_from : (fuel n : ℕ) → is_empty (decimal_from (suc fuel) n) ≡ false
is_empty-decimal_from fuel n = elim (Bool-cases (ltb n 10)) [
  | inl q ↦ ground (arith, q)
  | inr q ↦
      ap is_empty (decimal-step fuel n q)
      ∙ is_empty-append (decimal_from fuel (n / 10)) ((b'0' + n % 10) ∷ []) refl
]

parse_u16-unsigned :
    (s : Text) → is_empty s ≡ false → lacks b'+' s ≡ true → parse_u16 s ≡ parse_digits 0 s
parse_u16-unsigned [] e h = ground (arith, e)
parse_u16-unsigned (c ∷ []) e h = refl
parse_u16-unsigned (c ∷ d ∷ s) e h = ground (arith, h)

-- Reading a printed u16 gives it back.
pub parse_u16-decimal : (n : ℕ) → n ≤ 65535 → parse_u16 (decimal n) ≡ some n
unfolding decimal
parse_u16-decimal n small =
    parse_u16-unsigned (decimal n) (is_empty-decimal_from 4 n) (lacks-decimal b'+' n refl)
    ∙ parse_digits-decimal 4 n small (omega arith)

parse_digits-small : (s : Text) (n m : ℕ) → n ≤ 65535 → parse_digits n s ≡ some m → m ≤ 65535
parse_digits-small [] n m h e = ground (arith, e)
parse_digits-small (c ∷ s) n m h e = ground (arith, parse_digits-small s (n * 10 + (c - b'0')) m, e)

-- What is read is a u16.
pub parse_u16-small : (s : Text) (m : ℕ) → parse_u16 s ≡ some m → m ≤ 65535
parse_u16-small [] m e = ground (arith, e)
parse_u16-small (c ∷ []) m e = parse_digits-small (c ∷ []) 0 m (omega arith) e
parse_u16-small (c ∷ d ∷ s) m e = elim (Bool-cases (c == b'+')) [
  | inl q ↦
      parse_digits-small (d ∷ s) 0 m (omega arith)
        (sym (ap (λ b. if b then parse_digits 0 (d ∷ s) else parse_digits 0 (c ∷ d ∷ s)) q) ∙ e)
  | inr q ↦
      parse_digits-small (c ∷ d ∷ s) 0 m (omega arith)
        (sym (ap (λ b. if b then parse_digits 0 (d ∷ s) else parse_digits 0 (c ∷ d ∷ s)) q) ∙ e)
]
