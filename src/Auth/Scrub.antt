-- ===== src/Auth/Scrub.antt =====
-- Removing token values from captured output: src/auth/scrub.rs.
-- Text is its characters: at the boundary of a character a match of bytes is one of characters. What the
-- code goes on by after a match is the number of characters to skip.
mod Tests
use mathlib.Core.Option.{some-injective}
use enclave.Common.{
  ℕ, suc, ◌+◌, ◌-◌, ◌≤◌, ◌≡◌, refl, sym, ap, subst, ◌∙◌, ◌⊎◌, inl, inr, Bool, true, false, not,
  ◌&&◌, List, [], ◌∷◌, ◌++◌, Option, none, some, arith, Bool-cases, if_elim, if◌then◌else◌, leb,
  length, filter, In, In-filter, In-of_In-filter, Text, codes, is_empty, utf8_len, starts_with,
  append_of_starts_with,
}

abbrev pub redacted : Text
redacted = codes "[REDACTED]"

abbrev pub len_or_zero : Option Text → ℕ
len_or_zero none = 0
len_or_zero (some s) = utf8_len s

-- `filter` and `max_by_key`, which gives the last of the longest; `best` is the longest so far.
abbrev pub longest_match : Option Text → List Text → Text → Option Text
longest_match best [] text = best
longest_match best (secret ∷ secrets) text =
    longest_match
      (if starts_with text secret && leb (len_or_zero best) (utf8_len secret)
        then some secret
        else best)
      secrets text

-- The loop, with the characters that are left of a match.
pub scrub_from : List Text → ℕ → Text → Text
scrub_from secrets n [] = []
scrub_from secrets (suc n) (c ∷ text) = scrub_from secrets n text
scrub_from secrets ℕ.zero (c ∷ text) = elim (longest_match none secrets (c ∷ text)) [
  | some secret ↦ redacted ++ scrub_from secrets (length secret - 1) text
  | none ↦ c ∷ scrub_from secrets 0 text
]

abbrev pub non_empty : List Text → List Text
non_empty secrets = filter (λ secret. not (is_empty secret)) secrets

-- `secrets.is_empty()`.
abbrev has_none : List Text → Bool
has_none [] = true
has_none (s ∷ ss) = false

pub scrub_secrets : Text → List Text → Text
unfolding scrub_from
scrub_secrets text secrets =
    if has_none (non_empty secrets) then text else scrub_from (non_empty secrets) 0 text

-- What may become of a text: a character is kept where no secret begins, and a longest of the secrets
-- that begin at a place is replaced.
pub data Scrubs (secrets : List Text) : Text → Text → Type 0 where
  done : Scrubs secrets [] []
  kept :
      (c : ℕ) (text out : Text)
      → ((secret : Text)
          → In secret secrets
          → is_empty secret ≡ false
          → starts_with (c ∷ text) secret ≡ false)
      → Scrubs secrets text out
      → Scrubs secrets (c ∷ text) (c ∷ out)
  cut :
      (secret text out : Text)
      → In secret secrets
      → is_empty secret ≡ false
      → ((other : Text)
          → In other secrets
          → is_empty other ≡ false
          → starts_with (secret ++ text) other ≡ true
          → utf8_len other ≤ utf8_len secret)
      → Scrubs secrets text out
      → Scrubs secrets (secret ++ text) (redacted ++ out)

-- Of the secrets and the best so far, what is found matches, and nothing that matches is longer.
Longest : Option Text → List Text → Text → Option Text → Type 0
Longest best secrets text found =
    ((s : Text) → found ≡ some s → (best ≡ some s) ⊎ (In s secrets × (starts_with text s ≡ true)))
    × (len_or_zero best ≤ len_or_zero found)
    × ((s : Text) → In s secrets → starts_with text s ≡ true → utf8_len s ≤ len_or_zero found)

utf8_len-pos : (s : Text) → is_empty s ≡ false → 1 ≤ utf8_len s
utf8_len-pos [] h = absurd (ground (arith, h))
utf8_len-pos (c ∷ s) h = ground arith

of_leb : {a b : ℕ} → leb a b ≡ true → a ≤ b
of_leb h = ground arith

of_not_leb : {a b : ℕ} → leb a b ≡ false → b ≤ a
of_not_leb h = ground arith

Longest-cons :
    (best : Option Text) (secret : Text) (secrets : List Text) (text : Text) (found : Option Text)
    (a b : Bool)
    → starts_with text secret ≡ a
    → leb (len_or_zero best) (utf8_len secret) ≡ b
    → Longest (if a && b then some secret else best) secrets text found
    → Longest best (secret ∷ secrets) text found
unfolding Longest
Longest-cons best secret secrets text found true true p q h = (
  λ s e. elim (h.0 s e) [
    | inl b ↦
        let same : s ≡ secret = sym (some-injective _ _ b) in
        inr (inl same, ap (starts_with text) same ∙ p)
    | inr (m, w) ↦ inr (inr m, w)
  ],
  omega (arith, h.1, of_leb q),
  λ s m w. elim m [ inl e ↦ omega (arith, h.1, ap utf8_len e) | inr k ↦ h.2 s k w ],
)
Longest-cons best secret secrets text found true false p q h = (
  λ s e. elim (h.0 s e) [ inl b ↦ inl b | inr (m, w) ↦ inr (inr m, w) ],
  h.1,
  λ s m w. elim m [ inl e ↦ omega (arith, h.1, ap utf8_len e, of_not_leb q) | inr k ↦ h.2 s k w ],
)
Longest-cons best secret secrets text found false b p q h = (
  λ s e. elim (h.0 s e) [ inl b ↦ inl b | inr (m, w) ↦ inr (inr m, w) ],
  h.1,
  λ s m w. elim m [
    | inl e ↦ absurd (ground (arith, sym p ∙ ap (starts_with text) (sym e) ∙ w))
    | inr k ↦ h.2 s k w
  ],
)

longest_match-Longest :
    (secrets : List Text) (best : Option Text) (text : Text)
    → Longest best secrets text (longest_match best secrets text)
unfolding Longest
longest_match-Longest [] best text = (λ s e. inl e, omega arith, λ s m. absurd m.lower)
longest_match-Longest (secret ∷ secrets) best text =
    Longest-cons best secret secrets text _ (starts_with text secret)
      (leb (len_or_zero best) (utf8_len secret)) refl refl
      (longest_match-Longest secrets
        (if starts_with text secret && leb (len_or_zero best) (utf8_len secret)
          then some secret
          else best)
        text)

drop : ℕ → Text → Text
drop ℕ.zero s = s
drop (suc n) [] = []
drop (suc n) (c ∷ s) = drop n s

drop-append : (s t : Text) → drop (length s) (s ++ t) ≡ t
unfolding drop
drop-append [] t = refl
drop-append (c ∷ s) t = drop-append s t

-- A match at the front of a text, without its first character.
split_match :
    (c : ℕ) (text secret : Text)
    → starts_with (c ∷ text) secret ≡ true
    → is_empty secret ≡ false
    → c ∷ text ≡ secret ++ drop (length secret - 1) text
split_match c text [] h e = absurd (ground (arith, e))
split_match c text (d ∷ s) h e =
    let (r, q) = append_of_starts_with text s (ground (arith, h)) in
    let same : c ≡ d = ground (arith, h) in
    let cut : drop (length (d ∷ s) - 1) text ≡ r =
      ap (λ n. drop n text) (omega arith) ∙ ap (drop (length s)) q ∙ drop-append s r in
    rw cut (rw same (ap (λ t. d ∷ t) q))

of_not : (b : Bool) → not b ≡ true → b ≡ false
of_not true h = absurd (ground (arith, h))
of_not false h = refl

module _ (secrets : List Text) where
  unmatched :
      (text s : Text)
      → In s secrets
      → is_empty s ≡ false
      → Longest none (non_empty secrets) text none
      → starts_with text s ≡ false
  unfolding Longest
  unmatched text s m e h = elim (Bool-cases (starts_with text s)) [
    | inl w ↦ absurd (
        omega (
          arith,
          h.2 s (In-filter (λ t. not (is_empty t)) secrets s (ap not e) m) w,
          utf8_len-pos s e,
        ))
    | inr w ↦ w
  ]

  all_kept : (text : Text) → non_empty secrets ≡ [] → Scrubs secrets text text
  all_kept [] e = done
  all_kept (c ∷ text) e =
      kept c text text
        (λ s m q.
          absurd (subst (In s) e (In-filter (λ t. not (is_empty t)) secrets s (ap not q) m)).lower)
        (all_kept text e)

  scrub_from-Scrubs :
      (n : ℕ) (text : Text) → Scrubs secrets (drop n text) (scrub_from (non_empty secrets) n text)
  unfolding scrub_from drop Longest
  scrub_from-Scrubs ℕ.zero [] = done
  scrub_from-Scrubs (suc n) [] = done
  scrub_from-Scrubs (suc n) (c ∷ text) = scrub_from-Scrubs n text
  scrub_from-Scrubs ℕ.zero (c ∷ text) =
      go (longest_match none (non_empty secrets) (c ∷ text))
        (longest_match-Longest (non_empty secrets) none (c ∷ text)) (λ k. scrub_from-Scrubs k text)
    where
      round : Option Text → Text
      round found = elim found [
        | some secret ↦ redacted ++ scrub_from (non_empty secrets) (length secret - 1) text
        | none ↦ c ∷ scrub_from (non_empty secrets) 0 text
      ]

      go :
          (found : Option Text)
          → Longest none (non_empty secrets) (c ∷ text) found
          → ((k : ℕ) → Scrubs secrets (drop k text) (scrub_from (non_empty secrets) k text))
          → Scrubs secrets (c ∷ text) (round found)
      go none h rest = kept c text _ (λ s m e. unmatched (c ∷ text) s m e h) (rest 0)
      go (some secret) h rest = elim (h.0 secret refl) [
        | inl b ↦ absurd (ground (arith, b))
        | inr (m, w) ↦
            let (t, m') = In-of_In-filter (λ s. not (is_empty s)) secrets secret m in
            let e : is_empty secret ≡ false = of_not (is_empty secret) t in
            let cut_at = split_match c text secret w e in
            subst (λ x. Scrubs secrets x (round (some secret))) (sym cut_at)
              (cut secret _ _ m' e
                (λ o k n b.
                  h.2 o (In-filter (λ s. not (is_empty s)) secrets o (ap not n) k)
                    (ap (λ x. starts_with x o) cut_at ∙ b))
                (rest (length secret - 1)))
      ]

-- Whatever the text and the secrets, a character is kept only where no secret that is not empty begins,
-- and everything else that is written is `[REDACTED]` in place of a longest secret that begins there.
pub scrub_secrets-Scrubs :
    (text : Text) (secrets : List Text) → Scrubs secrets text (scrub_secrets text secrets)
unfolding scrub_secrets drop
scrub_secrets-Scrubs text secrets = go (non_empty secrets) refl
  where
    go :
        (ss : List Text)
        → non_empty secrets ≡ ss
        → Scrubs secrets text (if has_none ss then text else scrub_from ss 0 text)
    go [] e = all_kept secrets text e
    go (s ∷ ss) e =
        subst (λ l. Scrubs secrets text (scrub_from l 0 text)) e (scrub_from-Scrubs secrets 0 text)
