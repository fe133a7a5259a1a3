-- ===== src/Workers/Connected.antt =====
-- What discarding the requests of clients that have gone away does to the queues:
-- src/daemon/workers/mod.rs.
use enclave.Common.{
  ℕ, ◌≤◌, ◌≡◌, refl, sym, subst, ◌∙◌, inl, inr, Bool, true, false, not, List, [], ◌∷◌, arith,
  Bool-cases, length, filter, total, Text, text_eq, text_eq_iff, text_eq-comm_false, is_empty,
  get_or, put, LacksKey, HasDistinctKeys,
}
use enclave.Workers.{connected, retain_connected, queued}

pub length-filter-le {ℓ} :
    {A : Type ℓ} (p : A → Bool) (xs : List A) → length (filter p xs) ≤ length xs
length-filter-le p [] = omega arith
length-filter-le p (x ∷ xs) = ground (arith, length-filter-le p xs)

pub total-filter-le {ℓ} :
    {A : Type ℓ} (f : A → ℕ) (p : A → Bool) (xs : List A) → total f (filter p xs) ≤ total f xs
total-filter-le f p [] = omega arith
total-filter-le f p (x ∷ xs) = ground (arith, total-filter-le f p xs)

lacks-retain :
    (gone : ℕ → Bool) (m : List (Text × List ℕ)) (key : Text)
    → LacksKey key m
    → LacksKey key (retain_connected gone m)
lacks-retain gone [] key h = tt
lacks-retain gone ((k, streams) ∷ m) key h = elim (Bool-cases (is_empty (connected gone streams))) [
  | inl t ↦ rw t (lacks-retain gone m key h.1)
  | inr t ↦ rw t (h.0, lacks-retain gone m key h.1)
]

pub retain_connected-HasDistinctKeys :
    (gone : ℕ → Bool) (m : List (Text × List ℕ))
    → HasDistinctKeys m
    → HasDistinctKeys (retain_connected gone m)
retain_connected-HasDistinctKeys gone [] h = tt
retain_connected-HasDistinctKeys gone ((k, streams) ∷ m) h =
    elim (Bool-cases (is_empty (connected gone streams))) [
      | inl t ↦ rw t (retain_connected-HasDistinctKeys gone m h.1)
      | inr t ↦ rw t (lacks-retain gone m k h.0, retain_connected-HasDistinctKeys gone m h.1)
    ]

get_or_of_lacks {ℓ} :
    {A : Type ℓ} (d : A) (m : List (Text × A)) (key : Text) → LacksKey key m → get_or d m key ≡ d
get_or_of_lacks d [] key h = refl
get_or_of_lacks d ((k, v) ∷ m) key h = rw h.0 (get_or_of_lacks d m key h.1)

empty_of : (xs : List ℕ) → is_empty xs ≡ true → xs ≡ []
empty_of [] h = refl
empty_of (x ∷ xs) h = absurd (ground (arith, h))

-- The queue of a workspace loses the streams that are gone, and no other.
pub get_or-retain :
    (gone : ℕ → Bool) (m : List (Text × List ℕ)) (key : Text)
    → HasDistinctKeys m
    → get_or [] (retain_connected gone m) key ≡ connected gone (get_or [] m key)
get_or-retain gone [] key h = refl
get_or-retain gone ((k, streams) ∷ m) key h =
    elim (Bool-cases (is_empty (connected gone streams))) [
      | inl t ↦ elim (Bool-cases (text_eq k key)) [
        | inl e ↦
            let same = (text_eq_iff k key).0 e in
            let lacks = lacks-retain gone m k h.0 in
            rw (t, e)
              (get_or_of_lacks [] (retain_connected gone m) key
                  (subst (λ n. LacksKey n (retain_connected gone m)) same lacks)
                ∙ sym (empty_of (connected gone streams) t))
        | inr e ↦ rw (t, e) (get_or-retain gone m key h.1)
      ]
      | inr t ↦ elim (Bool-cases (text_eq k key)) [
        | inl e ↦ rw (t, e) refl
        | inr e ↦ rw (t, e) (get_or-retain gone m key h.1)
      ]
    ]

pub queued-retain-le :
    (gone : ℕ → Bool) (m : List (Text × List ℕ)) → queued (retain_connected gone m) ≤ queued m
queued-retain-le gone [] = omega arith
queued-retain-le gone ((k, streams) ∷ m) =
    ground (arith, queued-retain-le gone m, length-filter-le (λ s. not (gone s)) streams)

lacks-put {ℓ} :
    {A : Type ℓ} (m : List (Text × A)) (k key : Text) (a : A)
    → text_eq key k ≡ false
    → LacksKey k m
    → LacksKey k (put m key a)
lacks-put [] k key a ne h = (ne, tt)
lacks-put ((k', v) ∷ m) k key a ne h = elim (Bool-cases (text_eq k' key)) [
  | inl t ↦ rw t h
  | inr t ↦ rw t (h.0, lacks-put m k key a ne h.1)
]

-- Writing a key keeps the keys distinct.
pub put-HasDistinctKeys {ℓ} :
    {A : Type ℓ} (m : List (Text × A)) (key : Text) (a : A)
    → HasDistinctKeys m
    → HasDistinctKeys (put m key a)
put-HasDistinctKeys [] key a h = (tt, tt)
put-HasDistinctKeys ((k, v) ∷ m) key a h = elim (Bool-cases (text_eq k key)) [
  | inl t ↦ rw t h
  | inr t ↦
      rw t (lacks-put m k key a (text_eq-comm_false k key t) h.0, put-HasDistinctKeys m key a h.1)
]
