-- ===== src/Ipam/Allocation.antt =====
-- Which address is given out: src/network/ipam.rs.
use enclave.Common.{
  ℕ, zero, suc, ◌+◌, ◌-◌, ◌*◌, ◌/◌, ◌%◌, ◌≤◌, ◌<◌, ◌≡◌, refl, sym, ap, ◌∙◌, ◌⊎◌, inl, inr, Bool,
  true, false, ◌&&◌, ◌||◌, List, [], ◌∷◌, Option, none, some, arith, Bool-cases, if_elim,
  if◌then◌else◌, leb, ◌==◌, length, set, any, All,
}
use native.Mathlib.Decide.{dec_lt}
use enclave.Ipam.{
  pool_start, pool_end, IpBitmap, empty_bitmap, set_bit, in_pool, mark, mark_all, clear_bits,
  from_used, first_clear, allocate_from, allocate,
}

-- A bit of a word, and of the bitmap; one that is not there counts as taken.
abbrev bit_of : List Bool → ℕ → Bool
bit_of [] r = true
bit_of (b ∷ w) zero = b
bit_of (b ∷ w) (suc r) = bit_of w r

abbrev bit : IpBitmap → ℕ → ℕ → Bool
bit [] q r = true
bit (w ∷ words) zero r = bit_of w r
bit (w ∷ words) (suc q) r = bit words q r

bit_of-set : (w : List Bool) (r r' : ℕ) → bit_of (set w r true) r' ≡ (bit_of w r' || r == r')
bit_of-set [] r r' = refl
bit_of-set (b ∷ w) zero zero = ground arith
bit_of-set (b ∷ w) zero (suc r') = ground arith
bit_of-set (b ∷ w) (suc r) zero = ground arith
bit_of-set (b ∷ w) (suc r) (suc r') = ground (arith, bit_of-set w r r')

bit-set_bit :
    (ws : IpBitmap) (q r q' r' : ℕ)
    → bit (set_bit ws q r) q' r' ≡ (bit ws q' r' || (q == q' && r == r'))
bit-set_bit [] q r q' r' = refl
bit-set_bit (w ∷ ws) zero r zero r' = bit_of-set w r r' ∙ ground arith
bit-set_bit (w ∷ ws) zero r (suc q') r' = ground arith
bit-set_bit (w ∷ ws) (suc q) r zero r' = ground arith
bit-set_bit (w ∷ ws) (suc q) r (suc q') r' = bit-set_bit ws q r q' r' ∙ ground arith

same_place :
    (o q r : ℕ)
    → 10 ≤ o
    → r < 64
    → (((o - 10) / 64 == q) && ((o - 10) % 64 == r)) ≡ (o == 10 + (q * 64 + r))
same_place o q r from lt = ground arith

bit-mark :
    (ws : IpBitmap) (o q r : ℕ)
    → r < 64
    → bit (mark ws o) q r ≡ (bit ws q r || (in_pool o && o == 10 + (q * 64 + r)))
bit-mark ws o q r lt = elim (Bool-cases (in_pool o)) [
  | inl t ↦
      let from : 10 ≤ o = ground (arith, t) in
      rw t (
        bit-set_bit ws ((o - 10) / 64) ((o - 10) % 64) q r
        ∙ ap (λ b. bit ws q r || b) (same_place o q r from lt))
  | inr t ↦ rw t (ground arith)
]

bit-mark_all :
    (used : List ℕ) (ws : IpBitmap) (q r : ℕ)
    → r < 64
    → bit (mark_all ws used) q r
      ≡ (bit ws q r || any (λ o. in_pool o && o == 10 + (q * 64 + r)) used)
bit-mark_all [] ws q r lt = ground arith
bit-mark_all (o ∷ used) ws q r lt =
    bit-mark_all used (mark ws o) q r lt ∙ ground (arith, bit-mark ws o q r lt)

First : List Bool → ℕ → Option ℕ → Type 0
First w i none = (r : ℕ) → bit_of w r ≡ true
First w i (some j) =
    (r : ℕ) × (j ≡ i + r)
    × (r < length w)
    × (bit_of w r ≡ false)
    × ((r' : ℕ) → r' < r → bit_of w r' ≡ true)

first_clear-First : (w : List Bool) (i : ℕ) → First w i (first_clear i w)
unfolding First
first_clear-First [] i = λ r. refl
first_clear-First (false ∷ w) i = (0, omega arith, omega arith, refl, λ r' lt. absurd (omega arith))
first_clear-First (true ∷ w) i = shift (first_clear (i + 1) w) (first_clear-First w (i + 1))
  where
    beyond : ((r : ℕ) → bit_of w r ≡ true) → (r : ℕ) → bit_of (true ∷ w) r ≡ true
    beyond h zero = refl
    beyond h (suc r) = h r

    before :
        (n : ℕ)
        → ((r : ℕ) → r < n → bit_of w r ≡ true)
        → (r : ℕ) → r < suc n
        → bit_of (true ∷ w) r ≡ true
    before n h zero l = refl
    before n h (suc r) l = h r (omega (arith, l))

    shift : (o : Option ℕ) → First w (i + 1) o → First (true ∷ w) i o
    shift none h = beyond h
    shift (some j) (r, e, lt, clear, below) =
        (suc r, omega (arith, e), omega (arith, lt), clear, before r below)

-- The address of a bit.
abbrev addr : ℕ → ℕ → ℕ
addr q r = 10 + (q * 64 + r)

-- What the loop finds from a word on: the first clear bit whose address is in the pool.
Finds : IpBitmap → ℕ → Option ℕ → Type 0
Finds ws i none = (q r : ℕ) → r < 64 → (bit ws q r ≡ true) ⊎ (254 < addr (i + q) r)
Finds ws i (some o) =
    (q : ℕ) × (r : ℕ) × (o ≡ addr (i + q) r)
    × (o ≤ 254)
    × (r < 64)
    × (bit ws q r ≡ false)
    × ((q' r' : ℕ) → r' < 64 → addr (i + q') r' < o → bit ws q' r' ≡ true)

IsWords : IpBitmap → Type 0
IsWords ws = All (λ (w : List Bool). length w ≡ 64) ws

-- A word none of whose clear bits is in the pool.
pass :
    (w : List Bool) (ws : IpBitmap) (i : ℕ) (found : Option ℕ)
    → ((r : ℕ) → r < 64 → (bit_of w r ≡ true) ⊎ (254 < addr i r))
    → Finds ws (i + 1) found
    → Finds (w ∷ ws) i found
unfolding Finds
pass w ws i none p k = go
  where
    go : (q r : ℕ) → r < 64 → (bit (w ∷ ws) q r ≡ true) ⊎ (254 < addr (i + q) r)
    go zero r lt = elim (p r lt) [ inl t ↦ inl t | inr l ↦ inr (omega (arith, l)) ]
    go (suc q) r lt = elim (k q r lt) [ inl t ↦ inl t | inr l ↦ inr (omega (arith, l)) ]
pass w ws i (some o) p (q, r, e, le, lt, clear, low) =
    (suc q, r, omega (arith, e), le, lt, clear, go)
  where
    go : (q' r' : ℕ) → r' < 64 → addr (i + q') r' < o → bit (w ∷ ws) q' r' ≡ true
    go zero r' lt' a = elim (p r' lt') [ inl t ↦ t | inr l ↦ absurd (omega (arith, l, a, le)) ]
    go (suc q') r' lt' a = low q' r' lt' (omega (arith, a))

-- One word, and the words after it.
word_found : ℕ → Option ℕ → Option ℕ → Option ℕ
word_found i f later = elim f [
  | none ↦ later
  | some b ↦ if leb (10 + (i * 64 + b)) 254 then some (10 + (i * 64 + b)) else later
]

word_found-Finds :
    (w : List Bool) (ws : IpBitmap) (i : ℕ) (f later : Option ℕ)
    → length w ≡ 64
    → First w 0 f
    → Finds ws (i + 1) later
    → Finds (w ∷ ws) i (word_found i f later)
unfolding First Finds word_found
word_found-Finds w ws i none later len h k = pass w ws i later (λ r lt. inl (h r)) k
word_found-Finds w ws i (some b) later len (r, e, lt, clear, below) k =
    if_elim (Finds (w ∷ ws) i) (leb (10 + (i * 64 + b)) 254) _ _
      (λ t. (0, r, omega (arith, e), ground (arith, t), omega (arith, lt, len), clear, lower))
      (λ t. pass w ws i later (beyond (ground (arith, t))) k)
  where
    lower : (q' r' : ℕ) → r' < 64 → addr (i + q') r' < 10 + (i * 64 + b) → bit (w ∷ ws) q' r' ≡ true
    lower zero r' lt' a = below r' (omega (arith, a, e))
    lower (suc q') r' lt' a = absurd (omega (arith, a, e, lt, len))

    beyond : 254 < 10 + (i * 64 + b) → (r' : ℕ) → r' < 64 → (bit_of w r' ≡ true) ⊎ (254 < addr i r')
    beyond past r' lt' = elim (dec_lt r' r) [
      | yes l ↦ inl (below r' l)
      | no g ↦ inr (omega (arith, past, e, g))
    ]

allocate_from-Finds : (ws : IpBitmap) (i : ℕ) → IsWords ws → Finds ws i (allocate_from i ws)
unfolding Finds IsWords word_found
allocate_from-Finds [] i h = λ q r lt. inl refl
allocate_from-Finds (w ∷ ws) i h =
    word_found-Finds w ws i (first_clear 0 w) (allocate_from (i + 1) ws) h.0 (first_clear-First w 0)
      (allocate_from-Finds ws (i + 1) h.1)

length-set {ℓ} : {A : Type ℓ} (xs : List A) (i : ℕ) (a : A) → length (set xs i a) ≡ length xs
length-set [] i a = refl
length-set (x ∷ xs) zero a = refl
length-set (x ∷ xs) (suc i) a = ap suc (length-set xs i a)

set_bit-IsWords : (ws : IpBitmap) (q r : ℕ) → IsWords ws → IsWords (set_bit ws q r)
unfolding IsWords
set_bit-IsWords [] q r h = h
set_bit-IsWords (w ∷ ws) zero r h = (length-set w r true ∙ h.0, h.1)
set_bit-IsWords (w ∷ ws) (suc q) r h = (h.0, set_bit-IsWords ws q r h.1)

mark_all-IsWords : (used : List ℕ) (ws : IpBitmap) → IsWords ws → IsWords (mark_all ws used)
mark_all-IsWords [] ws h = h
mark_all-IsWords (o ∷ used) ws h = mark_all-IsWords used (mark ws o) (
    if_elim IsWords (in_pool o) _ _ (λ t. set_bit-IsWords ws ((o - 10) / 64) ((o - 10) % 64) h)
      (λ t. h))

-- Whether an octet is among the used ones.
abbrev pub is_used : ℕ → List ℕ → Bool
is_used o used = any (λ u. u == o) used

bit_of-clear_bits : (n r : ℕ) → r < n → bit_of (clear_bits n) r ≡ false
bit_of-clear_bits zero r lt = absurd (omega (arith, lt))
bit_of-clear_bits (suc n) zero lt = refl
bit_of-clear_bits (suc n) (suc r) lt = bit_of-clear_bits n r (omega (arith, lt))

bit-empty : (q r : ℕ) → q < 4 → r < 64 → bit empty_bitmap q r ≡ false
bit-empty zero r lq lr = bit_of-clear_bits 64 r lr
bit-empty (suc zero) r lq lr = bit_of-clear_bits 64 r lr
bit-empty (suc (suc zero)) r lq lr = bit_of-clear_bits 64 r lr
bit-empty (suc (suc (suc zero))) r lq lr = bit_of-clear_bits 64 r lr
bit-empty (suc (suc (suc (suc q)))) r lq lr = absurd (omega (arith, lq))

any-in_pool :
    (used : List ℕ) (a : ℕ)
    → 10 ≤ a
    → a ≤ 254
    → any (λ o. in_pool o && o == a) used ≡ is_used a used
any-in_pool [] a l h = refl
any-in_pool (o ∷ used) a l h = ground (arith, any-in_pool used a l h)

-- A bit of the bitmap tells whether its address is used.
bit-from_used :
    (used : List ℕ) (q r : ℕ)
    → r < 64
    → addr q r ≤ 254
    → bit (from_used used) q r ≡ is_used (addr q r) used
unfolding from_used
bit-from_used used q r lt le =
    bit-mark_all used empty_bitmap q r lt
    ∙ rw (bit-empty q r (omega (arith, le)) lt) (any-in_pool used (addr q r) (omega arith) le)

-- The least octet of the pool that is not used, or that there is none.
pub IsLeastFree : List ℕ → Option ℕ → Type 0
IsLeastFree used none = (o : ℕ) → pool_start ≤ o → o ≤ pool_end → is_used o used ≡ true
IsLeastFree used (some o) =
    (pool_start ≤ o)
    × (o ≤ pool_end)
    × (is_used o used ≡ false)
    × ((p : ℕ) → pool_start ≤ p → p < o → is_used p used ≡ true)

module _ (used : List ℕ) where
  place : (o : ℕ) → 10 ≤ o → addr ((o - 10) / 64) ((o - 10) % 64) ≡ o
  place o l = omega arith

  used_of_bit :
      (o : ℕ)
      → 10 ≤ o
      → o ≤ 254
      → bit (from_used used) ((o - 10) / 64) ((o - 10) % 64) ≡ true
      → is_used o used ≡ true
  used_of_bit o l h t =
      ap (λ a. is_used a used) (sym (place o l))
      ∙ sym (
          bit-from_used used ((o - 10) / 64) ((o - 10) % 64) (omega arith)
            (omega (arith, place o l, h)))
      ∙ t

  free-of_Finds : (found : Option ℕ) → Finds (from_used used) 0 found → IsLeastFree used found
  unfolding Finds IsLeastFree
  free-of_Finds none f = λ o l h. elim (f ((o - 10) / 64) ((o - 10) % 64) (omega arith)) [
    | inl t ↦ used_of_bit o l h t
    | inr past ↦ absurd (omega (arith, past, h, l))
  ]
  free-of_Finds (some o) (q, r, e, le, lt, clear, low) = (
    omega (arith, e),
    le,
    ap (λ a. is_used a used) (e ∙ ap (λ n. addr n r) (omega arith))
        ∙ sym (bit-from_used used q r lt (omega (arith, e, le)))
        ∙ clear,
    λ p l lp.
        used_of_bit p l (omega (arith, lp, le))
          (low ((p - 10) / 64) ((p - 10) % 64) (omega arith) (omega (arith, lp, l))),
  )

empty-IsWords : IsWords empty_bitmap
unfolding IsWords
empty-IsWords = (refl, (refl, (refl, (refl, tt))))

-- An address is given out exactly while one of the pool is free, and it is the least that is not used.
pub allocate-IsLeastFree : (used : List ℕ) → IsLeastFree used (allocate (from_used used))
unfolding allocate from_used
allocate-IsLeastFree used =
    free-of_Finds used (allocate_from 0 (from_used used))
      (allocate_from-Finds (from_used used) 0 (mark_all-IsWords used empty_bitmap empty-IsWords))
