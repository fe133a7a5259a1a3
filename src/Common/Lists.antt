-- ===== src/Common/Lists.antt =====
-- Lists measured and indexed by native numbers, and sums over them.
use Prim.Native.Nat.{ℕ, zero, suc, ◌+◌, ◌≤◌}
use mathlib.Core.Path.{◌≡◌, refl, sym, ap, subst, ◌∙◌}
use mathlib.Core.Logic.{◌≢◌, ◌⊎◌, Lift, inl, inr}
use mathlib.Core.Bool.{Bool, true, false, ◌&&◌, ◌||◌}
use mathlib.Core.List.{List, [], ◌∷◌, ◌++◌}
use mathlib.Core.Option.{Option, none, some, some-injective}
use native.Mathlib.Omega.{arith}
use native.Mathlib.Decide.{dec_lt}
use enclave.Common.Tests.{if◌then◌else◌, Bool-cases}

module _ {ℓ} {A : Type ℓ} where
  abbrev pub length : List A → ℕ
  length [] = 0
  length (x ∷ xs) = suc (length xs)

  abbrev pub get_elem? : List A → ℕ → Option A
  get_elem? [] i = none
  get_elem? (x ∷ xs) zero = some x
  get_elem? (x ∷ xs) (suc i) = get_elem? xs i

  abbrev pub set : List A → ℕ → A → List A
  set [] i v = []
  set (x ∷ xs) zero v = v ∷ xs
  set (x ∷ xs) (suc i) v = x ∷ set xs i v

  abbrev pub remove_at : List A → ℕ → List A
  remove_at [] i = []
  remove_at (x ∷ xs) zero = xs
  remove_at (x ∷ xs) (suc i) = x ∷ remove_at xs i

  abbrev pub any : (A → Bool) → List A → Bool
  any p [] = false
  any p (x ∷ xs) = p x || any p xs

  abbrev pub all : (A → Bool) → List A → Bool
  all p [] = true
  all p (x ∷ xs) = p x && all p xs

  abbrev pub filter : (A → Bool) → List A → List A
  filter p [] = []
  filter p (x ∷ xs) = if p x then x ∷ filter p xs else filter p xs

  -- The sum of a weight over a list.
  abbrev pub total : (A → ℕ) → List A → ℕ
  total f [] = 0
  total f (x ∷ xs) = f x + total f xs

  abbrev pub All {κ} : (A → Type κ) → List A → Type κ
  All P [] = Unit
  All P (x ∷ xs) = P x × All P xs

  -- The element is in the list.
  abbrev pub In : A → List A → Type ℓ
  In a [] = Lift ⊥
  In a (x ∷ xs) = (a ≡ x) ⊎ In a xs

  pub total-append : (f : A → ℕ) (xs ys : List A) → total f (xs ++ ys) ≡ total f xs + total f ys
  total-append f [] ys = omega arith
  total-append f (x ∷ xs) ys = omega (arith, total-append f xs ys)

  pub total-set :
      (f : A → ℕ) (xs : List A) (i : ℕ) (a b : A)
      → get_elem? xs i ≡ some a
      → total f (set xs i b) + f a ≡ total f xs + f b
  total-set f [] i a b e = ground arith
  total-set f (x ∷ xs) zero a b e = ground arith
  total-set f (x ∷ xs) (suc i) a b e = omega (arith, total-set f xs i a b e)

  pub total-remove_at :
      (f : A → ℕ) (xs : List A) (i : ℕ) (x : A)
      → get_elem? xs i ≡ some x
      → total f (remove_at xs i) + f x ≡ total f xs
  total-remove_at f [] i x e = ground arith
  total-remove_at f (y ∷ xs) zero x e = ground arith
  total-remove_at f (y ∷ xs) (suc i) x e = omega (arith, total-remove_at f xs i x e)

  pub le-total :
      (f : A → ℕ) (xs : List A) (i : ℕ) (a : A) → get_elem? xs i ≡ some a → f a ≤ total f xs
  le-total f [] i a e = ground arith
  le-total f (x ∷ xs) zero a e = ground arith
  le-total f (x ∷ xs) (suc i) a e = omega (arith, le-total f xs i a e)

  -- Two different places of a list both count.
  pub add-le-total :
      (f : A → ℕ) (xs : List A) (i j : ℕ) (a b : A)
      → i ≢ j
      → get_elem? xs i ≡ some a
      → get_elem? xs j ≡ some b
      → f a + f b ≤ total f xs
  add-le-total f [] i j a b ne e e' = ground arith
  add-le-total f (x ∷ xs) zero zero a b ne e e' = absurd (ne refl)
  add-le-total f (x ∷ xs) zero (suc j) a b ne e e' = ground (arith, le-total f xs j b e')
  add-le-total f (x ∷ xs) (suc i) zero a b ne e e' = ground (arith, le-total f xs i a e)
  add-le-total f (x ∷ xs) (suc i) (suc j) a b ne e e' =
      omega (arith, add-le-total f xs i j a b (λ p. ne (ap suc p)) e e')

  total-eq-zero :
      (f : A → ℕ) (xs : List A)
      → ((j : ℕ) (b : A) → get_elem? xs j ≡ some b → f b ≡ 0)
      → total f xs ≡ 0
  total-eq-zero f [] h = refl
  total-eq-zero f (x ∷ xs) h =
      let rest = total-eq-zero f xs (λ j b q. h (suc j) b q) in
      let first = h zero x refl in omega arith

  -- Where one place alone counts.
  pub total-eq_of_others :
      (f : A → ℕ) (xs : List A) (i : ℕ) (a : A)
      → get_elem? xs i ≡ some a
      → ((j : ℕ) (b : A) → i ≢ j → get_elem? xs j ≡ some b → f b ≡ 0)
      → total f xs ≡ f a
  total-eq_of_others f [] i a e others = ground arith
  total-eq_of_others f (x ∷ xs) zero a e others =
      let rest = total-eq-zero f xs (λ j b q. others (suc j) b (λ p. ground arith) q) in
      ground arith
  total-eq_of_others f (x ∷ xs) (suc i) a e others =
      let rest =
        total-eq_of_others f xs i a e (λ j b ne q. others (suc j) b (λ p. ne (ground arith)) q) in
      let first = others zero x (λ p. ground arith) refl in ground arith

  pub find_of_total :
      (f : A → ℕ) (xs : List A)
      → 1 ≤ total f xs
      → (i : ℕ) × (a : A) × (get_elem? xs i ≡ some a) × (1 ≤ f a)
  find_of_total f [] h = absurd (omega arith)
  find_of_total f (x ∷ xs) h = elim (dec_lt 0 (f x)) [
    | yes p ↦ (zero, x, refl, omega arith)
    | no p ↦ let (i, a, e, q) = find_of_total f xs (omega arith) in (suc i, a, e, q)
  ]

  pub All-set {κ} :
      (P : A → Type κ) (xs : List A) (i : ℕ) (b : A) → All P xs → P b → All P (set xs i b)
  All-set P [] i b h p = tt
  All-set P (x ∷ xs) zero b h p = (p, h.1)
  All-set P (x ∷ xs) (suc i) b h p = (h.0, All-set P xs i b h.1 p)

  pub All-of_In {κ} : (P : A → Type κ) (xs : List A) → ((x : A) → In x xs → P x) → All P xs
  All-of_In P [] h = tt
  All-of_In P (x ∷ xs) h = (h x (inl refl), All-of_In P xs (λ y m. h y (inr m)))

  pub All-In {κ} : (P : A → Type κ) (xs : List A) (a : A) → All P xs → In a xs → P a
  All-In P [] a h m = absurd m.lower
  All-In P (x ∷ xs) a h (inl e) = subst P (sym e) h.0
  All-In P (x ∷ xs) a h (inr m) = All-In P xs a h.1 m

  pub All-map {κ μ} :
      {P : A → Type κ} {Q : A → Type μ} (f : (x : A) → P x → Q x) (xs : List A)
      → All P xs
      → All Q xs
  All-map f [] h = tt
  All-map f (x ∷ xs) h = (f x h.0, All-map f xs h.1)

  pub All-get {κ} :
      (P : A → Type κ) (xs : List A) (i : ℕ) (a : A) → All P xs → get_elem? xs i ≡ some a → P a
  All-get P [] i a h e = absurd (cc)
  All-get P (x ∷ xs) zero a h e = subst P (some-injective _ _ e) h.0
  All-get P (x ∷ xs) (suc i) a h e = All-get P xs i a h.1 e

  pub All-append {κ} : (P : A → Type κ) (xs ys : List A) → All P xs → All P ys → All P (xs ++ ys)
  All-append P [] ys h k = k
  All-append P (x ∷ xs) ys h k = (h.0, All-append P xs ys h.1 k)

  pub In-filter : (p : A → Bool) (xs : List A) (a : A) → p a ≡ true → In a xs → In a (filter p xs)
  In-filter p [] a q h = h
  In-filter p (x ∷ xs) a q (inl e) = rw (sym (ap p e) ∙ q) (inl e)
  In-filter p (x ∷ xs) a q (inr h) = elim (Bool-cases (p x)) [
    | inl t ↦ rw t (inr (In-filter p xs a q h))
    | inr t ↦ rw t (In-filter p xs a q h)
  ]

  In-if :
      (b : Bool) (x a : A) (xs : List A)
      → In a (if b then x ∷ xs else xs)
      → ((b ≡ true) × (a ≡ x)) ⊎ In a xs
  In-if true x a xs (inl e) = inl (refl, e)
  In-if true x a xs (inr h) = inr h
  In-if false x a xs h = inr h

  pub In-of_In-filter :
      (p : A → Bool) (xs : List A) (a : A) → In a (filter p xs) → (p a ≡ true) × In a xs
  In-of_In-filter p [] a h = absurd h.lower
  In-of_In-filter p (x ∷ xs) a h = elim (In-if (p x) x a (filter p xs) h) [
    | inl (t, e) ↦ (ap p e ∙ t, inl e)
    | inr k ↦ let (q, m) = In-of_In-filter p xs a k in (q, inr m)
  ]

  pub any-filter : (p q : A → Bool) (xs : List A) → any p (filter q xs) ≡ any (λ x. q x && p x) xs
  any-filter p q [] = refl
  any-filter p q (x ∷ xs) = ground (arith, any-filter p q xs)

  pub any-append : (p : A → Bool) (xs ys : List A) → any p (xs ++ ys) ≡ (any p xs || any p ys)
  any-append p [] ys = refl
  any-append p (x ∷ xs) ys = ground (arith, any-append p xs ys)
