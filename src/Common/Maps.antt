-- ===== src/Common/Maps.antt =====
-- `HashMap<String, _>` as an association list: reading with a default, writing, removing.
use Prim.Native.Nat.{ℕ, ◌+◌, ◌≤◌}
use mathlib.Core.Path.{◌≡◌, refl, ap}
use mathlib.Core.Logic.{inl, inr}
use mathlib.Core.Bool.{true, false}
use mathlib.Core.List.{List, [], ◌∷◌}
use native.Mathlib.Omega.{arith}
use enclave.Common.Tests.{if◌then◌else◌, Bool-cases}
use enclave.Common.Lists.{total}
use enclave.Common.Chars.{Text, text_eq, text_eq_iff}

pub text_eq_refl : (s : Text) → text_eq s s ≡ true
text_eq_refl s = (text_eq_iff s s).1 refl

pub text_eq-comm_false : (s t : Text) → text_eq s t ≡ false → text_eq t s ≡ false
text_eq-comm_false s t h = ground (arith, text_eq_iff s t, text_eq_iff t s)

module _ {ℓ} {A : Type ℓ} where
  -- `get(key)` with a value for a missing key.
  abbrev pub get_or : A → List (Text × A) → Text → A
  get_or d [] key = d
  get_or d ((k, v) ∷ m) key = if text_eq k key then v else get_or d m key

  -- `insert(key, value)`.
  abbrev pub put : List (Text × A) → Text → A → List (Text × A)
  put [] key a = (key, a) ∷ []
  put ((k, v) ∷ m) key a = if text_eq k key then (k, a) ∷ m else (k, v) ∷ put m key a

  -- `remove(key)`.
  abbrev pub remove : List (Text × A) → Text → List (Text × A)
  remove [] key = []
  remove ((k, v) ∷ m) key = if text_eq k key then remove m key else (k, v) ∷ remove m key

  pub get_or-put :
      (d : A) (m : List (Text × A)) (key : Text) (a : A) → get_or d (put m key a) key ≡ a
  get_or-put d [] key a = rw (text_eq_refl key) refl
  get_or-put d ((k, v) ∷ m) key a = elim (Bool-cases (text_eq k key)) [
    | inl t ↦ rw (t, t) refl
    | inr t ↦ rw (t, t) (get_or-put d m key a)
  ]

  pub get_or-put_other :
      (d : A) (m : List (Text × A)) (key other : Text) (a : A)
      → text_eq key other ≡ false
      → get_or d (put m key a) other ≡ get_or d m other
  get_or-put_other d [] key other a ne = rw ne refl
  get_or-put_other d ((k, v) ∷ m) key other a ne = elim (Bool-cases (text_eq k key)) [
    | inl t ↦
        let e = (text_eq_iff k key).0 t in
        let ne' : text_eq k other ≡ false = rw e ne in rw (t, ne') refl
    | inr t ↦
        rw t (ap (λ r. if text_eq k other then v else r) (get_or-put_other d m key other a ne))
  ]

  pub get_or-remove : (d : A) (m : List (Text × A)) (key : Text) → get_or d (remove m key) key ≡ d
  get_or-remove d [] key = refl
  get_or-remove d ((k, v) ∷ m) key = elim (Bool-cases (text_eq k key)) [
    | inl t ↦ rw t (get_or-remove d m key)
    | inr t ↦ rw (t, t) (get_or-remove d m key)
  ]

  pub get_or-remove_other :
      (d : A) (m : List (Text × A)) (key other : Text)
      → text_eq key other ≡ false
      → get_or d (remove m key) other ≡ get_or d m other
  get_or-remove_other d [] key other ne = refl
  get_or-remove_other d ((k, v) ∷ m) key other ne = elim (Bool-cases (text_eq k key)) [
    | inl t ↦
        let e = (text_eq_iff k key).0 t in
        let ne' : text_eq k other ≡ false = rw e ne in
        rw (t, ne') (get_or-remove_other d m key other ne)
    | inr t ↦
        rw t (ap (λ r. if text_eq k other then v else r) (get_or-remove_other d m key other ne))
  ]

  -- A weight of the value that the default has none of.
  pub total-put :
      (d : A) (f : A → ℕ)
      → f d ≡ 0
      → (m : List (Text × A)) (key : Text) (a : A)
      → total (λ e. f e.1) (put m key a) + f (get_or d m key) ≡ total (λ e. f e.1) m + f a
  total-put d f z [] key a = omega (arith, z)
  total-put d f z ((k, v) ∷ m) key a = ground (arith, total-put d f z m key a)

  pub le-total-get_or :
      (d : A) (f : A → ℕ)
      → f d ≡ 0
      → (m : List (Text × A)) (key : Text) → f (get_or d m key) ≤ total (λ e. f e.1) m
  le-total-get_or d f z [] key = omega (arith, z)
  le-total-get_or d f z ((k, v) ∷ m) key = ground (arith, le-total-get_or d f z m key)

  abbrev pub LacksKey : Text → List (Text × A) → Type 0
  LacksKey key [] = Unit
  LacksKey key ((k, v) ∷ m) = (text_eq k key ≡ false) × LacksKey key m

  -- No key stands twice.
  abbrev pub HasDistinctKeys : List (Text × A) → Type 0
  HasDistinctKeys [] = Unit
  HasDistinctKeys ((k, v) ∷ m) = LacksKey k m × HasDistinctKeys m
