-- ===== src/Parallel/Results.antt =====
-- Whatever the order in which the threads run: src/parallel.rs.
use enclave.Common.{
  ℕ, zero, suc, ◌+◌, ◌≡◌, ◌≢◌, refl, sym, ap, subst, ◌∙◌, ◌⊎◌, inl, inr, List, [], ◌∷◌, Option,
  none, some, map, arith, length, set, get_elem?, remove_at, In, All, All-get, ◌==◌, ==_iff,
  Bool-cases,
}
use mathlib.Core.Option.{some-injective}
use enclave.Parallel.{
  Batch, begin, enumerate_from, no_results, Step, take, store, Steps, none_yet, one_more, IsOver,
}

module _ {ℓ} {A : Type ℓ} where
  get_elem?-set :
      (xs : List A) (i : ℕ) (a b : A) → get_elem? xs i ≡ some a → get_elem? (set xs i b) i ≡ some b
  get_elem?-set [] i a b e = absurd (ground (arith, e))
  get_elem?-set (x ∷ xs) zero a b e = refl
  get_elem?-set (x ∷ xs) (suc i) a b e = get_elem?-set xs i a b e

  get_elem?-set_other :
      (xs : List A) (i j : ℕ) (b : A) → i ≢ j → get_elem? (set xs i b) j ≡ get_elem? xs j
  get_elem?-set_other [] i j b ne = refl
  get_elem?-set_other (x ∷ xs) zero zero b ne = absurd (ne refl)
  get_elem?-set_other (x ∷ xs) zero (suc j) b ne = refl
  get_elem?-set_other (x ∷ xs) (suc i) zero b ne = refl
  get_elem?-set_other (x ∷ xs) (suc i) (suc j) b ne =
      get_elem?-set_other xs i j b (λ e. ne (ap suc e))

  All-remove_at {κ} : (P : A → Type κ) (xs : List A) (i : ℕ) → All P xs → All P (remove_at xs i)
  All-remove_at P [] i h = tt
  All-remove_at P (x ∷ xs) zero h = h.1
  All-remove_at P (x ∷ xs) (suc i) h = (h.0, All-remove_at P xs i h.1)

  In-remove_at :
      (xs : List A) (i : ℕ) (a b : A)
      → get_elem? xs i ≡ some b
      → a ≢ b
      → In a xs
      → In a (remove_at xs i)
  In-remove_at [] i a b e ne h = absurd h.lower
  In-remove_at (x ∷ xs) zero a b e ne (inl h) = absurd (ne (ground (arith, h, e)))
  In-remove_at (x ∷ xs) zero a b e ne (inr h) = h
  In-remove_at (x ∷ xs) (suc i) a b e ne (inl h) = inl h
  In-remove_at (x ∷ xs) (suc i) a b e ne (inr h) = inr (In-remove_at xs i a b e ne h)

module _ {T R : Type 0} (job : T → R) where
  -- An entry is the result of its item, or its item is in the queue or taken.
  abbrev Settled : Batch T R → ℕ → T → Type 0
  Settled s i x =
      (get_elem? s.results i ≡ some (some (job x)))
      ⊎ ((get_elem? s.results i ≡ some none) × (In (i, x) s.queue ⊎ In (i, x) s.taken))

  record Inv (items : List T) (s : Batch T R) : Type 0 where
    same : length s.results ≡ length items
    queued : All (λ e. get_elem? items e.0 ≡ some e.1) s.queue
    held : All (λ e. get_elem? items e.0 ≡ some e.1) s.taken
    settled : (i : ℕ) (x : T) → get_elem? items i ≡ some x → Settled s i x

module _ {T R : Type 0} (job : T → R) (items : List T) where
  All-enumerate :
      (P : ℕ × T → Type 0) (k : ℕ) (xs : List T)
      → ((i : ℕ) (x : T) → get_elem? xs i ≡ some x → P (k + i, x))
      → All P (enumerate_from k xs)
  All-enumerate P k [] h = tt
  All-enumerate P k (x ∷ xs) h =
      let first : P (k, x) = subst (λ n. P (n, x)) (omega arith) (h 0 x refl) in
      (
        first,
        All-enumerate P (k + 1) xs (λ i y e. subst (λ n. P (n, y)) (omega arith) (h (suc i) y e)),
      )

  In-enumerate :
      (k : ℕ) (xs : List T) (i : ℕ) (x : T)
      → get_elem? xs i ≡ some x
      → In (k + i, x) (enumerate_from k xs)
  In-enumerate k [] i x e = absurd (ground (arith, e))
  In-enumerate k (y ∷ xs) zero x e = inl (ground (arith, e))
  In-enumerate k (y ∷ xs) (suc i) x e = inr (
      subst (λ n. In (n, x) (enumerate_from (k + 1) xs)) (omega arith)
        (In-enumerate (k + 1) xs i x e))

  length-no_results : (xs : List T) → length (no_results {R = R} xs) ≡ length xs
  length-no_results [] = refl
  length-no_results (x ∷ xs) = ap suc (length-no_results xs)

  get_elem?-no_results :
      (xs : List T) (i : ℕ) (x : T)
      → get_elem? xs i ≡ some x
      → get_elem? (no_results {R = R} xs) i ≡ some none
  get_elem?-no_results [] i x e = absurd (ground (arith, e))
  get_elem?-no_results (y ∷ xs) zero x e = refl
  get_elem?-no_results (y ∷ xs) (suc i) x e = get_elem?-no_results xs i x e

  begin-Inv : Inv job items (begin items)
  begin-Inv = record {
    same = length-no_results items;
    queued =
        All-enumerate (λ e. get_elem? items e.0 ≡ some e.1) 0 items
          (λ i x e. subst (λ n. get_elem? items n ≡ some x) (omega arith) e);
    held = tt;
    settled = λ i x e. inr (
      get_elem?-no_results items i x e,
      inl (
          subst (λ n. In (n, x) (enumerate_from 0 items)) (omega arith)
            (In-enumerate 0 items i x e)),
    );
  }

  length-set {ℓ} : {A : Type ℓ} (xs : List A) (i : ℕ) (a : A) → length (set xs i a) ≡ length xs
  length-set [] i a = refl
  length-set (x ∷ xs) zero a = refl
  length-set (x ∷ xs) (suc i) a = ap suc (length-set xs i a)

  Step-Inv :
      {workers : ℕ} {s s' : Batch T R} → Step job workers s s' → Inv job items s → Inv job items s'
  Step-Inv {s} (take index item queue e lt) inv =
      let h = subst (All (λ e. get_elem? items e.0 ≡ some e.1)) e inv.queued in
      record {
        same = inv.same;
        queued = h.1;
        held = (h.0, inv.held);
        settled = λ i x at. moved i x (inv.settled i x at);
      }
    where
      among :
          (i : ℕ) (x : T)
          → In (i, x) s.queue ⊎ In (i, x) s.taken
          → In (i, x) queue ⊎ In (i, x) ((index, item) ∷ s.taken)
      among i x (inr h) = inr (inr h)
      among i x (inl h) = elim (subst (In (i, x)) e h) [ inl q ↦ inr (inl q) | inr q ↦ inl q ]

      moved :
          (i : ℕ) (x : T)
          → Settled job s i x
          → Settled job (record s { queue = queue; taken = (index, item) ∷ s.taken }) i x
      moved i x (inl h) = inl h
      moved i x (inr (n, h)) = inr (n, among i x h)
  Step-Inv {s} (store p index item e) inv = record {
    same = length-set s.results index (some (job item)) ∙ inv.same;
    queued = inv.queued;
    held = All-remove_at (λ e. get_elem? items e.0 ≡ some e.1) s.taken p inv.held;
    settled = λ i x at. elim (Bool-cases (index == i)) [
      | inl t ↦ stored i x ((==_iff index i).0 t) at
      | inr t ↦
          kept i x (λ q. absurd (ground (arith, t, (==_iff index i).1 q))) (inv.settled i x at)
    ];
  }
    where
      after : Batch T R
      after = record s {
        taken = remove_at s.taken p;
        results = set s.results index (some (job item));
      }

      item_at : get_elem? items index ≡ some item
      item_at = All-get (λ e. get_elem? items e.0 ≡ some e.1) s.taken p (index, item) inv.held e

      present :
          (i : ℕ) (x : T) → Settled job s i x → (r : Option R) × (get_elem? s.results i ≡ some r)
      present i x (inl h) = (some (job x), h)
      present i x (inr (h, _)) = (none, h)

      stored : (i : ℕ) (x : T) → index ≡ i → get_elem? items i ≡ some x → Settled job after i x
      stored i x q at =
          let (r, h) = present index item (inv.settled index item item_at) in
          let same : item ≡ x = some-injective _ _ (sym item_at ∙ ap (get_elem? items) q ∙ at) in
          inl (
            subst (λ n. get_elem? (set s.results index (some (job item))) n ≡ some (some (job x))) q
              (get_elem?-set s.results index r (some (job item)) h
                ∙ ap (λ y. some (some (job y))) same))

      kept : (i : ℕ) (x : T) → index ≢ i → Settled job s i x → Settled job after i x
      kept i x ne (inl h) = inl (get_elem?-set_other s.results index i (some (job item)) ne ∙ h)
      kept i x ne (inr (h, inl q)) =
          inr (get_elem?-set_other s.results index i (some (job item)) ne ∙ h, inl q)
      kept i x ne (inr (h, inr q)) = inr (
        get_elem?-set_other s.results index i (some (job item)) ne ∙ h,
        inr (
            In-remove_at s.taken p (i, x) (index, item) e
              (λ r. ne (sym (ap (λ (y : ℕ × T). y.0) r))) q),
      )

  Steps-Inv :
      {workers : ℕ} {s : Batch T R} {n : ℕ} {s' : Batch T R}
      → Steps job workers s n s'
      → Inv job items s
      → Inv job items s'
  Steps-Inv none_yet inv = inv
  Steps-Inv (one_more ss st) inv = Step-Inv st (Steps-Inv ss inv)

  Settled-at_end :
      (s : Batch T R) (i : ℕ) (x : T)
      → IsOver s
      → Settled job s i x
      → get_elem? s.results i ≡ some (some (job x))
  Settled-at_end s i x over (inl h) = h
  Settled-at_end s i x over (inr (h, inl q)) = absurd (subst (In (i, x)) over.0 q).lower
  Settled-at_end s i x over (inr (h, inr q)) = absurd (subst (In (i, x)) over.1 q).lower

same_entries :
    {T R : Type 0} (f : T → R) (xs : List T) (rs : List R)
    → length rs ≡ length xs
    → ((i : ℕ) (x : T) → get_elem? xs i ≡ some x → get_elem? rs i ≡ some (f x))
    → rs ≡ map f xs
same_entries f [] [] e h = refl
same_entries f [] (r ∷ rs) e h = absurd (omega (arith, e))
same_entries f (x ∷ xs) [] e h = absurd (omega (arith, e))
same_entries f (x ∷ xs) (r ∷ rs) e h =
    let first : r ≡ f x = some-injective _ _ (h 0 x refl) in
    rw (first, same_entries f xs rs (omega (arith, e)) (λ i y q. h (suc i) y q)) refl

-- However the threads are interleaved, once they are over every item has its own result, in the order
-- of the items.
pub results_in_order :
    {T R : Type 0} (job : T → R) (workers n : ℕ) (items : List T) (s : Batch T R)
    → Steps job workers (begin items) n s
    → IsOver s
    → s.results ≡ map (λ x. some (job x)) items
results_in_order job workers n items s ss over =
    let inv = Steps-Inv job items ss (begin-Inv job items) in
    same_entries (λ x. some (job x)) items s.results inv.same
      (λ i x e. Settled-at_end job items s i x over (inv.settled i x e))
