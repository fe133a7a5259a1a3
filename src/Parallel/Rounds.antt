-- ===== src/Parallel/Rounds.antt =====
-- The batch comes to its end, and its bounds: src/parallel.rs.
use enclave.Common.{
  ℕ, zero, suc, ◌+◌, ◌*◌, ◌≤◌, ◌<◌, ◌≡◌, refl, ap, ◌∙◌, ◌⊎◌, inl, inr, List, [], ◌∷◌, Option, none,
  some, arith, length, get_elem?, remove_at, ◌==◌, if◌then◌else◌,
}
use enclave.Parallel.{
  max_workers, clamp, env_worker_count, worker_count, Batch, begin, enumerate_from, Step, take,
  store, Steps, none_yet, one_more, IsOver,
}

length-remove_at {ℓ} :
    {A : Type ℓ} (xs : List A) (i : ℕ) (a : A)
    → get_elem? xs i ≡ some a
    → length (remove_at xs i) + 1 ≡ length xs
length-remove_at [] i a e = absurd (ground (arith, e))
length-remove_at (x ∷ xs) zero a e = omega arith
length-remove_at (x ∷ xs) (suc i) a e = omega (arith, length-remove_at xs i a e)

length-enumerate {ℓ} : {T : Type ℓ} (k : ℕ) (xs : List T) → length (enumerate_from k xs) ≡ length xs
length-enumerate k [] = refl
length-enumerate k (x ∷ xs) = ap suc (length-enumerate (k + 1) xs)

module _ {T R : Type 0} (job : T → R) (workers : ℕ) where
  -- The steps that are left: an item is taken, then stored.
  steps_left : Batch T R → ℕ
  steps_left s = 2 * length s.queue + length s.taken

  steps_left-Step : {s s' : Batch T R} → Step job workers s s' → steps_left s' + 1 ≡ steps_left s
  unfolding steps_left
  steps_left-Step (take index item queue e lt) = omega (arith, ap length e)
  steps_left-Step {s} (store p index item e) =
      omega (arith, length-remove_at s.taken p (index, item) e)

  steps_left-Steps :
      {s : Batch T R} {n : ℕ} {s' : Batch T R}
      → Steps job workers s n s'
      → steps_left s' + n ≡ steps_left s
  steps_left-Steps none_yet = omega arith
  steps_left-Steps (one_more ss st) = omega (arith, steps_left-Steps ss, steps_left-Step st)

  taken-Step :
      {s s' : Batch T R}
      → Step job workers s s'
      → length s.taken ≤ workers
      → length s'.taken ≤ workers
  taken-Step (take index item queue e lt) h = omega (arith, lt)
  taken-Step {s} (store p index item e) h =
      omega (arith, length-remove_at s.taken p (index, item) e)

  taken-Steps :
      {s : Batch T R} {n : ℕ} {s' : Batch T R}
      → Steps job workers s n s'
      → length s.taken ≤ workers
      → length s'.taken ≤ workers
  taken-Steps none_yet h = h
  taken-Steps (one_more ss st) h = taken-Step st (taken-Steps ss h)

  next_step : (s : Batch T R) → 1 ≤ workers → IsOver s ⊎ ((s' : Batch T R) × Step job workers s s')
  next_step s h = go s.queue s.taken refl refl
    where
      go :
          (queue held : List (ℕ × T))
          → s.queue ≡ queue
          → s.taken ≡ held
          → IsOver s ⊎ ((s' : Batch T R) × Step job workers s s')
      go [] [] q t = inl (q, t)
      go queue ((i, x) ∷ held) q t = inr (_, store 0 i x (ap (λ l. get_elem? l 0) t))
      go ((i, x) ∷ queue) [] q t = inr (_, take i x queue q (omega (arith, h, ap length t)))

-- With a worker at least, a batch of `count` items takes at most `2 * count` steps, no more items than
-- workers are taken at once, and a batch that is not over has made fewer steps and has a next one.
pub batch_ends :
    {T R : Type 0} (job : T → R) (workers n : ℕ) (items : List T) (s : Batch T R)
    → 1 ≤ workers
    → Steps job workers (begin items) n s
    → (n ≤ 2 * length items)
      × (length s.taken ≤ workers)
      × (IsOver s ⊎ ((n < 2 * length items) × ((s' : Batch T R) × Step job workers s s')))
unfolding steps_left
batch_ends job workers n items s h ss =
    let left = steps_left-Steps job workers ss in
    let all = length-enumerate 0 items in
    (
      omega (arith, left, all),
      taken-Steps job workers ss (omega arith),
      elim (next_step job workers s h) [
        | inl over ↦ inl over
        | inr (s', st) ↦ inr (omega (arith, left, all, steps_left-Step job workers st), (s', st))
      ],
    )

sized-le : (c jobs : ℕ) → (if jobs == 0 then 0 else clamp c 1 jobs) ≤ jobs
sized-le c jobs = ground arith

le-sized : (c jobs : ℕ) → 1 ≤ jobs → 1 ≤ (if jobs == 0 then 0 else clamp c 1 jobs)
le-sized c jobs h = ground arith

ignored :
    (v default : ℕ) → (v ≡ 0) ⊎ (max_workers < v) → env_worker_count (some v) default ≡ default
unfolding env_worker_count
ignored v default (inl e) = ground arith
ignored v default (inr lt) = ground arith

-- A batch has no more workers than jobs, and at least one where it has a job; an override outside 1 to 64
-- counts as none.
pub worker_count-bounds :
    (variable : Option ℕ) (jobs default : ℕ)
    → (worker_count variable jobs default ≤ jobs)
      × (1 ≤ jobs → 1 ≤ worker_count variable jobs default)
      × ((v : ℕ)
          → variable ≡ some v
          → (v ≡ 0) ⊎ (max_workers < v)
          → worker_count variable jobs default ≡ worker_count none jobs default)
unfolding worker_count env_worker_count
worker_count-bounds variable jobs default = (
  sized-le (env_worker_count variable default) jobs,
  le-sized (env_worker_count variable default) jobs,
  λ v e out.
      ap (λ c. if jobs == 0 then 0 else clamp c 1 jobs)
        (ap (λ o. env_worker_count o default) e ∙ ignored v default out),
)
