-- ===== src/Parallel.antt =====
-- Independent jobs on a bounded pool of threads: src/parallel.rs.
-- The threads are a step relation: a thread takes the front of the queue, or stores the result of the
-- item it took. A job is a function: a panic in one is passed on by the scope, and then there are no
-- results at all.
pub mod Results
pub mod Rounds
mod Tests
use enclave.Common.{
  ℕ, suc, ◌+◌, ◌≤◌, ◌<◌, ◌≡◌, ◌==◌, Bool, ◌&&◌, List, [], ◌∷◌, Option, none, some, leb, min, max,
  if◌then◌else◌, length, set, get_elem?, remove_at,
}

abbrev pub max_workers : ℕ
max_workers = 64

-- `count.clamp(low, high)`.
abbrev pub clamp : ℕ → ℕ → ℕ → ℕ
clamp count low high = max low (min count high)

-- The value of the variable, where it parses as a number.
pub env_worker_count : Option ℕ → ℕ → ℕ
env_worker_count none default = default
env_worker_count (some value) default =
    if leb 1 value && leb value max_workers then value else default

pub worker_count : Option ℕ → ℕ → ℕ → ℕ
unfolding env_worker_count
worker_count variable jobs default =
    if jobs == 0 then 0 else clamp (env_worker_count variable default) 1 jobs

abbrev pub enumerate_from {ℓ} : {T : Type ℓ} → ℕ → List T → List (ℕ × T)
enumerate_from i [] = []
enumerate_from i (x ∷ xs) = (i, x) ∷ enumerate_from (i + 1) xs

abbrev pub no_results {ℓ κ} : {T : Type ℓ} {R : Type κ} → List T → List (Option R)
no_results [] = []
no_results (x ∷ xs) = none ∷ no_results xs

-- The queue, the items that threads have taken, and the results.
pub record Batch (T R : Type 0) : Type 0 where
  pub queue : List (ℕ × T)
  pub taken : List (ℕ × T)
  pub results : List (Option R)

abbrev pub begin : {T R : Type 0} → List T → Batch T R
begin items = record { queue = enumerate_from 0 items; taken = []; results = no_results items }

module _ {T R : Type 0} (job : T → R) (workers : ℕ) where
  pub data Step (s : Batch T R) : Batch T R → Type 0 where
    take :
        (index : ℕ) (item : T) (queue : List (ℕ × T))
        → s.queue ≡ (index, item) ∷ queue
        → length s.taken < workers
        → Step s (record s { queue = queue; taken = (index, item) ∷ s.taken })
    store :
        (p index : ℕ) (item : T)
        → get_elem? s.taken p ≡ some (index, item)
        → Step s (record s {
          taken = remove_at s.taken p;
          results = set s.results index (some (job item));
        })

  -- A number of steps.
  pub data Steps (s : Batch T R) : ℕ → Batch T R → Type 0 where
    none_yet : Steps s 0 s
    one_more : {n : ℕ} {s' s'' : Batch T R} → Steps s n s' → Step s' s'' → Steps s (suc n) s''

-- Every thread has found the queue empty and has stored its results.
abbrev pub IsOver : {T R : Type 0} → Batch T R → Type 0
IsOver s = (s.queue ≡ []) × (s.taken ≡ [])
