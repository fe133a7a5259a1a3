-- ===== src/Parallel/Tests.antt =====
-- Two items on two threads, the second finished first.
use enclave.Common.{
  ℕ, ◌+◌, ◌*◌, ◌≤◌, ◌<◌, ◌≡◌, refl, ◌⊎◌, List, [], ◌∷◌, none, some, map, arith, length,
}
use enclave.Parallel.{
  env_worker_count, worker_count, Batch, begin, Step, take, store, Steps, none_yet, one_more,
  IsOver,
}
use enclave.Parallel.Results.{results_in_order}
use enclave.Parallel.Rounds.{batch_ends}

abbrev double : ℕ → ℕ
double x = x + x

abbrev items : List ℕ
items = 5 ∷ 7 ∷ []

record Run : Type 0 where
  last : Batch ℕ ℕ
  steps : Steps double 2 (begin items) 4 last

abbrev two_threads : Run
two_threads = record {
  last = _;
  steps =
      one_more
        (one_more
          (one_more (one_more none_yet (take 0 5 ((1, 7) ∷ []) refl (omega arith)))
            (take 1 7 [] refl (omega arith)))
          (store 0 1 7 refl))
        (store 0 0 5 refl);
}

results_in_order_example : two_threads.last.results ≡ map (λ x. some (double x)) items
results_in_order_example =
    results_in_order double 2 4 items two_threads.last two_threads.steps (refl, refl)

batch_ends_example :
    (4 ≤ 2 * length items)
    × (length two_threads.last.taken ≤ 2)
    × (IsOver two_threads.last
        ⊎ ((4 < 2 * length items) × ((s' : Batch ℕ ℕ) × Step double 2 two_threads.last s')))
batch_ends_example = batch_ends double 2 4 items two_threads.last (omega arith) two_threads.steps

worker_count_runs :
    (worker_count (some 3) 8 4 ≡ 3)
    × (worker_count (some 100) 8 4 ≡ 4)
    × (worker_count none 2 4 ≡ 2)
unfolding worker_count env_worker_count
worker_count_runs = (refl, refl, refl)
