-- ===== src/Workers/Pools/Shutdown.antt =====
-- The bounded end of the pools: `finish_within` of src/daemon/workers/mod.rs. Time is in milliseconds;
-- the clock and the workers that are finished at each poll are parameters.
use enclave.Common.{
  ℕ, zero, suc, ◌+◌, ◌*◌, ◌/◌, ◌≤◌, ◌≡◌, refl, inl, inr, ◌⊎◌, Bool, true, false, not, List, [], ◌∷◌,
  Option, none, some, arith, Bool-cases, if◌then◌else◌, leb, all, filter, length,
}
use enclave.Workers.{close}
use enclave.Workers.Pools.{RequestWorkerPool}

-- The pause between two polls.
abbrev pub poll_ms : ℕ
poll_ms = 20

-- The two senders are dropped and the exec queue is closed: no worker is given another job.
pub stop_intake : RequestWorkerPool → RequestWorkerPool
unfolding close
stop_intake pool = record {
  control_sender = record { held = pool.control_sender.held; connected = false };
  transfer_sender = record { held = pool.transfer_sender.held; connected = false };
  exec_queue = close pool.exec_queue;
}

-- The loop, on fuel: the poll it ends at. `finished k` tells of each worker whether it is finished at
-- the poll `k`, and `now k` is the time then.
unfoldable pub await_workers : ℕ → (ℕ → List Bool) → (ℕ → ℕ) → ℕ → ℕ → Option ℕ
await_workers zero finished now deadline k = none
await_workers (suc fuel) finished now deadline k =
    let later = await_workers fuel finished now deadline (k + 1) in
    if all (λ f. f) (finished k) then some k else if leb deadline (now k) then some k else later

-- The workers that are left behind.
abbrev pub unfinished : List Bool → ℕ
unfinished workers = length (filter not workers)

module _ (finished : ℕ → List Bool) (now : ℕ → ℕ)
    (pauses : (k : ℕ) → now k + poll_ms ≤ now (k + 1)) where
  await_workers-ends :
      (fuel k deadline : ℕ)
      → deadline ≤ now k + poll_ms * fuel
      → (n : ℕ) × (await_workers (suc fuel) finished now deadline k ≡ some n)
        × ((all (λ f. f) (finished n) ≡ true) ⊎ (deadline ≤ now n))
  unfolding await_workers
  await_workers-ends zero k deadline le = elim (Bool-cases (all (λ f. f) (finished k))) [
    | inl t ↦ (k, rw t refl, inl t)
    | inr t ↦
        let over : leb deadline (now k) ≡ true = ground arith in
        (k, rw (t, over) refl, inr (omega arith))
  ]
  await_workers-ends (suc fuel) k deadline le = elim (Bool-cases (all (λ f. f) (finished k))) [
    | inl t ↦ (k, rw t refl, inl t)
    | inr t ↦ elim (Bool-cases (leb deadline (now k))) [
      | inl u ↦ (k, rw (t, u) refl, inr (ground (arith, u)))
      | inr u ↦
          let (n, e, q) = await_workers-ends fuel (k + 1) deadline (omega (arith, le, pauses k)) in
          (n, rw (t, u) e, q)
    ]
  ]

all-unfinished : (workers : List Bool) → all (λ f. f) workers ≡ true → unfinished workers ≡ 0
all-unfinished [] h = refl
all-unfinished (true ∷ workers) h = all-unfinished workers h
all-unfinished (false ∷ workers) h = absurd (ground (arith, h))

-- With a clock that moves on by the pause at least, the wait ends within a poll for every pause of the
-- grace and two more; no worker is left behind then, or the grace is over.
pub await_workers-within_grace :
    (finished : ℕ → List Bool) (now : ℕ → ℕ) (grace : ℕ)
    → ((k : ℕ) → now k + poll_ms ≤ now (k + 1))
    → (n : ℕ) × (await_workers (suc (suc (grace / poll_ms))) finished now (now 0 + grace) 0
        ≡ some n)
      × ((unfinished (finished n) ≡ 0) ⊎ (now 0 + grace ≤ now n))
await_workers-within_grace finished now grace pauses =
    let (n, e, q) =
      await_workers-ends finished now pauses (suc (grace / poll_ms)) 0 (now 0 + grace)
        (omega arith) in
    (n, e, elim q [ inl t ↦ inl (all-unfinished (finished n) t) | inr t ↦ inr t ])
