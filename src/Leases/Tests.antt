-- ===== src/Leases/Tests.antt =====
-- Runs of the leases: src/daemon/leases.rs.
use enclave.Common.{
  ℕ, zero, suc, ◌≡◌, ◌≢◌, refl, true, false, List, [], ◌∷◌, ◌++◌, some, arith, get_elem?, set,
}
use enclave.Leases.{
  shared, exclusive, global_gate, sandbox_gate, workspace_gate, running, blocked, releasing,
  Operation, Event, arrive, run, step, history, initial, scoped, sandbox, workspace,
}
use enclave.Leases.Counting.{IsCounted}
use enclave.Leases.Steps.{history-Counted}
use enclave.Leases.Overlap.{asks_overlap}
use enclave.Leases.Exclusion.{holders-disjoint}
use enclave.Leases.Progress.{unrelated-acquired}
use enclave.Leases.Deadlock.{Mover, blocked-Mover}

-- A workspace operation takes its three gates, and a sandbox operation waits behind it.
abbrev contended : List Event
contended =
    arrive (scoped (workspace "s" "w"))
    ∷ run 0 false
    ∷ run 0 false
    ∷ run 0 false
    ∷ arrive (scoped (sandbox "s"))
    ∷ run 1 false
    ∷ run 1 false
    ∷ []

abbrev worker : Operation
worker = record {
  ask = scoped (workspace "s" "w");
  held =
      (global_gate, shared) ∷ (workspace_gate "s" "w", exclusive) ∷ (sandbox_gate "s", shared) ∷ [];
  todo = [];
  phase = running;
}

abbrev stopper : Operation
stopper = record {
  ask = scoped (sandbox "s");
  held = (global_gate, shared) ∷ [];
  todo = (sandbox_gate "s", exclusive) ∷ [];
  phase = blocked;
}

contended_operations : (history initial contended).operations ≡ worker ∷ stopper ∷ []
unfolding history
contended_operations = refl

-- The sandbox operation times out, and drops the global gate that it holds.
timeout_drops :
    (history initial (contended ++ run 1 true ∷ run 1 false ∷ [])).operations
    ≡ worker ∷ record { ask = scoped (sandbox "s"); held = []; todo = []; phase = releasing } ∷ []
unfolding history
timeout_drops = refl

history-Counted_example :
    IsCounted
      (sandbox_gate "s")
      ((history initial contended).gates (sandbox_gate "s"))
      (history initial contended).operations
history-Counted_example = history-Counted contended (sandbox_gate "s")

abbrev both : List Event
both =
    arrive (scoped (workspace "s" "w"))
    ∷ run 0 false
    ∷ run 0 false
    ∷ run 0 false
    ∷ arrive (scoped (workspace "s" "v"))
    ∷ run 1 false
    ∷ run 1 false
    ∷ run 1 false
    ∷ []

abbrev other_worker : Operation
other_worker = record {
  ask = scoped (workspace "s" "v");
  held =
      (global_gate, shared) ∷ (workspace_gate "s" "v", exclusive) ∷ (sandbox_gate "s", shared) ∷ [];
  todo = [];
  phase = running;
}

holders-disjoint_example :
    asks_overlap (scoped (workspace "s" "w")) (scoped (workspace "s" "v")) ≡ false
unfolding history
holders-disjoint_example =
    holders-disjoint both 0 1 worker other_worker (omega arith) refl refl
      (record { ready = refl; complete = refl }) (record { ready = refl; complete = refl })

abbrev fresh : Operation
fresh = record {
  ask = scoped (sandbox "t");
  held = (global_gate, shared) ∷ [];
  todo = (sandbox_gate "t", exclusive) ∷ [];
  phase = running;
}

abbrev unrelated : List Event
unrelated = contended ++ arrive (scoped (sandbox "t")) ∷ run 2 false ∷ []

fresh_alone :
    (j : ℕ) (p : Operation)
    → 2 ≢ j
    → get_elem? (worker ∷ stopper ∷ fresh ∷ []) j ≡ some p
    → asks_overlap fresh.ask p.ask ≡ false
fresh_alone zero p ne e = ground arith
fresh_alone (suc zero) p ne e = ground arith
fresh_alone (suc (suc zero)) p ne e = absurd (ne refl)
fresh_alone (suc (suc (suc j))) p ne e = absurd (cc)

unrelated-acquired_example :
    (step (history initial unrelated) (run 2 false)).operations
    ≡ set (worker ∷ stopper ∷ fresh ∷ []) 2 (record fresh {
      held = (global_gate, shared) ∷ (sandbox_gate "t", exclusive) ∷ [];
      todo = [];
    })
unfolding history
unrelated-acquired_example =
    unrelated-acquired unrelated 2 fresh (sandbox_gate "t") exclusive [] false refl refl refl
      fresh_alone

blocked-Mover_example : Mover (history initial contended)
unfolding history
blocked-Mover_example = blocked-Mover contended 1 stopper refl refl
