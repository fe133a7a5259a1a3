-- ===== src/Leases/Progress.antt =====
-- When a request is let through at once: src/daemon/leases.rs, `Gate::acquire`.
use enclave.Common.{
  ℕ, ◌+◌, ◌≤◌, ◌≡◌, ◌≢◌, refl, Bool, false, List, [], ◌∷◌, ◌++◌, some, arith, get_elem?, set, All,
  All-get, total-eq_of_others,
}
use enclave.Leases.{
  GateMode, shared, exclusive, GateState, GateId, global_gate, sandbox_gate, workspace_gate, Phase,
  running, blocked, releasing, Operation, Leases, Event, run, step, history, initial, Ask, scoped,
  workspace_only, plan, start_acquire, acquired, global, sandbox, workspace, run_operation,
}
use enclave.Leases.Counting.{times, waits_for, IsCounted, same_gate_refl}
use enclave.Leases.Steps.{history-Counted}
use enclave.Leases.Plans.{IsOnPlan, history-IsOnPlan}
use enclave.Leases.Overlap.{asks_overlap, Meet, Meet-overlap}

-- A plan names a gate once.
plan_once : (a : Ask) (g : GateId) → times g exclusive (plan a) + times g shared (plan a) ≤ 1
unfolding plan
plan_once (scoped global) g = ground arith
plan_once (scoped (sandbox s)) global_gate = ground arith
plan_once (scoped (sandbox s)) (sandbox_gate x) = ground arith
plan_once (scoped (sandbox s)) (workspace_gate x y) = ground arith
plan_once (scoped (workspace s w)) global_gate = ground arith
plan_once (scoped (workspace s w)) (sandbox_gate x) = ground arith
plan_once (scoped (workspace s w)) (workspace_gate x y) = ground arith
plan_once (workspace_only s w) global_gate = ground arith
plan_once (workspace_only s w) (sandbox_gate x) = ground arith
plan_once (workspace_only s w) (workspace_gate x y) = ground arith

waits_for-le :
    (g : GateId) (phase : Phase) (todo : List (GateId × GateMode))
    → waits_for g phase todo ≤ times g exclusive todo
waits_for-le g blocked [] = omega arith
waits_for-le g blocked (h ∷ rest) = omega arith
waits_for-le g running todo = omega arith
waits_for-le g releasing todo = omega arith

-- What an operation that does not overlap has to do with a gate of the other's plan.
record IsClear (g : GateId) (m : GateMode) (p : Operation) : Type 0 where
  owns : times g exclusive p.held ≡ 0
  queues : waits_for g p.phase p.todo ≡ 0
  shares : m ≡ exclusive → times g shared p.held ≡ 0

not_Meet : (a b : Ask) (g : GateId) → asks_overlap a b ≡ false → ¬ Meet (plan a) (plan b) g
not_Meet a b g e m = let e' = Meet-overlap a b g m in cc

IsClear-of_disjoint :
    (g : GateId) (m : GateMode) (a : Ask) (p : Operation)
    → 1 ≤ times g m (plan a)
    → IsOnPlan p
    → asks_overlap a p.ask ≡ false
    → IsClear g m p
IsClear-of_disjoint g shared a p h v e =
    let n : ¬ Meet (plan a) (plan p.ask) g = not_Meet a p.ask g e in
    let x : times g exclusive (plan p.ask) ≡ 0 = grind arith in
    record {
      owns = omega (arith, v.within g exclusive);
      queues = omega (arith, v.within g exclusive, waits_for-le g p.phase p.todo);
      shares = λ q. absurd (cc);
    }
IsClear-of_disjoint g exclusive a p h v e =
    let n : ¬ Meet (plan a) (plan p.ask) g = not_Meet a p.ask g e in
    let x : times g exclusive (plan p.ask) + times g shared (plan p.ask) ≡ 0 = grind arith in
    record {
      owns = omega (arith, v.within g exclusive);
      queues = omega (arith, v.within g exclusive, waits_for-le g p.phase p.todo);
      shares = λ q. omega (arith, v.within g shared);
    }

module _ (g : GateId) (m : GateMode) (rest : List (GateId × GateMode)) (l : Leases) (i : ℕ)
    (o : Operation) (e : get_elem? l.operations i ≡ some o)
    (c : IsCounted g (l.gates g) l.operations) (on : All IsOnPlan l.operations)
    (ready : o.phase ≡ running) (t : o.todo ≡ (g, m) ∷ rest)
    (others : (j : ℕ) (p : Operation)
      → i ≢ j
      → get_elem? l.operations j ≡ some p
      → asks_overlap o.ask p.ask ≡ false) where
  listed : 1 ≤ times g m (plan o.ask)
  listed =
      let v = All-get IsOnPlan l.operations i o on e in
      let w = v.within g m in
      elim m as (λ n. n ≡ m → 1 ≤ times g m (plan o.ask)) [
        | shared ↦ λ q. ground (arith, same_gate_refl g)
        | exclusive ↦ λ q. ground (arith, same_gate_refl g)
      ]
        refl

  clear : (j : ℕ) (p : Operation) → i ≢ j → get_elem? l.operations j ≡ some p → IsClear g m p
  clear j p ne q =
      IsClear-of_disjoint g m o.ask p listed (All-get IsOnPlan l.operations j p on q)
        (others j p ne q)

  own-IsClear : IsClear g m o
  own-IsClear =
      let v = All-get IsOnPlan l.operations i o on e in
      let a = v.within g shared in
      let b = v.within g exclusive in
      let once = plan_once o.ask g in
      elim m as (λ n. n ≡ m → IsClear g m o) [
        | shared ↦ λ q. ground (arith, same_gate_refl g)
        | exclusive ↦ λ q. ground (arith, same_gate_refl g)
      ]
        refl

  owned_by_none : (l.gates g).exclusive ≡ false
  owned_by_none =
      let n =
        total-eq_of_others (λ o. times g exclusive o.held) l.operations i o e
          (λ j p ne q. (clear j p ne q).owns) in
      ground (arith, own-IsClear.owns, c.owns)

  awaited_by_none : (l.gates g).waiting_exclusive ≡ 0
  awaited_by_none =
      let n =
        total-eq_of_others (λ o. waits_for g o.phase o.todo) l.operations i o e
          (λ j p ne q. (clear j p ne q).queues) in
      omega (arith, own-IsClear.queues, c.queues)

  shared_by_none : m ≡ exclusive → (l.gates g).shared ≡ 0
  shared_by_none x =
      let n =
        total-eq_of_others (λ o. times g shared o.held) l.operations i o e
          (λ j p ne q. (clear j p ne q).shares x) in
      omega (arith, own-IsClear.shares x, c.shares)

start-acquired :
    (m : GateMode) (s : GateState) (time_up : Bool)
    → s.exclusive ≡ false
    → s.waiting_exclusive ≡ 0
    → (m ≡ exclusive → s.shared ≡ 0)
    → (start_acquire time_up m s).1 ≡ acquired
unfolding start_acquire
start-acquired shared s time_up x w f = ground arith
start-acquired exclusive s time_up x w f = ground (arith, f refl)

run_acquire_lem :
    (l : Leases) (i : ℕ) (o : Operation) (time_up : Bool) (g : GateId) (m : GateMode)
    (rest : List (GateId × GateMode))
    → o.phase ≡ running
    → o.todo ≡ (g, m) ∷ rest
    → (start_acquire time_up m (l.gates g)).1 ≡ acquired
    → (run_operation l i time_up o o.phase).operations
      ≡ set l.operations i (record o { held = o.held ++ (g, m) ∷ []; todo = rest })
unfolding run_operation
run_acquire_lem l i o time_up g shared rest ready t a = ground arith
run_acquire_lem l i o time_up g exclusive rest ready t a = ground arith

-- Unrelated requests are let through: if no other operation's request overlaps that of the operation
-- at place `i`, its next `acquire` is granted without a wait, and the gate is added to what it holds.
pub unrelated-acquired :
    (es : List Event) (i : ℕ) (o : Operation) (g : GateId) (m : GateMode)
    (rest : List (GateId × GateMode)) (time_up : Bool)
    → get_elem? (history initial es).operations i ≡ some o
    → o.phase ≡ running
    → o.todo ≡ (g, m) ∷ rest
    → ((j : ℕ) (p : Operation)
        → i ≢ j
        → get_elem? (history initial es).operations j ≡ some p
        → asks_overlap o.ask p.ask ≡ false)
    → (step (history initial es) (run i time_up)).operations
      ≡ set
          (history initial es).operations
          i
          (record o { held = o.held ++ (g, m) ∷ []; todo = rest })
unfolding step
unrelated-acquired es i o g m rest time_up e ready t others =
    let l = history initial es in
    let c = history-Counted es g in
    let on = history-IsOnPlan initial es tt in
    let a =
      start-acquired m (l.gates g) time_up (owned_by_none g m rest l i o e c on ready t others)
        (awaited_by_none g m rest l i o e c on ready t others)
        (shared_by_none g m rest l i o e c on ready t others) in
    rw (e, step) (run_acquire_lem l i o time_up g m rest ready t a)
