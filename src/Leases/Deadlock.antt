-- ===== src/Leases/Deadlock.antt =====
-- The lock order global, workspace, sandbox, and that no set of requests waits for one another:
-- src/daemon/leases.rs, `LifecycleLeases::acquire`.
use mathlib.Core.Path.{subst}
use enclave.Common.{
  ℕ, zero, suc, ◌+◌, ◌≤◌, ◌<◌, ◌≡◌, ◌≢◌, refl, sym, ap, ◌∙◌, ◌⊎◌, inl, inr, true, false, List, [],
  ◌∷◌, ◌++◌, some, arith, Bool-cases, get_elem?, All, All-get, find_of_total,
}
use enclave.Leases.{
  GateMode, shared, exclusive, GateState, GateId, global_gate, sandbox_gate, workspace_gate,
  same_gate, Phase, running, blocked, releasing, Operation, Leases, Event, history, initial, Ask,
  scoped, workspace_only, plan, admitted, global, sandbox, workspace,
}
use enclave.Leases.Counting.{times, waits_for, IsCounted, eq_of_same_gate}
use enclave.Leases.Steps.{history-Counted}
use enclave.Leases.Plans.{IsOnPlan, history-IsOnPlan}
use enclave.Leases.Exclusion.{IsHolding}

abbrev rank : GateId → ℕ
rank global_gate = 1
rank (workspace_gate s w) = 2
rank (sandbox_gate s) = 3

rank-le : (g : GateId) → rank g ≤ 3
rank-le global_gate = omega arith
rank-le (workspace_gate s w) = omega arith
rank-le (sandbox_gate s) = omega arith

rank_pos : (g : GateId) → 0 < rank g
rank_pos global_gate = omega arith
rank_pos (workspace_gate s w) = omega arith
rank_pos (sandbox_gate s) = omega arith

-- The ranks rise along a list, from a bound on.
abbrev Rises : ℕ → List (GateId × GateMode) → Type 0
Rises b [] = Unit
Rises b ((g, m) ∷ rest) = (b < rank g) × Rises (rank g) rest

plan-Rises : (a : Ask) → Rises 0 (plan a)
unfolding plan
plan-Rises (scoped global) = (omega arith, tt)
plan-Rises (scoped (sandbox s)) = (omega arith, (omega arith, tt))
plan-Rises (scoped (workspace s w)) = (omega arith, (omega arith, (omega arith, tt)))
plan-Rises (workspace_only s w) = (omega arith, (omega arith, tt))

Rises-bound :
    (b : ℕ) (h : GateId) (n : GateMode) (held rest : List (GateId × GateMode))
    → Rises b (held ++ (h, n) ∷ rest)
    → b < rank h
Rises-bound b h n [] rest r = r.0
Rises-bound b h n ((k, o) ∷ held) rest r =
    omega (arith, r.0, Rises-bound (rank k) h n held rest r.1)

-- A gate that is held has a lower rank than the one that is awaited.
times-rank :
    (b : ℕ) (g h : GateId) (m n : GateMode) (held rest : List (GateId × GateMode))
    → Rises b (held ++ (h, n) ∷ rest)
    → 1 ≤ times g m held
    → rank g < rank h
times-rank b g h m n [] rest r p = absurd (omega arith)
times-rank b g h m n ((k, o) ∷ held) rest r p = elim (Bool-cases (same_gate k g)) [
  | inl same ↦
      let e = ap rank (eq_of_same_gate k g same) in
      omega (arith, e, Rises-bound (rank k) h n held rest r.1)
  | inr other ↦ times-rank (rank k) g h m n held rest r.1 (ground arith)
]

-- What an operation that is not waiting for another can do next.
pub data CanMove (l : Leases) (o : Operation) : Type 0 where
  -- it is dropping its guards
  releases : o.phase ≡ releasing → o.held ≢ [] → CanMove l o
  -- it has its lease, and finishes in its own time
  holds : IsHolding o → CanMove l o
  -- it has a gate to try
  tries : o.phase ≡ running → o.todo ≢ [] → CanMove l o
  -- the gate that it waits for admits it
  wakes :
      (g : GateId) (m : GateMode) (rest : List (GateId × GateMode))
      → o.phase ≡ blocked
      → o.todo ≡ (g, m) ∷ rest
      → admitted m (l.gates g) ≡ true
      → CanMove l o

abbrev pub Mover : Leases → Type 0
Mover l = (j : ℕ) × (p : Operation) × (get_elem? l.operations j ≡ some p) × CanMove l p

-- Some operation holds a guard of the gate.
abbrev Guarded : GateId → List Operation → Type 0
Guarded g os =
    (j : ℕ) × (p : Operation) × (m : GateMode) × (get_elem? os j ≡ some p) × (1 ≤ times g m p.held)

-- Some operation waits for exclusive access to the gate.
abbrev Queued : GateId → List Operation → Type 0
Queued g os =
    (j : ℕ) × (p : Operation) × (get_elem? os j ≡ some p) × (1 ≤ waits_for g p.phase p.todo)

module _ (g : GateId) (s : GateState) (os : List Operation) (c : IsCounted g s os) where
  keeper_of_exclusive : s.exclusive ≡ true → Guarded g os
  keeper_of_exclusive x =
      let (j, p, e, h) =
        find_of_total (λ o. times g exclusive o.held) os (ground (arith, c.owns)) in
      (j, p, exclusive, e, h)

  keeper_of_shut : admitted exclusive s ≡ false → Guarded g os
  unfolding admitted
  keeper_of_shut shut = elim (Bool-cases s.exclusive) [
    | inl x ↦ keeper_of_exclusive x
    | inr x ↦
        let (j, p, e, h) =
          find_of_total (λ o. times g shared o.held) os (ground (arith, c.shares)) in
        (j, p, shared, e, h)
  ]

  kept_of_shut : admitted shared s ≡ false → Guarded g os ⊎ Queued g os
  unfolding admitted
  kept_of_shut shut = elim (Bool-cases s.exclusive) [
    | inl x ↦ inl (keeper_of_exclusive x)
    | inr x ↦ inr (find_of_total (λ o. waits_for g o.phase o.todo) os (ground (arith, c.queues)))
  ]

-- A search that starts from an operation blocked on a gate of a rank above `b`.
abbrev Search : Leases → ℕ → Type 0
Search l b =
    (j : ℕ) (p : Operation) (h : GateId) (n : GateMode) (rest : List (GateId × GateMode))
    → get_elem? l.operations j ≡ some p
    → p.phase ≡ blocked
    → p.todo ≡ (h, n) ∷ rest
    → b < rank h
    → Mover l

module _ (l : Leases) (c : (g : GateId) → IsCounted g (l.gates g) l.operations)
    (on : All IsOnPlan l.operations) where
  -- The holder of a guard moves, or waits for a gate of a higher rank, from where the search goes on.
  from_guard :
      (g : GateId) (j : ℕ) (p : Operation) (m : GateMode) (phase : Phase)
      (todo : List (GateId × GateMode))
      → Search l (rank g)
      → p.phase ≡ phase
      → p.todo ≡ todo
      → get_elem? l.operations j ≡ some p
      → 1 ≤ times g m p.held
      → Mover l
  from_guard g j p m running [] rec f t e h = (j, p, e, holds (record { ready = f; complete = t }))
  from_guard g j p m running (k ∷ rest) rec f t e h = (j, p, e, tries f (λ q. cc))
  from_guard g j p m releasing todo rec f t e h =
      (j, p, e, releases f (λ q. absurd (omega (arith, ap (times g m) q))))
  from_guard g j p m blocked [] rec f t e h =
      absurd ((All-get IsOnPlan l.operations j p on e).pending f t)
  from_guard g j p m blocked ((k, n) ∷ rest) rec f t e h =
      let v = All-get IsOnPlan l.operations j p on e in
      let q : p.held ++ (k, n) ∷ rest ≡ plan p.ask = ap (◌++◌ p.held) (sym t) ∙ v.exact (λ x. cc) in
      rec j p k n rest e f t (times-rank 0 g k m n p.held rest (rw q (plan-Rises p.ask)) h)

  from_keeper : (g : GateId) → Search l (rank g) → Guarded g l.operations → Mover l
  from_keeper g rec (j, p, m, e, h) = from_guard g j p m p.phase p.todo rec refl refl e h

  -- A request that waits for exclusive access wakes, or a guard is in its way.
  from_queue :
      (g : GateId) (j : ℕ) (p : Operation) (phase : Phase) (todo : List (GateId × GateMode))
      → Search l (rank g)
      → p.phase ≡ phase
      → p.todo ≡ todo
      → get_elem? l.operations j ≡ some p
      → 1 ≤ waits_for g phase todo
      → Mover l
  from_queue g j p running todo rec f t e h = absurd (omega arith)
  from_queue g j p releasing todo rec f t e h = absurd (omega arith)
  from_queue g j p blocked [] rec f t e h = absurd (omega arith)
  from_queue g j p blocked ((k, shared) ∷ rest) rec f t e h = absurd (ground arith)
  from_queue g j p blocked ((k, exclusive) ∷ rest) rec f t e h =
      elim (Bool-cases (admitted exclusive (l.gates k))) [
        | inl admits ↦ (j, p, e, wakes k exclusive rest f t admits)
        | inr shut ↦
            let same : rank k ≡ rank g = ap rank (eq_of_same_gate k g (ground arith)) in
            from_keeper k (subst (Search l) (sym same) rec)
              (keeper_of_shut k (l.gates k) l.operations (c k) shut)
      ]

  from_gate :
      (g : GateId) (m : GateMode) → Search l (rank g) → admitted m (l.gates g) ≡ false → Mover l
  from_gate g exclusive rec shut =
      from_keeper g rec (keeper_of_shut g (l.gates g) l.operations (c g) shut)
  from_gate g shared rec shut = elim (kept_of_shut g (l.gates g) l.operations (c g) shut) [
    | inl x ↦ from_keeper g rec x
    | inr (j, p, e, h) ↦ from_queue g j p p.phase p.todo rec refl refl e h
  ]

  seek_from : (k b : ℕ) → 3 < k + b → Search l b
  seek_from zero b h j p g n rest e f t r = absurd (grind (arith, rank-le g))
  seek_from (suc k) b h j p g n rest e f t r = elim (Bool-cases (admitted n (l.gates g))) [
    | inl admits ↦ (j, p, e, wakes g n rest f t admits)
    | inr shut ↦ from_gate g n (seek_from k (rank g) (omega arith)) shut
  ]

from_todo :
    (l : Leases)
    → All IsOnPlan l.operations
    → ((g : GateId) → IsCounted g (l.gates g) l.operations)
    → (i : ℕ) (o : Operation) (todo : List (GateId × GateMode)) → get_elem? l.operations i ≡ some o
    → o.phase ≡ blocked
    → o.todo ≡ todo
    → Mover l
from_todo l on c i o [] e f t = absurd ((All-get IsOnPlan l.operations i o on e).pending f t)
from_todo l on c i o ((g, m) ∷ rest) e f t =
    seek_from l c on 4 0 (omega arith) i o g m rest e f t (rank_pos g)

-- After any history, while a request is blocked in a wait, some operation can move: a guard is being
-- dropped, a lease is held by a request that is at work, a request is about to try its next gate, or
-- the gate that some request waits for admits it. So requests never wait for one another in a circle.
pub blocked-Mover :
    (es : List Event) (i : ℕ) (o : Operation)
    → get_elem? (history initial es).operations i ≡ some o
    → o.phase ≡ blocked
    → Mover (history initial es)
blocked-Mover es i o e f =
    let l = history initial es in
    let on = history-IsOnPlan initial es tt in
    from_todo l on (history-Counted es) i o o.todo e f refl
