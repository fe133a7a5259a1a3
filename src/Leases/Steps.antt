-- ===== src/Leases/Steps.antt =====
-- Every step of the leases keeps the counters exact: src/daemon/leases.rs, `Gate::acquire` and
-- `Drop for GateGuard`.
use enclave.Common.{
  ℕ, ◌≤◌, ◌≡◌, refl, ◌⊎◌, inl, inr, Bool, true, false, List, [], ◌∷◌, some, arith, Bool-cases,
  Option-cases, get_elem?, set, total-append, le-total,
}
use enclave.Leases.{
  GateMode, shared, exclusive, GateState, GateId, same_gate, Outcome, poll, start_acquire, release,
  Phase, running, blocked, releasing, Operation, Leases, update, after_round, run_acquire, run_wake,
  run_release, run_operation, finish_operation, Event, arrive, run, finish, step, history, initial,
  Ask, plan,
}
use enclave.Leases.Counting.{
  eq_of_same_gate, bit, naming, times, waits_for, IsCounted, Moves, IsCounted-set,
}

-- The part of a gate's account that one operation makes up.
record Covers (g : GateId) (o : Operation) (s : GateState) : Type 0 where
  shares : times g shared o.held ≤ s.shared
  owns : times g exclusive o.held ≤ bit s.exclusive
  queues : waits_for g o.phase o.todo ≤ s.waiting_exclusive
  apart : (s.exclusive ≡ false) ⊎ (s.shared ≡ 0)

IsCounted-Covers :
    (g : GateId) (os : List Operation) (i : ℕ) (o : Operation) (s : GateState)
    → get_elem? os i ≡ some o
    → IsCounted g s os
    → Covers g o s
IsCounted-Covers g os i o s e c = record {
  shares = omega (arith, le-total (λ o. times g shared o.held) os i o e);
  owns = omega (arith, le-total (λ o. times g exclusive o.held) os i o e);
  queues = omega (arith, le-total (λ o. waits_for g o.phase o.todo) os i o e);
  apart = c.apart;
}

wake-Moves :
    (g h : GateId) (m : GateMode) (rest : List (GateId × GateMode)) (o : Operation) (s : GateState)
    (time_up : Bool)
    → same_gate h g ≡ true
    → o.phase ≡ blocked
    → o.todo ≡ (h, m) ∷ rest
    → Covers g o s
    → Moves g o (after_round o (h, m) rest (poll time_up m s).1) s (poll time_up m s).0
unfolding poll after_round
wake-Moves g h shared rest o s time_up e p t c = ground (
  arith,
  total-append (naming g shared) o.held ((h, shared) ∷ []),
  total-append (naming g exclusive) o.held ((h, shared) ∷ []),
)
wake-Moves g h exclusive rest o s time_up e p t c = ground (
  arith,
  total-append (naming g shared) o.held ((h, exclusive) ∷ []),
  total-append (naming g exclusive) o.held ((h, exclusive) ∷ []),
)

start-Moves :
    (g h : GateId) (m : GateMode) (rest : List (GateId × GateMode)) (o : Operation) (s : GateState)
    (time_up : Bool)
    → same_gate h g ≡ true
    → o.phase ≡ running
    → o.todo ≡ (h, m) ∷ rest
    → Covers g o s
    → Moves g o
        (after_round o (h, m) rest (start_acquire time_up m s).1)
        s
        (start_acquire time_up m s).0
unfolding start_acquire after_round
start-Moves g h shared rest o s time_up e p t c = ground (
  arith,
  total-append (naming g shared) o.held ((h, shared) ∷ []),
  total-append (naming g exclusive) o.held ((h, shared) ∷ []),
)
start-Moves g h exclusive rest o s time_up e p t c = ground (
  arith,
  total-append (naming g shared) o.held ((h, exclusive) ∷ []),
  total-append (naming g exclusive) o.held ((h, exclusive) ∷ []),
)

-- A round for another gate.
other-Moves :
    (g h : GateId) (m : GateMode) (rest : List (GateId × GateMode)) (o : Operation) (s : GateState)
    (r : Outcome)
    → same_gate h g ≡ false
    → o.todo ≡ (h, m) ∷ rest
    → Covers g o s
    → Moves g o (after_round o (h, m) rest r) s s
unfolding after_round
other-Moves g h m rest o s r e t c = ground (
  arith,
  total-append (naming g shared) o.held ((h, m) ∷ []),
  total-append (naming g exclusive) o.held ((h, m) ∷ []),
)

release-Moves :
    (g h : GateId) (m : GateMode) (rest : List (GateId × GateMode)) (o : Operation) (s : GateState)
    → same_gate h g ≡ true
    → o.phase ≡ releasing
    → o.held ≡ (h, m) ∷ rest
    → Covers g o s
    → Moves g o (record o { held = rest }) s (release m s)
unfolding release
release-Moves g h shared rest o s e p t c = ground arith
release-Moves g h exclusive rest o s e p t c = ground arith

other_release-Moves :
    (g h : GateId) (m : GateMode) (rest : List (GateId × GateMode)) (o : Operation) (s : GateState)
    → same_gate h g ≡ false
    → o.held ≡ (h, m) ∷ rest
    → Covers g o s
    → Moves g o (record o { held = rest }) s s
other_release-Moves g h m rest o s e t c = ground arith

abbrev pub Counted : Leases → Type 0
Counted l = (g : GateId) → IsCounted g (l.gates g) l.operations

-- Carries a change of one operation and of the gate `h` over to the account of every gate.
module _ (l : Leases) (i : ℕ) (o o' : Operation) (h : GateId) (s' : GateState)
    (e : get_elem? l.operations i ≡ some o) (c : Counted l)
    (here : (g : GateId)
      → same_gate h g ≡ true
      → Covers g o (l.gates h)
      → Moves g o o' (l.gates h) s')
    (there : (g : GateId)
      → same_gate h g ≡ false
      → Covers g o (l.gates g)
      → Moves g o o' (l.gates g) (l.gates g)) where
  set-IsCounted : (g : GateId) → IsCounted g (update l.gates h s' g) (set l.operations i o')
  set-IsCounted g = elim (Bool-cases (same_gate h g)) [
    | inl p ↦
        let q = eq_of_same_gate h g p in
        let c' : IsCounted g (l.gates h) l.operations = rw q (c g) in
        rw p (
          IsCounted-set g l.operations i o o' (l.gates h) s' e c'
            (here g p (IsCounted-Covers g l.operations i o (l.gates h) e c')))
    | inr p ↦ rw p (
        IsCounted-set g l.operations i o o' (l.gates g) (l.gates g) e (c g)
          (there g p (IsCounted-Covers g l.operations i o (l.gates g) e (c g))))
  ]

module _ (l : Leases) (i : ℕ) (time_up : Bool) (o : Operation)
    (e : get_elem? l.operations i ≡ some o) (c : Counted l) where
  run_wake-Counted :
      (todo : List (GateId × GateMode))
      → o.phase ≡ blocked
      → o.todo ≡ todo
      → Counted (run_wake l i o time_up todo)
  unfolding run_wake
  run_wake-Counted [] p t = c
  run_wake-Counted ((h, m) ∷ rest) p t =
      let r = poll time_up m (l.gates h) in
      set-IsCounted l i o (after_round o (h, m) rest r.1) h r.0 e c
        (λ g q v. wake-Moves g h m rest o (l.gates h) time_up q p t v)
        (λ g q v. other-Moves g h m rest o (l.gates g) r.1 q t v)

  run_acquire-Counted :
      (todo : List (GateId × GateMode))
      → o.phase ≡ running
      → o.todo ≡ todo
      → Counted (run_acquire l i o time_up todo)
  unfolding run_acquire
  run_acquire-Counted [] p t = c
  run_acquire-Counted ((h, m) ∷ rest) p t =
      let r = start_acquire time_up m (l.gates h) in
      set-IsCounted l i o (after_round o (h, m) rest r.1) h r.0 e c
        (λ g q v. start-Moves g h m rest o (l.gates h) time_up q p t v)
        (λ g q v. other-Moves g h m rest o (l.gates g) r.1 q t v)

  run_release-Counted :
      (held : List (GateId × GateMode))
      → o.phase ≡ releasing
      → o.held ≡ held
      → Counted (run_release l i o held)
  unfolding run_release
  run_release-Counted [] p t = c
  run_release-Counted ((h, m) ∷ rest) p t =
      set-IsCounted l i o (record o { held = rest }) h (release m (l.gates h)) e c
        (λ g q v. release-Moves g h m rest o (l.gates h) q p t v)
        (λ g q v. other_release-Moves g h m rest o (l.gates g) q t v)

  run_operation-Counted :
      (phase : Phase) → o.phase ≡ phase → Counted (run_operation l i time_up o phase)
  unfolding run_operation
  run_operation-Counted running p = run_acquire-Counted o.todo p refl
  run_operation-Counted blocked p = run_wake-Counted o.todo p refl
  run_operation-Counted releasing p = run_release-Counted o.held p refl

  finish_operation-Counted :
      (phase : Phase) (todo : List (GateId × GateMode))
      → o.phase ≡ phase
      → Counted (finish_operation l i o phase todo)
  unfolding finish_operation
  finish_operation-Counted running [] p = λ g.
      IsCounted-set g l.operations i o (record o { phase = releasing }) (l.gates g) (l.gates g) e
        (c g) (ground (arith, (c g).apart))
  finish_operation-Counted running (_ ∷ _) p = c
  finish_operation-Counted _ _ p = c

arrive-Counted : (l : Leases) (ask : Ask) → Counted l → Counted (step l (arrive ask))
unfolding step
arrive-Counted l ask c g =
    let o : Operation = record { ask = ask; held = []; todo = plan ask; phase = running } in
    record {
      shares =
          omega
            (arith, (c g).shares, total-append (λ o. times g shared o.held) l.operations (o ∷ []));
      owns =
          omega
            (arith, (c g).owns, total-append (λ o. times g exclusive o.held) l.operations (o ∷ []));
      queues = omega (
        arith,
        (c g).queues,
        total-append (λ o. waits_for g o.phase o.todo) l.operations (o ∷ []),
      );
      apart = (c g).apart;
    }

pub step-Counted : (l : Leases) (e : Event) → Counted l → Counted (step l e)
unfolding step
step-Counted l (arrive ask) c = arrive-Counted l ask c
step-Counted l (run i time_up) c = elim (Option-cases (get_elem? l.operations i)) [
  | inl e ↦ rw (e, step) c
  | inr (o, e) ↦ rw (e, step) (run_operation-Counted l i time_up o e c o.phase refl)
]
step-Counted l (finish i) c = elim (Option-cases (get_elem? l.operations i)) [
  | inl e ↦ rw (e, step) c
  | inr (o, e) ↦ rw (e, step) (finish_operation-Counted l i true o e c o.phase o.todo refl)
]

history-Counted_from : (l : Leases) (es : List Event) → Counted l → Counted (history l es)
unfolding history
history-Counted_from l [] c = c
history-Counted_from l (e ∷ es) c = history-Counted_from (step l e) es (step-Counted l e c)

-- After any history of requests, waits, wake-ups, timeouts and releases, each gate's `shared` is
-- the number of shared guards alive, `exclusive` says whether an exclusive guard is alive (there is
-- at most one), `waiting_exclusive` is the number of requests that wait for exclusive access, and
-- an exclusive guard excludes every shared one.
pub history-Counted :
    (es : List Event) (g : GateId)
    → IsCounted g ((history initial es).gates g) (history initial es).operations
history-Counted es =
    history-Counted_from initial es
      (λ g. record { shares = refl; owns = refl; queues = refl; apart = inl refl })
