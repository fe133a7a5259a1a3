-- ===== src/Leases/Plans.antt =====
-- Every operation stays on its plan, and which plans meet: src/daemon/leases.rs,
-- `LifecycleLeases::acquire`.
use mathlib.Core.List.{append_assoc}
use enclave.Common.{
  ℕ, ◌+◌, ◌≤◌, ◌≡◌, ◌≢◌, refl, sym, ap, ◌∙◌, inl, inr, Bool, true, List, [], ◌∷◌, ◌++◌, some, arith,
  Option-cases, get_elem?, total-append, All, All-set, All-get, All-append,
}
use enclave.Leases.{
  GateMode, GateState, GateId, Outcome, acquired, timed_out, waits, poll, start_acquire, Phase,
  running, blocked, releasing, Operation, Leases, after_round, round, run_acquire, run_wake,
  run_release, run_operation, finish_operation, Event, arrive, run, finish, step, history, plan,
}
use enclave.Leases.Counting.{naming, times}

pub record IsOnPlan (o : Operation) : Type 0 where
  pub exact : o.phase ≢ releasing → o.held ++ o.todo ≡ plan o.ask
  pub within :
      (g : GateId) (m : GateMode) → times g m o.held + times g m o.todo ≤ times g m (plan o.ask)
  pub pending : o.phase ≡ blocked → o.todo ≢ []

after_round-IsOnPlan :
    (o : Operation) (h : GateId × GateMode) (rest : List (GateId × GateMode)) (r : Outcome)
    → o.phase ≢ releasing
    → o.todo ≡ h ∷ rest
    → IsOnPlan o
    → IsOnPlan (after_round o h rest r)
unfolding after_round
after_round-IsOnPlan o h rest acquired p t v = record {
  exact = λ _. append_assoc o.held (h ∷ []) rest ∙ ap (◌++◌ o.held) (sym t) ∙ v.exact p;
  within = λ g m. ground (arith, total-append (naming g m) o.held (h ∷ []), v.within g m);
  pending = λ e. absurd (cc);
}
after_round-IsOnPlan o h rest timed_out p t v = record {
  exact = λ e. absurd (e refl);
  within = λ g m. omega (arith, v.within g m);
  pending = λ e. absurd (cc);
}
after_round-IsOnPlan o h rest waits p t v = record {
  exact = λ _. v.exact p;
  within = v.within;
  pending = λ _ e. cc;
}

-- The wake-up and the start set the operation alike.
module _ (l : Leases) (i : ℕ) (o : Operation) (h : GateId × GateMode)
    (rest : List (GateId × GateMode)) (e : get_elem? l.operations i ≡ some o)
    (c : All IsOnPlan l.operations) where
  round-IsOnPlan :
      (r : GateState × Outcome)
      → o.phase ≢ releasing
      → o.todo ≡ h ∷ rest
      → All IsOnPlan (round l i o h rest r).operations
  round-IsOnPlan (s, r) p t =
      All-set IsOnPlan l.operations i _ c
        (after_round-IsOnPlan o h rest r p t (All-get IsOnPlan l.operations i o c e))

module _ (l : Leases) (i : ℕ) (time_up : Bool) (o : Operation)
    (e : get_elem? l.operations i ≡ some o) (c : All IsOnPlan l.operations) where
  run_acquire-IsOnPlan :
      (todo : List (GateId × GateMode))
      → o.phase ≢ releasing
      → o.todo ≡ todo
      → All IsOnPlan (run_acquire l i o time_up todo).operations
  unfolding run_acquire
  run_acquire-IsOnPlan [] p t = c
  run_acquire-IsOnPlan ((h, m) ∷ rest) p t =
      round-IsOnPlan l i o (h, m) rest e c (start_acquire time_up m (l.gates h)) p t

  run_wake-IsOnPlan :
      (todo : List (GateId × GateMode))
      → o.phase ≢ releasing
      → o.todo ≡ todo
      → All IsOnPlan (run_wake l i o time_up todo).operations
  unfolding run_wake
  run_wake-IsOnPlan [] p t = c
  run_wake-IsOnPlan ((h, m) ∷ rest) p t =
      round-IsOnPlan l i o (h, m) rest e c (poll time_up m (l.gates h)) p t

  run_release-IsOnPlan :
      (held : List (GateId × GateMode))
      → o.phase ≡ releasing
      → o.held ≡ held
      → All IsOnPlan (run_release l i o held).operations
  unfolding run_release
  run_release-IsOnPlan [] p t = c
  run_release-IsOnPlan ((h, m) ∷ rest) p t =
      let v = All-get IsOnPlan l.operations i o c e in
      All-set IsOnPlan l.operations i _ c (record {
        exact = λ q. absurd (q p);
        within = λ g n. ground (arith, v.within g n);
        pending = λ q. absurd (cc);
      })

  run_operation-IsOnPlan :
      (phase : Phase)
      → o.phase ≡ phase
      → All IsOnPlan (run_operation l i time_up o phase).operations
  unfolding run_operation
  run_operation-IsOnPlan running p = run_acquire-IsOnPlan o.todo (λ q. cc) refl
  run_operation-IsOnPlan blocked p = run_wake-IsOnPlan o.todo (λ q. cc) refl
  run_operation-IsOnPlan releasing p = run_release-IsOnPlan o.held p refl

  finish_operation-IsOnPlan :
      (phase : Phase) (todo : List (GateId × GateMode))
      → All IsOnPlan (finish_operation l i o phase todo).operations
  unfolding finish_operation
  finish_operation-IsOnPlan running [] =
      let v = All-get IsOnPlan l.operations i o c e in
      All-set IsOnPlan l.operations i _ c
        (record { exact = λ q. absurd (q refl); within = v.within; pending = λ q. absurd (cc) })
  finish_operation-IsOnPlan running (_ ∷ _) = c
  finish_operation-IsOnPlan _ _ = c

step-IsOnPlan :
    (l : Leases) (e : Event) → All IsOnPlan l.operations → All IsOnPlan (step l e).operations
unfolding step
step-IsOnPlan l (arrive ask) c =
    All-append IsOnPlan l.operations _ c
      (record { exact = λ _. refl; within = λ g m. omega arith; pending = λ q. absurd (cc) }, tt)
step-IsOnPlan l (run i time_up) c = elim (Option-cases (get_elem? l.operations i)) [
  | inl e ↦ rw (e, step) c
  | inr (o, e) ↦ rw (e, step) (run_operation-IsOnPlan l i time_up o e c o.phase refl)
]
step-IsOnPlan l (finish i) c = elim (Option-cases (get_elem? l.operations i)) [
  | inl e ↦ rw (e, step) c
  | inr (o, e) ↦ rw (e, step) (finish_operation-IsOnPlan l i true o e c o.phase o.todo)
]

pub history-IsOnPlan :
    (l : Leases) (es : List Event)
    → All IsOnPlan l.operations
    → All IsOnPlan (history l es).operations
unfolding history
history-IsOnPlan l [] c = c
history-IsOnPlan l (e ∷ es) c = history-IsOnPlan (step l e) es (step-IsOnPlan l e c)
