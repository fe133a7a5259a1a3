-- ===== src/Leases/Exclusion.antt =====
-- What a lease guarantees to its holder:
-- src/daemon/leases.rs, `LifecycleLeases::acquire`.
use mathlib.Core.List.{append-nil}
use enclave.Common.{
  ℕ, ◌≡◌, ◌≢◌, refl, sym, ap, ◌∙◌, inl, inr, Bool, false, List, [], ◌∷◌, ◌++◌, some, arith,
  if◌then◌else◌, Bool-cases, get_elem?, All, All-get, add-le-total, le-total,
}
use enclave.Leases.{
  GateMode, shared, exclusive, GateState, GateId, Phase, running, blocked, releasing, Operation,
  Event, history, initial, plan, start_acquire, timed_out, waits, default_gate,
}
use enclave.Leases.Counting.{times, waits_for, holders, waiters, IsCounted, same_gate_refl}
use enclave.Leases.Steps.{history-Counted}
use enclave.Leases.Plans.{IsOnPlan, history-IsOnPlan}
use enclave.Leases.Overlap.{asks_overlap, Meet, overlap-Meet}

-- `acquire` has returned the guard, which is not dropped yet.
pub record IsHolding (o : Operation) : Type 0 where
  pub ready : o.phase ≡ running
  pub complete : o.todo ≡ []

held-eq-plan : (o : Operation) → IsOnPlan o → IsHolding o → o.held ≡ plan o.ask
held-eq-plan o v h =
    sym (append-nil o.held) ∙ ap (◌++◌ o.held) (sym h.complete) ∙ v.exact (ground (arith, h.ready))

-- Two guards on one gate are both shared.
no_Meet :
    (g : GateId) (s : GateState) (os : List Operation) (i j : ℕ) (o p : Operation)
    → IsCounted g s os
    → i ≢ j
    → get_elem? os i ≡ some o
    → get_elem? os j ≡ some p
    → ¬ Meet o.held p.held g
no_Meet g s os i j o p c ne e e' m = ground (
  arith,
  add-le-total (λ o. times g exclusive o.held) os i j o p ne e e',
  add-le-total (λ o. times g shared o.held) os i j o p ne e e',
  c.shares,
  c.owns,
  c.apart,
)

-- After any history, two operations that both hold their leases do not overlap: nothing runs with a
-- global operation but a recheck under it, nothing in the same sandbox with a sandbox operation, and
-- nothing on the same workspace with a workspace operation.
pub holders-disjoint :
    (es : List Event) (i j : ℕ) (o p : Operation)
    → i ≢ j
    → get_elem? (history initial es).operations i ≡ some o
    → get_elem? (history initial es).operations j ≡ some p
    → IsHolding o
    → IsHolding p
    → asks_overlap o.ask p.ask ≡ false
holders-disjoint es i j o p ne e e' h h' = elim (Bool-cases (asks_overlap o.ask p.ask)) [
  | inr apart ↦ apart
  | inl meets ↦
      let l = history initial es in
      let on = history-IsOnPlan initial es tt in
      let po = held-eq-plan o (All-get IsOnPlan l.operations i o on e) h in
      let pp = held-eq-plan p (All-get IsOnPlan l.operations j p on e') h' in
      let (g, m) = overlap-Meet o.ask p.ask meets in
      let m' : Meet o.held p.held g = rw (po, pp) m in
      absurd (no_Meet g (l.gates g) l.operations i j o p (history-Counted es g) ne e e' m')
]

holders-idle :
    (g : GateId) (m : GateMode) (os : List Operation)
    → All (λ o. (o.held ≡ []) × (o.phase ≢ blocked)) os
    → holders g m os ≡ 0
holders-idle g m [] h = refl
holders-idle g m (o ∷ os) h = ground (arith, holders-idle g m os h.1)

not_waiting :
    (g : GateId) (phase : Phase) (todo : List (GateId × GateMode))
    → phase ≢ blocked
    → waits_for g phase todo ≡ 0
not_waiting g running todo h = refl
not_waiting g releasing todo h = refl
not_waiting g blocked todo h = absurd (h refl)

waiters-idle :
    (g : GateId) (os : List Operation)
    → All (λ o. (o.held ≡ []) × (o.phase ≢ blocked)) os
    → waiters g os ≡ 0
waiters-idle g [] h = refl
waiters-idle g (o ∷ os) h = omega (arith, waiters-idle g os h.1, not_waiting g o.phase o.todo h.0.1)

-- No guard leaks: once no operation holds a guard or waits, every gate is as good as new, whatever
-- timeouts and early returns came before.
pub idle-default :
    (es : List Event) (g : GateId)
    → All (λ o. (o.held ≡ []) × (o.phase ≢ blocked)) (history initial es).operations
    → (history initial es).gates g ≡ default_gate
idle-default es g idle =
    let os = (history initial es).operations in
    let c = history-Counted es g in
    ground (
      arith,
      c.shares,
      c.owns,
      c.queues,
      holders-idle g shared os idle,
      holders-idle g exclusive os idle,
      waiters-idle g os idle,
    )

-- No starvation: while one operation waits for exclusive access to a gate, another that asks for
-- shared access to it does not get it, and its round ends in a wait or, its time being up, a timeout.
pub shared_behind_exclusive :
    (es : List Event) (g : GateId) (i : ℕ) (o : Operation) (rest : List (GateId × GateMode))
    (time_up : Bool)
    → get_elem? (history initial es).operations i ≡ some o
    → o.phase ≡ blocked
    → o.todo ≡ (g, exclusive) ∷ rest
    → start_acquire time_up shared ((history initial es).gates g)
      ≡ ((history initial es).gates g, if time_up then timed_out else waits)
unfolding start_acquire
shared_behind_exclusive es g i o rest time_up e f t =
    let l = history initial es in
    let c = history-Counted es g in
    let q = le-total (λ o. waits_for g o.phase o.todo) l.operations i o e in
    ground (arith, c.queues, same_gate_refl g)
