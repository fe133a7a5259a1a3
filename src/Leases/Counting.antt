-- ===== src/Leases/Counting.antt =====
-- What a gate's three counters count: src/daemon/leases.rs, `GateState`.
use text.Mathlib.TextEquality.{eq_iff}
use enclave.Common.{
  ℕ, ◌+◌, ◌≡◌, refl, ◌⊎◌, Bool, true, false, ◌&&◌, List, ◌∷◌, some, arith, get_elem?, set, total,
  total-set,
}
use enclave.Leases.{
  GateMode, shared, exclusive, GateState, GateId, global_gate, sandbox_gate, workspace_gate,
  same_gate, Phase, blocked, Operation,
}

pub eq_of_same_gate : (g h : GateId) → same_gate g h ≡ true → g ≡ h
eq_of_same_gate global_gate global_gate e = refl
eq_of_same_gate (sandbox_gate s) (sandbox_gate t) e = ground (arith, eq_iff s t)
eq_of_same_gate (workspace_gate s v) (workspace_gate t w) e = ground (arith, eq_iff s t, eq_iff v w)
eq_of_same_gate global_gate (sandbox_gate t) e = cc
eq_of_same_gate global_gate (workspace_gate t w) e = cc
eq_of_same_gate (sandbox_gate s) global_gate e = cc
eq_of_same_gate (sandbox_gate s) (workspace_gate t w) e = cc
eq_of_same_gate (workspace_gate s v) global_gate e = cc
eq_of_same_gate (workspace_gate s v) (sandbox_gate t) e = cc

pub same_gate_refl : (g : GateId) → same_gate g g ≡ true
same_gate_refl global_gate = refl
same_gate_refl (sandbox_gate s) = ground (arith, eq_iff s s)
same_gate_refl (workspace_gate s w) = ground (arith, eq_iff s s, eq_iff w w)

abbrev pub bit : Bool → ℕ
bit true = 1
bit false = 0

abbrev pub same_mode : GateMode → GateMode → Bool
same_mode shared shared = true
same_mode exclusive exclusive = true
same_mode _ _ = false

-- How often a list names a gate in a mode.
abbrev pub naming : GateId → GateMode → GateId × GateMode → ℕ
naming g m (h, n) = bit (same_gate h g && same_mode n m)

abbrev pub times : GateId → GateMode → List (GateId × GateMode) → ℕ
times g m = total (naming g m)

abbrev pub waits_for : GateId → Phase → List (GateId × GateMode) → ℕ
waits_for g blocked (h ∷ rest) = naming g exclusive h
waits_for g _ _ = 0

abbrev pub holders : GateId → GateMode → List Operation → ℕ
holders g m = total (λ o. times g m o.held)

abbrev pub waiters : GateId → List Operation → ℕ
waiters g = total (λ o. waits_for g o.phase o.todo)

-- The counters of a gate are what the operations hold and wait for, and an exclusive holder is
-- alone.
pub record IsCounted (g : GateId) (s : GateState) (os : List Operation) : Type 0 where
  pub shares : s.shared ≡ holders g shared os
  pub owns : bit s.exclusive ≡ holders g exclusive os
  pub queues : s.waiting_exclusive ≡ waiters g os
  pub apart : (s.exclusive ≡ false) ⊎ (s.shared ≡ 0)

-- A change of one operation seen through the three weights.
pub record Moves (g : GateId) (o o' : Operation) (s s' : GateState) : Type 0 where
  pub shares : s'.shared + times g shared o.held ≡ s.shared + times g shared o'.held
  pub owns :
      bit s'.exclusive + times g exclusive o.held ≡ bit s.exclusive + times g exclusive o'.held
  pub queues :
      s'.waiting_exclusive + waits_for g o.phase o.todo
      ≡ s.waiting_exclusive + waits_for g o'.phase o'.todo
  pub apart : (s'.exclusive ≡ false) ⊎ (s'.shared ≡ 0)

pub IsCounted-set :
    (g : GateId) (os : List Operation) (i : ℕ) (o o' : Operation) (s s' : GateState)
    → get_elem? os i ≡ some o
    → IsCounted g s os
    → Moves g o o' s s'
    → IsCounted g s' (set os i o')
IsCounted-set g os i o o' s s' e c v = record {
  shares = omega (arith, total-set (λ o. times g shared o.held) os i o o' e);
  owns = omega (arith, total-set (λ o. times g exclusive o.held) os i o o' e);
  queues = omega (arith, total-set (λ o. waits_for g o.phase o.todo) os i o o' e);
  apart = v.apart;
}
