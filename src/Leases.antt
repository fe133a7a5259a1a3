-- ===== src/Leases.antt =====
-- The daemon's lifecycle leases: src/daemon/leases.rs.
-- A gate is a mutex-guarded `GateState` with a condition variable. `acquire` is cut where the code
-- gives the mutex up: `start_acquire` is the part up to the first wait, `poll` is one round of the
-- loop after a wake-up. Whether the deadline has passed is an input of each round. The maps of gates
-- are a function from a gate's name to its state, whose default is a fresh gate, as `or_default` has
-- it. A request is an operation with the gates that it holds and those still to be acquired; the
-- scheduler is the list of events.
pub mod Counting
pub mod Steps
pub mod Plans
pub mod Overlap
pub mod Exclusion
pub mod Progress
pub mod Deadlock
mod Tests
use enclave.Common.{
  ℕ, ◌+◌, ◌-◌, Bool, true, false, not, ◌&&◌, List, [], ◌∷◌, ◌++◌, none, some, String, ◌==◌,
  if◌then◌else◌, get_elem?, set,
}
use text.Mathlib.Text.{◌==◌ as str_eq}

pub data LeaseScope : Type 0 where
  global : LeaseScope
  sandbox : String → LeaseScope
  workspace : String → String → LeaseScope

pub data GateMode : Type 0 where
  shared exclusive : GateMode

pub record GateState : Type 0 where
  pub shared : ℕ
  pub exclusive : Bool
  pub waiting_exclusive : ℕ

abbrev pub default_gate : GateState
default_gate = record { shared = 0; exclusive = false; waiting_exclusive = 0 }

-- Which gate: the `global` field, or the key in one of the two maps.
pub data GateId : Type 0 where
  global_gate : GateId
  sandbox_gate : String → GateId
  workspace_gate : String → String → GateId

abbrev pub same_gate : GateId → GateId → Bool
same_gate global_gate global_gate = true
same_gate (sandbox_gate s) (sandbox_gate t) = str_eq s t
same_gate (workspace_gate s v) (workspace_gate t w) = str_eq s t && str_eq v w
same_gate _ _ = false

-- What a request asks for: `acquire`, or `acquire_workspace_only`.
pub data Ask : Type 0 where
  scoped : LeaseScope → Ask
  workspace_only : String → String → Ask

-- The gates in the order in which they are acquired.
pub plan : Ask → List (GateId × GateMode)
plan (scoped global) = (global_gate, exclusive) ∷ []
plan (scoped (sandbox s)) = (global_gate, shared) ∷ (sandbox_gate s, exclusive) ∷ []
plan (scoped (workspace s w)) =
    (global_gate, shared) ∷ (workspace_gate s w, exclusive) ∷ (sandbox_gate s, shared) ∷ []
plan (workspace_only s w) = (workspace_gate s w, exclusive) ∷ (sandbox_gate s, shared) ∷ []

pub admitted : GateMode → GateState → Bool
admitted shared s = not s.exclusive && (s.waiting_exclusive == 0)
admitted exclusive s = not s.exclusive && (s.shared == 0)

begin_wait : GateMode → GateState → GateState
begin_wait shared s = s
begin_wait exclusive s = record s { waiting_exclusive = s.waiting_exclusive + 1 }

leave_wait : GateMode → GateState → GateState
leave_wait shared s = s
leave_wait exclusive s = record s { waiting_exclusive = s.waiting_exclusive - 1 }

grant : GateMode → GateState → GateState
grant shared s = record s { shared = s.shared + 1 }
grant exclusive s = record s { exclusive = true }

-- What a round of the loop came to.
pub data Outcome : Type 0 where
  acquired timed_out waits : Outcome

pub poll : Bool → GateMode → GateState → GateState × Outcome
unfolding admitted leave_wait grant
poll time_up m s =
    if admitted m s
    then (grant m (leave_wait m s), acquired)
    else if time_up
    then (leave_wait m s, timed_out)
    else (s, waits)

pub start_acquire : Bool → GateMode → GateState → GateState × Outcome
unfolding poll begin_wait
start_acquire time_up m s = poll time_up m (begin_wait m s)

-- `Drop for GateGuard`.
pub release : GateMode → GateState → GateState
release shared s = record s { shared = s.shared - 1 }
release exclusive s = record s { exclusive = false }

pub data Phase : Type 0 where
  -- before the next `acquire`, or with the guard in hand if nothing is left to acquire
  running : Phase
  -- in `wait_timeout` on the next gate
  blocked : Phase
  -- dropping its guards, in order
  releasing : Phase

pub record Operation : Type 0 where
  pub ask : Ask
  pub held : List (GateId × GateMode)
  pub todo : List (GateId × GateMode)
  pub phase : Phase

pub record Leases : Type 0 where
  pub gates : GateId → GateState
  pub operations : List Operation

abbrev pub update : (GateId → GateState) → GateId → GateState → GateId → GateState
update gates g s h = if same_gate g h then s else gates h

pub data Event : Type 0 where
  -- a request arrives
  arrive : Ask → Event
  -- the operation at this place runs until it waits, or wakes; with whether its deadline has passed
  run : ℕ → Bool → Event
  -- the operation at this place has its lease, and is done with it
  finish : ℕ → Event

-- The operation after a round for the gate at the head of its list: on a timeout `?` returns, and
-- the guards acquired so far are dropped.
after_round : Operation → GateId × GateMode → List (GateId × GateMode) → Outcome → Operation
after_round o g rest acquired = record o { held = o.held ++ g ∷ []; todo = rest; phase = running }
after_round o g rest timed_out = record o { todo = []; phase = releasing }
after_round o g rest waits = record o { phase = blocked }

abbrev round :
    Leases
    → ℕ
    → Operation
    → GateId × GateMode
    → List (GateId × GateMode)
    → GateState × Outcome
    → Leases
round l i o g rest (s, result) = record {
  gates = update l.gates g.0 s;
  operations = set l.operations i (after_round o g rest result);
}

run_acquire : Leases → ℕ → Operation → Bool → List (GateId × GateMode) → Leases
unfolding start_acquire after_round
run_acquire l i o time_up [] = l
run_acquire l i o time_up ((g, m) ∷ rest) =
    round l i o (g, m) rest (start_acquire time_up m (l.gates g))

run_wake : Leases → ℕ → Operation → Bool → List (GateId × GateMode) → Leases
unfolding poll after_round
run_wake l i o time_up [] = l
run_wake l i o time_up ((g, m) ∷ rest) = round l i o (g, m) rest (poll time_up m (l.gates g))

run_release : Leases → ℕ → Operation → List (GateId × GateMode) → Leases
unfolding release
run_release l i o [] = l
run_release l i o ((g, m) ∷ rest) = record {
  gates = update l.gates g (release m (l.gates g));
  operations = set l.operations i (record o { held = rest });
}

run_operation : Leases → ℕ → Bool → Operation → Phase → Leases
unfolding run_acquire run_wake run_release
run_operation l i time_up o running = run_acquire l i o time_up o.todo
run_operation l i time_up o blocked = run_wake l i o time_up o.todo
run_operation l i time_up o releasing = run_release l i o o.held

finish_operation : Leases → ℕ → Operation → Phase → List (GateId × GateMode) → Leases
finish_operation l i o running [] = record l {
  operations = set l.operations i (record o { phase = releasing });
}
finish_operation l i o _ _ = l

pub step : Leases → Event → Leases
unfolding run_operation finish_operation plan
step l (arrive ask) = record l {
  operations =
      l.operations ++ record { ask = ask; held = []; todo = plan ask; phase = running } ∷ [];
}
step l (run i time_up) = elim (get_elem? l.operations i) [
  | none ↦ l
  | some o ↦ run_operation l i time_up o o.phase
]
step l (finish i) = elim (get_elem? l.operations i) [
  | none ↦ l
  | some o ↦ finish_operation l i o o.phase o.todo
]

pub history : Leases → List Event → Leases
unfolding step
history l [] = l
history l (e ∷ es) = history (step l e) es

abbrev pub initial : Leases
initial = record { gates = λ _. default_gate; operations = [] }
