-- ===== src/ActiveOperations.antt =====
-- The lifecycle operations that a daemon is running: src/daemon/active_operations.rs.
-- The registry is a map from the id of an operation; the order in which its values are listed is not
-- modelled. Time is in milliseconds.
pub mod Guards
mod Tests
use enclave.Common.{
  ℕ, ◌+◌, ◌-◌, Bool, true, false, List, [], ◌∷◌, Option, none, some, leb, if◌then◌else◌, Text, map,
  get_or, put, remove,
}

pub record ActiveOperation : Type 0 where
  pub id : Text
  pub action : Text
  pub target : Text
  pub started : ℕ

abbrev pub Registry : Type 0
Registry = List (Text × Option ActiveOperation)

pub begin : Text → Text → Text → ℕ → Registry → Registry
begin id action target now state =
    put state id (some (record { id = id; action = action; target = target; started = now }))

-- `Drop` of the guard, which has the id alone.
pub drop_guard : Text → Registry → Registry
drop_guard id state = remove state id

abbrev pub values : Registry → List ActiveOperation
values [] = []
values ((id, none) ∷ state) = values state
values ((id, some operation) ∷ state) = operation ∷ values state

pub in_flight : Registry → List ActiveOperation
in_flight state = values state

abbrev pub elapsed : ActiveOperation → ℕ → ℕ
elapsed operation now = now - operation.started

abbrev pub is_idle : Registry → Bool
is_idle [] = true
is_idle (e ∷ state) = false

-- The rounds of `wait_for_drain`: the registry at every wake-up and the time then. A wait that is not
-- over at the last round that is given goes on.
pub wait_for_drain : ℕ → List (Registry × ℕ) → Option (List ActiveOperation)
wait_for_drain deadline [] = none
wait_for_drain deadline ((state, now) ∷ rounds) =
    let later = wait_for_drain deadline rounds in
    if is_idle state then some [] else if leb deadline now then some (values state) else later
