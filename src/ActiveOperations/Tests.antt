-- ===== src/ActiveOperations/Tests.antt =====
-- One operation that runs, and two under one id.
use enclave.Common.{◌≤◌, arith, ◌⊎◌, ◌≡◌, ◌≢◌, refl, [], ◌∷◌, none, some, codes, get_or}
use enclave.ActiveOperations.{begin, drop_guard, in_flight, wait_for_drain}
use enclave.ActiveOperations.Guards.{
  guards_of, Running, begun, start, later, at_once, in_flight-guards, drop_guard-hides_other,
}

abbrev one : Running
one = record {
  state = begin (codes "a") (codes "workspace.start") (codes "web") 5 [];
  guards = codes "a" ∷ [];
}

in_flight-guards_example :
    ((guards_of (codes "a") one.guards ≡ 1) × (get_or none one.state (codes "a") ≢ none))
    ⊎ ((guards_of (codes "a") one.guards ≡ 0) × (get_or none one.state (codes "a") ≡ none))
in_flight-guards_example =
    in_flight-guards one (codes "a")
      (later start (begun (codes "a") (codes "workspace.start") (codes "web") 5 refl))

-- A second operation under the id of the first.
abbrev two : Running
two = record {
  state = begin (codes "a") (codes "workspace.stop") (codes "web") 6 one.state;
  guards = codes "a" ∷ one.guards;
}

abbrev first_ended : Running
first_ended = record { state = drop_guard (codes "a") two.state; guards = codes "a" ∷ [] }

drop_guard-hides_other_example :
    (1 ≤ guards_of (codes "a") (codes "a" ∷ []))
    × (get_or none first_ended.state (codes "a") ≡ none)
drop_guard-hides_other_example =
    drop_guard-hides_other two first_ended (codes "a") 1 refl (omega arith) at_once

waits_until_deadline :
    (wait_for_drain 60 ((one.state, 20) ∷ ([], 30) ∷ []) ≡ some [])
    × (wait_for_drain 60 ((one.state, 20) ∷ (one.state, 60) ∷ []) ≡ some (in_flight one.state))
unfolding begin wait_for_drain in_flight
waits_until_deadline = (refl, refl)
