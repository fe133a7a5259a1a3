-- ===== src/StateLock/Exclusion.antt =====
-- One daemon at a time is given the state lock: src/daemon/state_lock.rs.
use enclave.StateLock.{
  Entry, regular, held, Host, Event, starts, calls, fails, drops, crashes, step, history, at_rest,
}
use enclave.Common.{ℕ, Option, some, List, [], ◌∷◌, ◌≡◌, ◌≢◌, refl, arith}
use enclave.StateLock.Ownership.{IsOwned, guards_unique}
use enclave.StateLock.Calls.{call-IsOwned}
use enclave.StateLock.Failures.{fail-IsOwned, start-IsOwned, begin_drop-IsOwned, crash-IsOwned}

step-IsOwned : (s : Host) (e : Event) → IsOwned s → IsOwned (step s e)
unfolding step
step-IsOwned s (starts d) v = start-IsOwned s d (s.phase d) refl v
step-IsOwned s (calls d) v = call-IsOwned s d (s.phase d) refl v
step-IsOwned s (fails d) v = fail-IsOwned s d (s.phase d) refl v
step-IsOwned s (drops d) v = begin_drop-IsOwned s d (s.phase d) refl v
step-IsOwned s (crashes d) v = crash-IsOwned s d (s.phase d) refl v

-- Whatever the daemons do, from a host where none runs: a file's owner is the daemon in a phase
-- that has the lock, and a daemon that was given the state lock owns the file that the path
-- names, with its own record in it.
pub history-IsOwned : (s : Host) (es : List Event) → IsOwned s → IsOwned (history s es)
unfolding history
history-IsOwned s [] v = v
history-IsOwned s (e ∷ es) v = history-IsOwned (step s e) es (step-IsOwned s e v)

at_rest-IsOwned :
    (entry : Option Entry) (n : ℕ) (records : ℕ → Option ℕ) → IsOwned (at_rest entry n records)
unfolding at_rest
at_rest-IsOwned entry n records = record {
  owned = λ e i h. absurd (ground arith);
  accounted = λ e i h. absurd (ground arith);
  named = λ e i h. absurd (ground arith);
  recorded = λ e i h. absurd (ground arith);
}

-- From a host where no daemon runs, over any interleaving of starts, system calls, failures, drops
-- and crashes: while one daemon has the state lock that it was given, no other daemon has been
-- given it, on whatever file.
pub history-exclusive :
    (entry : Option Entry) (n : ℕ) (records : ℕ → Option ℕ) (es : List Event) (d e i j : ℕ)
    → d ≢ e
    → (history (at_rest entry n records) es).phase d ≡ held i
    → (history (at_rest entry n records) es).phase e ≢ held j
history-exclusive entry n records es d e i j differ h k =
    let v = history-IsOwned (at_rest entry n records) es (at_rest-IsOwned entry n records) in
    differ
      (guards_unique (history (at_rest entry n records) es) d e i j v (ground arith) (ground arith))

-- From a host where no daemon runs, over any interleaving: a daemon that was given the state lock
-- owns the lock on the very file that the path names, which holds its record.
pub history-published :
    (entry : Option Entry) (n : ℕ) (records : ℕ → Option ℕ) (es : List Event) (d i : ℕ)
    → (history (at_rest entry n records) es).phase d ≡ held i
    → ((history (at_rest entry n records) es).path ≡ some (regular i))
      × ((history (at_rest entry n records) es).owner i ≡ some d)
      × ((history (at_rest entry n records) es).record_of i ≡ some d)
history-published entry n records es d i h =
    let v = history-IsOwned (at_rest entry n records) es (at_rest-IsOwned entry n records) in
    (v.named d i (ground arith), v.owned d i (ground arith), v.recorded d i (ground arith))
