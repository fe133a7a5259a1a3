-- ===== src/StateLock/Tests.antt =====
-- Runs of src/daemon/state_lock.rs.
use enclave.StateLock.{
  idle, held, Host, Event, starts, calls, drops, step, history, at_rest, call, fail, start,
  begin_drop, crash, refused, already_owned,
}
use enclave.StateLock.Exclusion.{history-exclusive}
use enclave.StateLock.Startup.{start_up, start_up-held, file_at}
use enclave.Common.{ℕ, Option, some, none, List, [], ◌∷◌, ◌≡◌, refl, ◌≢◌, arith}

abbrev no_records : ℕ → Option ℕ
no_records i = none

abbrev empty_host : Host
empty_host = at_rest none 7 no_records

-- Daemon 1 starts and is given the lock, while daemon 2 opens the file.
abbrev contention : List Event
contention =
    starts 2 ∷ calls 2 ∷ starts 1 ∷ calls 1 ∷ calls 1 ∷ calls 2 ∷ calls 1 ∷ calls 1 ∷ calls 1 ∷ []

abbrev contended : Host
contended = history empty_host contention

first_holds : contended.phase 1 ≡ held 7
unfolding history step call start at_rest
first_holds = refl

second_refused : (history contended (calls 2 ∷ [])).phase 2 ≡ refused (already_owned (some 1))
unfolding history step call start at_rest
second_refused = refl

-- Daemon 1 drops the lock between the open and the lock of daemon 2, which tries again.
abbrev handover : List Event
handover =
    drops 1
    ∷ calls 1
    ∷ calls 1
    ∷ calls 1
    ∷ calls 2
    ∷ calls 2
    ∷ calls 2
    ∷ calls 2
    ∷ calls 2
    ∷ calls 2
    ∷ calls 2
    ∷ []

second_holds : (history contended handover).phase 2 ≡ held 8
unfolding history step call fail start begin_drop crash at_rest
second_holds = refl

history-exclusive_example : contended.phase 2 ≢ held 7
history-exclusive_example =
    history-exclusive none 7 no_records contention 1 2 7 7 (λ e. ground arith) first_holds

rests : empty_host.phase 3 ≡ idle
unfolding at_rest
rests = refl

start_up-held_example :
    (history empty_host (start_up 3)).phase 3 ≡ held (file_at empty_host.path empty_host.next_file)
unfolding at_rest
start_up-held_example = start_up-held empty_host 3 rests (λ e. ground arith) refl
