-- ===== src/Workers/Tests.antt =====
-- The exec queue on concrete calls.
use enclave.Common.{
  ℕ, suc, ◌+◌, ◌*◌, ◌/◌, ◌≤◌, ◌≡◌, refl, ◌⊎◌, Bool, true, false, List, [], ◌∷◌, none, some, arith,
  if◌then◌else◌, ◌==◌, length, Text, text_eq, codes, err,
}
use enclave.Workers.{
  exec_queue_capacity, RequestJob, default_state, pending_of, in_flight_of, queued, has_room,
  enqueue, next, finish, full, closed, discard_disconnected, admit, enqueue_connected,
  finish_connected, next_ready,
}
use enclave.Workers.Invariant.{jobs_of}
use enclave.Workers.Share.{
  ExecPool, submitted, taken, Reach, start, later, jobs_within_share, queue_bounded,
  waits_only_at_share,
}
use enclave.Workers.Share.Lost.{here, further, lost_share_stays}
use enclave.Workers.Order.{Call, enqueue_job, next_job, finish_job, line}
use enclave.Workers.Order.Runs.{run, replies, run_line, run-refines_lines}
use enclave.Workers.Requests.{
  control, exec, PeekedRequest, Request, Poll, peek_request, peek_request_line, class_of,
  workspace_key_from_params,
}
use enclave.Workers.Pools.{RequestWorkerPool, taken_in, submit_to, submit}
use enclave.Workers.Pools.Submitting.{weight_at, submit-conserves}
use enclave.Workers.Pools.Shutdown.{poll_ms, await_workers, unfinished, await_workers-within_grace}

abbrev web : Text
web = codes "web"

abbrev web_job : ℕ → RequestJob
web_job stream = record { stream = stream; workspace_key = some web }

abbrev connected_all : ℕ → Bool
connected_all stream = false

-- Two requests of a workspace whose share is one, the first of them at a worker.
abbrev first : ExecPool
first = record {
  queue = (enqueue (some 1) connected_all default_state (web_job 1) exec_queue_capacity).0;
  serving = [];
}

abbrev second : ExecPool
second = record {
  queue = (enqueue (some 1) connected_all first.queue (web_job 2) exec_queue_capacity).0;
  serving = [];
}

abbrev served : ExecPool
served = record { queue = (next second.queue).0; serving = web_job 1 ∷ [] }

served_reach : Reach (some 1) served
unfolding enqueue next discard_disconnected admit enqueue_connected next_ready
served_reach =
    later
      (later (later start (submitted connected_all (web_job 1)))
        (submitted connected_all (web_job 2)))
      (taken _ (web_job 1) refl)

jobs_within_share_example : jobs_of web served.queue.ready + jobs_of web served.serving ≤ 1
jobs_within_share_example = jobs_within_share 1 served web served_reach

queue_bounded_example :
    (length served.queue.ready + queued served.queue.pending ≤ exec_queue_capacity)
    × (served.queue.pending_count ≡ queued served.queue.pending)
queue_bounded_example = queue_bounded (some 1) served served_reach

waits_only_at_share_example : has_room (some 1) (in_flight_of served.queue web) ≡ false
unfolding enqueue next discard_disconnected admit enqueue_connected next_ready
waits_only_at_share_example = waits_only_at_share (some 1) served web served_reach refl

abbrev calls : List Call
calls =
    enqueue_job connected_all (web_job 1) 2
    ∷ enqueue_job connected_all (web_job 2) 2
    ∷ enqueue_job connected_all (web_job 3) 2
    ∷ next_job
    ∷ finish_job (λ stream. stream == 3) (some web)
    ∷ []

calls_leave : line web (run (some 1) default_state calls) ≡ 2 ∷ []
unfolding enqueue next finish discard_disconnected admit enqueue_connected next_ready
    finish_connected
calls_leave = refl

run-refines_lines_example :
    line web (run (some 1) default_state calls)
    ≡ run_line web [] calls (replies (some 1) default_state calls)
run-refines_lines_example = run-refines_lines (some 1) web calls

-- The client of the one ready request leaves, which the next request finds out.
abbrev left : ExecPool
left = record {
  queue = (enqueue (some 1) (λ stream. stream == 1) first.queue (web_job 2) exec_queue_capacity).0;
  serving = [];
}

left_reach : Reach (some 1) left
left_reach =
    later (later start (submitted connected_all (web_job 1)))
      (submitted (λ stream. stream == 1) (web_job 2))

left_waits : pending_of left.queue web ≡ 2 ∷ []
unfolding enqueue discard_disconnected admit enqueue_connected
left_waits = refl

abbrev tried_again : ExecPool
tried_again = record {
  queue = (enqueue (some 1) connected_all left.queue (web_job 3) exec_queue_capacity).0;
  serving = [];
}

lost_share_stays_example : jobs_of web tried_again.queue.ready + jobs_of web tried_again.serving ≡ 0
unfolding enqueue discard_disconnected admit enqueue_connected
lost_share_stays_example =
    lost_share_stays (some 1) web left tried_again refl refl
      (further here (submitted connected_all (web_job 3)))

enqueue_refuses :
    ((enqueue none connected_all (record default_state { closed = true }) (web_job 1) 4).1
      ≡ err closed)
    × ((enqueue none connected_all default_state (web_job 1) 0).1 ≡ err (full (web_job 1)))
unfolding enqueue discard_disconnected admit enqueue_connected
enqueue_refuses = (refl, refl)

abbrev exec_request : Request
exec_request = record {
  action = codes "workspace.exec";
  string_field = λ name. if text_eq name (codes "name") then some web else none;
}

abbrev poll : Text → Poll
poll bytes = record { peeked = some bytes; out_of_time = false }

-- A request that is split across two writes, and one that never ends.
peeked :
    (peek_request (λ bytes. some exec_request) (poll (codes "{") ∷ poll (codes "{}\n") ∷ [])
      ≡ record { class = exec; workspace_key = some web })
    × ((peek_request (λ bytes. some exec_request) (poll (codes "{") ∷ [])).class ≡ control)
unfolding peek_request peek_request_line class_of workspace_key_from_params
peeked = (refl, refl)

abbrev pool : RequestWorkerPool
pool = record {
  control_sender = record { held = []; connected = true };
  transfer_sender = record { held = []; connected = true };
  exec_queue = default_state;
}

abbrev ping : PeekedRequest
ping = record { class = control; workspace_key = none }

submit-conserves_example :
    ((submit none connected_all pool 4 ping).1 ≡ taken_in)
    × (weight_at (λ stream. stream) (submit none connected_all pool 4 ping).0 control ≡ 4)
unfolding submit submit_to
submit-conserves_example =
    submit-conserves (λ stream. stream) none connected_all pool 4 ping control

-- A worker that never ends.
await_workers-within_grace_example :
    (n : ℕ) × (await_workers
        (suc (suc (50 / poll_ms)))
        (λ k. true ∷ false ∷ [])
        (λ k. 20 * k)
        (0 + 50)
        0
      ≡ some n)
    × ((unfinished (true ∷ false ∷ []) ≡ 0) ⊎ (0 + 50 ≤ 20 * n))
await_workers-within_grace_example =
    await_workers-within_grace (λ k. true ∷ false ∷ []) (λ k. 20 * k) 50 (λ k. omega arith)

await_three_polls : await_workers 4 (λ k. true ∷ false ∷ []) (λ k. 20 * k) 50 0 ≡ some 3
unfolding await_workers
await_three_polls = refl
