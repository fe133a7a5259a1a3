-- ===== src/Workers.antt =====
-- The pools that serve the daemon's requests: src/daemon/workers/mod.rs and
-- src/daemon/workers/request.rs. A stream is a number; whether its client has gone away is what the
-- socket answers, a parameter of the operations. A channel of `std::sync::mpsc` is the list of what
-- it holds, with its bound.
pub mod Connected
pub mod Invariant
pub mod Steps
pub mod Share
pub mod Order
pub mod Requests
pub mod Pools
mod Tests
use enclave.Common.{
  ℕ, ◌+◌, ◌-◌, Bool, true, false, not, ◌||◌, List, [], ◌∷◌, ◌++◌, Option, none, some, ltb, leb,
  ◌==◌, if◌then◌else◌, length, filter, total, Text, is_empty, Result, ok, err, get_or, put, remove,
}

abbrev pub control_queue_capacity : ℕ
control_queue_capacity = 128

abbrev pub transfer_queue_capacity : ℕ
transfer_queue_capacity = 8

abbrev pub exec_queue_capacity : ℕ
exec_queue_capacity = 512

pub record RequestJob : Type 0 where
  pub stream : ℕ
  pub workspace_key : Option Text

pub record ExecQueueState : Type 0 where
  pub ready : List RequestJob
  pub pending : List (Text × List ℕ)
  pub pending_count : ℕ
  pub in_flight : List (Text × ℕ)
  pub closed : Bool

abbrev pub default_state : ExecQueueState
default_state = record {
  ready = [];
  pending = [];
  pending_count = 0;
  in_flight = [];
  closed = false;
}

pub data ExecEnqueueError : Type 0 where
  full : RequestJob → ExecEnqueueError
  closed : ExecEnqueueError

-- The queue of a workspace, and the jobs counted against its share.
abbrev pub pending_of : ExecQueueState → Text → List ℕ
pending_of s key = get_or [] s.pending key

abbrev pub in_flight_of : ExecQueueState → Text → ℕ
in_flight_of s key = get_or 0 s.in_flight key

-- The sum of the lengths of the workspaces' queues.
abbrev pub queued : List (Text × List ℕ) → ℕ
queued = total (λ e. length e.1)

-- `retain` of the streams whose client has not gone away.
abbrev pub connected : (ℕ → Bool) → List ℕ → List ℕ
connected gone = filter (λ stream. not (gone stream))

-- `retain` on every queue, then on the map: a queue that is left empty goes.
abbrev pub retain_connected : (ℕ → Bool) → List (Text × List ℕ) → List (Text × List ℕ)
retain_connected gone [] = []
retain_connected gone ((key, streams) ∷ m) =
    let kept = connected gone streams in
    if is_empty kept then retain_connected gone m else (key, kept) ∷ retain_connected gone m

pub discard_disconnected : (ℕ → Bool) → ExecQueueState → ExecQueueState
discard_disconnected gone s =
    let pending = retain_connected gone s.pending in
    record s {
      ready = filter (λ job. not (gone job.stream)) s.ready;
      pending = pending;
      pending_count = queued pending;
    }

-- `per_workspace.is_some_and(|limit| count >= limit)`.
abbrev pub at_share : Option ℕ → ℕ → Bool
at_share none count = false
at_share (some limit) count = leb limit count

-- `per_workspace.is_none_or(|limit| count < limit)`.
abbrev pub has_room : Option ℕ → ℕ → Bool
has_room none count = true
has_room (some limit) count = ltb count limit

abbrev pub push_pending : ExecQueueState → Text → ℕ → ExecQueueState
push_pending s key stream = record s {
  pending = put s.pending key (pending_of s key ++ stream ∷ []);
  pending_count = s.pending_count + 1;
}

abbrev pub push_ready : ExecQueueState → Text → ℕ → ExecQueueState
push_ready s key stream = record s {
  ready = s.ready ++ record { stream = stream; workspace_key = some key } ∷ [];
  in_flight = put s.in_flight key (in_flight_of s key + 1);
}

abbrev pub must_wait : Option ℕ → ExecQueueState → Text → Bool
must_wait per_workspace s key =
    at_share per_workspace (in_flight_of s key) || not (is_empty (pending_of s key))

-- The match on the job's key, for a queue that takes it.
pub admit : Option ℕ → ExecQueueState → ℕ → Option Text → ExecQueueState
admit per_workspace s stream none = record s {
  ready = s.ready ++ record { stream = stream; workspace_key = none } ∷ [];
}
admit per_workspace s stream (some key) =
    if must_wait per_workspace s key then push_pending s key stream else push_ready s key stream

pub enqueue_connected :
    Option ℕ → ExecQueueState → RequestJob → ℕ → ExecQueueState × Result ExecEnqueueError (Unit {0})
unfolding admit
enqueue_connected per_workspace s job capacity =
    if s.closed
    then (s, err closed)
    else if leb capacity (length s.ready + s.pending_count)
    then (s, err (full job))
    else (admit per_workspace s job.stream job.workspace_key, ok tt)

pub enqueue :
    Option ℕ
    → (ℕ → Bool)
    → ExecQueueState
    → RequestJob
    → ℕ
    → ExecQueueState × Result ExecEnqueueError (Unit {0})
unfolding discard_disconnected enqueue_connected
enqueue per_workspace gone s job capacity =
    enqueue_connected per_workspace (discard_disconnected gone s) job capacity

-- What a worker that asks for a job finds: the queue is closed, a job, or nothing yet.
pub data Next : Type 0 where
  stop : Next
  job : RequestJob → Next
  wait : Next

pub next_ready : ExecQueueState → List RequestJob → ExecQueueState × Next
next_ready s [] = (s, wait)
next_ready s (j ∷ jobs) = (record s { ready = jobs }, job j)

-- One round of the loop of `ExecQueue::next`.
pub next : ExecQueueState → ExecQueueState × Next
unfolding next_ready
next s = if s.closed then (s, stop) else next_ready s s.ready

-- The count after a job ended, and its entry, which goes with the last job.
abbrev pub release_share : List (Text × ℕ) → Text → List (Text × ℕ)
release_share in_flight key =
    let count = get_or 0 in_flight key - 1 in
    if count == 0 then remove in_flight key else put in_flight key count

abbrev pub pop_pending : ExecQueueState → Text → List ℕ → ExecQueueState
pop_pending s key [] = s
pop_pending s key (stream ∷ streams) =
    push_ready
      (record s { pending = put s.pending key streams; pending_count = s.pending_count - 1 }) key
      stream

abbrev pub released : ExecQueueState → Text → ExecQueueState
released s key = record s { in_flight = release_share s.in_flight key }

abbrev pub admit_next : Option ℕ → ExecQueueState → Text → ExecQueueState
admit_next per_workspace s key =
    if has_room per_workspace (in_flight_of s key) then pop_pending s key (pending_of s key) else s

pub finish_connected : Option ℕ → ExecQueueState → Option Text → ExecQueueState
finish_connected per_workspace s none = s
finish_connected per_workspace s (some key) = admit_next per_workspace (released s key) key

pub finish : Option ℕ → (ℕ → Bool) → ExecQueueState → Option Text → ExecQueueState
unfolding discard_disconnected finish_connected
finish per_workspace gone s key = finish_connected per_workspace (discard_disconnected gone s) key

pub close : ExecQueueState → ExecQueueState
close s = record s { closed = true; ready = []; pending = []; pending_count = 0 }
