-- ===== src/Workers/Pools.antt =====
-- The three pools behind the accept loop, and their end: src/daemon/workers/mod.rs.
pub mod Shutdown
pub mod Submitting
use enclave.Common.{
  ℕ, ◌≡◌, refl, ◌≢◌, Bool, true, false, List, [], ◌∷◌, ◌++◌, Option, none, some, arith,
  if◌then◌else◌, leb, length, Text, Result, ok, err,
}
use enclave.Workers.{
  control_queue_capacity, transfer_queue_capacity, exec_queue_capacity, RequestJob, ExecQueueState,
  ExecEnqueueError, full, enqueue,
}
use enclave.Workers.Requests.{RequestClass, control, exec, transfer, PeekedRequest}

-- A `sync_channel` of the standard library: what it holds, and whether a receiver is left.
pub record Channel : Type 0 where
  pub held : List RequestJob
  pub connected : Bool

pub data TrySendError : Type 0 where
  channel_full : RequestJob → TrySendError
  disconnected : RequestJob → TrySendError

abbrev pub try_send : ℕ → Channel → RequestJob → Channel × Result TrySendError (Unit {0})
try_send capacity c job =
    if c.connected
    then if leb capacity (length c.held)
      then (c, err (channel_full job))
      else (record c { held = c.held ++ job ∷ [] }, ok tt)
    else (c, err (disconnected job))

pub record RequestWorkerPool : Type 0 where
  pub control_sender : Channel
  pub transfer_sender : Channel
  pub exec_queue : ExecQueueState

-- What the accept loop is told, and the client: taken in, refused as busy, or that the queue is closed.
pub data Submitted : Type 0 where
  taken_in : Submitted
  rejected_busy : RequestClass → ℕ → Submitted
  queue_closed : RequestClass → Submitted

abbrev enqueue_reply : Result ExecEnqueueError (Unit {0}) → Submitted
enqueue_reply (ok u) = taken_in
enqueue_reply (err (full job)) = rejected_busy exec exec_queue_capacity
enqueue_reply (err ExecEnqueueError.closed) = queue_closed exec

abbrev send_reply : RequestClass → ℕ → Result TrySendError (Unit {0}) → Submitted
send_reply class capacity (ok u) = taken_in
send_reply class capacity (err (channel_full job)) = rejected_busy class capacity
send_reply class capacity (err (disconnected job)) = queue_closed class

-- The key of a job, which only an exec request has.
abbrev key_for : RequestClass → Option Text → Option Text
key_for exec key = key
key_for _ key = none

abbrev pub job_for : ℕ → PeekedRequest → RequestJob
job_for stream p = record { stream = stream; workspace_key = key_for p.class p.workspace_key }

unfoldable pub submit_to :
    Option ℕ
    → (ℕ → Bool)
    → RequestWorkerPool
    → RequestClass
    → RequestJob
    → RequestWorkerPool × Submitted
submit_to per_workspace gone pool exec job =
    let (s, r) = enqueue per_workspace gone pool.exec_queue job exec_queue_capacity in
    (record pool { exec_queue = s }, enqueue_reply r)
submit_to per_workspace gone pool transfer job =
    let (c, r) = try_send transfer_queue_capacity pool.transfer_sender job in
    (record pool { transfer_sender = c }, send_reply transfer transfer_queue_capacity r)
submit_to per_workspace gone pool control job =
    let (c, r) = try_send control_queue_capacity pool.control_sender job in
    (record pool { control_sender = c }, send_reply control control_queue_capacity r)

unfoldable pub submit :
    Option ℕ → (ℕ → Bool) → RequestWorkerPool → ℕ → PeekedRequest → RequestWorkerPool × Submitted
unfolding submit_to
submit per_workspace gone pool stream p =
    submit_to per_workspace gone pool p.class (job_for stream p)
