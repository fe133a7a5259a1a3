-- ===== src/Workers/Pools/Submitting.antt =====
-- Where a submitted request ends up: `submit` of src/daemon/workers/mod.rs.
use enclave.Common.{
  ℕ, ◌+◌, ◌≡◌, refl, Bool, true, false, List, [], ◌∷◌, ◌++◌, Option, none, some, arith,
  if◌then◌else◌, not, leb, length, total, total-append, total-put, Text, Bool-cases, inl, inr,
}
use enclave.Workers.{
  control_queue_capacity, transfer_queue_capacity, exec_queue_capacity, RequestJob, ExecQueueState,
  pending_of, queued, discard_disconnected, must_wait, admit, enqueue_connected, enqueue,
}
use enclave.Workers.Requests.{RequestClass, control, exec, transfer, PeekedRequest}
use enclave.Workers.Pools.{
  RequestWorkerPool, Submitted, taken_in, rejected_busy, queue_closed, submit_to, submit, job_for,
}

-- A weight of the streams that wait in the queue of a class.
abbrev job_weight : (ℕ → ℕ) → List RequestJob → ℕ
job_weight f = total (λ j. f j.stream)

abbrev exec_weight : (ℕ → ℕ) → ExecQueueState → ℕ
exec_weight f s = job_weight f s.ready + total (λ e. total f e.1) s.pending

abbrev pub weight_at : (ℕ → ℕ) → RequestWorkerPool → RequestClass → ℕ
weight_at f pool control = job_weight f pool.control_sender.held
weight_at f pool transfer = job_weight f pool.transfer_sender.held
weight_at f pool exec = exec_weight f pool.exec_queue

-- How many requests wait there, how many may, and whether nobody will take them.
abbrev pub waiting_at : RequestWorkerPool → RequestClass → ℕ
waiting_at pool control = length pool.control_sender.held
waiting_at pool transfer = length pool.transfer_sender.held
waiting_at pool exec = length pool.exec_queue.ready + queued pool.exec_queue.pending

abbrev pub capacity_of : RequestClass → ℕ
capacity_of control = control_queue_capacity
capacity_of transfer = transfer_queue_capacity
capacity_of exec = exec_queue_capacity

abbrev pub is_shut : RequestWorkerPool → RequestClass → Bool
is_shut pool control = not pool.control_sender.connected
is_shut pool transfer = not pool.transfer_sender.connected
is_shut pool exec = pool.exec_queue.closed

-- The pool without the exec requests of clients that have gone, where an exec request looks at it.
abbrev pub looked_at : (ℕ → Bool) → RequestClass → RequestWorkerPool → RequestWorkerPool
looked_at gone exec pool = record pool { exec_queue = discard_disconnected gone pool.exec_queue }
looked_at gone _ pool = pool

abbrev pub reply_from : RequestWorkerPool → RequestClass → Submitted
reply_from pool class =
    if is_shut pool class
    then queue_closed class
    else if leb (capacity_of class) (waiting_at pool class)
    then rejected_busy class (capacity_of class)
    else taken_in

abbrev same_class : RequestClass → RequestClass → Bool
same_class control control = true
same_class transfer transfer = true
same_class exec exec = true
same_class _ _ = false

-- What a class gains by the request.
abbrev pub gain : (ℕ → ℕ) → Submitted → RequestClass → RequestClass → ℕ → ℕ
gain f taken_in class other stream = if same_class class other then f stream else 0
gain f _ class other stream = 0

admit-exec_weight :
    (f : ℕ → ℕ) (per_workspace : Option ℕ) (s : ExecQueueState) (stream : ℕ) (key : Option Text)
    → exec_weight f (admit per_workspace s stream key) ≡ exec_weight f s + f stream
unfolding admit
admit-exec_weight f per_workspace s stream none =
    let grown =
      total-append (λ (j : RequestJob). f j.stream) s.ready
        (record { stream = stream; workspace_key = none } ∷ []) in
    omega arith
admit-exec_weight f per_workspace s stream (some key) =
    let waits = total-append f (pending_of s key) (stream ∷ []) in
    let stored = total-put [] (total f) refl s.pending key (pending_of s key ++ stream ∷ []) in
    let ready =
      total-append (λ (j : RequestJob). f j.stream) s.ready
        (record { stream = stream; workspace_key = some key } ∷ []) in
    elim (Bool-cases (must_wait per_workspace s key)) [
      | inl t ↦ rw t (omega arith)
      | inr t ↦ rw t (omega arith)
    ]

module _ (f : ℕ → ℕ) (per_workspace : Option ℕ) (gone : ℕ → Bool) (pool : RequestWorkerPool)
    (job : RequestJob) where
  submit_to-reply :
      (class : RequestClass)
      → (submit_to per_workspace gone pool class job).1
        ≡ reply_from (looked_at gone class pool) class
  unfolding submit_to enqueue enqueue_connected discard_disconnected
  submit_to-reply control = ground arith
  submit_to-reply transfer = ground arith
  submit_to-reply exec = ground arith

  submit_to-gain :
      (class other : RequestClass)
      → weight_at f (submit_to per_workspace gone pool class job).0 other
        ≡ weight_at f (looked_at gone class pool) other
          + gain f (submit_to per_workspace gone pool class job).1 class other job.stream
  unfolding submit_to enqueue enqueue_connected discard_disconnected
  submit_to-gain control control =
      ground
        (arith, total-append (λ (j : RequestJob). f j.stream) pool.control_sender.held (job ∷ []))
  submit_to-gain transfer transfer =
      ground
        (arith, total-append (λ (j : RequestJob). f j.stream) pool.transfer_sender.held (job ∷ []))
  submit_to-gain exec exec = ground (
    arith,
    admit-exec_weight f per_workspace (discard_disconnected gone pool.exec_queue) job.stream
        job.workspace_key,
  )
  submit_to-gain control transfer = ground arith
  submit_to-gain control exec = ground arith
  submit_to-gain transfer control = ground arith
  submit_to-gain transfer exec = ground arith
  submit_to-gain exec control = ground arith
  submit_to-gain exec transfer = ground arith

-- Whatever class a request has: the answer tells whether the queue of its class was shut, full, or neither,
-- and the class gains the request when it is taken in; no other class gains or loses anything. An exec
-- request finds its queue without the clients that have gone away, so that they do not fill it.
pub submit-conserves :
    (f : ℕ → ℕ) (per_workspace : Option ℕ) (gone : ℕ → Bool) (pool : RequestWorkerPool) (stream : ℕ)
    (p : PeekedRequest) (other : RequestClass)
    → ((submit per_workspace gone pool stream p).1
        ≡ reply_from (looked_at gone p.class pool) p.class)
      × (weight_at f (submit per_workspace gone pool stream p).0 other
          ≡ weight_at f (looked_at gone p.class pool) other
            + gain f (submit per_workspace gone pool stream p).1 p.class other stream)
unfolding submit
submit-conserves f per_workspace gone pool stream p other =
    let job = job_for stream p in
    (
      submit_to-reply f per_workspace gone pool job p.class,
      submit_to-gain f per_workspace gone pool job p.class other,
    )
