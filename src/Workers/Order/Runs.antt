-- ===== src/Workers/Order/Runs.antt =====
-- Runs of calls on the exec queue against the workspaces' lines: src/daemon/workers/mod.rs.
use enclave.Common.{
  ℕ, ◌+◌, ◌≡◌, refl, ap, subst, ◌∙◌, Bool, true, List, [], ◌∷◌, Option, none, some, arith, if_elim,
  leb, length, Text, Result, HasDistinctKeys,
}
use enclave.Workers.{
  RequestJob, ExecQueueState, ExecEnqueueError, default_state, pending_of, in_flight_of,
  discard_disconnected, must_wait, has_room, admit, enqueue_connected, enqueue, Next, job, next,
  next_ready, pop_pending, released, finish_connected, finish, close,
}
use enclave.Workers.Connected.{retain_connected-HasDistinctKeys, put-HasDistinctKeys}
use enclave.Workers.Order.{
  is_for, streams_of, line, Call, enqueue_job, next_job, finish_job, close_queue, Reply, call,
  joined, line_after, line-discard_disconnected, line-enqueue_connected, line-finish_connected,
  line-next,
}

abbrev Distinct : ExecQueueState → Type 0
Distinct s = HasDistinctKeys s.pending

admit-Distinct :
    (pw : Option ℕ) (s : ExecQueueState) (stream : ℕ) (k : Option Text)
    → Distinct s
    → Distinct (admit pw s stream k)
unfolding admit
admit-Distinct pw s stream none d = d
admit-Distinct pw s stream (some k) d =
    if_elim Distinct (must_wait pw s k) _ _ (λ t. put-HasDistinctKeys s.pending k _ d) (λ t. d)

enqueue_connected-Distinct :
    (pw : Option ℕ) (s : ExecQueueState) (j : RequestJob) (capacity : ℕ)
    → Distinct s
    → Distinct (enqueue_connected pw s j capacity).0
unfolding enqueue_connected
enqueue_connected-Distinct pw s j capacity d =
    if_elim P s.closed _ _ (λ t. d)
      (λ t.
        if_elim P (leb capacity (length s.ready + s.pending_count)) _ _ (λ u. d)
          (λ u. admit-Distinct pw s j.stream j.workspace_key d))
  where
    P : ExecQueueState × Result ExecEnqueueError (Unit {0}) → Type 0
    P r = Distinct r.0

pop_pending-Distinct :
    (s : ExecQueueState) (k : Text) (streams : List ℕ)
    → Distinct s
    → Distinct (pop_pending s k streams)
pop_pending-Distinct s k [] d = d
pop_pending-Distinct s k (stream ∷ streams) d = put-HasDistinctKeys s.pending k streams d

finish_connected-Distinct :
    (pw : Option ℕ) (s : ExecQueueState) (k : Option Text)
    → Distinct s
    → Distinct (finish_connected pw s k)
unfolding finish_connected
finish_connected-Distinct pw s none d = d
finish_connected-Distinct pw s (some k) d =
    if_elim Distinct (has_room pw (in_flight_of (released s k) k)) _ _
      (λ t. pop_pending-Distinct (released s k) k (pending_of s k) d) (λ t. d)

discard_disconnected-Distinct :
    (gone : ℕ → Bool) (s : ExecQueueState) → Distinct s → Distinct (discard_disconnected gone s)
unfolding discard_disconnected
discard_disconnected-Distinct gone s d = retain_connected-HasDistinctKeys gone s.pending d

next-Distinct : (s : ExecQueueState) → Distinct s → Distinct (next s).0
unfolding next next_ready
next-Distinct s d =
    if_elim (λ (r : ExecQueueState × Next). Distinct r.0) s.closed _ _ (λ t. d) (λ t. go s.ready)
  where
    go : (jobs : List RequestJob) → Distinct (next_ready s jobs).0
    go [] = d
    go (j ∷ jobs) = d

call-Distinct :
    (pw : Option ℕ) (s : ExecQueueState) (c : Call) → Distinct s → Distinct (call pw s c).0
unfolding enqueue finish close
call-Distinct pw s (enqueue_job gone j capacity) d =
    enqueue_connected-Distinct pw (discard_disconnected gone s) j capacity
      (discard_disconnected-Distinct gone s d)
call-Distinct pw s next_job d = next-Distinct s d
call-Distinct pw s (finish_job gone k) d =
    finish_connected-Distinct pw (discard_disconnected gone s) k
      (discard_disconnected-Distinct gone s d)
call-Distinct pw s close_queue d = tt

-- One call does to the line of a workspace what its specification says.
line-call :
    (key : Text) (pw : Option ℕ) (s : ExecQueueState) (c : Call)
    → Distinct s
    → line key (call pw s c).0 ≡ line_after key (line key s) c (call pw s c).1
unfolding enqueue finish close
line-call key pw s (enqueue_job gone j capacity) d =
    line-enqueue_connected key pw (discard_disconnected gone s) j capacity
    ∙ ap (λ xs. joined key xs j (enqueue_connected pw (discard_disconnected gone s) j capacity).1)
        (line-discard_disconnected key gone s d)
line-call key pw s next_job d = line-next key s
line-call key pw s (finish_job gone k) d =
    line-finish_connected key pw (discard_disconnected gone s) k
    ∙ line-discard_disconnected key gone s d
line-call key pw s close_queue d = refl

-- A run of calls, its replies, and the same calls and replies on a line.
abbrev pub run : Option ℕ → ExecQueueState → List Call → ExecQueueState
run pw s [] = s
run pw s (c ∷ cs) = run pw (call pw s c).0 cs

abbrev pub replies : Option ℕ → ExecQueueState → List Call → List Reply
replies pw s [] = []
replies pw s (c ∷ cs) = (call pw s c).1 ∷ replies pw (call pw s c).0 cs

abbrev pub run_line : Text → List ℕ → List Call → List Reply → List ℕ
run_line key xs (c ∷ cs) (r ∷ rs) = run_line key (line_after key xs c r) cs rs
run_line key xs _ _ = xs

run-refines :
    (key : Text) (pw : Option ℕ) (s : ExecQueueState) (cs : List Call)
    → Distinct s
    → line key (run pw s cs) ≡ run_line key (line key s) cs (replies pw s cs)
run-refines key pw s [] d = refl
run-refines key pw s (c ∷ cs) d =
    run-refines key pw (call pw s c).0 cs (call-Distinct pw s c d)
    ∙ ap (λ xs. run_line key xs cs (replies pw (call pw s c).0 cs)) (line-call key pw s c d)

-- After any calls on a new queue, the requests of a workspace that no worker has taken, those that are
-- ready before those in the workspace's queue, are the line that the same calls and replies make of an
-- empty line: a request that is taken in joins at its end, one that a worker is given leaves at its
-- front, those whose clients are found gone leave, and closing empties it.
pub run-refines_lines :
    (per_workspace : Option ℕ) (key : Text) (calls : List Call)
    → line key (run per_workspace default_state calls)
      ≡ run_line key [] calls (replies per_workspace default_state calls)
run-refines_lines per_workspace key calls = run-refines key per_workspace default_state calls tt

-- A worker that is given a request of a workspace is given the one at the front of its line.
pub next-front :
    (s s' : ExecQueueState) (j : RequestJob) (key : Text)
    → next s ≡ (s', job j)
    → is_for key j ≡ true
    → line key s ≡ j.stream ∷ line key s'
unfolding next next_ready
next-front s s' j key h k =
    if_elim (λ (r : ExecQueueState × Next). r ≡ (s', job j) → line key s ≡ j.stream ∷ line key s')
      s.closed _ _ (λ t h. absurd (ground (arith, ap (λ (r : ExecQueueState × Next). r.1) h)))
      (λ t. go s.ready refl) h
  where
    go :
        (jobs : List RequestJob)
        → s.ready ≡ jobs
        → next_ready s jobs ≡ (s', job j)
        → line key s ≡ j.stream ∷ line key s'
    go [] e h = absurd (ground (arith, ap (λ (r : ExecQueueState × Next). r.1) h))
    go (x ∷ jobs) e h =
        let same : x ≡ j = ground (arith, ap (λ (r : ExecQueueState × Next). r.1) h) in
        let held : is_for key x ≡ true = ap (is_for key) same ∙ k in
        let stream : x.stream ≡ j.stream = ap (λ (y : RequestJob). y.stream) same in
        subst (λ q. line key s ≡ j.stream ∷ line key q) (ap (λ (r : ExecQueueState × Next). r.0) h)
          (rw (ap (streams_of key) e, held, stream) refl)
