-- ===== src/Workers/Order.antt =====
-- The exec queue as one line of requests for each workspace: src/daemon/workers/mod.rs.
pub mod Runs
use enclave.Common.{
  ℕ, ◌+◌, ◌≡◌, refl, sym, ap, subst, ◌∙◌, inl, inr, Bool, true, false, not, List, [], ◌∷◌, ◌++◌,
  Option, none, some, arith, Bool-cases, if_elim, if◌then◌else◌, leb, length, filter, Text, text_eq,
  text_eq_iff, text_eq_refl, is_empty, get_or, get_or-put, get_or-put_other, put, Result, ok, err,
  HasDistinctKeys,
}
use enclave.Workers.{
  RequestJob, ExecQueueState, ExecEnqueueError, default_state, pending_of, in_flight_of, connected,
  retain_connected, discard_disconnected, must_wait, has_room, push_pending, push_ready, admit,
  enqueue_connected, enqueue, Next, stop, wait, job, next, next_ready, pop_pending, released,
  admit_next, finish_connected, finish, close,
}
use enclave.Workers.Connected.{retain_connected-HasDistinctKeys, get_or-retain, put-HasDistinctKeys}
use enclave.Workers.Invariant.{empty_of_is_empty, or_not-false}

abbrev pub is_for : Text → RequestJob → Bool
is_for key j = elim j.workspace_key [ none ↦ false | some k ↦ text_eq k key ]

abbrev pub streams_of : Text → List RequestJob → List ℕ
streams_of key [] = []
streams_of key (j ∷ jobs) =
    if is_for key j then j.stream ∷ streams_of key jobs else streams_of key jobs

-- The requests of a workspace that no worker has taken, the oldest first.
abbrev pub line : Text → ExecQueueState → List ℕ
line key s = streams_of key s.ready ++ pending_of s key

pub data Call : Type 0 where
  enqueue_job : (ℕ → Bool) → RequestJob → ℕ → Call
  next_job : Call
  finish_job : (ℕ → Bool) → Option Text → Call
  close_queue : Call

pub data Reply : Type 0 where
  enqueued : Result ExecEnqueueError (Unit {0}) → Reply
  given : Next → Reply
  done : Reply

-- A call on the queue with what it returns.
abbrev pub call : Option ℕ → ExecQueueState → Call → ExecQueueState × Reply
call per_workspace s (enqueue_job gone j capacity) =
    let (s', r) = enqueue per_workspace gone s j capacity in (s', enqueued r)
call per_workspace s next_job = let (s', r) = next s in (s', given r)
call per_workspace s (finish_job gone key) = (finish per_workspace gone s key, done)
call per_workspace s close_queue = (close s, done)

-- What a line is after a call: a request that is taken in joins at its end, one that a worker is given
-- leaves at its front, and those whose clients have gone away leave.
abbrev pub joined : Text → List ℕ → RequestJob → Result ExecEnqueueError (Unit {0}) → List ℕ
joined key xs j (ok u) = if is_for key j then xs ++ j.stream ∷ [] else xs
joined key xs j (err e) = xs

abbrev pub rest : List ℕ → List ℕ
rest [] = []
rest (x ∷ xs) = xs

abbrev pub left : Text → List ℕ → Next → List ℕ
left key xs (job j) = if is_for key j then rest xs else xs
left key xs stop = xs
left key xs wait = xs

abbrev pub line_after : Text → List ℕ → Call → Reply → List ℕ
line_after key xs (enqueue_job gone j capacity) (enqueued r) = joined key (connected gone xs) j r
line_after key xs next_job (given n) = left key xs n
line_after key xs (finish_job gone k) r = connected gone xs
line_after key xs close_queue r = []
line_after key xs _ _ = xs

append_assoc : (xs ys zs : List ℕ) → xs ++ ys ++ zs ≡ xs ++ (ys ++ zs)
append_assoc [] ys zs = refl
append_assoc (x ∷ xs) ys zs = ap (λ r. x ∷ r) (append_assoc xs ys zs)

append-nil : (xs : List ℕ) → xs ++ [] ≡ xs
append-nil [] = refl
append-nil (x ∷ xs) = ap (λ r. x ∷ r) (append-nil xs)

connected-append :
    (gone : ℕ → Bool) (xs ys : List ℕ)
    → connected gone (xs ++ ys) ≡ connected gone xs ++ connected gone ys
connected-append gone [] ys = refl
connected-append gone (x ∷ xs) ys = ground (arith, connected-append gone xs ys)

streams_of-append :
    (key : Text) (jobs more : List RequestJob)
    → streams_of key (jobs ++ more) ≡ streams_of key jobs ++ streams_of key more
streams_of-append key [] more = refl
streams_of-append key (j ∷ jobs) more = ground (arith, streams_of-append key jobs more)

streams_of-retain :
    (key : Text) (gone : ℕ → Bool) (jobs : List RequestJob)
    → streams_of key (filter (λ j. not (gone j.stream)) jobs) ≡ connected gone (streams_of key jobs)
streams_of-retain key gone [] = refl
streams_of-retain key gone (j ∷ jobs) = ground (arith, streams_of-retain key gone jobs)

pub line-discard_disconnected :
    (key : Text) (gone : ℕ → Bool) (s : ExecQueueState)
    → HasDistinctKeys s.pending
    → line key (discard_disconnected gone s) ≡ connected gone (line key s)
unfolding discard_disconnected
line-discard_disconnected key gone s d =
    rw (streams_of-retain key gone s.ready, get_or-retain gone s.pending key d)
      (sym (connected-append gone (streams_of key s.ready) (pending_of s key)))

abbrev joins : Text → List ℕ → ℕ → Option Text → List ℕ
joins key xs stream k = joined key xs (record { stream = stream; workspace_key = k }) (ok tt)

line-push_pending :
    (key k : Text) (stream : ℕ) (s : ExecQueueState)
    → line key (push_pending s k stream) ≡ joins key (line key s) stream (some k)
line-push_pending key k stream s = elim (Bool-cases (text_eq k key)) [
  | inl t ↦
      let same = (text_eq_iff k key).0 t in
      let joined =
        subst
          (λ n.
            get_or [] (put s.pending k (pending_of s k ++ stream ∷ [])) n
            ≡ pending_of s n ++ stream ∷ [])
          same (get_or-put [] s.pending k (pending_of s k ++ stream ∷ [])) in
      rw (t, joined) (sym (append_assoc (streams_of key s.ready) (pending_of s key) (stream ∷ [])))
  | inr t ↦ rw (t, get_or-put_other [] s.pending k key (pending_of s k ++ stream ∷ []) t) refl
]

-- With the workspace's queue empty.
line-push_ready :
    (key k : Text) (stream : ℕ) (s : ExecQueueState)
    → pending_of s k ≡ []
    → line key (push_ready s k stream) ≡ joins key (line key s) stream (some k)
line-push_ready key k stream s e =
    rw (streams_of-append key s.ready (job ∷ [])) (elim (Bool-cases (text_eq k key)) [
      | inl t ↦
          let none_waits = subst (λ n. pending_of s n ≡ []) ((text_eq_iff k key).0 t) e in
          rw
            (
              t,
              none_waits,
              append-nil (streams_of key s.ready ++ stream ∷ []),
              append-nil (streams_of key s.ready),
            )
            refl
      | inr t ↦ rw (t, append-nil (streams_of key s.ready)) refl
    ])
  where
    job : RequestJob
    job = record { stream = stream; workspace_key = some k }

line-admit :
    (key : Text) (pw : Option ℕ) (s : ExecQueueState) (stream : ℕ) (k : Option Text)
    → line key (admit pw s stream k) ≡ joins key (line key s) stream k
unfolding admit
line-admit key pw s stream none =
    rw
      (
        streams_of-append key s.ready (record { stream = stream; workspace_key = none } ∷ []),
        append-nil (streams_of key s.ready),
      )
      refl
line-admit key pw s stream (some k) =
    if_elim (λ (s' : ExecQueueState). line key s' ≡ joins key (line key s) stream (some k))
      (must_wait pw s k) _ _ (λ t. line-push_pending key k stream s)
      (λ t. line-push_ready key k stream s (empty_of_is_empty _ (or_not-false _ _ t).1))

pub line-enqueue_connected :
    (key : Text) (pw : Option ℕ) (s : ExecQueueState) (j : RequestJob) (capacity : ℕ)
    → line key (enqueue_connected pw s j capacity).0
      ≡ joined key (line key s) j (enqueue_connected pw s j capacity).1
unfolding enqueue_connected
line-enqueue_connected key pw s j capacity =
    if_elim P s.closed _ _ (λ t. refl)
      (λ t.
        if_elim P (leb capacity (length s.ready + s.pending_count)) _ _ (λ u. refl)
          (λ u. line-admit key pw s j.stream j.workspace_key))
  where
    P : ExecQueueState × Result ExecEnqueueError (Unit {0}) → Type 0
    P r = line key r.0 ≡ joined key (line key s) j r.1

line-pop_pending :
    (key k : Text) (s : ExecQueueState) (streams : List ℕ)
    → pending_of s k ≡ streams
    → line key (pop_pending s k streams) ≡ line key s
line-pop_pending key k s [] e = refl
line-pop_pending key k s (stream ∷ streams) e =
    rw (streams_of-append key s.ready (job ∷ [])) (elim (Bool-cases (text_eq k key)) [
      | inl t ↦
          let same = (text_eq_iff k key).0 t in
          let before = subst (λ n. pending_of s n ≡ stream ∷ streams) same e in
          let after =
            subst (λ n. get_or [] (put s.pending k streams) n ≡ streams) same
              (get_or-put [] s.pending k streams) in
          rw (t, before, after) (append_assoc (streams_of key s.ready) (stream ∷ []) streams)
      | inr t ↦
          rw (t, append-nil (streams_of key s.ready), get_or-put_other [] s.pending k key streams t)
            refl
    ])
  where
    job : RequestJob
    job = record { stream = stream; workspace_key = some k }

pub line-finish_connected :
    (key : Text) (pw : Option ℕ) (s : ExecQueueState) (k : Option Text)
    → line key (finish_connected pw s k) ≡ line key s
unfolding finish_connected
line-finish_connected key pw s none = refl
line-finish_connected key pw s (some k) =
    if_elim (λ (s' : ExecQueueState). line key s' ≡ line key s)
      (has_room pw (in_flight_of (released s k) k)) _ _
      (λ t. line-pop_pending key k (released s k) (pending_of s k) refl) (λ t. refl)

pub line-next :
    (key : Text) (s : ExecQueueState) → line key (next s).0 ≡ left key (line key s) (next s).1
unfolding next next_ready
line-next key s =
    if_elim (λ (r : ExecQueueState × Next). line key r.0 ≡ left key (line key s) r.1) s.closed _ _
      (λ t. refl) (λ t. go s.ready refl)
  where
    go :
        (jobs : List RequestJob)
        → s.ready ≡ jobs
        → line key (next_ready s jobs).0 ≡ left key (line key s) (next_ready s jobs).1
    go [] e = refl
    go (j ∷ jobs) e = elim (Bool-cases (is_for key j)) [
      | inl t ↦ rw (ap (streams_of key) e, t) refl
      | inr t ↦ rw (ap (streams_of key) e, t) refl
    ]
