-- ===== src/Workers/Share/Lost.antt =====
-- A share that no job holds: src/daemon/workers/mod.rs. `discard_disconnected` drops a request that is
-- ready and leaves the count of its workspace.
use enclave.Common.{
  ℕ, ◌+◌, ◌≡◌, refl, sym, ap, subst, ◌∙◌, inl, inr, Bool, true, false, not, ◌||◌, List, [], ◌∷◌,
  Option, none, some, arith, Bool-cases, if_elim, leb, length, total-append, le-total,
  total-remove_at, get_elem?, remove_at, Text, text_eq, text_eq_iff, is_empty, get_or-put_other,
  Result,
}
use enclave.Workers.{
  RequestJob, ExecQueueState, ExecEnqueueError, pending_of, in_flight_of, discard_disconnected,
  at_share, has_room, must_wait, push_ready, admit, enqueue_connected, enqueue, Next, job, next,
  next_ready, pop_pending, released, finish_connected, finish, close,
}
use enclave.Workers.Connected.{total-filter-le}
use enclave.Workers.Invariant.{counts_for, jobs_of}
use enclave.Workers.Steps.{in_flight_of-released_other}
use enclave.Workers.Share.{ExecPool, Step, submitted, taken, finished, stopped}

-- The share is full, and no job that is ready or served belongs to the workspace.
record Lost (pw : Option ℕ) (key : Text) (s : ExecQueueState) (serving : List RequestJob)
    : Type 0 where
  unheld : jobs_of key s.ready + jobs_of key serving ≡ 0
  no_room : has_room pw (in_flight_of s key) ≡ false

waits_of_no_room :
    (pw : Option ℕ) (n : ℕ) (b : Bool) → has_room pw n ≡ false → (at_share pw n || b) ≡ true
waits_of_no_room none n b h = absurd (ground (arith, h))
waits_of_no_room (some limit) n b h = ground arith

module _ {pw : Option ℕ} {key : Text} where
  push_ready-Lost :
      (s : ExecQueueState) (serving : List RequestJob) (k : Text) (stream : ℕ)
      → text_eq k key ≡ false
      → Lost pw key s serving
      → Lost pw key (push_ready s k stream) serving
  push_ready-Lost s serving k stream ne lost = record {
    unheld = rw (total-append (counts_for key) s.ready (job ∷ []), ne) (omega (arith, lost.unheld));
    no_room = rw (get_or-put_other 0 s.in_flight k key (in_flight_of s k + 1) ne) lost.no_room;
  }
    where
      job : RequestJob
      job = record { stream = stream; workspace_key = some k }

  discard_disconnected-Lost :
      (gone : ℕ → Bool) (s : ExecQueueState) (serving : List RequestJob)
      → Lost pw key s serving
      → Lost pw key (discard_disconnected gone s) serving
  unfolding discard_disconnected
  discard_disconnected-Lost gone s serving lost = record {
    unheld = omega (
      arith,
      lost.unheld,
      total-filter-le (counts_for key) (λ job. not (gone job.stream)) s.ready,
    );
    no_room = lost.no_room;
  }

  admit-Lost :
      (s : ExecQueueState) (serving : List RequestJob) (stream : ℕ) (k : Option Text)
      → Lost pw key s serving
      → Lost pw key (admit pw s stream k) serving
  unfolding admit
  admit-Lost s serving stream none lost = record {
    unheld =
        rw
          (total-append (counts_for key) s.ready
            (record { stream = stream; workspace_key = none } ∷ []))
          (omega (arith, lost.unheld));
    no_room = lost.no_room;
  }
  admit-Lost s serving stream (some k) lost =
      if_elim (λ (s' : ExecQueueState). Lost pw key s' serving) (must_wait pw s k) _ _
        (λ t. record { unheld = lost.unheld; no_room = lost.no_room })
        (λ t. push_ready-Lost s serving k stream (other t) lost)
    where
      other : must_wait pw s k ≡ false → text_eq k key ≡ false
      other t = elim (Bool-cases (text_eq k key)) [
        | inl e ↦
            let full =
              subst (λ n. has_room pw (in_flight_of s n) ≡ false) (sym ((text_eq_iff k key).0 e))
                lost.no_room in
            let waits =
              waits_of_no_room pw (in_flight_of s k) (not (is_empty (pending_of s k))) full in
            absurd (ground (arith, sym t ∙ waits))
        | inr e ↦ e
      ]

  enqueue_connected-Lost :
      (s : ExecQueueState) (serving : List RequestJob) (j : RequestJob) (capacity : ℕ)
      → Lost pw key s serving
      → Lost pw key (enqueue_connected pw s j capacity).0 serving
  unfolding enqueue_connected
  enqueue_connected-Lost s serving j capacity lost =
      if_elim P s.closed _ _ (λ t. lost)
        (λ t.
          if_elim P (leb capacity (length s.ready + s.pending_count)) _ _ (λ u. lost)
            (λ u. admit-Lost s serving j.stream j.workspace_key lost))
    where
      P : ExecQueueState × Result ExecEnqueueError (Unit {0}) → Type 0
      P r = Lost pw key r.0 serving

  pop_pending-Lost :
      (s : ExecQueueState) (serving : List RequestJob) (k : Text) (streams : List ℕ)
      → text_eq k key ≡ false
      → Lost pw key s serving
      → Lost pw key (pop_pending s k streams) serving
  pop_pending-Lost s serving k [] ne lost = lost
  pop_pending-Lost s serving k (stream ∷ streams) ne lost =
      push_ready-Lost _ serving k stream ne
        (record { unheld = lost.unheld; no_room = lost.no_room })

  finish_connected-Lost :
      (s : ExecQueueState) (serving : List RequestJob) (i : ℕ) (j : RequestJob) (k : Option Text)
      → get_elem? serving i ≡ some j
      → j.workspace_key ≡ k
      → Lost pw key s serving
      → Lost pw key (finish_connected pw s k) (remove_at serving i)
  unfolding finish_connected
  finish_connected-Lost s serving i j none at e lost = record {
    unheld = omega (arith, lost.unheld, total-remove_at (counts_for key) serving i j at);
    no_room = lost.no_room;
  }
  finish_connected-Lost s serving i j (some k) at e lost =
      if_elim (λ (s' : ExecQueueState). Lost pw key s' (remove_at serving i))
        (has_room pw (in_flight_of (released s k) k)) _ _
        (λ t. pop_pending-Lost (released s k) (remove_at serving i) k (pending_of s k) other less)
        (λ t. less)
    where
      other : text_eq k key ≡ false
      other = elim (Bool-cases (text_eq k key)) [
        | inl t ↦
            let counts : counts_for key j ≡ 1 = rw (e, t) refl in
            absurd (omega (arith, counts, le-total (counts_for key) serving i j at, lost.unheld))
        | inr t ↦ t
      ]

      less : Lost pw key (released s k) (remove_at serving i)
      less = record {
        unheld = omega (arith, lost.unheld, total-remove_at (counts_for key) serving i j at);
        no_room = rw (in_flight_of-released_other s k key other) lost.no_room;
      }

  next_ready-Lost :
      (s s' : ExecQueueState) (serving : List RequestJob) (j : RequestJob) (jobs : List RequestJob)
      → s.ready ≡ jobs
      → next_ready s jobs ≡ (s', job j)
      → Lost pw key s serving
      → Lost pw key s' (j ∷ serving)
  unfolding next_ready
  next_ready-Lost s s' serving j [] e h lost =
      absurd (ground (arith, ap (λ (r : ExecQueueState × Next). r.1) h))
  next_ready-Lost s s' serving j (x ∷ jobs) e h lost =
      let same : x ≡ j = ground (arith, ap (λ (r : ExecQueueState × Next). r.1) h) in
      subst (λ q. Lost pw key q (j ∷ serving)) (ap (λ (r : ExecQueueState × Next). r.0) h)
        (subst (λ y. Lost pw key (record s { ready = jobs }) (y ∷ serving)) same
          (record {
            unheld = omega (arith, lost.unheld, ap (jobs_of key) e);
            no_room = lost.no_room;
          }))

  Step-Lost :
      {e e' : ExecPool}
      → Step pw e e'
      → Lost pw key e.queue e.serving
      → Lost pw key e'.queue e'.serving
  unfolding enqueue next finish close
  Step-Lost {e} (submitted gone j) lost =
      enqueue_connected-Lost _ e.serving j _ (discard_disconnected-Lost gone e.queue e.serving lost)
  Step-Lost {e} (taken s j h) lost =
      if_elim (λ (r : ExecQueueState × Next). r ≡ (s, job j) → Lost pw key s (j ∷ e.serving))
        e.queue.closed _ _
        (λ t h. absurd (ground (arith, ap (λ (r : ExecQueueState × Next). r.1) h)))
        (λ t h. next_ready-Lost e.queue s e.serving j e.queue.ready refl h lost) h
  Step-Lost {e} (finished gone i j at) lost =
      finish_connected-Lost _ e.serving i j j.workspace_key at refl
        (discard_disconnected-Lost gone e.queue e.serving lost)
  Step-Lost {e} stopped lost = record {
    unheld = omega (arith, lost.unheld);
    no_room = lost.no_room;
  }

-- What follows a state, in any number of steps.
pub data After (pw : Option ℕ) (e : ExecPool) : ExecPool → Type 0 where
  here : After pw e e
  further : {e' e'' : ExecPool} → After pw e e' → Step pw e' e'' → After pw e e''

After-Lost :
    {pw : Option ℕ} (key : Text) {e e' : ExecPool}
    → After pw e e'
    → Lost pw key e.queue e.serving
    → Lost pw key e'.queue e'.serving
After-Lost key here lost = lost
After-Lost key (further a st) lost = Step-Lost st (After-Lost key a lost)

-- Where a workspace has no room and none of its jobs is ready or served, which is what dropping a ready
-- request of a client that has gone away leaves of a share of one, no worker ever serves a request of
-- the workspace again.
pub lost_share_stays :
    (per_workspace : Option ℕ) (key : Text) (e e' : ExecPool)
    → jobs_of key e.queue.ready + jobs_of key e.serving ≡ 0
    → has_room per_workspace (in_flight_of e.queue key) ≡ false
    → After per_workspace e e'
    → jobs_of key e'.queue.ready + jobs_of key e'.serving ≡ 0
lost_share_stays per_workspace key e e' unheld no_room a =
    (After-Lost key a (record { unheld = unheld; no_room = no_room })).unheld
