-- ===== src/Workers/Steps.antt =====
-- Every call on the exec queue keeps what holds of it: src/daemon/workers/mod.rs.
use enclave.Common.{
  ℕ, suc, ◌+◌, ◌-◌, ◌≤◌, ◌==◌, ◌≡◌, refl, sym, ap, subst, ◌∙◌, inl, inr, Bool, true, false, List,
  [], ◌∷◌, Option, none, some, arith, Bool-cases, if_elim, leb, length, get_elem?, remove_at,
  total-remove_at, Text, text_eq, text_eq_iff, is_empty, get_or-put, get_or-put_other,
  get_or-remove, get_or-remove_other, put, total-put, Result, le-total-get_or,
}
use enclave.Workers.{
  RequestJob, ExecQueueState, ExecEnqueueError, pending_of, in_flight_of, has_room,
  enqueue_connected, enqueue, Next, job, next, next_ready, pop_pending, released, finish_connected,
  finish, close,
}
use enclave.Workers.Connected.{put-HasDistinctKeys}
use enclave.Workers.Invariant.{
  counts_for, jobs_of, WithinShare, Sound, NoIdleWait, Inv, discard_disconnected-Inv, admit-Inv,
  push_ready-Inv,
}

in_flight_of-released :
    (s : ExecQueueState) (key : Text) → in_flight_of (released s key) key ≡ in_flight_of s key - 1
in_flight_of-released s key = elim (Bool-cases (in_flight_of s key - 1 == 0)) [
  | inl t ↦ rw t (get_or-remove 0 s.in_flight key ∙ ground (arith, t))
  | inr t ↦ rw t (get_or-put 0 s.in_flight key (in_flight_of s key - 1))
]

pub in_flight_of-released_other :
    (s : ExecQueueState) (key other : Text)
    → text_eq key other ≡ false
    → in_flight_of (released s key) other ≡ in_flight_of s other
in_flight_of-released_other s key other e = elim (Bool-cases (in_flight_of s key - 1 == 0)) [
  | inl t ↦ rw t (get_or-remove_other 0 s.in_flight key other e)
  | inr t ↦ rw t (get_or-put_other 0 s.in_flight key other (in_flight_of s key - 1) e)
]

share_mono : (pw : Option ℕ) (m n : ℕ) → m ≤ n → WithinShare pw n → WithinShare pw m
share_mono none m n h w = tt
share_mono (some limit) m n h w = omega arith

-- Where a share is full, one less and one more is full again.
full_again :
    (pw : Option ℕ) (n : ℕ)
    → WithinShare pw n
    → has_room pw n ≡ false
    → has_room pw (n - 1 + 1) ≡ false
full_again none n w h = absurd (ground (arith, h))
full_again (some limit) n w h = ground arith

room_of_has_room : (pw : Option ℕ) (n : ℕ) → has_room pw n ≡ true → WithinShare pw (n + 1)
room_of_has_room none n h = tt
room_of_has_room (some limit) n h = ground arith

module _ {pw : Option ℕ} {capacity : ℕ} {s : ExecQueueState} {serving : List RequestJob} where
  enqueue_connected-Inv :
      (j : RequestJob)
      → Inv pw capacity s serving
      → Inv pw capacity (enqueue_connected pw s j capacity).0 serving
  unfolding enqueue_connected
  enqueue_connected-Inv j inv =
      if_elim
        (λ (r : ExecQueueState × Result ExecEnqueueError (Unit {0})). Inv pw capacity r.0 serving)
        s.closed _ _ (λ _. inv)
        (λ _.
          if_elim
            (λ (r : ExecQueueState × Result ExecEnqueueError (Unit {0})).
              Inv pw capacity r.0 serving)
            (leb capacity (length s.ready + s.pending_count)) _ _ (λ _. inv)
            (λ u. admit-Inv j.stream j.workspace_key inv (ground (arith, u))))

  released-Sound :
      (key : Text) (i : ℕ) (j : RequestJob)
      → Sound pw capacity s serving
      → get_elem? serving i ≡ some j
      → j.workspace_key ≡ some key
      → Sound pw capacity (released s key) (remove_at serving i)
  released-Sound key i j inv at e = record {
    counted = inv.counted;
    distinct = inv.distinct;
    within = inv.within;
    shared = λ other. share_mono pw _ _ (le other) (inv.shared other);
    taken_shares = λ other. omega (
      arith,
      inv.taken_shares other,
      total-remove_at (counts_for other) serving i j at,
      gives other,
    );
  }
    where
      le : (other : Text) → in_flight_of (released s key) other ≤ in_flight_of s other
      le other = elim (Bool-cases (text_eq key other)) [
        | inl t ↦
            subst (λ k. in_flight_of (released s key) k ≤ in_flight_of s k)
              ((text_eq_iff key other).0 t) (omega (arith, in_flight_of-released s key))
        | inr t ↦ omega (arith, in_flight_of-released_other s key other t)
      ]

      -- The share that is given back is that of the job which ended.
      gives :
          (other : Text)
          → in_flight_of s other ≤ in_flight_of (released s key) other + counts_for other j
      gives other = elim (Bool-cases (text_eq key other)) [
        | inl t ↦
            let n =
              subst (λ k. in_flight_of (released s key) k ≡ in_flight_of s k - 1)
                ((text_eq_iff key other).0 t) (in_flight_of-released s key) in
            rw (e, t) (omega (arith, n))
        | inr t ↦ omega (arith, in_flight_of-released_other s key other t)
      ]

-- The pending request that takes the share given back.
pop_pending-Inv :
    {pw : Option ℕ} {capacity : ℕ} {s : ExecQueueState} {serving : List RequestJob} (key : Text)
    (streams : List ℕ)
    → Sound pw capacity s serving
    → pending_of s key ≡ streams
    → has_room pw (in_flight_of s key) ≡ true
    → (is_empty (pending_of s key) ≡ false → has_room pw (in_flight_of s key + 1) ≡ false)
    → ((other : Text) → text_eq key other ≡ false → NoIdleWait pw s other)
    → Inv pw capacity (pop_pending s key streams) serving
pop_pending-Inv {pw} {s} key [] inv e room own others = record {
  sound = inv;
  waits = λ other q. elim (Bool-cases (text_eq key other)) [
    | inl t ↦
        let same =
          subst (λ k. is_empty (pending_of s k) ≡ true) ((text_eq_iff key other).0 t)
            (ap is_empty e) in
        absurd (ground (arith, q, same))
    | inr t ↦ others other t q
  ];
}
pop_pending-Inv {pw} {capacity} {s} {serving} key (stream ∷ streams) inv e room own others =
    push_ready-Inv {s = s'} key stream popped (omega (arith, inv.within, at_least_one))
      (room_of_has_room pw (in_flight_of s key) room)
      (λ other t q.
        others other t (sym (ap is_empty (get_or-put_other [] s.pending key other streams t)) ∙ q))
      (λ q. own (ap is_empty e))
  where
    s' : ExecQueueState
    s' = record s { pending = put s.pending key streams; pending_count = s.pending_count - 1 }

    len : length (pending_of s key) ≡ suc (length streams)
    len = ap length e

    at_least_one : 1 ≤ s.pending_count
    at_least_one = omega (arith, inv.counted, le-total-get_or [] length refl s.pending key, len)

    popped : Sound pw capacity s' serving
    popped = record {
      counted =
          omega
            (arith, inv.counted, total-put [] length refl s.pending key streams, len, at_least_one);
      distinct = put-HasDistinctKeys s.pending key streams inv.distinct;
      within = omega (arith, inv.within);
      shared = inv.shared;
      taken_shares = inv.taken_shares;
    }

-- The calls on the queue, each with the jobs that workers serve before and after it.
module _ {pw : Option ℕ} {capacity : ℕ} {s : ExecQueueState} {serving : List RequestJob} where
  pub enqueue-Inv :
      (gone : ℕ → Bool) (j : RequestJob)
      → Inv pw capacity s serving
      → Inv pw capacity (enqueue pw gone s j capacity).0 serving
  unfolding enqueue
  enqueue-Inv gone j inv = enqueue_connected-Inv j (discard_disconnected-Inv gone inv)

  finish_connected-Inv :
      (i : ℕ) (j : RequestJob)
      → Inv pw capacity s serving
      → get_elem? serving i ≡ some j
      → (k : Option Text) → j.workspace_key ≡ k
      → Inv pw capacity (finish_connected pw s k) (remove_at serving i)
  unfolding finish_connected
  finish_connected-Inv i j inv at none e = record {
    sound = record {
      counted = inv.counted;
      distinct = inv.distinct;
      within = inv.within;
      shared = inv.shared;
      taken_shares = λ other.
          omega (arith, inv.taken_shares other, total-remove_at (counts_for other) serving i j at);
    };
    waits = inv.waits;
  }
  finish_connected-Inv i j inv at (some key) e =
      if_elim (λ (r : ExecQueueState). Inv pw capacity r (remove_at serving i))
        (has_room pw (in_flight_of (released s key) key)) _ _
        (λ t.
          pop_pending-Inv key (pending_of s key) sound refl t
            (λ q.
              rw (in_flight_of-released s key)
                (full_again pw (in_flight_of s key) (inv.shared key) (inv.waits key q)))
            others)
        (λ t. record {
          sound = sound;
          waits = λ other q. elim (Bool-cases (text_eq key other)) [
            | inl same ↦
                subst (λ k. has_room pw (in_flight_of (released s key) k) ≡ false)
                  ((text_eq_iff key other).0 same) t
            | inr differs ↦ others other differs q
          ];
        })
    where
      sound : Sound pw capacity (released s key) (remove_at serving i)
      sound = released-Sound key i j inv.sound at e

      others : (other : Text) → text_eq key other ≡ false → NoIdleWait pw (released s key) other
      others other t q = rw (in_flight_of-released_other s key other t) (inv.waits other q)

  next_ready-Inv :
      (jobs : List RequestJob) (s' : ExecQueueState) (j : RequestJob)
      → Inv pw capacity s serving
      → s.ready ≡ jobs
      → next_ready s jobs ≡ (s', job j)
      → Inv pw capacity s' (j ∷ serving)
  unfolding next_ready
  next_ready-Inv [] s' j inv e h =
      absurd (ground (arith, ap (λ (r : ExecQueueState × Next). r.1) h))
  next_ready-Inv (x ∷ jobs) s' j inv e h =
      let e0 = ap (λ (r : ExecQueueState × Next). r.0) h in
      let e1 : x ≡ j = ground (arith, ap (λ (r : ExecQueueState × Next). r.1) h) in
      subst (λ q. Inv pw capacity q (j ∷ serving)) e0
        (subst (λ y. Inv pw capacity (record s { ready = jobs }) (y ∷ serving)) e1 popped)
    where
      popped : Inv pw capacity (record s { ready = jobs }) (x ∷ serving)
      popped = record {
        sound = record {
          counted = inv.counted;
          distinct = inv.distinct;
          within = omega (arith, inv.within, ap length e);
          shared = inv.shared;
          taken_shares = λ key. omega (arith, inv.taken_shares key, ap (jobs_of key) e);
        };
        waits = inv.waits;
      }

  pub next-Inv :
      (s' : ExecQueueState) (j : RequestJob)
      → Inv pw capacity s serving
      → next s ≡ (s', job j)
      → Inv pw capacity s' (j ∷ serving)
  unfolding next
  next-Inv s' j inv =
      if_elim (λ (r : ExecQueueState × Next). r ≡ (s', job j) → Inv pw capacity s' (j ∷ serving))
        s.closed _ _ (λ t h. absurd (ground (arith, ap (λ (r : ExecQueueState × Next). r.1) h)))
        (λ t h. next_ready-Inv s.ready s' j inv refl h)

  pub close-Inv : Inv pw capacity s serving → Inv pw capacity (close s) serving
  unfolding close
  close-Inv inv = record {
    sound = record {
      counted = refl;
      distinct = tt;
      within = omega arith;
      shared = inv.shared;
      taken_shares = λ key. omega (arith, inv.taken_shares key);
    };
    waits = λ key q. absurd (ground (arith, q));
  }

module _ {pw : Option ℕ} {capacity : ℕ} {s : ExecQueueState} {serving : List RequestJob} where
  pub finish-Inv :
      (gone : ℕ → Bool) (i : ℕ) (j : RequestJob)
      → Inv pw capacity s serving
      → get_elem? serving i ≡ some j
      → Inv pw capacity (finish pw gone s j.workspace_key) (remove_at serving i)
  unfolding finish
  finish-Inv gone i j inv at =
      finish_connected-Inv i j (discard_disconnected-Inv gone inv) at j.workspace_key refl
