-- ===== src/Workers/Invariant.antt =====
-- The exec queue and the jobs at its workers: src/daemon/workers/mod.rs.
use enclave.Common.{
  ℕ, ◌+◌, ◌≤◌, ◌<◌, ◌≡◌, refl, sym, ap, subst, ◌∙◌, inl, inr, Bool, true, false, not, ◌||◌, List,
  [], ◌∷◌, ◌++◌, Option, none, some, arith, Bool-cases, if◌then◌else◌, length, total, total-append,
  Text, text_eq, text_eq_iff, is_empty, get_or-put, get_or-put_other, total-put, HasDistinctKeys,
}
use enclave.Workers.{
  RequestJob, ExecQueueState, pending_of, in_flight_of, queued, connected, discard_disconnected,
  at_share, has_room, must_wait, push_pending, push_ready, admit,
}
use enclave.Workers.Connected.{
  length-filter-le, total-filter-le, queued-retain-le, retain_connected-HasDistinctKeys,
  get_or-retain, put-HasDistinctKeys,
}

abbrev pub counts_for : Text → RequestJob → ℕ
counts_for key job = elim job.workspace_key [ none ↦ 0 | some k ↦ if text_eq k key then 1 else 0 ]

-- The jobs of a workspace among some.
abbrev pub jobs_of : Text → List RequestJob → ℕ
jobs_of key = total (counts_for key)

abbrev pub WithinShare : Option ℕ → ℕ → Type 0
WithinShare none count = Unit
WithinShare (some limit) count = count ≤ limit

-- What holds of the queue, with the jobs that workers serve.
pub record Sound (per_workspace : Option ℕ) (capacity : ℕ) (s : ExecQueueState)
    (serving : List RequestJob) : Type 0 where
  pub counted : s.pending_count ≡ queued s.pending
  pub distinct : HasDistinctKeys s.pending
  pub within : length s.ready + s.pending_count ≤ capacity
  pub shared : (key : Text) → WithinShare per_workspace (in_flight_of s key)
  pub taken_shares : (key : Text) → jobs_of key s.ready + jobs_of key serving ≤ in_flight_of s key

-- A workspace whose requests wait has no room.
abbrev pub NoIdleWait : Option ℕ → ExecQueueState → Text → Type 0
NoIdleWait per_workspace s key =
    is_empty (pending_of s key) ≡ false → has_room per_workspace (in_flight_of s key) ≡ false

pub record Inv (per_workspace : Option ℕ) (capacity : ℕ) (s : ExecQueueState)
    (serving : List RequestJob) : Type 0 where
  pub sound : Sound per_workspace capacity s serving
  pub open sound use *
  pub waits : (key : Text) → NoIdleWait per_workspace s key

is_empty-of_connected :
    (gone : ℕ → Bool) (xs : List ℕ) → is_empty (connected gone xs) ≡ false → is_empty xs ≡ false
is_empty-of_connected gone [] h = absurd (ground (arith, h))
is_empty-of_connected gone (x ∷ xs) h = refl

length-append {ℓ} : {A : Type ℓ} (xs ys : List A) → length (xs ++ ys) ≡ length xs + length ys
length-append [] ys = omega arith
length-append (x ∷ xs) ys = omega (arith, length-append xs ys)

no_room_of_at_share : (pw : Option ℕ) (n : ℕ) → at_share pw n ≡ true → has_room pw n ≡ false
no_room_of_at_share none n h = absurd (ground (arith, h))
no_room_of_at_share (some limit) n h = ground arith

share_of_not_at_share : (pw : Option ℕ) (n : ℕ) → at_share pw n ≡ false → WithinShare pw (n + 1)
share_of_not_at_share none n h = tt
share_of_not_at_share (some limit) n h = ground arith

pub or_not-false : (a b : Bool) → (a || not b) ≡ false → (a ≡ false) × (b ≡ true)
or_not-false true b h = absurd (ground (arith, h))
or_not-false false true h = (refl, refl)
or_not-false false false h = absurd (ground (arith, h))

pub empty_of_is_empty : (xs : List ℕ) → is_empty xs ≡ true → xs ≡ []
empty_of_is_empty [] h = refl
empty_of_is_empty (x ∷ xs) h = absurd (ground (arith, h))

module _ {pw : Option ℕ} {capacity : ℕ} {s : ExecQueueState} {serving : List RequestJob} where
  pub discard_disconnected-Inv :
      (gone : ℕ → Bool)
      → Inv pw capacity s serving
      → Inv pw capacity (discard_disconnected gone s) serving
  unfolding discard_disconnected
  discard_disconnected-Inv gone inv = record {
    sound = record {
      counted = refl;
      distinct = retain_connected-HasDistinctKeys gone s.pending inv.distinct;
      within = omega (
        arith,
        inv.within,
        inv.counted,
        queued-retain-le gone s.pending,
        length-filter-le (λ job. not (gone job.stream)) s.ready,
      );
      shared = inv.shared;
      taken_shares = λ key. omega (
        arith,
        inv.taken_shares key,
        total-filter-le (counts_for key) (λ job. not (gone job.stream)) s.ready,
      );
    };
    waits = λ key h. inv.waits key (
        is_empty-of_connected gone (pending_of s key)
          (sym (ap is_empty (get_or-retain gone s.pending key inv.distinct)) ∙ h));
  }

  share_of_must_wait :
      (key : Text)
      → Inv pw capacity s serving
      → must_wait pw s key ≡ true
      → has_room pw (in_flight_of s key) ≡ false
  share_of_must_wait key inv h = elim (Bool-cases (is_empty (pending_of s key))) [
    | inl t ↦
        no_room_of_at_share pw (in_flight_of s key)
          (elim (Bool-cases (at_share pw (in_flight_of s key))) [
            | inl a ↦ a
            | inr a ↦ absurd (ground (arith, h, a, t))
          ])
    | inr t ↦ inv.waits key t
  ]

  push_pending-Inv :
      (key : Text) (stream : ℕ)
      → Inv pw capacity s serving
      → length s.ready + s.pending_count < capacity
      → must_wait pw s key ≡ true
      → Inv pw capacity (push_pending s key stream) serving
  push_pending-Inv key stream inv lt h = record {
    sound = record {
      counted = omega (
        arith,
        inv.counted,
        total-put [] length refl s.pending key (pending_of s key ++ stream ∷ []),
        length-append (pending_of s key) (stream ∷ []),
      );
      distinct = put-HasDistinctKeys s.pending key _ inv.distinct;
      within = omega (arith, lt);
      shared = inv.shared;
      taken_shares = inv.taken_shares;
    };
    waits = λ other q. elim (Bool-cases (text_eq key other)) [
      | inl e ↦
          subst (λ k. has_room pw (in_flight_of s k) ≡ false) ((text_eq_iff key other).0 e)
            (share_of_must_wait key inv h)
      | inr e ↦
          let same = get_or-put_other [] s.pending key other (pending_of s key ++ stream ∷ []) e in
          inv.waits other (sym (ap is_empty same) ∙ q)
    ];
  }

  -- A job joins the ready queue and takes a share.
  pub push_ready-Inv :
      (key : Text) (stream : ℕ)
      → Sound pw capacity s serving
      → length s.ready + s.pending_count < capacity
      → WithinShare pw (in_flight_of s key + 1)
      → ((other : Text) → text_eq key other ≡ false → NoIdleWait pw s other)
      → (is_empty (pending_of s key) ≡ false → has_room pw (in_flight_of s key + 1) ≡ false)
      → Inv pw capacity (push_ready s key stream) serving
  push_ready-Inv key stream inv lt room others own = record {
    sound = record {
      counted = inv.counted;
      distinct = inv.distinct;
      within = omega (arith, lt, length-append s.ready (job ∷ []));
      shared = λ other. elim (Bool-cases (text_eq key other)) [
        | inl e ↦ subst (WithinShare pw) (sym (now other e)) room
        | inr e ↦ subst (WithinShare pw) (sym (kept other e)) (inv.shared other)
      ];
      taken_shares = λ other. omega (
        arith,
        inv.taken_shares other,
        total-append (counts_for other) s.ready (job ∷ []),
        step other,
      );
    };
    waits = λ other q. elim (Bool-cases (text_eq key other)) [
      | inl e ↦ rw (now other e) (
          own
            (subst (λ k. is_empty (pending_of s k) ≡ false) (sym ((text_eq_iff key other).0 e)) q))
      | inr e ↦ rw (kept other e) (others other e q)
    ];
  }
    where
      job : RequestJob
      job = record { stream = stream; workspace_key = some key }

      kept :
          (other : Text)
          → text_eq key other ≡ false
          → in_flight_of (push_ready s key stream) other ≡ in_flight_of s other
      kept other e = get_or-put_other 0 s.in_flight key other (in_flight_of s key + 1) e

      now :
          (other : Text)
          → text_eq key other ≡ true
          → in_flight_of (push_ready s key stream) other ≡ in_flight_of s key + 1
      now other e =
          subst (λ k. in_flight_of (push_ready s key stream) k ≡ in_flight_of s key + 1)
            ((text_eq_iff key other).0 e) (get_or-put 0 s.in_flight key (in_flight_of s key + 1))

      -- The new job counts where the count has gone up.
      step :
          (other : Text)
          → counts_for other job + in_flight_of s other
            ≤ in_flight_of (push_ready s key stream) other
      step other = elim (Bool-cases (text_eq key other)) [
        | inl e ↦
            let same = (text_eq_iff key other).0 e in
            let n = ap (in_flight_of s) same in rw (e, now other e) (omega (arith, n))
        | inr e ↦ rw (e, kept other e) (omega arith)
      ]

  -- A queue that is not full takes a job.
  pub admit-Inv :
      (stream : ℕ) (key : Option Text)
      → Inv pw capacity s serving
      → length s.ready + s.pending_count < capacity
      → Inv pw capacity (admit pw s stream key) serving
  unfolding admit
  admit-Inv stream none inv lt = record {
    sound = record {
      counted = inv.counted;
      distinct = inv.distinct;
      within = omega (arith, lt, length-append s.ready (job ∷ []));
      shared = inv.shared;
      taken_shares = λ key.
          omega (arith, inv.taken_shares key, total-append (counts_for key) s.ready (job ∷ []));
    };
    waits = inv.waits;
  }
    where
      job : RequestJob
      job = record { stream = stream; workspace_key = none }
  admit-Inv stream (some key) inv lt = elim (Bool-cases (must_wait pw s key)) [
    | inl t ↦ rw t (push_pending-Inv key stream inv lt t)
    | inr t ↦ rw t (
        push_ready-Inv key stream inv.sound lt
          (share_of_not_at_share pw (in_flight_of s key) (or_not-false _ _ t).0)
          (λ other e. inv.waits other) (λ q. absurd (ground (arith, q, (or_not-false _ _ t).1))))
  ]
