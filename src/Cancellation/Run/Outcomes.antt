-- ===== src/Cancellation/Run/Outcomes.antt =====
-- What a cancel promises a command and its helper: src/workspace/cancel.rs.
use enclave.Common.{
  ℕ, ◌≡◌, ◌≢◌, refl, sym, ap, subst, ◌∙◌, ◌⊎◌, inl, inr, Bool, true, false, ◌||◌, List, [], ◌∷◌,
  ◌++◌, Option, none, some, arith, Bool-cases, if_elim, leb, any, All, All-append, All-In, In,
  In-filter, Text, Result, ok, err, bind-ok, get_or,
}
use mathlib.Core.Option.{some-injective}
use enclave.Cancellation.{
  CancelError, survived, File, missing, unreadable, holds, Files, Processes, PublishedCommandMarker,
  finish_held, finish_command_marker, LockedCommandMarker, is_marker, marker_paths, lock_each,
  lock_command_markers,
}
use enclave.Cancellation.Run.{
  signal_each, any_live, await_gone, retire, Cancel, CancelOutcome, after_wait, after_await,
  after_signals, cancel_markers, cancel_workspace_command,
}
use enclave.Cancellation.Locking.{
  IsLocked, IsSignallable, In-sort_paths, In-of_get_or, lock_each-IsLocked,
}
use enclave.Cancellation.Run.Retiring.{retire-IsLocked}

-- Every marker is locked, where locking ends well.
lock_command_markers-IsLocked :
    (p : Processes) (listable : Bool) (files : Files) (ms : List LockedCommandMarker) (path : Text)
    → lock_command_markers p listable files ≡ ok ms
    → is_marker path ≡ true
    → IsLocked files ms path
unfolding lock_command_markers
lock_command_markers-IsLocked p listable files ms path h t =
    let (u, listed, h') = bind-ok _ (λ _. lock_each p files (marker_paths files)) ms h in
    let (locked, good) = lock_each-IsLocked p files (marker_paths files) ms h' in
    go locked (get_or missing files path) refl
  where
    go :
        All (IsLocked files ms) (marker_paths files)
        → (file : File) → get_or missing files path ≡ file
        → IsLocked files ms path
    go locked file e = elim (cases file e) [
      | inl gone ↦ inl gone
      | inr there ↦
          All-In (IsLocked files ms) (marker_paths files) path locked
            (In-sort_paths path _ (In-filter is_marker _ path t (In-of_get_or files path there)))
    ]
      where
        cases :
            (file : File)
            → get_or missing files path ≡ file
            → (get_or missing files path ≡ missing) ⊎ (get_or missing files path ≢ missing)
        cases missing e = inl e
        cases unreadable e = inr (λ q. ground (arith, sym e ∙ q))
        cases (holds raw) e = inr (λ q. ground (arith, sym e ∙ q))

locked-IsSignallable :
    (p : Processes) (listable : Bool) (files : Files) (ms : List LockedCommandMarker)
    → lock_command_markers p listable files ≡ ok ms
    → All (IsSignallable p) ms
unfolding lock_command_markers
locked-IsSignallable p listable files ms h =
    let (u, listed, h') = bind-ok _ (λ _. lock_each p files (marker_paths files)) ms h in
    (lock_each-IsLocked p files (marker_paths files) ms h').1

await_gone-ends :
    (deadline : ℕ) (ms : List LockedCommandMarker) (rounds : List (Processes × ℕ))
    → any (λ (r : Processes × ℕ). leb deadline r.1) rounds ≡ true
    → (r : Result CancelError (Unit {0})) × (await_gone deadline ms rounds ≡ some r)
await_gone-ends deadline ms [] h = absurd (ground (arith, h))
await_gone-ends deadline ms ((p, now) ∷ rounds) h = elim (Bool-cases (any_live p ms)) [
  | inr gone ↦ (ok tt, rw gone refl)
  | inl lives ↦ elim (Bool-cases (leb deadline now)) [
    | inl late ↦ (err survived, rw (lives, late) refl)
    | inr early ↦
        let later = any (λ (r : Processes × ℕ). leb deadline r.1) rounds in
        let (r, e) = await_gone-ends deadline ms rounds (ap (λ b. b || later) (sym early) ∙ h) in
        (r, rw (lives, early) e)
  ]
]

signal_each-All :
    (p : Processes) (Q : ℕ → Type 0) (sent : List ℕ) (ms : List LockedCommandMarker)
    → All Q sent
    → ((m : LockedCommandMarker) → In m ms → m.live ≡ true → Q m.helper_pid)
    → All Q (signal_each p sent ms).0
unfolding signal_each
signal_each-All p Q sent [] h q = h
signal_each-All p Q sent (m ∷ ms) h q = elim (Bool-cases m.live) [
  | inr idle ↦ rw (idle, signal_each) (signal_each-All p Q sent ms h (λ n i. q n (inr i)))
  | inl lives ↦ elim (Bool-cases (p.signals m.helper_pid m.helper_starttime_ticks)) [
    | inl sends ↦
        rw (lives, sends, signal_each)
          (signal_each-All p Q (sent ++ m.helper_pid ∷ []) ms
            (All-append Q sent (m.helper_pid ∷ []) h (q m (inl refl) lives, tt))
            (λ n i. q n (inr i)))
    | inr fails ↦ rw (lives, fails, signal_each) h
  ]
]

-- Where a cancel ends well and files can be removed, no marker is left, so a command that ends after it
-- finds none, and its helper, which may have been signalled, is not used again.
pub cancel-retires :
    (p : Processes) (listable : Bool) (removable : Text → Bool) (files : Files) (deadline : ℕ)
    (rounds : List (Processes × ℕ)) (c : Cancel) (outcome : CancelOutcome) (removes : Bool)
    (marker : PublishedCommandMarker)
    → ((path : Text) → removable path ≡ true)
    → cancel_workspace_command p listable removable files deadline rounds ≡ some c
    → c.answer ≡ ok outcome
    → is_marker marker.path ≡ true
    → finish_command_marker removes c.files marker ≡ (c.files, ok false)
unfolding cancel_workspace_command finish_command_marker cancel_markers after_wait
cancel-retires p listable removable files deadline rounds c outcome removes marker can h a t =
    ap (finish_held removes c.files marker) (go (lock_command_markers p listable files) refl h)
  where
    Gone : Option Cancel → Type 0
    Gone r = r ≡ some c → get_or missing c.files marker.path ≡ missing

    retired :
        (ms : List LockedCommandMarker) (d : Cancel)
        → lock_command_markers p listable files ≡ ok ms
        → d.files ≡ retire removable files ms
        → some d ≡ some c
        → get_or missing c.files marker.path ≡ missing
    retired ms d l f q =
        let same = ap (λ (c : Cancel). c.files) (some-injective d c q) in
        subst (λ fs. get_or missing fs marker.path ≡ missing) (sym f ∙ same)
          (retire-IsLocked removable can files ms marker.path
            (lock_command_markers-IsLocked p listable files ms marker.path l t))

    waited :
        (ms : List LockedCommandMarker) (sent : List ℕ) (r : Option (Result CancelError (Unit {0})))
        → lock_command_markers p listable files ≡ ok ms
        → Gone (after_await removable files ms sent r)
    waited ms sent none l q = absurd (ground (arith, q))
    waited ms sent (some (ok u)) l q = retired ms _ l refl q
    waited ms sent (some (err e)) l q =
        absurd (ground (arith, ap (λ (c : Cancel). c.answer) (some-injective _ c q) ∙ a))

    signalled :
        (ms : List LockedCommandMarker) (r : List ℕ × Result CancelError (Unit {0}))
        → lock_command_markers p listable files ≡ ok ms
        → Gone (after_signals removable files deadline rounds ms r)
    signalled ms (sent, err e) l q =
        absurd (ground (arith, ap (λ (c : Cancel). c.answer) (some-injective _ c q) ∙ a))
    signalled ms (sent, ok u) l q = waited ms sent (await_gone deadline ms rounds) l q

    go :
        (r : Result CancelError (List LockedCommandMarker))
        → lock_command_markers p listable files ≡ r
        → Gone (cancel_markers p removable files deadline rounds r)
    go (err e) l q =
        absurd (ground (arith, ap (λ (c : Cancel). c.answer) (some-injective _ c q) ∙ a))
    go (ok ms) l q =
        if_elim Gone (any (λ (m : LockedCommandMarker). m.live) ms) _ _
          (λ lives. signalled ms (signal_each p [] ms) l) (λ idle. retired ms _ l refl) q

-- A cancel signals no group, or every marker is valid and each group that it signals is that of a helper
-- whose marker it has locked and found alive.
pub cancel-signals :
    (p : Processes) (listable : Bool) (removable : Text → Bool) (files : Files) (deadline : ℕ)
    (rounds : List (Processes × ℕ)) (c : Cancel)
    → cancel_workspace_command p listable removable files deadline rounds ≡ some c
    → (c.sent ≡ [])
      ⊎ ((ms : List LockedCommandMarker) × (lock_command_markers p listable files ≡ ok ms)
          × All (IsSignallable p) ms
          × All
              (λ pid. (m : LockedCommandMarker) × In m ms × (m.live ≡ true) × (m.helper_pid ≡ pid))
              c.sent)
unfolding cancel_workspace_command cancel_markers lock_command_markers
cancel-signals p listable removable files deadline rounds c h =
    go (lock_command_markers p listable files) refl h
  where
    IsOf : List LockedCommandMarker → ℕ → Type 0
    IsOf ms pid = (m : LockedCommandMarker) × In m ms × (m.live ≡ true) × (m.helper_pid ≡ pid)

    Sent : List ℕ → Type 0
    Sent sent =
        (sent ≡ [])
        ⊎ ((ms : List LockedCommandMarker) × (lock_command_markers p listable files ≡ ok ms)
            × All (IsSignallable p) ms
            × All (IsOf ms) sent)

    waited :
        (ms : List LockedCommandMarker) (sent : List ℕ) (r : Option (Result CancelError (Unit {0})))
        → after_await removable files ms sent r ≡ some c
        → sent ≡ c.sent
    waited ms sent none q = absurd (ground (arith, q))
    waited ms sent (some (ok u)) q = ap (λ (c : Cancel). c.sent) (some-injective _ c q)
    waited ms sent (some (err e)) q = ap (λ (c : Cancel). c.sent) (some-injective _ c q)

    signalled :
        (ms : List LockedCommandMarker) (r : List ℕ × Result CancelError (Unit {0}))
        → after_signals removable files deadline rounds ms r ≡ some c
        → r.0 ≡ c.sent
    signalled ms (sent, err e) q = ap (λ (c : Cancel). c.sent) (some-injective _ c q)
    signalled ms (sent, ok u) q = waited ms sent (await_gone deadline ms rounds) q

    go :
        (r : Result CancelError (List LockedCommandMarker))
        → lock_command_markers p listable files ≡ r
        → cancel_markers p removable files deadline rounds r ≡ some c
        → Sent c.sent
    go (err e) l q = inl (sym (ap (λ (c : Cancel). c.sent) (some-injective _ c q)))
    go (ok ms) l q =
        if_elim (λ r. r ≡ some c → Sent c.sent) (any (λ (m : LockedCommandMarker). m.live) ms) _ _
          (λ lives q. inr (
            ms,
            l,
            locked-IsSignallable p listable files ms l,
            subst (All (IsOf ms)) (signalled ms (signal_each p [] ms) q)
                (signal_each-All p (IsOf ms) [] ms tt (λ m i a. (m, i, a, refl))),
          ))
          (λ idle q. inl (sym (ap (λ (c : Cancel). c.sent) (some-injective _ c q)))) q

-- A cancel returns once the clock of a round of its wait has reached the deadline.
pub cancel-returns :
    (p : Processes) (listable : Bool) (removable : Text → Bool) (files : Files) (deadline : ℕ)
    (rounds : List (Processes × ℕ))
    → any (λ (r : Processes × ℕ). leb deadline r.1) rounds ≡ true
    → (c : Cancel) × (cancel_workspace_command p listable removable files deadline rounds ≡ some c)
unfolding cancel_workspace_command cancel_markers
cancel-returns p listable removable files deadline rounds h =
    go (lock_command_markers p listable files)
  where
    Returns : Option Cancel → Type 0
    Returns r = (c : Cancel) × (r ≡ some c)

    signalled :
        (ms : List LockedCommandMarker) (r : List ℕ × Result CancelError (Unit {0}))
        → Returns (after_signals removable files deadline rounds ms r)
    signalled ms (sent, err e) = (_, refl)
    signalled ms (sent, ok u) =
        let (r, e) = await_gone-ends deadline ms rounds h in
        (after_wait removable files ms sent r, ap (after_await removable files ms sent) e)

    go :
        (r : Result CancelError (List LockedCommandMarker))
        → Returns (cancel_markers p removable files deadline rounds r)
    go (err e) = (_, refl)
    go (ok ms) =
        if_elim Returns (any (λ (m : LockedCommandMarker). m.live) ms) _ _
          (λ lives. signalled ms (signal_each p [] ms)) (λ idle. (_, refl))
