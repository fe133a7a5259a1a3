-- ===== src/Cancellation/Run.antt =====
-- The request that cancels the commands of a workspace: `cancel_locked` of src/workspace/cancel.rs.
mod Retiring
pub mod Outcomes
mod Tests
use enclave.Common.{
  ℕ, Bool, true, false, not, ◌&&◌, List, [], ◌∷◌, ◌++◌, Option, none, some, leb, if◌then◌else◌, any,
  Text, text_eq, Result, ok, err, get_or, remove,
}
use enclave.Cancellation.{
  CancelError, File, Files, Processes, LockedCommandMarker, marker_is_live_values,
  lock_command_markers, not_signalled, survived, missing, holds,
}

-- The helpers whose groups are signalled, and how it ends.
pub signal_each :
    Processes → List ℕ → List LockedCommandMarker → List ℕ × Result CancelError (Unit {0})
signal_each p sent [] = (sent, ok tt)
signal_each p sent (m ∷ ms) = elim m.live [
  | false ↦ signal_each p sent ms
  | true ↦ elim (p.signals m.helper_pid m.helper_starttime_ticks) [
    | true ↦ signal_each p (sent ++ m.helper_pid ∷ []) ms
    | false ↦ (sent, err not_signalled)
  ]
]

abbrev pub any_live : Processes → List LockedCommandMarker → Bool
any_live p = any (λ (m : LockedCommandMarker).
    m.live && marker_is_live_values p m.helper_pid m.helper_starttime_ticks)

-- The wait for the groups to disappear; a round is what the kernel says and the clock after it.
abbrev pub await_gone :
    ℕ → List LockedCommandMarker → List (Processes × ℕ) → Option (Result CancelError (Unit {0}))
await_gone deadline ms [] = none
await_gone deadline ms ((p, now) ∷ rounds) =
    let rest = await_gone deadline ms rounds in
    if any_live p ms then if leb deadline now then some (err survived) else rest else some (ok tt)

pub record CancelOutcome : Type 0 where
  pub cancelled : Bool
  pub already_finished : Bool

abbrev pub remove_if_same : Bool → Files → Text → Text → File → Files
remove_if_same removable files path expected (holds current) =
    if text_eq current expected && removable then remove files path else files
remove_if_same removable files path expected _ = files

abbrev pub remove_marker_if_unchanged : (Text → Bool) → Files → Text → Text → Files
remove_marker_if_unchanged removable files path expected =
    remove_if_same (removable path) files path expected (get_or missing files path)

pub retire : (Text → Bool) → Files → List LockedCommandMarker → Files
retire removable files [] = files
retire removable files (m ∷ ms) =
    retire removable (remove_marker_if_unchanged removable files m.path m.raw) ms

-- What a cancel leaves: the files, the helpers whose groups it signalled, and its answer.
pub record Cancel : Type 0 where
  pub files : Files
  pub sent : List ℕ
  pub answer : Result CancelError CancelOutcome

abbrev pub outcome : Bool → CancelOutcome
outcome cancelled = record { cancelled = cancelled; already_finished = not cancelled }

abbrev pub after_wait :
    (Text → Bool)
    → Files
    → List LockedCommandMarker
    → List ℕ
    → Result CancelError (Unit {0})
    → Cancel
unfolding retire
after_wait removable files ms sent (err e) = record { files = files; sent = sent; answer = err e }
after_wait removable files ms sent (ok _) = record {
  files = retire removable files ms;
  sent = sent;
  answer = ok (outcome true);
}

abbrev pub after_await :
    (Text → Bool)
    → Files
    → List LockedCommandMarker
    → List ℕ
    → Option (Result CancelError (Unit {0}))
    → Option Cancel
after_await removable files ms sent none = none
after_await removable files ms sent (some r) = some (after_wait removable files ms sent r)

abbrev pub after_signals :
    (Text → Bool)
    → Files
    → ℕ
    → List (Processes × ℕ)
    → List LockedCommandMarker
    → List ℕ × Result CancelError (Unit {0})
    → Option Cancel
after_signals removable files deadline rounds ms (sent, err e) =
    some (record { files = files; sent = sent; answer = err e })
after_signals removable files deadline rounds ms (sent, ok _) =
    after_await removable files ms sent (await_gone deadline ms rounds)

-- With the markers locked. No marker at all is the case of none that lives, which retires nothing.
abbrev pub cancel_markers :
    Processes
    → (Text → Bool)
    → Files
    → ℕ
    → List (Processes × ℕ)
    → Result CancelError (List LockedCommandMarker)
    → Option Cancel
unfolding signal_each retire
cancel_markers p removable files deadline rounds (err e) =
    some (record { files = files; sent = []; answer = err e })
cancel_markers p removable files deadline rounds (ok ms) =
    if any (λ (m : LockedCommandMarker). m.live) ms
    then after_signals removable files deadline rounds ms (signal_each p [] ms)
    else some (record { files = retire removable files ms; sent = []; answer = ok (outcome false) })

pub cancel_workspace_command :
    Processes → Bool → (Text → Bool) → Files → ℕ → List (Processes × ℕ) → Option Cancel
unfolding lock_command_markers
cancel_workspace_command p listable removable files deadline rounds =
    cancel_markers p removable files deadline rounds (lock_command_markers p listable files)
