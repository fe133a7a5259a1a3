-- ===== src/Cancellation/Run/Tests.antt =====
-- A command that runs, is cancelled and ends.
use enclave.Common.{◌≡◌, refl, ◌⊎◌, true, false, List, [], ◌∷◌, some, ◌==◌, All, In, codes, ok, err}
use enclave.Cancellation.{
  invalid_marker, Files, holds, Processes, PublishedCommandMarker, publish_command_marker,
  finish_command_marker, LockedCommandMarker, is_marker, parse_identity, validate_identity,
  validated, lock_each, lock_command_markers,
}
use enclave.Cancellation.Run.{
  signal_each, retire, Cancel, outcome, cancel_markers, cancel_workspace_command,
}
use enclave.Cancellation.Locking.{IsSignallable}
use enclave.Cancellation.Run.Outcomes.{cancel-retires, cancel-signals, cancel-returns}

-- The helper 42 lives, and is gone after its signal.
abbrev running : Processes
running = record {
  starttime_ticks = λ pid. some 7;
  process_matches = λ pid ticks. pid == 42;
  group_id = λ pid. some pid;
  group_has_members = λ pid ticks. false;
  signals = λ pid ticks. true;
}

abbrev gone : Processes
gone = record running { process_matches = λ pid ticks. false }

abbrev marker : PublishedCommandMarker
marker = record { path = codes "commands/a.pgid"; raw = codes "42 7\n" }

abbrev files : Files
files = (codes "commands/a.pgid", holds (codes "42 7\n")) ∷ []

published : publish_command_marker true [] (codes "a") 42 7 ≡ (files, ok marker)
unfolding publish_command_marker
published = refl

abbrev cancelled : Cancel
cancelled = record { files = []; sent = 42 ∷ []; answer = ok (outcome true) }

cancels :
    cancel_workspace_command running true (λ path. true) files 10 ((running, 3) ∷ (gone, 4) ∷ [])
    ≡ some cancelled
unfolding cancel_workspace_command cancel_markers lock_command_markers lock_each validated
    parse_identity validate_identity is_marker signal_each retire
cancels = refl

malformed_signals_none :
    (parse_identity (codes "42") ≡ err invalid_marker)
    × (parse_identity (codes "42 7 9") ≡ err invalid_marker)
    × (parse_identity (codes " 42\t7 ") ≡ ok (42, 7))
unfolding parse_identity
malformed_signals_none = (refl, refl, refl)

cancel-retires_example :
    finish_command_marker true cancelled.files marker ≡ (cancelled.files, ok false)
unfolding is_marker
cancel-retires_example =
    cancel-retires running true (λ path. true) files 10 ((running, 3) ∷ (gone, 4) ∷ []) cancelled
      (outcome true) true marker (λ path. refl) cancels refl refl

cancel-signals_example :
    (cancelled.sent ≡ [])
    ⊎ ((ms : List LockedCommandMarker) × (lock_command_markers running true files ≡ ok ms)
        × All (IsSignallable running) ms
        × All
            (λ pid. (m : LockedCommandMarker) × In m ms × (m.live ≡ true) × (m.helper_pid ≡ pid))
            cancelled.sent)
cancel-signals_example =
    cancel-signals running true (λ path. true) files 10 ((running, 3) ∷ (gone, 4) ∷ []) cancelled
      cancels

cancel-returns_example :
    (c : Cancel) × (cancel_workspace_command running true
        (λ path. true)
        files
        10
        ((running, 12) ∷ [])
      ≡ some c)
cancel-returns_example =
    cancel-returns running true (λ path. true) files 10 ((running, 12) ∷ []) refl
