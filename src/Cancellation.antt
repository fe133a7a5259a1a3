-- ===== src/Cancellation.antt =====
-- Cancelling the commands of a workspace: src/workspace/cancel.rs. Publishing, finishing and cancelling run
-- under one lock, so each is a function on the files below the workspace's runtime directory. What the
-- kernel says of processes is a parameter; an i32 stands as the u32 of its bits.
pub mod Run
mod Locking
use enclave.Common.{
  ℕ, Bool, true, false, not, ◌&&◌, ◌||◌, List, [], ◌∷◌, ◌++◌, Option, none, some, map, ◌==◌, leb,
  if◌then◌else◌, filter, Text, codes, text_eq, text_ltb, starts_with, is_empty, is_whitespace,
  parse_unsigned, decimal_from, Result, ok, err, ok_or, refuse_if, ◌>>=◌, ◌>>◌, get_or, put, remove,
}

pub data CancelError : Type 0 where
  not_readable : CancelError
  not_written : CancelError
  not_removed : CancelError
  invalid_marker : CancelError
  changed : CancelError
  refused_pid : CancelError
  changed_identity : CancelError
  no_group : CancelError
  not_leader : CancelError
  not_signalled : CancelError
  survived : CancelError

-- What a path below the runtime directory leads to.
pub data File : Type 0 where
  missing : File
  unreadable : File
  holds : Text → File

abbrev pub Files : Type 0
Files = List (Text × File)

pub record Processes : Type 0 where
  pub starttime_ticks : ℕ → Option ℕ
  pub process_matches : ℕ → ℕ → Bool
  pub group_id : ℕ → Option ℕ
  pub group_has_members : ℕ → ℕ → Bool
  -- whether a signal to the group of a helper is sent
  pub signals : ℕ → ℕ → Bool

pub record PublishedCommandMarker : Type 0 where
  pub path : Text
  pub raw : Text

abbrev pub command_marker_path : Text → Text
command_marker_path command_id = codes "commands/" ++ command_id ++ codes ".pgid"

abbrev pub marker_line : ℕ → ℕ → Text
marker_line helper_pid starttime_ticks =
    decimal_from 10 helper_pid ++ codes " " ++ decimal_from 20 starttime_ticks ++ codes "\n"

pub publish_command_marker :
    Bool → Files → Text → ℕ → ℕ → Files × Result CancelError PublishedCommandMarker
publish_command_marker writable files command_id helper_pid starttime_ticks =
    let path = command_marker_path command_id in
    let raw = marker_line helper_pid starttime_ticks in
    if writable
    then (put files path (holds raw), ok (record { path = path; raw = raw }))
    else (files, err not_written)

abbrev pub finish_held :
    Bool → Files → PublishedCommandMarker → File → Files × Result CancelError Bool
finish_held removable files marker missing = (files, ok false)
finish_held removable files marker unreadable = (files, err not_readable)
finish_held removable files marker (holds current) =
    if not (text_eq current marker.raw)
    then (files, err changed)
    else if removable
    then (remove files marker.path, ok true)
    else (files, err not_removed)

pub finish_command_marker : Bool → Files → PublishedCommandMarker → Files × Result CancelError Bool
finish_command_marker removable files marker =
    finish_held removable files marker (get_or missing files marker.path)

pub record LockedCommandMarker : Type 0 where
  pub path : Text
  pub raw : Text
  pub helper_pid : ℕ
  pub helper_starttime_ticks : ℕ
  pub live : Bool

-- The words of a text, with what is read of the first.
abbrev words : Text → Text → List Text
words word [] = if is_empty word then [] else word ∷ []
words word (c ∷ s) = elim (is_whitespace c) [
  | true ↦ if is_empty word then words [] s else word ∷ words [] s
  | false ↦ words (word ++ c ∷ []) s
]

abbrev identity_of : List Text → Result CancelError (ℕ × ℕ)
identity_of (pid ∷ ticks ∷ []) = ok_or (parse_unsigned 32 pid) invalid_marker >>= λ pid.
    ok_or (parse_unsigned 64 ticks) invalid_marker >>= λ ticks. ok (pid, ticks)
identity_of _ = err invalid_marker

pub parse_identity : Text → Result CancelError (ℕ × ℕ)
parse_identity raw = identity_of (words [] raw)

-- `is_ok_and(|actual| actual != helper_starttime_ticks)`.
abbrev pub is_other : Option ℕ → ℕ → Bool
is_other none ticks = false
is_other (some actual) ticks = not (actual == ticks)

abbrev pub validate_leader : Option ℕ → ℕ → Result CancelError (Unit {0})
validate_leader none pid = err no_group
validate_leader (some group) pid = refuse_if (not (group == pid)) not_leader

pub validate_identity : Processes → ℕ → ℕ → Result CancelError (Unit {0})
validate_identity p pid ticks =
    refuse_if (leb pid 1) refused_pid
    >> refuse_if (is_other (p.starttime_ticks pid) ticks) changed_identity
    >> (if p.process_matches pid ticks then validate_leader (p.group_id pid) pid else ok tt)

abbrev pub marker_is_live_values : Processes → ℕ → ℕ → Bool
marker_is_live_values p pid ticks = p.process_matches pid ticks || p.group_has_members pid ticks

abbrev ends_with : Text → Text → Bool
ends_with [] suffix = text_eq [] suffix
ends_with (c ∷ s) suffix = let rest = ends_with s suffix in text_eq (c ∷ s) suffix || rest

-- A file of the markers' directory with their extension, or the marker of older releases. Every path of
-- the model is of a regular file, and none is deeper than the directory.
pub is_marker : Text → Bool
is_marker path =
    starts_with path (codes "commands/")
      && ends_with path (codes ".pgid")
      && not (text_eq path (codes "commands/.pgid"))
    || text_eq path (codes "command.pgid")

abbrev pub insert_path : Text → List Text → List Text
insert_path path [] = path ∷ []
insert_path path (q ∷ qs) = if text_ltb q path then q ∷ insert_path path qs else path ∷ q ∷ qs

abbrev pub sort_paths : List Text → List Text
sort_paths [] = []
sort_paths (path ∷ paths) = insert_path path (sort_paths paths)

abbrev pub marker_paths : Files → List Text
marker_paths files = sort_paths (filter is_marker (map (λ e. e.0) files))

pub validated : Processes → Text → Text → Result CancelError LockedCommandMarker
unfolding parse_identity validate_identity
validated p path raw = parse_identity raw >>= λ identity.
    validate_identity p identity.0 identity.1
    >> ok (record {
      path = path;
      raw = raw;
      helper_pid = identity.0;
      helper_starttime_ticks = identity.1;
      live = marker_is_live_values p identity.0 identity.1;
    })

-- The loop over the paths; a file that is gone by then is passed over.
pub lock_each : Processes → Files → List Text → Result CancelError (List LockedCommandMarker)
unfolding validated
lock_each p files [] = ok []
lock_each p files (path ∷ paths) = elim (get_or missing files path) [
  | missing ↦ lock_each p files paths
  | unreadable ↦ err not_readable
  | holds raw ↦ validated p path raw >>= λ m. lock_each p files paths >>= λ ms. ok (m ∷ ms)
]

pub lock_command_markers : Processes → Bool → Files → Result CancelError (List LockedCommandMarker)
unfolding is_marker lock_each
lock_command_markers p listable files =
    refuse_if (not listable) not_readable >> lock_each p files (marker_paths files)
