-- ===== src/Jobs.antt =====
-- The records of commands and their files: src/workspace/jobs.rs.
-- The directory is the list of the records it holds, each in the file named by its id; a file that is
-- no record is in no list. A listing reads every file or fails, by `listable`; a write replaces the file or leaves it, by `writable`. Time is in
-- nanoseconds; what is written as a time is a parameter of the operations.
pub mod Finishing
pub mod Listing
pub mod Cancelling
mod Tests
use enclave.Common.{
  ℕ, ◌+◌, Bool, true, false, not, ◌&&◌, ◌||◌, List, [], ◌∷◌, ◌++◌, Option, none, some, ltb, leb,
  ◌==◌, if◌then◌else◌, length, all, filter, ℤ, leb_int, as_i64, seconds_between, Text, codes,
  text_eq, text_ltb, join, is_ascii_alphanumeric, Result, ok, err, ok_or, refuse_if, ◌>>◌, ◌>>=◌,
}

pub data JobMode : Type 0 where
  foreground : JobMode
  background : JobMode

pub data JobStatus : Type 0 where
  running : JobStatus
  exited : JobStatus
  failed : JobStatus
  cancelled : JobStatus

pub is_terminal : JobStatus → Bool
is_terminal running = false
is_terminal exited = true
is_terminal failed = true
is_terminal cancelled = true

abbrev pub is_running : JobStatus → Bool
is_running running = true
is_running _ = false

abbrev pub is_background : JobMode → Bool
is_background background = true
is_background foreground = false

pub mode_as_str : JobMode → Text
mode_as_str foreground = codes "foreground"
mode_as_str background = codes "background"

pub status_as_str : JobStatus → Text
status_as_str running = codes "running"
status_as_str exited = codes "exited"
status_as_str failed = codes "failed"
status_as_str cancelled = codes "cancelled"

pub record JobRecord : Type 0 where
  pub id : Text
  pub sandbox_id : Text
  pub workspace_id : Text
  pub mode : JobMode
  pub command : List Text
  pub started_at : Text
  pub finished_at : Option Text
  pub pid : Option ℕ
  pub starttime_ticks : Option ℕ
  pub process_group : Option ℤ
  pub status : JobStatus
  pub exit_code : Option ℤ
  pub ttl_secs : Option ℕ
  pub keep_running : Bool
  pub error : Option Text

-- `JobRecord::new` with the fresh id and the time.
pub new_job : Text → Text → Text → Text → JobMode → List Text → JobRecord
new_job id now sandbox_id workspace_id mode command = record {
  id = id;
  sandbox_id = sandbox_id;
  workspace_id = workspace_id;
  mode = mode;
  command = command;
  started_at = now;
  finished_at = none;
  pid = none;
  starttime_ticks = none;
  process_group = none;
  status = running;
  exit_code = none;
  ttl_secs = none;
  keep_running = false;
  error = none;
}

pub command_line : JobRecord → Text
command_line job = join job.command (codes " ")

abbrev outlived : ℕ → ℕ → Option ℕ → Bool
outlived ttl at none = false
outlived ttl at (some started) = leb_int (as_i64 ttl) (seconds_between at started)

abbrev expired_after : Option ℕ → ℕ → Option ℕ → Bool
expired_after none at started = false
expired_after (some ttl) at started = ltb 0 ttl && outlived ttl at started

unfoldable pub expired : (Text → Option ℕ) → JobRecord → ℕ → Bool
expired parse_timestamp job at = expired_after job.ttl_secs at (parse_timestamp job.started_at)

pub data JobError : Type 0 where
  invalid_id : JobError
  not_readable : JobError
  not_writable : JobError

pub record JobFiles : Type 0 where
  pub files : List JobRecord
  pub writable : Text → Bool
  -- whether a listing reads the directory and every file in it
  pub listable : Bool

unfoldable pub is_job_id : Text → Bool
is_job_id [] = false
is_job_id (c ∷ s) = all (λ b. is_ascii_alphanumeric b || b == b'-' || b == b'_') (c ∷ s)

abbrev pub find_job : List JobRecord → Text → Option JobRecord
find_job [] id = none
find_job (job ∷ jobs) id = if text_eq job.id id then some job else find_job jobs id

abbrev pub store_job : List JobRecord → JobRecord → List JobRecord
store_job [] job = job ∷ []
store_job (old ∷ jobs) job = if text_eq old.id job.id then job ∷ jobs else old ∷ store_job jobs job

unfoldable pub persist : JobFiles → JobRecord → JobFiles × Result JobError (Unit {0})
unfolding is_job_id
persist w job =
    if is_job_id job.id
    then if w.writable job.id
      then (record w { files = store_job w.files job }, ok tt)
      else (w, err not_writable)
    else (w, err invalid_id)

pub load : JobFiles → Text → Result JobError JobRecord
unfolding is_job_id
load w id = refuse_if (not (is_job_id id)) invalid_id >> ok_or (find_job w.files id) not_readable

-- `sort_by` on the time of the start, which keeps the order of equal times.
abbrev insert_by_start : JobRecord → List JobRecord → List JobRecord
insert_by_start job [] = job ∷ []
insert_by_start job (other ∷ jobs) =
    if text_ltb other.started_at job.started_at
    then other ∷ insert_by_start job jobs
    else job ∷ other ∷ jobs

abbrev pub sort_by_start : List JobRecord → List JobRecord
sort_by_start [] = []
sort_by_start (job ∷ jobs) = insert_by_start job (sort_by_start jobs)

unfoldable pub list : JobFiles → Result JobError (List JobRecord)
list w = if w.listable then ok (sort_by_start w.files) else err not_readable

abbrev pub is_of : Text → Text → JobRecord → Bool
is_of sandbox_id workspace_id job =
    text_eq job.sandbox_id sandbox_id && text_eq job.workspace_id workspace_id

pub list_for_workspace : JobFiles → Text → Text → Result JobError (List JobRecord)
unfolding list
list_for_workspace w sandbox_id workspace_id =
    list w >>= λ jobs. ok (filter (is_of sandbox_id workspace_id) jobs)

-- What the end of a job records.
pub record Ending : Type 0 where
  pub status : JobStatus
  pub exit_code : Option ℤ
  pub error : Option Text
  pub now : Text

abbrev pub ended : JobRecord → Ending → JobRecord
ended job e = record job {
  status = e.status;
  exit_code = e.exit_code;
  error = e.error;
  finished_at = some e.now;
}

finish_loaded :
    JobFiles → Ending → Result JobError JobRecord → JobFiles × Result JobError (Unit {0})
unfolding persist
finish_loaded w e (err error) = (w, err error)
finish_loaded w e (ok job) = persist w (ended job e)

pub finish : JobFiles → Text → Ending → JobFiles × Result JobError (Unit {0})
unfolding load finish_loaded
finish w job_id e = finish_loaded w e (load w job_id)

abbrev pub after_persist : JobFiles × Result JobError (Unit {0}) → JobFiles × Result JobError Bool
after_persist (w, r) = (w, r >> ok true)

finish_running : JobFiles → Ending → Result JobError JobRecord → JobFiles × Result JobError Bool
unfolding persist
finish_running w e (err error) = (w, err error)
finish_running w e (ok job) =
    if is_running job.status then after_persist (persist w (ended job e)) else (w, ok false)

pub finish_if_running : JobFiles → Text → Ending → JobFiles × Result JobError Bool
unfolding load finish_running
finish_if_running w job_id e = finish_running w e (load w job_id)

abbrev pub cancelled_job : JobRecord → Text → Text → JobRecord
cancelled_job job reason now = record job {
  status = cancelled;
  finished_at = some now;
  error = some reason;
}

-- The loop over the jobs, with `changed`. The time is read at each job.
cancel_each : (Text → Text) → Text → JobFiles → ℕ → List JobRecord → JobFiles × Result JobError ℕ
unfolding persist
cancel_each now reason w changed [] = (w, ok changed)
cancel_each now reason w changed (job ∷ jobs) = elim (is_running job.status) [
  | true ↦
      let (w', r) = persist w (cancelled_job job reason (now job.id)) in
      elim r [ ok u ↦ cancel_each now reason w' (changed + 1) jobs | err e ↦ (w', err e) ]
  | false ↦ cancel_each now reason w changed jobs
]

cancel_listed :
    (Text → Text)
    → Text
    → JobFiles
    → Result JobError (List JobRecord)
    → JobFiles × Result JobError ℕ
unfolding cancel_each
cancel_listed now reason w (err e) = (w, err e)
cancel_listed now reason w (ok jobs) = cancel_each now reason w 0 jobs

pub cancel_running_for_workspace :
    (Text → Text) → JobFiles → Text → Text → Text → JobFiles × Result JobError ℕ
unfolding list_for_workspace cancel_listed
cancel_running_for_workspace now w sandbox_id workspace_id reason =
    cancel_listed now reason w (list_for_workspace w sandbox_id workspace_id)

abbrev pub take : ℕ → Text → Text
take ℕ.zero s = []
take (ℕ.suc n) [] = []
take (ℕ.suc n) (c ∷ s) = c ∷ take n s

pub describe_command : List Text → Text
describe_command command =
    let rendered = join command (codes " ") in
    if leb (length rendered) 160 then rendered else take 160 rendered ++ codes "..."
