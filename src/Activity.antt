-- ===== src/Activity.antt =====
-- What is active in a workspace: src/workspace/activity_service.rs, and the commands' leases and
-- jobs that the daemon holds. A map by text is a function or the list of its values in the order of
-- their keys. Process identities are read from a `Processes`, which stays as it is during a call.
pub mod CommandLeases
pub mod Reaping
pub mod Idle
mod Tests
use enclave.Jobs.{
  JobMode, foreground, background, is_background, JobStatus, failed, cancelled, is_running,
  JobRecord, expired, JobError, JobFiles, find_job, persist, list, is_of, list_for_workspace,
  Ending, ended, finish_if_running,
}
use enclave.Common.{
  ℕ, ◌+◌, ◌-◌, ◌^◌, min, Bool, true, false, not, ◌&&◌, ◌||◌, List, [], ◌∷◌, ◌++◌, Option, none,
  some, ltb, ◌==◌, if◌then◌else◌, any, filter, length, map, ℤ, pos, Text, codes, text_eq, text_ltb,
  Result, ok, err,
}

-- What the process table says of a pid or a group with its start time.
pub record Processes : Type 0 where
  pub process_matches : ℕ → ℕ → Bool
  pub group_alive : ℤ → ℕ → Bool
  pub group_has_members : ℤ → ℕ → Bool
  -- whether the processes of a job are gone after the signals and the grace periods
  pub terminated : JobRecord → Bool

abbrev group_lives : Processes → Option ℤ → ℕ → Bool
group_lives p none ticks = false
group_lives p (some pgid) ticks = p.group_alive pgid ticks || p.group_has_members pgid ticks

abbrev identity_lives : Processes → Option ℤ → Option ℕ → Option ℕ → Bool
identity_lives p group none ticks = false
identity_lives p group (some pid) none = false
identity_lives p group (some pid) (some ticks) =
    p.process_matches pid ticks || group_lives p group ticks

pub job_alive : Processes → JobRecord → Bool
job_alive p job = identity_lives p job.process_group job.pid job.starttime_ticks

pub terminate_job : Processes → JobRecord → Bool
unfolding job_alive
terminate_job p job = if not (job_alive p job) then true else p.terminated job

pub record ExternalLease : Type 0 where
  pub sandbox_id : Text
  pub workspace_id : Text
  pub owner_pid : ℕ
  pub owner_starttime_ticks : ℕ

pub record ActivityService : Type 0 where
  pub leases : Text → Option ℕ
  pub external : List (Text × ExternalLease)
  pub jobs : List JobRecord

pub new_service : ActivityService
new_service = record { leases = λ key. none; external = []; jobs = [] }

pub workspace_key : Text → Text → Text
workspace_key sandbox_id workspace_id = sandbox_id ++ codes "/" ++ workspace_id

abbrev pub or_zero : Option ℕ → ℕ
or_zero none = 0
or_zero (some n) = n

abbrev pub with_key : (Text → Option ℕ) → Text → Option ℕ → Text → Option ℕ
with_key leases key v k = if text_eq k key then v else leases k

-- The key that the lease holds.
pub acquire : ActivityService → Text → Text → ActivityService × Text
unfolding workspace_key
acquire a sandbox_id workspace_id =
    let key = workspace_key sandbox_id workspace_id in
    (record a { leases = with_key a.leases key (some (or_zero (a.leases key) + 1)) }, key)

abbrev one_less : Option ℕ → Option ℕ
one_less none = none
one_less (some count) = if count - 1 == 0 then none else some (count - 1)

-- The drop of a `CommandLease`.
pub release : ActivityService → Text → ActivityService
release a key = record a { leases = with_key a.leases key (one_less (a.leases key)) }

abbrev pub insert_external :
    Text → ExternalLease → List (Text × ExternalLease) → List (Text × ExternalLease)
insert_external token lease [] = (token, lease) ∷ []
insert_external token lease ((t, l) ∷ rest) =
    if text_eq t token
    then (token, lease) ∷ rest
    else if text_ltb token t
    then (token, lease) ∷ (t, l) ∷ rest
    else (t, l) ∷ insert_external token lease rest

-- `token` is fresh.
pub begin_external : ActivityService → Text → Text → Text → ℕ → ℕ → ActivityService
begin_external a token sandbox_id workspace_id owner_pid owner_starttime_ticks = record a {
  external =
      insert_external token
        (record {
          sandbox_id = sandbox_id;
          workspace_id = workspace_id;
          owner_pid = owner_pid;
          owner_starttime_ticks = owner_starttime_ticks;
        })
        a.external;
}

pub end_external : ActivityService → Text → ActivityService × Bool
end_external a token = (
  record a { external = filter (λ e. not (text_eq e.0 token)) a.external },
  any (λ e. text_eq e.0 token) a.external,
)

abbrev pub owner_lives : Processes → Text × ExternalLease → Bool
owner_lives p (token, lease) = p.process_matches lease.owner_pid lease.owner_starttime_ticks

abbrev pub lease_is_of : Text → Text → Text × ExternalLease → Bool
lease_is_of sandbox_id workspace_id (token, lease) =
    text_eq lease.sandbox_id sandbox_id && text_eq lease.workspace_id workspace_id

-- `saturating_add` is on a 64-bit usize.
pub active_commands : Processes → ActivityService → Text → Text → ActivityService × ℕ
unfolding workspace_key
active_commands p a sandbox_id workspace_id =
    let live = or_zero (a.leases (workspace_key sandbox_id workspace_id)) in
    let external = filter (owner_lives p) a.external in
    (
      record a { external = external },
      min (live + length (filter (lease_is_of sandbox_id workspace_id) external)) (2 ^ 64 - 1),
    )

pub jobs_for_workspace : ActivityService → Text → Text → List JobRecord
jobs_for_workspace a sandbox_id workspace_id = filter (is_of sandbox_id workspace_id) a.jobs

pub has_active_foreground_job : Processes → ActivityService → Text → Text → Bool
unfolding jobs_for_workspace job_alive
has_active_foreground_job p a sandbox_id workspace_id =
    any (λ job. not (is_background job.mode) && is_running job.status && job_alive p job)
      (jobs_for_workspace a sandbox_id workspace_id)

pub keeps_workspace_running : ActivityService → Text → Text → Bool
unfolding jobs_for_workspace
keeps_workspace_running a sandbox_id workspace_id =
    any (λ job. is_background job.mode && job.keep_running && is_running job.status)
      (jobs_for_workspace a sandbox_id workspace_id)

pub prune_terminal_jobs : ActivityService → Text → Text → ActivityService
prune_terminal_jobs a sandbox_id workspace_id = record a {
  jobs = filter (λ job. not (is_of sandbox_id workspace_id job) || is_running job.status) a.jobs;
}

abbrev pub insert_job : JobRecord → List JobRecord → List JobRecord
insert_job job [] = job ∷ []
insert_job job (old ∷ jobs) =
    if text_eq old.id job.id
    then job ∷ jobs
    else if text_ltb job.id old.id
    then job ∷ old ∷ jobs
    else old ∷ insert_job job jobs

pub update_job : ActivityService → JobRecord → ActivityService
update_job a job = record a { jobs = insert_job job a.jobs }

pub register_job : ActivityService → JobRecord → ActivityService
register_job a job = record a { jobs = insert_job job a.jobs }

abbrev collect_live : Processes → List JobRecord → List JobRecord → List JobRecord
collect_live p live [] = live
collect_live p live (job ∷ jobs) =
    collect_live p (if is_running job.status && job_alive p job then insert_job job live else live)
      jobs

pub load_live_jobs :
    Processes → JobFiles → ActivityService → ActivityService × Result JobError (Unit {0})
unfolding job_alive
load_live_jobs p w a = load_listed (list w)
  where
    load_listed : Result JobError (List JobRecord) → ActivityService × Result JobError (Unit {0})
    load_listed (err e) = (a, err e)
    load_listed (ok jobs) = (record a { jobs = collect_live p [] jobs }, ok tt)

abbrev update_live : Processes → ActivityService → List JobRecord → ActivityService
update_live p a [] = a
update_live p a (job ∷ jobs) =
    update_live p (if is_running job.status && job_alive p job then update_job a job else a) jobs

pub refresh_jobs_for_workspace :
    Processes
    → JobFiles
    → ActivityService
    → Text
    → Text
    → ActivityService × Result JobError (Unit {0})
unfolding job_alive update_job
refresh_jobs_for_workspace p w a sandbox_id workspace_id =
    refresh_listed (list_for_workspace w sandbox_id workspace_id)
  where
    refresh_listed : Result JobError (List JobRecord) → ActivityService × Result JobError (Unit {0})
    refresh_listed (err e) = (a, err e)
    refresh_listed (ok jobs) = (update_live p a jobs, ok tt)

abbrev pub end_in_map : Text → Ending → List JobRecord → List JobRecord
end_in_map job_id e = map (λ job. if text_eq job.id job_id then ended job e else job)

abbrev pub after_finish :
    ActivityService
    → Text
    → Ending
    → JobFiles × Result JobError Bool
    → JobFiles × ActivityService × Result JobError Bool
after_finish a job_id e (w, ok true) = (w, record a { jobs = end_in_map job_id e a.jobs }, ok true)
after_finish a job_id e (w, ok false) = (w, a, ok false)
after_finish a job_id e (w, err error) = (w, a, err error)

pub finish_job :
    JobFiles → ActivityService → Text → Ending → JobFiles × ActivityService × Result JobError Bool
finish_job w a job_id e = after_finish a job_id e (finish_if_running w job_id e)

pub job : ActivityService → Text → Option JobRecord
job a job_id = find_job a.jobs job_id
