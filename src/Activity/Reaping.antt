-- ===== src/Activity/Reaping.antt =====
-- The jobs whose time is over or whose processes are gone: `reap_expired_jobs`, `reconcile_jobs` and
-- `reconcile_workspace_jobs` of src/workspace/activity_service.rs. The time is read at each job.
pub mod Expiry
use enclave.Activity.{Processes, job_alive, terminate_job, ActivityService, update_job}
use enclave.Jobs.{
  JobStatus, failed, cancelled, is_background, is_running, JobRecord, expired, JobError, JobFiles,
  persist, list, list_for_workspace,
}
use enclave.Common.{
  ℕ, ◌+◌, Bool, true, false, not, ◌&&◌, List, [], ◌∷◌, Option, none, some, if◌then◌else◌, filter,
  Text, codes, Result, ok, err,
}

abbrev pub marked : JobRecord → JobStatus → Text → Text → JobRecord
marked job status error now = record job {
  status = status;
  finished_at = some now;
  error = some error;
}

-- What becomes of an expired job: still alive or not, and gone after the signals or not.
abbrev pub reaped : JobRecord → Text → Bool → Bool → JobRecord
reaped job now false exited =
    marked job failed (codes "background job exited before its TTL expired") now
reaped job now true true = marked job cancelled (codes "background job TTL expired") now
reaped job now true false =
    marked job failed (codes "background job TTL expired but its process group survived SIGKILL")
      now

abbrev pub noted : Bool → JobRecord → List (Text × Text) → List (Text × Text)
noted gone job rest = if gone then (job.workspace_id, job.id) ∷ rest else rest

abbrev pub noting :
    Bool
    → JobRecord
    → JobFiles × ActivityService × Result JobError (List (Text × Text))
    → JobFiles × ActivityService × Result JobError (List (Text × Text))
noting gone job (w, a, ok rest) = (w, a, ok (noted gone job rest))
noting gone job (w, a, err e) = (w, a, err e)

-- The jobs that a reap looks at: the background jobs that run and whose time is over.
abbrev pub overdue : (Text → Option ℕ) → ℕ → List JobRecord → List JobRecord
overdue parse_timestamp at jobs =
    filter (λ job. expired parse_timestamp job at)
      (filter (λ job. is_running job.status && is_background job.mode) jobs)

module _ (p : Processes) (now : Text → Text) where
  -- The loop over the expired jobs; the pairs are those that were cancelled.
  unfoldable pub reap_each :
      JobFiles
      → ActivityService
      → List JobRecord
      → JobFiles × ActivityService × Result JobError (List (Text × Text))
  unfolding job_alive terminate_job update_job
  reap_each w a [] = (w, a, ok [])
  reap_each w a (job ∷ jobs) =
      let alive = job_alive p job in
      let exited = terminate_job p job in
      let job' = reaped job (now job.id) alive exited in
      let (w', r) = persist w job' in
      elim r [
        | ok u ↦ noting (alive && exited) job (reap_each w' (update_job a job') jobs)
        | err e ↦ (w', a, err e)
      ]

  unfoldable pub reap_listed :
      (Text → Option ℕ)
      → JobFiles
      → ActivityService
      → ℕ
      → Result JobError (List JobRecord)
      → JobFiles × ActivityService × Result JobError (List (Text × Text))
  unfolding reap_each
  reap_listed parse_timestamp w a at (err e) = (w, a, err e)
  reap_listed parse_timestamp w a at (ok jobs) = reap_each w a (overdue parse_timestamp at jobs)

  unfoldable pub reap_expired_jobs :
      (Text → Option ℕ)
      → JobFiles
      → ActivityService
      → ℕ
      → JobFiles × ActivityService × Result JobError (List (Text × Text))
  unfolding reap_listed
  reap_expired_jobs parse_timestamp w a at = reap_listed parse_timestamp w a at (list w)

  -- The loop of `reconcile_jobs`.
  pub reconcile_each : JobFiles → ℕ → List JobRecord → JobFiles × Result JobError ℕ
  unfolding job_alive
  reconcile_each w changed [] = (w, ok changed)
  reconcile_each w changed (job ∷ jobs) = elim (is_running job.status && not (job_alive p job)) [
    | true ↦
        let (w', r) = persist w (
          marked job failed (codes "the daemon restarted while this job was running")
            (now job.id)) in
        elim r [ ok u ↦ reconcile_each w' (changed + 1) jobs | err e ↦ (w', err e) ]
    | false ↦ reconcile_each w changed jobs
  ]

  pub reconcile_jobs : JobFiles → JobFiles × Result JobError ℕ
  unfolding reconcile_each
  reconcile_jobs w = reconcile_listed (list w)
    where
      reconcile_listed : Result JobError (List JobRecord) → JobFiles × Result JobError ℕ
      reconcile_listed (err e) = (w, err e)
      reconcile_listed (ok jobs) = reconcile_each w 0 jobs

  -- The loop of `reconcile_workspace_jobs`.
  reconcile_workspace_each :
      JobFiles
      → ActivityService
      → ℕ
      → List JobRecord
      → JobFiles × ActivityService × Result JobError ℕ
  unfolding job_alive update_job
  reconcile_workspace_each w a changed [] = (w, a, ok changed)
  reconcile_workspace_each w a changed (job ∷ jobs) = elim (is_running job.status) [
    | false ↦ reconcile_workspace_each w a changed jobs
    | true ↦ elim (job_alive p job) [
      | true ↦ reconcile_workspace_each w (update_job a job) changed jobs
      | false ↦
          let job' =
            marked job failed (codes "job process exited before its supervisor observed it")
              (now job.id) in
          let (w', r) = persist w job' in
          elim r [
            | ok u ↦ reconcile_workspace_each w' (update_job a job') (changed + 1) jobs
            | err e ↦ (w', a, err e)
          ]
    ]
  ]

  pub reconcile_workspace_jobs :
      JobFiles → ActivityService → Text → Text → JobFiles × ActivityService × Result JobError ℕ
  unfolding reconcile_workspace_each
  reconcile_workspace_jobs w a sandbox_id workspace_id =
      reconcile_listed (list_for_workspace w sandbox_id workspace_id)
    where
      reconcile_listed :
          Result JobError (List JobRecord) → JobFiles × ActivityService × Result JobError ℕ
      reconcile_listed (err e) = (w, a, err e)
      reconcile_listed (ok jobs) = reconcile_workspace_each w a 0 jobs
