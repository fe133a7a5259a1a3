-- ===== src/Activity/Tests.antt =====
-- Runs of src/workspace/activity_service.rs and src/workspace/activity.rs.
use enclave.Activity.{
  Processes, job_alive, terminate_job, new_service, workspace_key, acquire, release,
  active_commands, keeps_workspace_running, has_active_foreground_job, jobs_for_workspace,
  update_job, register_job, begin_external, end_external, owner_lives, lease_is_of,
}
use enclave.Activity.Reaping.{overdue, reap_expired_jobs, reap_listed, reap_each}
use enclave.Activity.Reaping.Expiry.{named, is_overdue, reap_expired_jobs-leaves_none}
use enclave.Activity.CommandLeases.{
  Event, begins, returns, begins_outside, ends_outside, registers, updates, step, history,
  no_requests, on_key,
}
use enclave.Activity.Idle.{
  WorkspaceMetadata, Sandbox, running, runs, all_workspaces, idle_candidates, idle_each, is_idle,
  idle_for_secs, last_activity, idle_threshold,
}
use enclave.Activity.Idle.Safety.{idle_candidates-quiet}
use enclave.Jobs.{
  JobError, not_readable, exited, is_of, background, JobStatus, cancelled, is_background, JobRecord,
  JobFiles, expired, find_job, list, is_job_id, persist,
}
use enclave.Jobs.Cancelling.{IsStorable}
use enclave.Common.{
  ℕ, true, false, not, ◌&&◌, any, List, [], ◌∷◌, Option, some, none, filter, map, All, In, Text,
  codes, ok, err, ◌⊎◌, ◌≡◌, refl, inl,
}

abbrev processes : Processes
processes = record {
  process_matches = λ pid ticks. true;
  group_alive = λ pgid ticks. false;
  group_has_members = λ pgid ticks. false;
  terminated = λ job. true;
}

abbrev clock : Text → Option ℕ
clock t = some 0

abbrev shell : WorkspaceMetadata
shell = record {
  id = codes "w";
  sandbox_id = codes "s";
  last_request_at = some (codes "t");
  last_process_activity_at = none;
  last_stopped_at = none;
  status = running;
  keep_running = false;
  idle_stop_after_secs = some 10;
  destroy_after_secs = none;
}

abbrev registry : List Sandbox
registry = record { id = codes "s"; workspaces = shell ∷ [] } ∷ []

abbrev sleeper : JobRecord
sleeper = record {
  id = codes "j";
  sandbox_id = codes "s";
  workspace_id = codes "w";
  mode = background;
  command = [];
  started_at = codes "t";
  finished_at = none;
  pid = some 9;
  starttime_ticks = some 5;
  process_group = none;
  status = JobStatus.running;
  exit_code = none;
  ttl_secs = some 60;
  keep_running = false;
  error = none;
}

abbrev disk : JobFiles
disk = record { files = sleeper ∷ []; writable = λ id. true; listable = true }

abbrev busy : List Event
busy = begins (codes "s") (codes "w") ∷ begins (codes "s") (codes "v") ∷ []

-- A job that keeps its workspace running, and its end.
abbrev server : JobRecord
server = record sleeper { keep_running = true }

abbrev serving : List Event
serving = registers server ∷ []

abbrev quiet : List Event
quiet =
    begins (codes "s") (codes "w")
    ∷ begins (codes "s") (codes "v")
    ∷ begins_outside (codes "x") (codes "s") (codes "w") 7 1
    ∷ registers server
    ∷ returns 1
    ∷ updates (record server { status = exited })
    ∷ ends_outside (codes "x")
    ∷ []

not_while_busy :
    (idle_candidates clock processes registry
      (history no_requests busy).service
      none
      10_000_000_000).1
    ≡ []
unfolding idle_candidates idle_each idle_threshold history step no_requests new_service acquire
    workspace_key active_commands keeps_workspace_running has_active_foreground_job
    jobs_for_workspace is_idle idle_for_secs last_activity
not_while_busy = refl

not_while_serving :
    (idle_candidates clock processes registry
      (history no_requests serving).service
      none
      10_000_000_000).1
    ≡ []
unfolding idle_candidates idle_each idle_threshold history step no_requests new_service register_job
    workspace_key active_commands keeps_workspace_running has_active_foreground_job
    jobs_for_workspace is_idle idle_for_secs last_activity
not_while_serving = refl

when_quiet :
    (idle_candidates clock processes registry
      (history no_requests quiet).service
      none
      10_000_000_000).1
    ≡ shell ∷ []
unfolding idle_candidates idle_each idle_threshold history step no_requests new_service acquire
    release begin_external end_external register_job update_job workspace_key active_commands
    keeps_workspace_running has_active_foreground_job jobs_for_workspace is_idle idle_for_secs
    last_activity
when_quiet = refl

listed :
    In shell
      (idle_candidates clock processes registry
        (history no_requests quiet).service
        none
        10_000_000_000).1
listed = rw when_quiet (inl refl)

idle_candidates-quiet_example :
    In shell (all_workspaces registry)
    × (runs running ≡ true)
    × (false ≡ false)
    × (on_key (workspace_key (codes "s") (codes "w")) (history no_requests quiet).held ≡ 0)
    × (any
          (λ e. owner_lives processes e && lease_is_of (codes "s") (codes "w") e)
          (history no_requests quiet).outside
        ≡ false)
    × (any
          (λ j. is_of (codes "s") (codes "w") j && is_background j.mode && j.keep_running)
          (history no_requests quiet).working
        ≡ false)
    × (any
          (λ j.
            is_of (codes "s") (codes "w") j && not (is_background j.mode) && job_alive processes j)
          (history no_requests quiet).working
        ≡ false)
idle_candidates-quiet_example =
    idle_candidates-quiet clock processes registry quiet none 10_000_000_000 shell listed

disk-IsStorable : All (IsStorable disk) disk.files
unfolding is_job_id
disk-IsStorable = ((refl, refl), tt)

abbrev stamp : Text → Text
stamp id = codes "u"

abbrev over : JobRecord
over = record sleeper {
  status = cancelled;
  finished_at = some (codes "u");
  error = some (codes "background job TTL expired");
}

-- The sleeper's time is over: its record is cancelled.
cancels_sleeper :
    find_job
      (reap_expired_jobs processes stamp clock disk new_service 60_000_000_000).0.files
      (codes "j")
    ≡ some over
unfolding reap_expired_jobs reap_listed reap_each job_alive terminate_job new_service update_job
    list expired persist is_job_id
cancels_sleeper = refl

reap_needs_listing :
    reap_expired_jobs processes stamp clock
      (record disk { listable = false })
      new_service
      60_000_000_000
    ≡ (record disk { listable = false }, new_service, err not_readable)
unfolding reap_expired_jobs reap_listed list new_service
reap_needs_listing = refl

reap_expired_jobs-leaves_none_example :
    ((e : JobError) × (list disk ≡ err e)
      × (reap_expired_jobs processes stamp clock disk new_service 60_000_000_000
          ≡ (disk, new_service, err e)))
    ⊎ ((jobs : List JobRecord) × (list disk ≡ ok jobs)
        × ((reap_expired_jobs processes stamp clock disk new_service 60_000_000_000).2
            ≡ ok (
                map named (
                  filter
                    (λ j. job_alive processes j && terminate_job processes j)
                    (overdue clock 60_000_000_000 jobs))))
        × (is_overdue clock 60_000_000_000 (
              find_job
                (reap_expired_jobs processes stamp clock disk new_service 60_000_000_000).0.files
                (codes "j"))
            ≡ false))
reap_expired_jobs-leaves_none_example =
    reap_expired_jobs-leaves_none processes stamp clock disk new_service 60_000_000_000 (codes "j")
      disk-IsStorable
