-- ===== src/Activity/CommandLeases.antt =====
-- What the service is told over the time of a daemon, and the leases that count its requests:
-- src/workspace/activity_service.rs. Beside the service stands what is expected of it.
pub mod Holdings
use enclave.Activity.{
  Processes, ExternalLease, ActivityService, new_service, workspace_key, or_zero, acquire, release,
  begin_external, end_external, owner_lives, active_commands, prune_terminal_jobs, update_job,
  register_job, after_finish, finish_job,
}
use enclave.Jobs.{is_running, JobRecord, JobError, JobFiles, Ending, finish_if_running}
use enclave.Common.{
  ℕ, Bool, true, false, not, List, [], ◌∷◌, Option, none, some, if◌then◌else◌, filter, get_elem?,
  remove_at, total, total-remove_at, Text, text_eq, text_eq_iff, ◌≡◌, ◌≢◌, refl, sym, subst, inl,
  inr, Option-cases, Result, ok, err, arith,
}

-- The service; the keys of the `CommandLease`s that are not dropped; the external leases that were
-- begun and not ended, less those whose owner a count has found gone; and the jobs that run by what the
-- service was told last.
pub record Requests : Type 0 where
  pub service : ActivityService
  pub held : List Text
  pub outside : List (Text × ExternalLease)
  pub working : List JobRecord

pub data Event : Type 0 where
  -- a request for a workspace of a sandbox begins
  begins : Text → Text → Event
  -- the request whose lease is at this place returns
  returns : ℕ → Event
  -- a process takes a lease under a token, and gives it back
  begins_outside : Text → Text → Text → ℕ → ℕ → Event
  ends_outside : Text → Event
  -- the commands of a workspace are counted
  counts : Processes → Text → Text → Event
  -- a job is registered, updated, or ends; and the ended jobs of a workspace are pruned
  registers : JobRecord → Event
  updates : JobRecord → Event
  finishes : JobFiles → Text → Ending → Event
  prunes : Text → Text → Event

abbrev pub without_token : Text → List (Text × ExternalLease) → List (Text × ExternalLease)
without_token token = filter (λ e. not (text_eq e.0 token))

abbrev pub without_job : Text → List JobRecord → List JobRecord
without_job id = filter (λ j. not (text_eq j.id id))

abbrev pub with_job : JobRecord → List JobRecord → List JobRecord
with_job job jobs =
    if is_running job.status then job ∷ without_job job.id jobs else without_job job.id jobs

-- A job that the call has ended runs no more.
abbrev pub after_end : Text → Result JobError Bool → List JobRecord → List JobRecord
after_end id (ok true) jobs = without_job id jobs
after_end id _ jobs = jobs

unfoldable pub step : Requests → Event → Requests
step r (begins sandbox_id workspace_id) =
    let (service, key) = acquire r.service sandbox_id workspace_id in
    record r { service = service; held = key ∷ r.held }
step r (returns i) = elim (get_elem? r.held i) [
  | none ↦ r
  | some key ↦ record r { service = release r.service key; held = remove_at r.held i }
]
step r (begins_outside token sandbox_id workspace_id pid ticks) = record r {
  service = begin_external r.service token sandbox_id workspace_id pid ticks;
  outside =
      (
        token,
        record {
          sandbox_id = sandbox_id;
          workspace_id = workspace_id;
          owner_pid = pid;
          owner_starttime_ticks = ticks;
        },
      )
      ∷ without_token token r.outside;
}
step r (ends_outside token) = record r {
  service = (end_external r.service token).0;
  outside = without_token token r.outside;
}
step r (counts p sandbox_id workspace_id) = record r {
  service = (active_commands p r.service sandbox_id workspace_id).0;
  outside = filter (owner_lives p) r.outside;
}
step r (registers job) = record r {
  service = register_job r.service job;
  working = with_job job r.working;
}
step r (updates job) = record r {
  service = update_job r.service job;
  working = with_job job r.working;
}
step r (finishes w id e) =
    let (w', service, answer) = finish_job w r.service id e in
    record r { service = service; working = after_end id answer r.working }
step r (prunes sandbox_id workspace_id) = record r {
  service = prune_terminal_jobs r.service sandbox_id workspace_id;
}

unfoldable pub history : Requests → List Event → Requests
unfolding step
history r [] = r
history r (e ∷ es) = history (step r e) es

unfoldable pub no_requests : Requests
no_requests = record { service = new_service; held = []; outside = []; working = [] }

abbrev pub one_for : Text → Text → ℕ
one_for key k = if text_eq k key then 1 else 0

-- How many of the leases are on a key.
abbrev pub on_key : Text → List Text → ℕ
on_key key = total (one_for key)

pub record IsCounted (r : Requests) : Type 0 where
  pub counted : (key : Text) → or_zero (r.service.leases key) ≡ on_key key r.held
  pub positive : (key : Text) → r.service.leases key ≢ some 0

after_finish-leases :
    (a : ActivityService) (id : Text) (e : Ending) (r : JobFiles × Result JobError Bool)
    → (after_finish a id e r).1.leases ≡ a.leases
after_finish-leases a id e (w, ok true) = refl
after_finish-leases a id e (w, ok false) = refl
after_finish-leases a id e (w, err error) = refl

step-IsCounted : (r : Requests) (e : Event) → IsCounted r → IsCounted (step r e)
unfolding step acquire release begin_external end_external active_commands register_job update_job
    finish_job prune_terminal_jobs
step-IsCounted r (begins sandbox_id workspace_id) v =
    let key = workspace_key sandbox_id workspace_id in
    record {
      counted =
          λ k. ground (arith, v.counted k, v.counted key, text_eq_iff k key, text_eq_iff key k);
      positive = λ k h. ground (arith, v.positive k);
    }
step-IsCounted r (returns i) v = elim (Option-cases (get_elem? r.held i)) [
  | inl e ↦ rw (step, e) v
  | inr (key, e) ↦
      rw (step, e)
        (record {
          counted = λ k. ground (
            arith,
            v.counted k,
            v.counted key,
            total-remove_at (one_for k) r.held i key e,
            text_eq_iff k key,
            text_eq_iff key k,
          );
          positive = λ k h. ground (arith, v.positive k);
        })
]
step-IsCounted r (begins_outside token sandbox_id workspace_id pid ticks) v = record {
  counted = v.counted;
  positive = v.positive;
}
step-IsCounted r (ends_outside token) v = record { counted = v.counted; positive = v.positive }
step-IsCounted r (counts p sandbox_id workspace_id) v = record {
  counted = v.counted;
  positive = v.positive;
}
step-IsCounted r (registers job) v = record { counted = v.counted; positive = v.positive }
step-IsCounted r (updates job) v = record { counted = v.counted; positive = v.positive }
step-IsCounted r (finishes w id e) v =
    let same = sym (after_finish-leases r.service id e (finish_if_running w id e)) in
    record {
      counted =
          λ k. subst (λ (l : Text → Option ℕ). or_zero (l k) ≡ on_key k r.held) same (v.counted k);
      positive = λ k. subst (λ (l : Text → Option ℕ). l k ≢ some 0) same (v.positive k);
    }
step-IsCounted r (prunes sandbox_id workspace_id) v = record {
  counted = v.counted;
  positive = v.positive;
}

-- Over any sequence of events, each workspace's count is the number of its requests that have not
-- returned, and no count of 0 is kept.
pub history-IsCounted : (r : Requests) (es : List Event) → IsCounted r → IsCounted (history r es)
unfolding history
history-IsCounted r [] v = v
history-IsCounted r (e ∷ es) v = history-IsCounted (step r e) es (step-IsCounted r e v)

pub no_requests-IsCounted : IsCounted no_requests
unfolding no_requests new_service
no_requests-IsCounted = record { counted = λ k. refl; positive = λ k h. ground arith }
