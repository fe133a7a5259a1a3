-- ===== src/Activity/CommandLeases/Holdings.antt =====
-- What the service still holds of what it was told: src/workspace/activity_service.rs.
use enclave.Activity.{
  ExternalLease, ActivityService, new_service, insert_external, begin_external, end_external,
  owner_lives, active_commands, prune_terminal_jobs, insert_job, update_job, register_job,
  end_in_map, after_finish, finish_job, acquire, release,
}
use enclave.Activity.CommandLeases.{
  Requests, Event, begins, returns, begins_outside, ends_outside, counts, registers, updates,
  finishes, prunes, with_job, after_end, step, history, no_requests,
}
use enclave.Jobs.{is_running, JobRecord, JobError, JobFiles, is_of, Ending, finish_if_running}
use enclave.Common.{
  Bool, true, false, not, ◌||◌, List, [], ◌∷◌, filter, get_elem?, All, All-map, In, In-filter, Text,
  text_eq, text_ltb, ◌≡◌, refl, sym, ap, subst, ◌∙◌, inl, inr, Bool-cases, Option-cases, if_elim,
  Result, ok, err, arith,
}

-- What holds of the members of a list that pass a test holds of what is left of it.
All-filtered {ℓ κ μ} :
    {A : Type ℓ} {P : A → Type κ} {Q : A → Type μ} (p : A → Bool)
    → ((x : A) → p x ≡ true → P x → Q x)
    → (xs : List A) → All P xs
    → All Q (filter p xs)
All-filtered p f [] h = tt
All-filtered p f (x ∷ xs) h = elim (Bool-cases (p x)) [
  | inl t ↦ rw t (f x t h.0, All-filtered p f xs h.1)
  | inr t ↦ rw t (All-filtered p f xs h.1)
]

In-insert_external :
    (token : Text) (lease : ExternalLease) (ls : List (Text × ExternalLease))
    → In (token, lease) (insert_external token lease ls)
In-insert_external token lease [] = inl refl
In-insert_external token lease ((t, l) ∷ rest) =
    if_elim (In (token, lease)) (text_eq t token) _ _ (λ e. inl refl)
      (λ e.
        if_elim (In (token, lease)) (text_ltb token t) _ _ (λ b. inl refl)
          (λ b. inr (In-insert_external token lease rest)))

In-insert_external_other :
    (token : Text) (lease : ExternalLease) (ls : List (Text × ExternalLease))
    (x : Text × ExternalLease)
    → text_eq x.0 token ≡ false
    → In x ls
    → In x (insert_external token lease ls)
In-insert_external_other token lease ((t, l) ∷ rest) x other m =
    if_elim (In x) (text_eq t token) _ _
      (λ e. elim m [
        | inl q ↦ absurd (
            ground (arith, sym (ap (λ (y : Text × ExternalLease). text_eq y.0 token) q) ∙ other, e))
        | inr k ↦ inr k
      ])
      (λ e.
        if_elim (In x) (text_ltb token t) _ _ (λ b. inr m)
          (λ b. elim m [
            | inl q ↦ inl q
            | inr k ↦ inr (In-insert_external_other token lease rest x other k)
          ]))
In-insert_external_other token lease [] x other m = absurd m.lower

In-insert_job : (job : JobRecord) (jobs : List JobRecord) → In job (insert_job job jobs)
In-insert_job job [] = inl refl
In-insert_job job (old ∷ jobs) =
    if_elim (In job) (text_eq old.id job.id) _ _ (λ e. inl refl)
      (λ e.
        if_elim (In job) (text_ltb job.id old.id) _ _ (λ b. inl refl)
          (λ b. inr (In-insert_job job jobs)))

In-insert_job_other :
    (job : JobRecord) (jobs : List JobRecord) (x : JobRecord)
    → text_eq x.id job.id ≡ false
    → In x jobs
    → In x (insert_job job jobs)
In-insert_job_other job [] x other m = absurd m.lower
In-insert_job_other job (old ∷ jobs) x other m =
    if_elim (In x) (text_eq old.id job.id) _ _
      (λ e. elim m [
        | inl q ↦
            absurd (ground (arith, sym (ap (λ (y : JobRecord). text_eq y.id job.id) q) ∙ other, e))
        | inr k ↦ inr k
      ])
      (λ e.
        if_elim (In x) (text_ltb job.id old.id) _ _ (λ b. inr m)
          (λ b. elim m [ inl q ↦ inl q | inr k ↦ inr (In-insert_job_other job jobs x other k) ]))

In-end_in_map :
    (id : Text) (e : Ending) (jobs : List JobRecord) (x : JobRecord)
    → text_eq x.id id ≡ false
    → In x jobs
    → In x (end_in_map id e jobs)
In-end_in_map id e [] x other m = absurd m.lower
In-end_in_map id e (j ∷ jobs) x other (inl q) = inl (
    q
    ∙ if_elim (λ (y : JobRecord). j ≡ y) (text_eq j.id id) _ _
        (λ t. absurd (ground (arith, sym (ap (λ (y : JobRecord). text_eq y.id id) q) ∙ other, t)))
        (λ t. refl))
In-end_in_map id e (j ∷ jobs) x other (inr m) = inr (In-end_in_map id e jobs x other m)

-- A job that the service has, as one that runs.
abbrev pub IsHeld : ActivityService → JobRecord → Type 0
IsHeld a job = In job a.jobs × (is_running job.status ≡ true)

-- The service holds the leases that live outside and the jobs that run.
pub record Holds (r : Requests) : Type 0 where
  pub leases_held : All (λ e. In e r.service.external) r.outside
  pub jobs_held : All (IsHeld r.service) r.working

insert_job-IsHeld :
    (a : ActivityService) (job : JobRecord) (jobs : List JobRecord)
    → All (IsHeld a) jobs
    → All (IsHeld (record a { jobs = insert_job job a.jobs })) (with_job job jobs)
insert_job-IsHeld a job jobs h =
    let kept =
      All-filtered {P = IsHeld a} {Q = IsHeld (record a { jobs = insert_job job a.jobs })}
        (λ (j : JobRecord). not (text_eq j.id job.id))
        (λ j other k. (In-insert_job_other job a.jobs j (ground (arith, other)) k.0, k.1)) jobs h in
    if_elim (All (IsHeld (record a { jobs = insert_job job a.jobs }))) (is_running job.status) _ _
      (λ run. ((In-insert_job job a.jobs, run), kept)) (λ done. kept)

after_finish-IsHeld :
    (a : ActivityService) (id : Text) (e : Ending) (r : JobFiles × Result JobError Bool)
    (jobs : List JobRecord)
    → All (IsHeld a) jobs
    → All (IsHeld (after_finish a id e r).1) (after_end id (after_finish a id e r).2 jobs)
after_finish-IsHeld a id e (w, ok true) jobs h =
    All-filtered {P = IsHeld a} {Q = IsHeld (record a { jobs = end_in_map id e a.jobs })}
      (λ (j : JobRecord). not (text_eq j.id id))
      (λ j other k. (In-end_in_map id e a.jobs j (ground (arith, other)) k.0, k.1)) jobs h
after_finish-IsHeld a id e (w, ok false) jobs h = h
after_finish-IsHeld a id e (w, err error) jobs h = h

after_finish-external :
    (a : ActivityService) (id : Text) (e : Ending) (r : JobFiles × Result JobError Bool)
    → (after_finish a id e r).1.external ≡ a.external
after_finish-external a id e (w, ok true) = refl
after_finish-external a id e (w, ok false) = refl
after_finish-external a id e (w, err error) = refl

step-Holds : (r : Requests) (e : Event) → Holds r → Holds (step r e)
unfolding step acquire release begin_external end_external active_commands register_job update_job
    finish_job prune_terminal_jobs
step-Holds r (begins sandbox_id workspace_id) v = record {
  leases_held = v.leases_held;
  jobs_held = v.jobs_held;
}
step-Holds r (returns i) v = elim (Option-cases (get_elem? r.held i)) [
  | inl e ↦ rw (step, e) v
  | inr (key, e) ↦ rw (step, e) (record { leases_held = v.leases_held; jobs_held = v.jobs_held })
]
step-Holds r (begins_outside token sandbox_id workspace_id pid ticks) v = record {
  leases_held = (
    In-insert_external token _ r.service.external,
    All-filtered {P = λ e. In e r.service.external} (λ e. not (text_eq e.0 token))
        (λ x other m.
          In-insert_external_other token _ r.service.external x (ground (arith, other)) m)
        r.outside v.leases_held,
  );
  jobs_held = v.jobs_held;
}
step-Holds r (ends_outside token) v = record {
  leases_held =
      All-filtered {P = λ e. In e r.service.external} (λ e. not (text_eq e.0 token))
        (λ x other m. In-filter (λ e. not (text_eq e.0 token)) r.service.external x other m)
        r.outside v.leases_held;
  jobs_held = v.jobs_held;
}
step-Holds r (counts p sandbox_id workspace_id) v = record {
  leases_held =
      All-filtered {P = λ e. In e r.service.external} (owner_lives p)
        (λ x lives m. In-filter (owner_lives p) r.service.external x lives m) r.outside
        v.leases_held;
  jobs_held = v.jobs_held;
}
step-Holds r (registers job) v = record {
  leases_held = v.leases_held;
  jobs_held = insert_job-IsHeld r.service job r.working v.jobs_held;
}
step-Holds r (updates job) v = record {
  leases_held = v.leases_held;
  jobs_held = insert_job-IsHeld r.service job r.working v.jobs_held;
}
step-Holds r (finishes w id e) v = record {
  leases_held =
      subst (λ ls. All (λ x. In x ls) r.outside)
        (sym (after_finish-external r.service id e (finish_if_running w id e))) v.leases_held;
  jobs_held = after_finish-IsHeld r.service id e (finish_if_running w id e) r.working v.jobs_held;
}
step-Holds r (prunes sandbox_id workspace_id) v = record {
  leases_held = v.leases_held;
  jobs_held =
      All-map
        (λ j k. (
          In-filter (λ job. not (is_of sandbox_id workspace_id job) || is_running job.status)
              r.service.jobs j (ground (arith, k.1)) k.0,
          k.1,
        ))
        r.working v.jobs_held;
}

pub history-Holds : (r : Requests) (es : List Event) → Holds r → Holds (history r es)
unfolding history
history-Holds r [] v = v
history-Holds r (e ∷ es) v = history-Holds (step r e) es (step-Holds r e v)

pub no_requests-Holds : Holds no_requests
unfolding no_requests new_service
no_requests-Holds = record { leases_held = tt; jobs_held = tt }
