-- ===== src/Activity/Reaping/Expiry.antt =====
-- No job outlives its time once it was reaped: src/workspace/activity_service.rs.
use enclave.Activity.{Processes, job_alive, terminate_job, ActivityService, update_job}
use enclave.Activity.Reaping.{
  reaped, noted, noting, overdue, reap_each, reap_listed, reap_expired_jobs,
}
use enclave.Jobs.{
  is_background, is_running, JobRecord, expired, JobError, JobFiles, is_job_id, find_job, store_job,
  list,
}
use enclave.Jobs.Finishing.{persist_lem}
use enclave.Jobs.Listing.{In-find_job, All-list, In-list, All-filter}
use enclave.Jobs.Cancelling.{IsStorable, AwaitsAll, awaits-after_store}
use enclave.Common.{
  ℕ, Bool, true, false, ◌&&◌, List, [], ◌∷◌, Option, none, some, filter, In-filter, map, All, Text,
  Result, ok, err, ◌≡◌, refl, sym, ap, subst, ◌∙◌, ◌⊎◌, inl, inr, Bool-cases, arith,
}

-- A job with the part that a reaper reports.
abbrev pub named : JobRecord → Text × Text
named job = (job.workspace_id, job.id)

reaped-id :
    (job : JobRecord) (now : Text) (alive exited : Bool) → (reaped job now alive exited).id ≡ job.id
reaped-id job now true true = refl
reaped-id job now true false = refl
reaped-id job now false exited = refl

reaped-ended :
    (job : JobRecord) (now : Text) (alive exited : Bool)
    → is_running (reaped job now alive exited).status ≡ false
reaped-ended job now true true = refl
reaped-ended job now true false = refl
reaped-ended job now false exited = refl

noting-keeps :
    (g : Bool) (job : JobRecord)
    (r : JobFiles × ActivityService × Result JobError (List (Text × Text)))
    (rest : List (Text × Text))
    → r.2 ≡ ok rest
    → ((noting g job r).0 ≡ r.0) × ((noting g job r).2 ≡ ok (noted g job rest))
noting-keeps g job (w, a, ok found) rest e = (refl, ground (arith, e))
noting-keeps g job (w, a, err error) rest e = absurd (ground (arith, e))

module _ (p : Processes) (now : Text → Text) (mine : JobRecord → Bool) where
  -- The jobs that were alive and then gone.
  gone : JobRecord → Bool
  gone job = job_alive p job && terminate_job p job

  mark : JobRecord → JobRecord
  mark job = reaped job (now job.id) (job_alive p job) (terminate_job p job)

  mark-id : (job : JobRecord) → (mark job).id ≡ job.id
  unfolding mark
  mark-id job = reaped-id job (now job.id) (job_alive p job) (terminate_job p job)

  reap_each-stores :
      (w : JobFiles) (a : ActivityService) (job : JobRecord) (jobs : List JobRecord)
      → IsStorable w job
      → reap_each p now w a (job ∷ jobs)
        ≡ noting (gone job) job (
            reap_each p now
              (record w { files = store_job w.files (mark job) })
              (update_job a (mark job))
              jobs)
  unfolding gone mark reap_each
  reap_each-stores w a job jobs (valid, can) =
      let stored =
        persist_lem w (mark job) (ap is_job_id (mark-id job) ∙ valid)
          (ap w.writable (mark-id job) ∙ can) in
      rw (reap_each, stored)
        (ap (λ r. noting (gone job) job (reap_each p now r.0 (update_job a (mark job)) jobs))
          stored)

  noted-filter :
      (job : JobRecord) (jobs : List JobRecord)
      → noted (gone job) job (map named (filter gone jobs)) ≡ map named (filter gone (job ∷ jobs))
  noted-filter job jobs = elim (Bool-cases (gone job)) [ inl q ↦ rw q refl | inr q ↦ rw q refl ]

  reap_each_lem :
      (w : JobFiles) (a : ActivityService) (jobs : List JobRecord)
      → All (IsStorable w) jobs
      → AwaitsAll mine w.files jobs
      → ((reap_each p now w a jobs).2 ≡ ok (map named (filter gone jobs)))
        × AwaitsAll mine (reap_each p now w a jobs).0.files []
  unfolding reap_each mark
  reap_each_lem w a [] storable awaits = (refl, awaits)
  reap_each_lem w a (job ∷ jobs) storable awaits =
      let w' = record w { files = store_job w.files (mark job) } in
      let (report, none_left) = reap_each_lem w' (update_job a (mark job)) jobs storable.1 (
        awaits-after_store mine w.files jobs job (mark job) (mark-id job)
          (reaped-ended job (now job.id) (job_alive p job) (terminate_job p job)) awaits) in
      let (kept, told) =
        noting-keeps (gone job) job (reap_each p now w' (update_job a (mark job)) jobs)
          (map named (filter gone jobs)) report in
      rw (reap_each-stores w a job jobs storable.0) (
        told ∙ ap ok (noted-filter job jobs),
        subst (λ v. AwaitsAll mine v.files []) (sym kept) none_left,
      )

-- Whether the record in a file, if there is one, is of a background job that runs though its time is over.
abbrev pub is_overdue : (Text → Option ℕ) → ℕ → Option JobRecord → Bool
is_overdue parse_timestamp at none = false
is_overdue parse_timestamp at (some job) =
    is_running job.status && is_background job.mode && expired parse_timestamp job at

-- Where every job's file can be written, under a valid id: the sweep fails with the listing, which
-- changes nothing, or it ends well. Then it reports those of the background jobs whose time is over
-- that were alive and whose processes are gone, and whatever is looked up afterwards, no background
-- job runs whose time is over at that moment.
pub reap_expired_jobs-leaves_none :
    (p : Processes) (now : Text → Text) (parse_timestamp : Text → Option ℕ) (w : JobFiles)
    (a : ActivityService) (at : ℕ) (id : Text)
    → All (IsStorable w) w.files
    → ((e : JobError) × (list w ≡ err e)
        × (reap_expired_jobs p now parse_timestamp w a at ≡ (w, a, err e)))
      ⊎ ((jobs : List JobRecord) × (list w ≡ ok jobs)
          × ((reap_expired_jobs p now parse_timestamp w a at).2
              ≡ ok (
                  map named (
                    filter
                      (λ j. job_alive p j && terminate_job p j)
                      (overdue parse_timestamp at jobs))))
          × (is_overdue parse_timestamp at
                (find_job (reap_expired_jobs p now parse_timestamp w a at).0.files id)
              ≡ false))
unfolding reap_expired_jobs reap_listed gone
reap_expired_jobs-leaves_none p now parse_timestamp w a at id storable = go (list w) refl
  where
    none_overdue :
        (r : JobFiles)
        → AwaitsAll (λ j. is_background j.mode && expired parse_timestamp j at) r.files []
        → (found : Option JobRecord) → find_job r.files id ≡ found
        → is_overdue parse_timestamp at found ≡ false
    none_overdue r none_left none e = refl
    none_overdue r none_left (some job) e =
        elim (Bool-cases (is_overdue parse_timestamp at (some job))) [
          | inl late ↦
              absurd (none_left id job e (ground (arith, late)) (ground (arith, late))).lower
          | inr fine ↦ fine
        ]

    go :
        (r : Result JobError (List JobRecord))
        → list w ≡ r
        → ((e : JobError) × (list w ≡ err e)
            × (reap_listed p now parse_timestamp w a at r ≡ (w, a, err e)))
          ⊎ ((jobs : List JobRecord) × (list w ≡ ok jobs)
              × ((reap_listed p now parse_timestamp w a at r).2
                  ≡ ok (
                      map named (
                        filter
                          (λ j. job_alive p j && terminate_job p j)
                          (overdue parse_timestamp at jobs))))
              × (is_overdue parse_timestamp at
                    (find_job (reap_listed p now parse_timestamp w a at r).0.files id)
                  ≡ false))
    go (err e) l = inl (e, l, refl)
    go (ok jobs) l =
        let live = λ (j : JobRecord). is_running j.status && is_background j.mode in
        let over_at = λ (j : JobRecord). expired parse_timestamp j at in
        let (report, none_left) =
          reap_each_lem p now (λ j. is_background j.mode && expired parse_timestamp j at) w a
            (overdue parse_timestamp at jobs)
            (All-filter (IsStorable w) over_at (filter live jobs)
              (All-filter (IsStorable w) live jobs (All-list (IsStorable w) w jobs l storable)))
            (λ i j e m run. In-filter over_at (filter live jobs) j (ground (arith, m)) (
              In-filter live jobs j (ground (arith, m, run))
                (In-list w jobs j l (In-find_job w.files i j e)))) in
        inr (
          jobs,
          l,
          report,
          none_overdue (reap_each p now w a (overdue parse_timestamp at jobs)).0 none_left _ refl,
        )
