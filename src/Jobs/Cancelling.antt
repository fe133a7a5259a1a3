-- ===== src/Jobs/Cancelling.antt =====
-- A stopped workspace leaves no job that runs: src/workspace/jobs.rs.
use enclave.Jobs.{
  is_running, JobRecord, JobFiles, is_job_id, find_job, store_job, sort_by_start, list, is_of,
  list_for_workspace, cancelled_job, cancel_each, cancel_listed, cancel_running_for_workspace,
}
use enclave.Jobs.Finishing.{find_job-id, find_job-store_job, find_job-store_other, persist_lem}
use enclave.Common.{
  ℕ, ◌+◌, Bool, true, false, List, [], ◌∷◌, some, if◌then◌else◌, filter, In, In-filter, total, All,
  Text, text_eq, text_eq_iff, ok, ◌≡◌, ◌≢◌, refl, sym, ap, subst, ◌∙◌, inl, inr, Bool-cases, arith,
}
use enclave.Jobs.Listing.{
  In-find_job, In-sort_by_start, total-sort_by_start, All-sort_by_start, All-filter, total-filter,
}

-- The file of a job has a valid name and can be written.
abbrev pub IsStorable : JobFiles → JobRecord → Type 0
IsStorable w job = (is_job_id job.id ≡ true) × (w.writable job.id ≡ true)

abbrev pub one_if : Bool → ℕ
one_if true = 1
one_if false = 0

-- Every job that still runs there, in the workspace, is one of the jobs to come.
abbrev pub AwaitsAll : (JobRecord → Bool) → List JobRecord → List JobRecord → Type 0
AwaitsAll mine files jobs =
    (id : Text) (job : JobRecord)
    → find_job files id ≡ some job
    → mine job ≡ true
    → is_running job.status ≡ true
    → In job jobs

true-ne-false : true ≢ false
true-ne-false e = absurd (ground arith)

module _ (mine : JobRecord → Bool) where
  pub awaits-after_store :
      (files jobs : List JobRecord) (job c : JobRecord)
      → c.id ≡ job.id
      → is_running c.status ≡ false
      → AwaitsAll mine files (job ∷ jobs)
      → AwaitsAll mine (store_job files c) jobs
  awaits-after_store files jobs job c same done awaits id found e m run =
      elim (Bool-cases (text_eq c.id id)) [
        | inl p ↦
            let at = (text_eq_iff c.id id).0 p in
            let is_c =
              subst (λ k. find_job (store_job files c) k ≡ some c) at
                (find_job-store_job files c) in
            absurd (ground (arith, is_c))
        | inr p ↦
            let differ = λ (q : c.id ≡ id). true-ne-false (sym ((text_eq_iff c.id id).1 q) ∙ p) in
            let before = sym (find_job-store_other files c id differ) ∙ e in
            elim (awaits id found before m run) [
              | inl q ↦
                  absurd
                    (differ (same ∙ sym (ap (λ j. j.id) q) ∙ find_job-id files id found before))
              | inr h ↦ h
            ]
      ]

  awaits-after_skip :
      (files jobs : List JobRecord) (job : JobRecord)
      → is_running job.status ≡ false
      → AwaitsAll mine files (job ∷ jobs)
      → AwaitsAll mine files jobs
  awaits-after_skip files jobs job done awaits id found e m run = elim (awaits id found e m run) [
    | inl q ↦ absurd (ground arith)
    | inr h ↦ h
  ]

module _ (now : Text → Text) (reason : Text) (w : JobFiles) (changed : ℕ) (job : JobRecord)
    (jobs : List JobRecord) where
  after_cancel : JobFiles
  after_cancel = record w { files = store_job w.files (cancelled_job job reason (now job.id)) }

  cancel_each-runs :
      is_running job.status ≡ true
      → IsStorable w job
      → cancel_each now reason w changed (job ∷ jobs)
        ≡ cancel_each now reason after_cancel (changed + 1) jobs
  unfolding cancel_each after_cancel
  cancel_each-runs run (valid, can) =
      rw (cancel_each, run, persist_lem w (cancelled_job job reason (now job.id)) valid can)
        (ap (λ r. cancel_each now reason r.0 (changed + 1) jobs)
          (persist_lem w (cancelled_job job reason (now job.id)) valid can))

  cancel_each-skips :
      is_running job.status ≡ false
      → cancel_each now reason w changed (job ∷ jobs) ≡ cancel_each now reason w changed jobs
  unfolding cancel_each
  cancel_each-skips done = rw (cancel_each, done) refl

cancel_each_lem :
    (mine : JobRecord → Bool) (now : Text → Text) (reason : Text) (w : JobFiles) (changed : ℕ)
    (jobs : List JobRecord)
    → All (IsStorable w) jobs
    → AwaitsAll mine w.files jobs
    → ((cancel_each now reason w changed jobs).1
        ≡ ok (changed + total (λ j. one_if (is_running j.status)) jobs))
      × AwaitsAll mine (cancel_each now reason w changed jobs).0.files []
unfolding cancel_each after_cancel
cancel_each_lem mine now reason w changed [] storable awaits = (ground arith, awaits)
cancel_each_lem mine now reason w changed (job ∷ jobs) storable awaits =
    elim (Bool-cases (is_running job.status)) [
      | inl run ↦
          let c = cancelled_job job reason (now job.id) in
          let (count, none_left) =
            cancel_each_lem mine now reason (after_cancel now reason w changed job jobs)
              (changed + 1) jobs storable.1
              (awaits-after_store mine w.files jobs job c refl refl awaits) in
          rw (cancel_each-runs now reason w changed job jobs run storable.0)
            (ground (arith, count, run), none_left)
      | inr done ↦
          let (count, none_left) =
            cancel_each_lem mine now reason w changed jobs storable.1
              (awaits-after_skip mine w.files jobs job done awaits) in
          rw (cancel_each-skips now reason w changed job jobs done)
            (ground (arith, count, done), none_left)
    ]

cancel_running_for_workspace-lists :
    (now : Text → Text) (w : JobFiles) (sandbox_id workspace_id reason : Text)
    → w.listable ≡ true
    → cancel_running_for_workspace now w sandbox_id workspace_id reason
      ≡ cancel_each now reason w 0 (filter (is_of sandbox_id workspace_id) (sort_by_start w.files))
unfolding cancel_running_for_workspace cancel_listed list_for_workspace list
cancel_running_for_workspace-lists now w sandbox_id workspace_id reason h = rw h refl

-- Where the jobs can be listed and every job's file can be written, under a valid id: the call succeeds, with the number of the
-- workspace's jobs that were running, and no job of the workspace that is found afterwards runs.
pub cancel_running_for_workspace-leaves_none :
    (now : Text → Text) (w : JobFiles) (sandbox_id workspace_id reason id : Text) (job : JobRecord)
    → w.listable ≡ true
    → All (IsStorable w) w.files
    → find_job (cancel_running_for_workspace now w sandbox_id workspace_id reason).0.files id
      ≡ some job
    → is_of sandbox_id workspace_id job ≡ true
    → (is_running job.status ≡ false)
      × ((cancel_running_for_workspace now w sandbox_id workspace_id reason).1
          ≡ ok (
              total
                (λ j. if is_of sandbox_id workspace_id j then one_if (is_running j.status) else 0)
                w.files))
cancel_running_for_workspace-leaves_none now w sandbox_id workspace_id reason id job listed storable
      found m =
    let as_loop = cancel_running_for_workspace-lists now w sandbox_id workspace_id reason listed in
    let mine = is_of sandbox_id workspace_id in
    let jobs = filter mine (sort_by_start w.files) in
    let f = λ (j : JobRecord). one_if (is_running j.status) in
    let (count, none_left) =
      cancel_each_lem mine now reason w 0 jobs
        (All-filter (IsStorable w) mine (sort_by_start w.files)
          (All-sort_by_start (IsStorable w) w.files storable))
        (λ i j e k run.
          In-filter mine (sort_by_start w.files) j k
            (In-sort_by_start w.files j (In-find_job w.files i j e))) in
    let sum =
      total-filter f mine (sort_by_start w.files)
      ∙ total-sort_by_start (λ j. if mine j then f j else 0) w.files in
    (
      elim (Bool-cases (is_running job.status)) [
        | inl run ↦
            absurd
              (none_left id job (subst (λ r. find_job r.0.files id ≡ some job) as_loop found) m
                run).lower
        | inr done ↦ done
      ],
      ap (λ r. r.1) as_loop ∙ ground (arith, count, sum),
    )
