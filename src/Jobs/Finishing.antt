-- ===== src/Jobs/Finishing.antt =====
-- The first end of a job stands: src/workspace/jobs.rs.
use enclave.Jobs.{
  is_running, JobRecord, JobFiles, is_job_id, find_job, store_job, persist, load, Ending, ended,
  after_persist, finish_running, finish_if_running,
}
use enclave.Common.{
  true, false, List, [], ◌∷◌, some, if◌then◌else◌, Text, text_eq_iff, ok, ◌≡◌, ◌≢◌, refl, sym, ap,
  ◌∙◌, subst, arith,
}

pub find_job-id :
    (jobs : List JobRecord) (id : Text) (job : JobRecord)
    → find_job jobs id ≡ some job
    → job.id ≡ id
find_job-id [] id job e = absurd (ground arith)
find_job-id (old ∷ jobs) id job e = ground (arith, find_job-id jobs id job, text_eq_iff old.id id)

pub find_job-store_job :
    (jobs : List JobRecord) (job : JobRecord) → find_job (store_job jobs job) job.id ≡ some job
find_job-store_job [] job = ground (arith, text_eq_iff job.id job.id)
find_job-store_job (old ∷ jobs) job =
    ground (arith, find_job-store_job jobs job, text_eq_iff job.id job.id)

pub find_job-store_other :
    (jobs : List JobRecord) (job : JobRecord) (id : Text)
    → job.id ≢ id
    → find_job (store_job jobs job) id ≡ find_job jobs id
find_job-store_other [] job id differ = ground (arith, text_eq_iff job.id id)
find_job-store_other (old ∷ jobs) job id differ = ground (
  arith,
  find_job-store_other jobs job id differ,
  text_eq_iff job.id id,
  text_eq_iff old.id id,
  text_eq_iff old.id job.id,
)

-- What a successful load says.
pub load_lem :
    (w : JobFiles) (id : Text) (job : JobRecord)
    → load w id ≡ ok job
    → (is_job_id id ≡ true) × (find_job w.files id ≡ some job)
unfolding load
load_lem w id job e = (ground arith, ground arith)

load_of_found :
    (w : JobFiles) (id : Text) (job : JobRecord)
    → is_job_id id ≡ true
    → find_job w.files id ≡ some job
    → load w id ≡ ok job
unfolding load
load_of_found w id job p q = ground arith

pub load-congruence :
    (w w' : JobFiles) (id : Text)
    → find_job w'.files id ≡ find_job w.files id
    → load w' id ≡ load w id
unfolding load
load-congruence w w' id e = ground arith

-- What a persist that succeeds leaves: the record under its id, the other records, the disk.
pub persist_lem :
    (w : JobFiles) (job : JobRecord)
    → is_job_id job.id ≡ true
    → w.writable job.id ≡ true
    → persist w job ≡ (record w { files = store_job w.files job }, ok tt)
unfolding persist
persist_lem w job valid can = ground arith

finish_if_running-stores :
    (w : JobFiles) (id : Text) (job : JobRecord) (e : Ending)
    → load w id ≡ ok job
    → is_running job.status ≡ true
    → is_job_id job.id ≡ true
    → w.writable job.id ≡ true
    → finish_if_running w id e ≡ (record w { files = store_job w.files (ended job e) }, ok true)
unfolding finish_if_running finish_running
finish_if_running-stores w id job e found run valid can =
    ap (finish_running w e) found
    ∙ ap (λ b. if b then after_persist (persist w (ended job e)) else (w, ok false)) run
    ∙ ap after_persist (persist_lem w (ended job e) valid can)

pub finish_if_running-refuses :
    (w : JobFiles) (id : Text) (job : JobRecord) (e : Ending)
    → load w id ≡ ok job
    → is_running job.status ≡ false
    → finish_if_running w id e ≡ (w, ok false)
unfolding finish_if_running finish_running
finish_if_running-refuses w id job e found done =
    ap (finish_running w e) found
    ∙ ap (λ b. if b then after_persist (persist w (ended job e)) else (w, ok false)) done

-- A job that is running, with a file that can be written, ends: the call answers true, the record
-- then has the given end, every other record is as before, and a second end of the job, whatever it
-- is, answers false and changes nothing.
pub finish_if_running-ends :
    (w : JobFiles) (id other : Text) (job : JobRecord) (e later : Ending)
    → load w id ≡ ok job
    → is_running job.status ≡ true
    → w.writable id ≡ true
    → is_running e.status ≡ false
    → other ≢ id
    → ((finish_if_running w id e).1 ≡ ok true)
      × (load (finish_if_running w id e).0 id ≡ ok (ended job e))
      × (load (finish_if_running w id e).0 other ≡ load w other)
      × (finish_if_running (finish_if_running w id e).0 id later
          ≡ ((finish_if_running w id e).0, ok false))
finish_if_running-ends w id other job e later found run can ends differ =
    let (valid, at) = load_lem w id job found in
    let same = find_job-id w.files id job at in
    let stored = finish_if_running-stores w id job e found run (ground arith) (ground arith) in
    let w' = record w { files = store_job w.files (ended job e) } in
    let there = load_of_found w' id (ended job e) valid (
      subst (λ i. find_job w'.files i ≡ some (ended job e)) same
        (find_job-store_job w.files (ended job e))) in
    let elsewhere =
      load-congruence w w' other
        (find_job-store_other w.files (ended job e) other (λ q. differ (sym q ∙ same))) in
    rw stored
      (refl, there, elsewhere, finish_if_running-refuses w' id (ended job e) later there ends)
