-- ===== src/Jobs/Tests.antt =====
-- Runs of src/workspace/jobs.rs.
use enclave.Jobs.{
  foreground, background, running, exited, failed, cancelled, JobRecord, JobError, JobFiles,
  new_job, is_job_id, find_job, persist, load, list, Ending, ended, finish_if_running,
  cancel_running_for_workspace, list_for_workspace, cancel_each, expired,
}
use enclave.Jobs.Finishing.{finish_if_running-ends}
use enclave.Jobs.Cancelling.{IsStorable}
use enclave.Common.{
  true, false, [], ◌∷◌, some, none, All, Text, codes, ok, err, ◌>>=◌, pos, map, ◌≡◌, refl, arith,
}

abbrev build : JobRecord
build = record {
  id = codes "b1";
  sandbox_id = codes "s";
  workspace_id = codes "w";
  mode = background;
  command = codes "make" ∷ [];
  started_at = codes "t2";
  finished_at = none;
  pid = some 9;
  starttime_ticks = some 5;
  process_group = none;
  status = running;
  exit_code = none;
  ttl_secs = some 60;
  keep_running = false;
  error = none;
}

abbrev serve : JobRecord
serve = record build { id = codes "s1"; workspace_id = codes "v"; started_at = codes "t1" }

abbrev disk : JobFiles
disk = record { files = build ∷ serve ∷ []; writable = λ id. true; listable = true }

abbrev succeeded : Ending
succeeded = record { status = exited; exit_code = some (pos 0); error = none; now = codes "t3" }

abbrev broken : Ending
broken = record {
  status = failed;
  exit_code = none;
  error = some (codes "killed");
  now = codes "t4";
}

made_job :
    (new_job (codes "b1") (codes "t2") (codes "s") (codes "w") foreground []).status ≡ running
unfolding new_job
made_job = refl

oldest_first :
    (list disk >>= λ jobs. ok (map (λ job. job.id) jobs)) ≡ ok (codes "s1" ∷ codes "b1" ∷ [])
unfolding list
oldest_first = refl

bad_id : load disk (codes "../x") ≡ err JobError.invalid_id
unfolding load is_job_id
bad_id = refl

expires_at_60 : expired (λ t. some 0) build 60_000_000_000 ≡ true
unfolding expired
expires_at_60 = refl

expires_later : expired (λ t. some 0) build 59_999_999_999 ≡ false
unfolding expired
expires_later = refl

loads_build : load disk (codes "b1") ≡ ok build
unfolding load is_job_id
loads_build = refl

finish_if_running-ends_example :
    ((finish_if_running disk (codes "b1") succeeded).1 ≡ ok true)
    × (load (finish_if_running disk (codes "b1") succeeded).0 (codes "b1")
        ≡ ok (ended build succeeded))
    × (load (finish_if_running disk (codes "b1") succeeded).0 (codes "s1") ≡ load disk (codes "s1"))
    × (finish_if_running (finish_if_running disk (codes "b1") succeeded).0 (codes "b1") broken
        ≡ ((finish_if_running disk (codes "b1") succeeded).0, ok false))
finish_if_running-ends_example =
    finish_if_running-ends disk (codes "b1") (codes "s1") build succeeded broken loads_build refl
      refl refl (λ e. ground (arith, e))

disk-IsStorable : All (IsStorable disk) disk.files
unfolding is_job_id
disk-IsStorable = ((refl, refl), ((refl, refl), tt))

abbrev stamp : Text → Text
stamp id = codes "t5"

abbrev stop : Text
stop = codes "workspace stopped"

finds_build :
    find_job
      (cancel_running_for_workspace stamp disk (codes "s") (codes "w") stop).0.files
      (codes "b1")
    ≡ some (record build { status = cancelled; finished_at = some (codes "t5"); error = some stop })
unfolding cancel_running_for_workspace list_for_workspace list cancel_each persist is_job_id
finds_build = refl
