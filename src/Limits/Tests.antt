-- ===== src/Limits/Tests.antt =====
-- Shares in whole percents.
use enclave.Common.{ℕ, ◌≡◌, refl, true, false, none, some, ltb, ◌==◌, ok, err}
use enclave.Limits.{
  Share, not_positive, min_memory_bytes, WorkspaceLimits, WorkspaceLimitsUpdate, validate,
  apply_checked, apply_update, validate_cpu_percent, validate_memory_bytes, is_empty_update,
}

abbrev percent : Share ℕ
percent = record {
  is_finite = λ n. true;
  le_zero = λ n. n == 0;
  above_hundred = λ n. ltb 100 n;
  equal = ◌==◌;
}

abbrev limits : WorkspaceLimits ℕ
limits = record {
  cpu_seconds = some 60;
  cpu_percent = some 50;
  memory_bytes = none;
  max_processes = some 64;
  max_open_files = none;
  disk_bytes = none;
}

abbrev no_update : WorkspaceLimitsUpdate ℕ
no_update = record {
  clear_tmp_on_restart = none;
  keep_running = none;
  idle_stop_after_secs = none;
  destroy_after_secs = none;
  cpu_seconds = none;
  cpu_percent = none;
  memory_bytes = none;
  max_processes = none;
  max_open_files = none;
  disk_bytes = none;
}

abbrev no_share : WorkspaceLimitsUpdate ℕ
no_share = record no_update { cpu_seconds = some (some 5); cpu_percent = some (some 0) }

abbrev more_memory : WorkspaceLimitsUpdate ℕ
more_memory = record no_update { memory_bytes = some (some min_memory_bytes) }

abbrev with_memory : WorkspaceLimits ℕ
with_memory = record limits { memory_bytes = some min_memory_bytes }

apply_update_runs :
    (apply_update percent limits no_share
      ≡ (record limits { cpu_seconds = some 5 }, err not_positive))
    × (apply_update percent limits no_update ≡ (limits, ok false))
    × (is_empty_update no_update ≡ true)
unfolding apply_update apply_checked validate validate_cpu_percent validate_memory_bytes
apply_update_runs = (refl, refl, refl)
