-- ===== src/Limits.antt =====
-- What a workspace may use, and how that changes: src/workspace/types/limits.rs and the two validators of
-- src/resource_limits.rs. A CPU share is an `f64`, a parameter with the tests that the code makes of it.
pub mod Updates
mod Tests
use enclave.Common.{
  ℕ, ◌*◌, ◌≡◌, refl, Bool, true, false, not, ◌&&◌, ◌||◌, Option, none, some, ltb, ◌==◌,
  if◌then◌else◌, Result, ok, err, refuse_if, ◌>>◌,
}

-- The tests on a share: whether it is finite, `<= 0.0`, `> 100.0`, and `==`.
pub record Share (F : Type 0) : Type 0 where
  pub is_finite : F → Bool
  pub le_zero : F → Bool
  pub above_hundred : F → Bool
  pub equal : F → F → Bool

pub data LimitError : Type 0 where
  not_finite : LimitError
  not_positive : LimitError
  above_machine : LimitError
  no_processes : LimitError
  memory_too_small : LimitError

abbrev pub min_memory_bytes : ℕ
min_memory_bytes = 16 * 1024 * 1024

pub validate_memory_bytes : Option ℕ → Result LimitError (Unit {0})
validate_memory_bytes none = ok tt
validate_memory_bytes (some bytes) = refuse_if (ltb bytes min_memory_bytes) memory_too_small

pub record WorkspaceLimits (F : Type 0) : Type 0 where
  pub cpu_seconds : Option ℕ
  pub cpu_percent : Option F
  pub memory_bytes : Option ℕ
  pub max_processes : Option ℕ
  pub max_open_files : Option ℕ
  pub disk_bytes : Option ℕ

pub record WorkspaceLimitsUpdate (F : Type 0) : Type 0 where
  pub clear_tmp_on_restart : Option Bool
  pub keep_running : Option Bool
  pub idle_stop_after_secs : Option (Option ℕ)
  pub destroy_after_secs : Option (Option ℕ)
  pub cpu_seconds : Option (Option ℕ)
  pub cpu_percent : Option (Option F)
  pub memory_bytes : Option (Option ℕ)
  pub max_processes : Option (Option ℕ)
  pub max_open_files : Option (Option ℕ)
  pub disk_bytes : Option (Option ℕ)

module _ {ℓ} {A : Type ℓ} where
  abbrev pub or_else : Option A → Option A → Option A
  or_else none o = o
  or_else (some a) o = some a

  abbrev pub is_none : Option A → Bool
  is_none none = true
  is_none (some a) = false

  -- `if let Some(value) = update { self.field = value }`.
  abbrev pub updated : Option A → Option (Option A) → Option A
  updated old none = old
  updated old (some value) = value

  -- `old != value`, where the update names the field.
  abbrev pub same_option : (A → A → Bool) → Option A → Option A → Bool
  same_option eq none none = true
  same_option eq (some a) (some b) = eq a b
  same_option eq _ _ = false

  abbrev pub changes : (A → A → Bool) → Option A → Option (Option A) → Bool
  changes eq old none = false
  changes eq old (some value) = not (same_option eq old value)

abbrev pub is_zero : Option ℕ → Bool
is_zero none = false
is_zero (some n) = n == 0

module _ {F : Type 0} (share : Share F) where
  pub validate_cpu_percent : F → Result LimitError (Unit {0})
  validate_cpu_percent value =
      refuse_if (not (share.is_finite value)) not_finite
      >> refuse_if (share.le_zero value) not_positive
      >> refuse_if (share.above_hundred value) above_machine

  abbrev pub validate_share : Option F → Result LimitError (Unit {0})
  validate_share none = ok tt
  validate_share (some value) = validate_cpu_percent value

  pub validate : WorkspaceLimits F → Result LimitError (Unit {0})
  unfolding validate_cpu_percent validate_memory_bytes
  validate l =
      validate_share l.cpu_percent
      >> refuse_if (is_zero l.max_processes) no_processes
      >> validate_memory_bytes l.memory_bytes

  abbrev pub apply_defaults : WorkspaceLimits F → Option F → Option ℕ → WorkspaceLimits F
  apply_defaults l cpu_percent max_processes = record l {
    cpu_percent = or_else l.cpu_percent cpu_percent;
    max_processes = or_else l.max_processes max_processes;
  }

  abbrev pub cpu_percent_requires_cgroup : WorkspaceLimits F → Bool
  cpu_percent_requires_cgroup l = not (is_none l.cpu_percent)

  -- The share that the update names, if it names one.
  abbrev pub validate_new_share : Option (Option F) → Result LimitError (Unit {0})
  validate_new_share none = ok tt
  validate_new_share (some value) = validate_share value

  abbrev pub with_update : WorkspaceLimits F → WorkspaceLimitsUpdate F → WorkspaceLimits F
  with_update l u = record {
    cpu_seconds = updated l.cpu_seconds u.cpu_seconds;
    cpu_percent = updated l.cpu_percent u.cpu_percent;
    memory_bytes = updated l.memory_bytes u.memory_bytes;
    max_processes = updated l.max_processes u.max_processes;
    max_open_files = updated l.max_open_files u.max_open_files;
    disk_bytes = updated l.disk_bytes u.disk_bytes;
  }

  abbrev pub any_change : WorkspaceLimits F → WorkspaceLimitsUpdate F → Bool
  any_change l u =
      changes ◌==◌ l.cpu_seconds u.cpu_seconds
      || changes share.equal l.cpu_percent u.cpu_percent
      || changes ◌==◌ l.memory_bytes u.memory_bytes
      || changes ◌==◌ l.max_processes u.max_processes
      || changes ◌==◌ l.max_open_files u.max_open_files
      || changes ◌==◌ l.disk_bytes u.disk_bytes

  -- The limits are written in place: a share that is refused leaves what was written before it.
  pub apply_checked :
      WorkspaceLimits F
      → WorkspaceLimitsUpdate F
      → Result LimitError (Unit {0})
      → WorkspaceLimits F × Result LimitError Bool
  unfolding validate
  apply_checked l u (err e) =
      (record l { cpu_seconds = updated l.cpu_seconds u.cpu_seconds }, err e)
  apply_checked l u (ok _) = (with_update l u, validate (with_update l u) >> ok (any_change l u))

  pub apply_update :
      WorkspaceLimits F → WorkspaceLimitsUpdate F → WorkspaceLimits F × Result LimitError Bool
  unfolding apply_checked
  apply_update l u = apply_checked l u (validate_new_share u.cpu_percent)

abbrev pub is_empty_update : {F : Type 0} → WorkspaceLimitsUpdate F → Bool
is_empty_update u =
    is_none u.clear_tmp_on_restart
    && is_none u.keep_running
    && is_none u.idle_stop_after_secs
    && is_none u.destroy_after_secs
    && is_none u.cpu_seconds
    && is_none u.cpu_percent
    && is_none u.memory_bytes
    && is_none u.max_processes
    && is_none u.max_open_files
    && is_none u.disk_bytes
