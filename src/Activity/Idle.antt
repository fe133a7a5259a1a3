-- ===== src/Activity/Idle.antt =====
-- When a workspace is idle: src/workspace/activity.rs, and the sweeps' candidates of
-- src/workspace/activity_service.rs. Of a workspace's record, the fields these read or write.
-- The registry's sandboxes and workspaces are under their ids.
pub mod Sweep
pub mod Safety
use enclave.Activity.{
  Processes, ActivityService, acquire, release, active_commands, has_active_foreground_job,
  keeps_workspace_running,
}
use enclave.Common.{
  ℕ, ◌+◌, Bool, true, false, not, ◌&&◌, ◌||◌, List, [], ◌∷◌, ◌++◌, Option, none, some, ltb, leb,
  ◌==◌, if◌then◌else◌, max, any, filter, map, ℤ, pos, negsuc, leb_int, as_i64, seconds_between,
  Text, text_eq, text_ltb,
}

pub data WorkspaceStatus : Type 0 where
  starting : WorkspaceStatus
  running : WorkspaceStatus
  stopping : WorkspaceStatus
  stopped : WorkspaceStatus

pub is_transitional : WorkspaceStatus → Bool
is_transitional starting = true
is_transitional running = false
is_transitional stopping = true
is_transitional stopped = false

abbrev pub runs : WorkspaceStatus → Bool
runs running = true
runs _ = false

abbrev pub is_stopped : WorkspaceStatus → Bool
is_stopped stopped = true
is_stopped _ = false

pub record WorkspaceMetadata : Type 0 where
  pub id : Text
  pub sandbox_id : Text
  pub last_request_at : Option Text
  pub last_process_activity_at : Option Text
  pub last_stopped_at : Option Text
  pub status : WorkspaceStatus
  pub keep_running : Bool
  pub idle_stop_after_secs : Option ℕ
  pub destroy_after_secs : Option ℕ

pub record Sandbox : Type 0 where
  pub id : Text
  pub workspaces : List WorkspaceMetadata

pub data ActivityKind : Type 0 where
  request : ActivityKind
  process : ActivityKind

abbrev stamped : ActivityKind → Text → WorkspaceMetadata → WorkspaceMetadata
stamped request stamp w = record w { last_request_at = some stamp }
stamped process stamp w = record w {
  last_request_at = some stamp;
  last_process_activity_at = some stamp;
}

-- `touch_registry_only`, and what `touch` does to the registry.
pub touch : List Sandbox → Text → Text → ActivityKind → Text → List Sandbox
touch registry sandbox_id workspace_id kind stamp =
    map
      (λ s.
        if text_eq s.id sandbox_id
        then record s {
          workspaces =
              map (λ w. if text_eq w.id workspace_id then stamped kind stamp w else w) s.workspaces;
        }
        else s)
      registry

pub mark_stopped : WorkspaceMetadata → Text → WorkspaceMetadata
mark_stopped w now = record w { last_stopped_at = some now }

-- `begin_request`: the lease and the touch. Where the registry cannot be written, the lease is
-- dropped with the error.
pub begin_request :
    ActivityService
    → List Sandbox
    → Bool
    → Text
    → Text
    → Text
    → ActivityService × List Sandbox × Option Text
unfolding touch
begin_request a registry writable sandbox_id workspace_id now =
    let (a', key) = acquire a sandbox_id workspace_id in
    if writable
    then (a', touch registry sandbox_id workspace_id request now, some key)
    else (release a' key, registry, none)

abbrev in_workspaces : (WorkspaceMetadata → WorkspaceMetadata) → Sandbox → Sandbox
in_workspaces f s = record s { workspaces = map f s.workspaces }

-- `mark_stopped_workspaces`, where every record can be written.
pub mark_stopped_workspaces : List Sandbox → List Text → Text → List Sandbox
unfolding mark_stopped
mark_stopped_workspaces registry workspace_ids now =
    map
      (in_workspaces
        (λ w. if any (λ id. text_eq id w.id) workspace_ids then mark_stopped w now else w))
      registry

abbrev pub or_else : Option ℕ → Option ℕ → Option ℕ
or_else none d = d
or_else (some n) d = some n

unfoldable pub idle_threshold : WorkspaceMetadata → Option ℕ → Option ℕ
idle_threshold w daemon_default = or_else w.idle_stop_after_secs daemon_default

pub destroy_threshold : WorkspaceMetadata → Option ℕ → Option ℕ
destroy_threshold w daemon_default = or_else w.destroy_after_secs daemon_default

abbrev max_time : Option ℕ → Option ℕ → Option ℕ
max_time none t = t
max_time (some s) none = some s
max_time (some s) (some t) = some (max s t)

abbrev parse_some : (Text → Option ℕ) → Option Text → Option ℕ
parse_some parse_timestamp none = none
parse_some parse_timestamp (some raw) = parse_timestamp raw

-- The value of an i64 that is `max(0)`.
abbrev at_least_zero : ℤ → ℕ
at_least_zero (pos n) = n
at_least_zero (negsuc n) = 0

abbrev since : ℕ → Option ℕ → Option ℕ
since now none = none
since now (some last) = some (at_least_zero (seconds_between now last))

abbrev reaches : ℕ → Option ℕ → Bool
reaches secs none = false
reaches secs (some idle) = leb_int (as_i64 secs) (pos idle)

abbrev stopped_for : ℕ → ℕ → Option ℕ → Bool
stopped_for threshold now none = false
stopped_for threshold now (some at) = leb_int (as_i64 threshold) (seconds_between now at)

abbrev time_ltb : Option ℕ → Option ℕ → Bool
time_ltb none none = false
time_ltb none (some t) = true
time_ltb (some s) none = false
time_ltb (some s) (some t) = ltb s t

abbrev pub all_workspaces : List Sandbox → List WorkspaceMetadata
all_workspaces [] = []
all_workspaces (s ∷ ss) = s.workspaces ++ all_workspaces ss

module _ (parse_timestamp : Text → Option ℕ) where
  unfoldable pub last_activity : WorkspaceMetadata → Option ℕ
  last_activity w =
      max_time (parse_some parse_timestamp w.last_request_at)
        (parse_some parse_timestamp w.last_process_activity_at)

  unfoldable pub idle_for_secs : WorkspaceMetadata → ℕ → Option ℕ
  unfolding last_activity
  idle_for_secs w now = since now (last_activity w)

  unfoldable pub is_idle : WorkspaceMetadata → ℕ → ℕ → ℕ → Bool
  unfolding idle_for_secs
  is_idle w idle_after_secs now active_commands =
      if not (runs w.status) || w.keep_running || idle_after_secs == 0 || ltb 0 active_commands
      then false
      else reaches idle_after_secs (idle_for_secs w now)

  -- `a` comes after `b`.
  abbrev before : WorkspaceMetadata → WorkspaceMetadata → Bool
  before b a =
      time_ltb (last_activity b) (last_activity a)
      || (not (time_ltb (last_activity a) (last_activity b)) && text_ltb b.id a.id)

  abbrev pub insert_lru : WorkspaceMetadata → List WorkspaceMetadata → List WorkspaceMetadata
  insert_lru a [] = a ∷ []
  insert_lru a (b ∷ bs) = if before b a then b ∷ insert_lru a bs else a ∷ b ∷ bs

  abbrev pub sort_lru : List WorkspaceMetadata → List WorkspaceMetadata
  sort_lru [] = []
  sort_lru (a ∷ bs) = insert_lru a (sort_lru bs)

  -- The loop over the workspaces. Only the count of the commands changes the service.
  unfoldable pub idle_each :
      Processes
      → Option ℕ
      → ℕ
      → ActivityService
      → List WorkspaceMetadata
      → ActivityService × List WorkspaceMetadata
  unfolding idle_threshold is_idle
  idle_each p default_idle_secs now a [] = (a, [])
  idle_each p default_idle_secs now a (w ∷ ws) = elim (idle_threshold w default_idle_secs) [
    | none ↦ idle_each p default_idle_secs now a ws
    | some idle_after ↦
        elim (keeps_workspace_running a w.sandbox_id w.id
          || has_active_foreground_job p a w.sandbox_id w.id) [
            | true ↦ idle_each p default_idle_secs now a ws
            | false ↦
                let (a', active) = active_commands p a w.sandbox_id w.id in
                let (a'', candidates) = idle_each p default_idle_secs now a' ws in
                (a'', if is_idle w idle_after now active then w ∷ candidates else candidates)
          ]
  ]

  unfoldable pub idle_candidates :
      Processes
      → List Sandbox
      → ActivityService
      → Option ℕ
      → ℕ
      → ActivityService × List WorkspaceMetadata
  unfolding idle_each
  idle_candidates p registry a default_idle_secs now =
      let (a', candidates) = idle_each p default_idle_secs now a (all_workspaces registry) in
      (a', sort_lru candidates)

  abbrev old_enough : ℕ → Option Text → Option ℕ → Bool
  old_enough now last_stopped_at none = false
  old_enough now last_stopped_at (some threshold) =
      not (threshold == 0) && stopped_for threshold now (parse_some parse_timestamp last_stopped_at)

  pub destroy_candidates : List Sandbox → Option ℕ → ℕ → List WorkspaceMetadata
  unfolding destroy_threshold
  destroy_candidates registry default_destroy_secs now =
      filter (λ w. old_enough now w.last_stopped_at (destroy_threshold w default_destroy_secs))
        (filter (λ w. is_stopped w.status && not w.keep_running) (all_workspaces registry))

abbrev in_sandbox : Option Text → Sandbox → Bool
in_sandbox none s = true
in_sandbox (some id) s = text_eq s.id id

pub running_workspaces : List Sandbox → Option Text → List WorkspaceMetadata
running_workspaces registry sandbox_id =
    filter (λ w. runs w.status) (all_workspaces (filter (in_sandbox sandbox_id) registry))
