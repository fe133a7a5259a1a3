-- ===== src/Activity/Idle/Sweep.antt =====
-- What the idle sweep stops: src/workspace/activity_service.rs and src/workspace/activity.rs.
use enclave.Activity.{
  Processes, ActivityService, workspace_key, or_zero, owner_lives, lease_is_of, active_commands,
  jobs_for_workspace, has_active_foreground_job, keeps_workspace_running,
}
use enclave.Activity.Idle.{
  WorkspaceMetadata, Sandbox, all_workspaces, idle_threshold, is_idle, sort_lru, idle_each,
  idle_candidates,
}
use enclave.Common.{
  ℕ, ◌+◌, ◌-◌, ◌^◌, min, Bool, true, false, not, ◌&&◌, ◌||◌, List, [], ◌∷◌, Option, none, some,
  if◌then◌else◌, filter, length, Text, ◌≡◌, refl, sym, ap, ◌∙◌, inl, inr, Bool-cases, Option-cases,
  arith,
}

filter-idempotent {ℓ} :
    {A : Type ℓ} (p : A → Bool) (xs : List A) → filter p (filter p xs) ≡ filter p xs
filter-idempotent p [] = refl
filter-idempotent p (x ∷ xs) = elim (Bool-cases (p x)) [
  | inl t ↦ rw (t, t) (ap (λ ys. x ∷ ys) (filter-idempotent p xs))
  | inr t ↦ rw t (filter-idempotent p xs)
]

module _ (parse_timestamp : Text → Option ℕ) (p : Processes) (default_idle_secs : Option ℕ)
    (now : ℕ) where
  abbrev idle_after : ActivityService → WorkspaceMetadata → Option ℕ → Bool
  idle_after a w none = false
  idle_after a w (some secs) =
      not (
        keeps_workspace_running a w.sandbox_id w.id
        || has_active_foreground_job p a w.sandbox_id w.id)
      && is_idle parse_timestamp w secs now (active_commands p a w.sandbox_id w.id).1

  -- A workspace may be stopped, by the service as it is.
  abbrev pub eligible : ActivityService → WorkspaceMetadata → Bool
  eligible a w = idle_after a w (idle_threshold w default_idle_secs)

  active_commands-again :
      (a : ActivityService) (s w s' w' : Text)
      → (active_commands p (active_commands p a s w).0 s' w').1 ≡ (active_commands p a s' w').1
  unfolding active_commands
  active_commands-again a s w s' w' =
      ap
        (λ e.
          min (or_zero (a.leases (workspace_key s' w')) + length (filter (lease_is_of s' w') e))
            (2 ^ 64 - 1))
        (filter-idempotent (owner_lives p) a.external)

  -- Counting commands drops the dead owners, which does not change what is eligible.
  eligible-counted :
      (a : ActivityService) (s id : Text) (w : WorkspaceMetadata) (threshold : Option ℕ)
      → idle_after (active_commands p a s id).0 w threshold ≡ idle_after a w threshold
  unfolding active_commands keeps_workspace_running has_active_foreground_job jobs_for_workspace
  eligible-counted a s id w none = refl
  eligible-counted a s id w (some secs) =
      ap
        (λ n.
          not (
            keeps_workspace_running a w.sandbox_id w.id
            || has_active_foreground_job p a w.sandbox_id w.id)
          && is_idle parse_timestamp w secs now n)
        (active_commands-again a s id w.sandbox_id w.id)

  filter-eligible-counted :
      (a : ActivityService) (s id : Text) (ws : List WorkspaceMetadata)
      → filter (eligible (active_commands p a s id).0) ws ≡ filter (eligible a) ws
  filter-eligible-counted a s id [] = refl
  filter-eligible-counted a s id (w ∷ ws) = ground (
    arith,
    filter-eligible-counted a s id ws,
    eligible-counted a s id w (idle_threshold w default_idle_secs),
  )

  idle_each-some :
      (a : ActivityService) (w : WorkspaceMetadata) (ws : List WorkspaceMetadata) (secs : ℕ)
      → idle_threshold w default_idle_secs ≡ some secs
      → (keeps_workspace_running a w.sandbox_id w.id
          || has_active_foreground_job p a w.sandbox_id w.id)
        ≡ false
      → (idle_each parse_timestamp p default_idle_secs now a (w ∷ ws)).1 ≡ (
          if is_idle parse_timestamp w secs now (active_commands p a w.sandbox_id w.id).1
          then w
            ∷ (idle_each parse_timestamp p default_idle_secs now
                (active_commands p a w.sandbox_id w.id).0
                ws).1
          else (idle_each parse_timestamp p default_idle_secs now
              (active_commands p a w.sandbox_id w.id).0
              ws).1)
  unfolding idle_each
  idle_each-some a w ws secs t b = rw (idle_each, t, b) refl

  idle_each-none :
      (a : ActivityService) (w : WorkspaceMetadata) (ws : List WorkspaceMetadata)
      → idle_threshold w default_idle_secs ≡ none
      → idle_each parse_timestamp p default_idle_secs now a (w ∷ ws)
        ≡ idle_each parse_timestamp p default_idle_secs now a ws
  unfolding idle_each
  idle_each-none a w ws t = rw (idle_each, t) refl

  idle_each-busy :
      (a : ActivityService) (w : WorkspaceMetadata) (ws : List WorkspaceMetadata) (secs : ℕ)
      → idle_threshold w default_idle_secs ≡ some secs
      → (keeps_workspace_running a w.sandbox_id w.id
          || has_active_foreground_job p a w.sandbox_id w.id)
        ≡ true
      → idle_each parse_timestamp p default_idle_secs now a (w ∷ ws)
        ≡ idle_each parse_timestamp p default_idle_secs now a ws
  unfolding idle_each
  idle_each-busy a w ws secs t b = rw (idle_each, t, b) refl

  eligible-threshold :
      (a : ActivityService) (w : WorkspaceMetadata) (secs : ℕ) (k : Bool)
      → idle_threshold w default_idle_secs ≡ some secs
      → (keeps_workspace_running a w.sandbox_id w.id
          || has_active_foreground_job p a w.sandbox_id w.id)
        ≡ k
      → eligible a w
        ≡ (not k && is_idle parse_timestamp w secs now (active_commands p a w.sandbox_id w.id).1)
  eligible-threshold a w secs k t b =
      ap (idle_after a w) t
      ∙ ap
          (λ c.
            not c && is_idle parse_timestamp w secs now (active_commands p a w.sandbox_id w.id).1)
          b

  idle_each_lem :
      (a : ActivityService) (ws : List WorkspaceMetadata)
      → (idle_each parse_timestamp p default_idle_secs now a ws).1 ≡ filter (eligible a) ws
  unfolding idle_each
  idle_each_lem a [] = refl
  idle_each_lem a (w ∷ ws) = elim (Option-cases (idle_threshold w default_idle_secs)) [
    | inl t ↦
        ap (λ r. r.1) (idle_each-none a w ws t)
        ∙ idle_each_lem a ws
        ∙ ap (λ b. if b then w ∷ filter (eligible a) ws else filter (eligible a) ws)
            (sym (ap (idle_after a w) t))
    | inr (secs, t) ↦
        let active = (active_commands p a w.sandbox_id w.id) in
        elim (Bool-cases (
          keeps_workspace_running a w.sandbox_id w.id
          || has_active_foreground_job p a w.sandbox_id w.id)) [
            | inl b ↦
                ap (λ r. r.1) (idle_each-busy a w ws secs t b)
                ∙ idle_each_lem a ws
                ∙ ap (λ c. if c then w ∷ filter (eligible a) ws else filter (eligible a) ws)
                    (sym (eligible-threshold a w secs true t b))
            | inr b ↦
                idle_each-some a w ws secs t b
                ∙ ap (λ l. if is_idle parse_timestamp w secs now active.1 then w ∷ l else l)
                    (idle_each_lem active.0 ws ∙ filter-eligible-counted a w.sandbox_id w.id ws)
                ∙ ap (λ c. if c then w ∷ filter (eligible a) ws else filter (eligible a) ws)
                    (sym (eligible-threshold a w secs false t b))
          ]
  ]

-- The candidates of the idle sweep are the workspaces that are eligible by the service as it was
-- before the sweep, sorted by their last activity.
pub idle_candidates_lem :
    (parse_timestamp : Text → Option ℕ) (p : Processes) (registry : List Sandbox)
    (a : ActivityService) (default_idle_secs : Option ℕ) (now : ℕ)
    → (idle_candidates parse_timestamp p registry a default_idle_secs now).1
      ≡ sort_lru parse_timestamp
          (filter (eligible parse_timestamp p default_idle_secs now a) (all_workspaces registry))
unfolding idle_candidates
idle_candidates_lem parse_timestamp p registry a default_idle_secs now =
    ap (sort_lru parse_timestamp)
      (idle_each_lem parse_timestamp p default_idle_secs now a (all_workspaces registry))
