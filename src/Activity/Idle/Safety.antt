-- ===== src/Activity/Idle/Safety.antt =====
-- No workspace is stopped as idle under a request: src/workspace/activity_service.rs.
use enclave.Activity.{
  Processes, ActivityService, workspace_key, or_zero, owner_lives, lease_is_of, job_alive,
  jobs_for_workspace, active_commands, has_active_foreground_job, keeps_workspace_running,
}
use enclave.Activity.Idle.{
  WorkspaceMetadata, Sandbox, runs, all_workspaces, idle_threshold, is_idle, before, insert_lru,
  sort_lru, idle_candidates,
}
use enclave.Activity.Idle.Sweep.{eligible, idle_candidates_lem}
use enclave.Activity.CommandLeases.{
  Event, history, no_requests, on_key, history-IsCounted, no_requests-IsCounted,
}
use enclave.Activity.CommandLeases.Holdings.{history-Holds, no_requests-Holds}
use enclave.Jobs.{JobRecord, is_of, is_background, is_running}
use enclave.Common.{
  ℕ, Bool, true, false, List, [], ◌∷◌, Option, if◌then◌else◌, In, In-of_In-filter, All, All-map,
  any, any-filter, filter, length, not, ◌&&◌, refl, ap, Bool-cases, Text, ◌≡◌, sym, subst, ◌∙◌, inl,
  inr, Option-cases, arith,
}

any-of_length_zero {ℓ} :
    {A : Type ℓ} (p : A → Bool) (xs : List A) → length (filter p xs) ≡ 0 → any p xs ≡ false
any-of_length_zero p [] h = refl
any-of_length_zero p (x ∷ xs) h = ground (arith, h, any-of_length_zero p xs)

any-at_In {ℓ} :
    {A : Type ℓ} (p : A → Bool) (xs : List A) (x : A) → In x xs → p x ≡ true → any p xs ≡ true
any-at_In p [] x m h = absurd m.lower
any-at_In p (y ∷ ys) x (inl e) h = rw (sym (ap p e) ∙ h) refl
any-at_In p (y ∷ ys) x (inr m) h = ground (arith, any-at_In p ys x m h)

-- No member of the first list passes a test where each is one of the second list, where none passes.
any-none {ℓ} :
    {A : Type ℓ} (p q : A → Bool) (ys : List A)
    → any q ys ≡ false
    → (xs : List A) → All (λ x. In x ys × (p x ≡ true → q x ≡ true)) xs
    → any p xs ≡ false
any-none p q ys h [] m = refl
any-none p q ys h (x ∷ xs) m = elim (Bool-cases (p x)) [
  | inl t ↦ absurd (ground (arith, sym (any-at_In q ys x m.0.0 (m.0.1 t)) ∙ h))
  | inr t ↦ rw t (any-none p q ys h xs m.1)
]

-- A job of the workspace keeps it running, or works in it.
abbrev pins : Text → Text → JobRecord → Bool
pins sandbox_id workspace_id j =
    is_of sandbox_id workspace_id j
    && (is_background j.mode && j.keep_running && is_running j.status)

abbrev occupies : Processes → Text → Text → JobRecord → Bool
occupies p sandbox_id workspace_id j =
    is_of sandbox_id workspace_id j
    && (not (is_background j.mode) && is_running j.status && job_alive p j)

module _ (parse_timestamp : Text → Option ℕ) where
  In-of_In-insert_lru :
      (w b : WorkspaceMetadata) (ws : List WorkspaceMetadata)
      → In w (insert_lru parse_timestamp b ws)
      → In w (b ∷ ws)
  In-of_In-insert_lru w b [] h = h
  In-of_In-insert_lru w b (c ∷ cs) h =
      go (before parse_timestamp c b) (In-of_In-insert_lru w b cs) h
    where
      go :
          (t : Bool)
          → (In w (insert_lru parse_timestamp b cs) → In w (b ∷ cs))
          → In w (if t then c ∷ insert_lru parse_timestamp b cs else b ∷ c ∷ cs)
          → In w (b ∷ c ∷ cs)
      go false rec h = h
      go true rec (inl e) = inr (inl e)
      go true rec (inr k) = elim (rec k) [ inl e ↦ inl e | inr m ↦ inr (inr m) ]

  In-of_In-sort_lru :
      (w : WorkspaceMetadata) (ws : List WorkspaceMetadata)
      → In w (sort_lru parse_timestamp ws)
      → In w ws
  In-of_In-sort_lru w [] h = h
  In-of_In-sort_lru w (b ∷ bs) h = elim (In-of_In-insert_lru w b (sort_lru parse_timestamp bs) h) [
    | inl e ↦ inl e
    | inr k ↦ inr (In-of_In-sort_lru w bs k)
  ]

  is_idle-quiet :
      (w : WorkspaceMetadata) (secs now active : ℕ)
      → is_idle parse_timestamp w secs now active ≡ true
      → (active ≡ 0) × (runs w.status ≡ true) × (w.keep_running ≡ false)
  unfolding is_idle
  is_idle-quiet w secs now active h = (ground arith, ground arith, ground arith)

  module _ (p : Processes) (default_idle_secs : Option ℕ) (now : ℕ) (a : ActivityService)
      (w : WorkspaceMetadata) where
    eligible-quiet :
        eligible parse_timestamp p default_idle_secs now a w ≡ true
        → ((active_commands p a w.sandbox_id w.id).1 ≡ 0)
          × (runs w.status ≡ true)
          × (w.keep_running ≡ false)
          × (keeps_workspace_running a w.sandbox_id w.id ≡ false)
          × (has_active_foreground_job p a w.sandbox_id w.id ≡ false)
    eligible-quiet h = elim (Option-cases (idle_threshold w default_idle_secs)) [
      | inl t ↦ absurd (ground (arith, t, h))
      | inr (secs, t) ↦
          let active = (active_commands p a w.sandbox_id w.id).1 in
          let (zero, run, free) = is_idle-quiet w secs now active (ground (arith, t, h)) in
          (zero, run, free, ground (arith, t, h), ground (arith, t, h))
    ]

    -- Where the count is 0, no request and no living process has a lease on the workspace.
    active_commands-zero :
        (active_commands p a w.sandbox_id w.id).1 ≡ 0
        → (or_zero (a.leases (workspace_key w.sandbox_id w.id)) ≡ 0)
          × (any (λ e. owner_lives p e && lease_is_of w.sandbox_id w.id e) a.external ≡ false)
    unfolding active_commands
    active_commands-zero h =
        let outside = filter (owner_lives p) a.external in
        (
          ground (arith, h),
          sym (any-filter (lease_is_of w.sandbox_id w.id) (owner_lives p) a.external)
              ∙ any-of_length_zero (lease_is_of w.sandbox_id w.id) outside (ground (arith, h)),
        )

    keeps-any :
        keeps_workspace_running a w.sandbox_id w.id ≡ false
        → any (pins w.sandbox_id w.id) a.jobs ≡ false
    unfolding keeps_workspace_running jobs_for_workspace
    keeps-any h =
        sym (
          any-filter
            (λ (j : JobRecord). is_background j.mode && j.keep_running && is_running j.status)
            (is_of w.sandbox_id w.id) a.jobs)
        ∙ h

    front-any :
        has_active_foreground_job p a w.sandbox_id w.id ≡ false
        → any (occupies p w.sandbox_id w.id) a.jobs ≡ false
    unfolding has_active_foreground_job jobs_for_workspace
    front-any h =
        sym (
          any-filter
            (λ (j : JobRecord). not (is_background j.mode) && is_running j.status && job_alive p j)
            (is_of w.sandbox_id w.id) a.jobs)
        ∙ h

-- Over any sequence of requests, leases of other processes and jobs that begin, are counted or updated, and
-- end: a workspace that the idle sweep would stop is a running one of the registry that is not pinned. It
-- has no request under way, no lease of a living process that was not given back, no foreground job that
-- was told to run and lives, and no background job that was told to run and to keep it running.
pub idle_candidates-quiet :
    (parse_timestamp : Text → Option ℕ) (p : Processes) (registry : List Sandbox) (es : List Event)
    (default_idle_secs : Option ℕ) (now : ℕ) (w : WorkspaceMetadata)
    → In w
        (idle_candidates parse_timestamp p registry
          (history no_requests es).service
          default_idle_secs
          now).1
    → In w (all_workspaces registry)
      × (runs w.status ≡ true)
      × (w.keep_running ≡ false)
      × (on_key (workspace_key w.sandbox_id w.id) (history no_requests es).held ≡ 0)
      × (any
            (λ e. owner_lives p e && lease_is_of w.sandbox_id w.id e)
            (history no_requests es).outside
          ≡ false)
      × (any
            (λ j. is_of w.sandbox_id w.id j && is_background j.mode && j.keep_running)
            (history no_requests es).working
          ≡ false)
      × (any
            (λ j. is_of w.sandbox_id w.id j && not (is_background j.mode) && job_alive p j)
            (history no_requests es).working
          ≡ false)
idle_candidates-quiet parse_timestamp p registry es default_idle_secs now w h =
    let r = history no_requests es in
    let a = r.service in
    let sorted =
      subst (In w) (idle_candidates_lem parse_timestamp p registry a default_idle_secs now) h in
    let (able, m) =
      In-of_In-filter (eligible parse_timestamp p default_idle_secs now a) (all_workspaces registry)
        w (In-of_In-sort_lru parse_timestamp w _ sorted) in
    let (zero, run, free, keeps, front) =
      eligible-quiet parse_timestamp p default_idle_secs now a w able in
    let v = history-IsCounted no_requests es no_requests-IsCounted in
    let holds = history-Holds no_requests es no_requests-Holds in
    let (none_held, none_outside) =
      active_commands-zero parse_timestamp p default_idle_secs now a w zero in
    (
      m,
      run,
      free,
      sym (v.counted (workspace_key w.sandbox_id w.id)) ∙ none_held,
      any-none _ (λ e. owner_lives p e && lease_is_of w.sandbox_id w.id e) a.external none_outside
          r.outside (All-map (λ e k. (k, λ q. q)) r.outside holds.leases_held),
      any-none _ (pins w.sandbox_id w.id) a.jobs
          (keeps-any parse_timestamp p default_idle_secs now a w keeps) r.working
          (All-map (λ j k. (k.0, λ q. ground (arith, q, k.1))) r.working holds.jobs_held),
      any-none _ (occupies p w.sandbox_id w.id) a.jobs
          (front-any parse_timestamp p default_idle_secs now a w front) r.working
          (All-map (λ j k. (k.0, λ q. ground (arith, q, k.1))) r.working holds.jobs_held),
    )
