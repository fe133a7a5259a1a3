-- ===== src/Cancellation/Locking.antt =====
-- What the markers are once all of them are locked: `lock_command_markers` of src/workspace/cancel.rs.
use enclave.Common.{
  ℕ, ◌≤◌, ◌≡◌, ◌≢◌, refl, sym, ap, subst, ◌∙◌, ◌⊎◌, inl, inr, false, List, [], ◌∷◌, Option, none,
  some, map, arith, Bool-cases, if_elim, All, All-map, In, Text, text_eq, text_eq_iff, text_ltb,
  Result, ok, err, ◌>>=◌, bind-ok, ok-injective, refuse_if, refuse_if-ok, ◌>>◌, leb, if◌then◌else◌,
  get_or,
}
use enclave.Cancellation.{
  CancelError, not_readable, File, missing, unreadable, holds, Files, refused_pid, changed_identity,
  marker_is_live_values, Processes, LockedCommandMarker, insert_path, sort_paths, is_other,
  parse_identity, validate_leader, validate_identity, validated, lock_each,
}

In-insert_path :
    (q path : Text) (qs : List Text) → (q ≡ path) ⊎ In q qs → In q (insert_path path qs)
In-insert_path q path [] h = h
In-insert_path q path (r ∷ qs) h =
    if_elim (In q) (text_ltb r path) _ _
      (λ t. elim h [
        | inl e ↦ inr (In-insert_path q path qs (inl e))
        | inr m ↦ elim m [ inl e ↦ inl e | inr k ↦ inr (In-insert_path q path qs (inr k)) ]
      ])
      (λ t. h)

pub In-sort_paths : (q : Text) (qs : List Text) → In q qs → In q (sort_paths qs)
In-sort_paths q [] h = h
In-sort_paths q (r ∷ qs) (inl e) = In-insert_path q r (sort_paths qs) (inl e)
In-sort_paths q (r ∷ qs) (inr m) = In-insert_path q r (sort_paths qs) (inr (In-sort_paths q qs m))

-- A marker that is locked under a path, with what the file holds.
abbrev pub IsLocked : Files → List LockedCommandMarker → Text → Type 0
IsLocked files ms path =
    (get_or missing files path ≡ missing)
    ⊎ ((m : LockedCommandMarker) × In m ms
        × (m.path ≡ path)
        × (get_or missing files path ≡ holds m.raw))

IsLocked-more :
    (files : Files) (m : LockedCommandMarker) (ms : List LockedCommandMarker) (path : Text)
    → IsLocked files ms path
    → IsLocked files (m ∷ ms) path
IsLocked-more files m ms path (inl e) = inl e
IsLocked-more files m ms path (inr (n, i, named, h)) = inr (n, inr i, named, h)

pub In-of_get_or :
    (files : Files) (path : Text)
    → get_or missing files path ≢ missing
    → In path (map (λ e. e.0) files)
In-of_get_or [] path h = absurd (h refl)
In-of_get_or ((key, file) ∷ files) path h = elim (Bool-cases (text_eq key path)) [
  | inl e ↦ inl (sym ((text_eq_iff key path).0 e))
  | inr e ↦ inr (In-of_get_or files path (λ p. h (rw e p)))
]

-- What a marker has to be for its group to be signalled: it names no other process than the one that
-- published it, which leads its own group, and neither the init process nor the caller's own group.
abbrev pub IsSignallable : Processes → LockedCommandMarker → Type 0
IsSignallable p m =
    (2 ≤ m.helper_pid)
    × (is_other (p.starttime_ticks m.helper_pid) m.helper_starttime_ticks ≡ false)
    × ((p.process_matches m.helper_pid m.helper_starttime_ticks ≡ false)
        ⊎ (p.group_id m.helper_pid ≡ some m.helper_pid))

IsSignallable-of_validated :
    (p : Processes) (m : LockedCommandMarker) (u : Unit {0})
    → validate_identity p m.helper_pid m.helper_starttime_ticks ≡ ok u
    → IsSignallable p m
unfolding validate_identity
IsSignallable-of_validated p m u h =
    let (b, h', h'') = bind-ok (not_init >> same_process) (λ _. leads) u h in
    let (a, refused, other) = bind-ok not_init (λ _. same_process) b h' in
    (
      ground (arith, refuse_if-ok _ _ a refused),
      refuse_if-ok _ _ b other,
      if_elim
          (λ (r : Result CancelError (Unit {0})).
            r ≡ ok u
            → (p.process_matches m.helper_pid m.helper_starttime_ticks ≡ false)
              ⊎ (p.group_id m.helper_pid ≡ some m.helper_pid))
          (p.process_matches m.helper_pid m.helper_starttime_ticks) _ _
          (λ t q. inr (leader (p.group_id m.helper_pid) q)) (λ t q. inl t) h'',
    )
  where
    not_init : Result CancelError (Unit {0})
    not_init = refuse_if (leb m.helper_pid 1) refused_pid

    same_process : Result CancelError (Unit {0})
    same_process =
        refuse_if (is_other (p.starttime_ticks m.helper_pid) m.helper_starttime_ticks)
          changed_identity

    leads : Result CancelError (Unit {0})
    leads =
        if p.process_matches m.helper_pid m.helper_starttime_ticks
        then validate_leader (p.group_id m.helper_pid) m.helper_pid
        else ok tt

    leader :
        (group : Option ℕ) → validate_leader group m.helper_pid ≡ ok u → group ≡ some m.helper_pid
    leader none q = absurd (ground (arith, q))
    leader (some group) q = ground (arith, refuse_if-ok _ _ u q)

module _ (p : Processes) (files : Files) where
  lock_each-missing :
      (path : Text) (paths : List Text)
      → get_or missing files path ≡ missing
      → lock_each p files (path ∷ paths) ≡ lock_each p files paths
  unfolding lock_each
  lock_each-missing path paths e = rw (e, lock_each) refl

  lock_each-unreadable :
      (path : Text) (paths : List Text)
      → get_or missing files path ≡ unreadable
      → lock_each p files (path ∷ paths) ≡ err not_readable
  unfolding lock_each
  lock_each-unreadable path paths e = rw (e, lock_each) refl

  lock_each-holds :
      (path : Text) (paths : List Text) (raw : Text)
      → get_or missing files path ≡ holds raw
      → lock_each p files (path ∷ paths)
        ≡ (validated p path raw >>= λ m. lock_each p files paths >>= λ ms. ok (m ∷ ms))
  unfolding lock_each
  lock_each-holds path paths raw e = rw (e, lock_each) refl

  validated-names :
      (path raw : Text) (m : LockedCommandMarker)
      → validated p path raw ≡ ok m
      → (m.path ≡ path) × (m.raw ≡ raw) × IsSignallable p m
  unfolding validated
  validated-names path raw m h =
      let (identity, i, h') = bind-ok (parse_identity raw) _ m h in
      let (u, v, h'') = bind-ok (validate_identity p identity.0 identity.1) _ m h' in
      let made : LockedCommandMarker = record {
        path = path;
        raw = raw;
        helper_pid = identity.0;
        helper_starttime_ticks = identity.1;
        live = marker_is_live_values p identity.0 identity.1;
      } in
      subst (λ (m : LockedCommandMarker). (m.path ≡ path) × (m.raw ≡ raw) × IsSignallable p m)
        (ok-injective made m h'') (refl, refl, IsSignallable-of_validated p made u v)

  pub lock_each-IsLocked :
      (paths : List Text) (ms : List LockedCommandMarker)
      → lock_each p files paths ≡ ok ms
      → All (IsLocked files ms) paths × All (IsSignallable p) ms
  unfolding lock_each
  lock_each-IsLocked [] ms h =
      (tt, subst (All (IsSignallable p)) (ok-injective {E = CancelError} [] ms h) tt)
  lock_each-IsLocked (path ∷ paths) ms h =
      go (get_or missing files path) refl (λ ms h. lock_each-IsLocked paths ms h)
    where
      go :
          (file : File)
          → get_or missing files path ≡ file
          → ((ms : List LockedCommandMarker)
              → lock_each p files paths ≡ ok ms
              → All (IsLocked files ms) paths × All (IsSignallable p) ms)
          → All (IsLocked files ms) (path ∷ paths) × All (IsSignallable p) ms
      go missing e ih =
          let (locked, good) = ih ms (sym (lock_each-missing path paths e) ∙ h) in
          ((inl e, locked), good)
      go unreadable e ih = absurd (ground (arith, sym (lock_each-unreadable path paths e) ∙ h))
      go (holds raw) e ih =
          let (m, v, h') =
            bind-ok (validated p path raw) _ ms (sym (lock_each-holds path paths raw e) ∙ h) in
          let (ms', r, h'') = bind-ok (lock_each p files paths) _ ms h' in
          let (named, read, good) = validated-names path raw m v in
          let (locked, goods) = ih ms' r in
          subst (λ ms. All (IsLocked files ms) (path ∷ paths) × All (IsSignallable p) ms)
            (ok-injective (m ∷ ms') ms h'')
            (
              (
                inr (m, inl refl, named, e ∙ ap holds (sym read)),
                All-map (λ q. IsLocked-more files m ms' q) paths locked,
              ),
              (good, goods),
            )
