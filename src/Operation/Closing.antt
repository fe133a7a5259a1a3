-- ===== src/Operation/Closing.antt =====
-- What a start of the daemon closes: src/operation/store.rs.
use enclave.Common.{
  ◌≡◌, refl, sym, ap, subst, ◌∙◌, inl, inr, Bool, true, false, List, [], ◌∷◌, ◌++◌, Option, none,
  some, arith, Bool-cases, if◌then◌else◌, All, Text, text_eq, text_eq_iff, text_eq_refl, Result, ok,
  err, get_or, get_or-put, get_or-put_other, put, LacksKey, HasDistinctKeys,
}
use enclave.Operation.{
  OperationRecord, is_open, fail_record, JournalError, Files, persist_record, entries, close_each,
  close_unfinished_records,
}

-- The record after a start: an open one has failed for the reason, any other is as it was.
abbrev pub closed_record : (Text → Text) → Text → Option OperationRecord → Option OperationRecord
closed_record now reason none = none
closed_record now reason (some r) =
    if is_open r.status then some (fail_record r reason (now r.id)) else some r

-- Every record is in the file that its id names.
abbrev pub IsFiled : Text × Option OperationRecord → Type 0
IsFiled (path, none) = Unit
IsFiled (path, some r) = r.id ≡ path

abbrev closed_files : (Text → Text) → Text → Files → Files
closed_files now reason [] = []
closed_files now reason ((path, o) ∷ rest) =
    (path, closed_record now reason o) ∷ closed_files now reason rest

module _ (now : Text → Text) (reason : Text) where
  -- The entries that are left are those of the directory.
  Same : Files → Files → Type 0
  Same files rest = All (λ e. get_or none files e.0 ≡ e.1) rest

  Same-put :
      (files rest : Files) (path : Text) (o : Option OperationRecord)
      → LacksKey path rest
      → Same files rest
      → Same (put files path o) rest
  unfolding Same
  Same-put files [] path o l h = tt
  Same-put files ((k, v) ∷ rest) path o l h =
      let ne : text_eq path k ≡ false =
        ground (arith, text_eq_iff k path, text_eq_iff path k, l.0) in
      (get_or-put_other none files path k o ne ∙ h.0, Same-put files rest path o l.1 h.1)

  closed_files-lacks :
      (rest : Files) (path : Text) (d : Option OperationRecord)
      → LacksKey path rest
      → get_or d (closed_files now reason rest) path ≡ d
  closed_files-lacks [] path d l = refl
  closed_files-lacks ((k, v) ∷ rest) path d l = rw l.0 (closed_files-lacks rest path d l.1)

  -- The entry in front that stays as the directory has it.
  as_it_was :
      (files rest : Files) (k path : Text) (o : Option OperationRecord)
      → LacksKey k rest
      → get_or none files k ≡ o
      → get_or (get_or none files path) (closed_files now reason rest) path ≡ (
          if text_eq k path
          then o
          else get_or (get_or none files path) (closed_files now reason rest) path)
  as_it_was files rest k path o l h = elim (Bool-cases (text_eq k path)) [
    | inl t ↦ rw t (
        subst (λ p. get_or (get_or none files p) (closed_files now reason rest) p ≡ o)
          ((text_eq_iff k path).0 t) (closed_files-lacks rest k (get_or none files k) l ∙ h))
    | inr t ↦ rw t refl
  ]

  -- The entry in front that is written.
  as_written :
      (files rest : Files) (k id path : Text) (o : Option OperationRecord)
      → LacksKey k rest
      → id ≡ k
      → get_or (get_or none (put files id o) path) (closed_files now reason rest) path ≡ (
          if text_eq k path
          then o
          else get_or (get_or none files path) (closed_files now reason rest) path)
  as_written files rest k id path o l e = elim (Bool-cases (text_eq k path)) [
    | inl t ↦
        rw (e, t)
          (subst (λ p. get_or (get_or none (put files k o) p) (closed_files now reason rest) p ≡ o)
            ((text_eq_iff k path).0 t)
            (closed_files-lacks rest k (get_or none (put files k o) k) l
              ∙ get_or-put none files k o))
    | inr t ↦ rw (e, t, get_or-put_other none files k path o t) refl
  ]

  -- The result of the loop, for any entries that are left.
  Closes : (Text → Bool) → Files → List Text → Files → Type 0
  Closes writable files closed rest =
      (path : Text)
      → get_or none (close_each writable now reason files closed rest).0 path
        ≡ get_or (get_or none files path) (closed_files now reason rest) path

  close_each-open :
      (writable : Text → Bool) (files : Files) (closed : List Text) (rest : Files) (k : Text)
      (r : OperationRecord)
      → is_open r.status ≡ true
      → writable r.id ≡ true
      → close_each writable now reason files closed ((k, some r) ∷ rest)
        ≡ close_each writable now reason
            (put files r.id (some (fail_record r reason (now r.id))))
            (closed ++ r.id ∷ [])
            rest
  unfolding close_each
  close_each-open writable files closed rest k r t w =
      rw (close_each, t)
        (ap
          (λ (q : Files × Result JournalError (Unit {0})). elim q.1 [
            | ok u ↦ close_each writable now reason q.0 (closed ++ r.id ∷ []) rest
            | err e ↦ (q.0, err e)
          ])
          written)
    where
      written :
          persist_record writable files (fail_record r reason (now r.id))
          ≡ (put files r.id (some (fail_record r reason (now r.id))), ok tt)
      written = rw w refl

  close_each-terminal :
      (writable : Text → Bool) (files : Files) (closed : List Text) (rest : Files) (k : Text)
      (r : OperationRecord)
      → is_open r.status ≡ false
      → close_each writable now reason files closed ((k, some r) ∷ rest)
        ≡ close_each writable now reason files closed rest
  unfolding close_each
  close_each-terminal writable files closed rest k r t = rw (close_each, t) refl

  close_each-Closes :
      (writable : Text → Bool) (files : Files) (closed : List Text) (rest : Files)
      → ((id : Text) → writable id ≡ true)
      → All IsFiled rest
      → HasDistinctKeys rest
      → Same files rest
      → Closes writable files closed rest
  unfolding Closes Same close_each
  close_each-Closes writable files closed [] w f d h path = refl
  close_each-Closes writable files closed ((k, none) ∷ rest) w f d h path =
      close_each-Closes writable files closed rest w f.1 d.1 h.1 path
      ∙ as_it_was files rest k path none d.0 h.0
  close_each-Closes writable files closed ((k, some r) ∷ rest) w f d h path =
      elim (Bool-cases (is_open r.status)) [
        | inl t ↦
            let files' = put files r.id (some (fail_record r reason (now r.id))) in
            let same =
              subst (λ p. Same (put files p (some (fail_record r reason (now r.id)))) rest)
                (sym f.0)
                (Same-put files rest k (some (fail_record r reason (now r.id))) d.0 h.1) in
            ap (λ (x : Files × Result JournalError (List Text)). get_or none x.0 path)
              (close_each-open writable files closed rest k r t (w r.id))
            ∙ rw t (
                close_each-Closes writable files' (closed ++ r.id ∷ []) rest w f.1 d.1 same path
                ∙ as_written files rest k r.id path (some (fail_record r reason (now r.id))) d.0
                    f.0)
        | inr t ↦
            ap (λ (x : Files × Result JournalError (List Text)). get_or none x.0 path)
              (close_each-terminal writable files closed rest k r t)
            ∙ rw t (
                close_each-Closes writable files closed rest w f.1 d.1 h.1 path
                ∙ as_it_was files rest k path (some r) d.0 h.0)
      ]

  Same-cons :
      (files rest : Files) (k : Text) (v : Option OperationRecord)
      → LacksKey k rest
      → Same files rest
      → Same ((k, v) ∷ files) rest
  unfolding Same
  Same-cons files [] k v l h = tt
  Same-cons files ((k', v') ∷ rest) k v l h =
      let ne : text_eq k k' ≡ false = ground (arith, text_eq_iff k k', text_eq_iff k' k, l.0) in
      (rw ne h.0, Same-cons files rest k v l.1 h.1)

  Same-whole : (files : Files) → HasDistinctKeys files → Same files files
  unfolding Same
  Same-whole [] d = tt
  Same-whole ((k, v) ∷ rest) d =
      (rw (text_eq_refl k) refl, Same-cons rest rest k v d.0 (Same-whole rest d.1))

  closed_files-get_or :
      (files : Files) (path : Text) (o : Option OperationRecord)
      → o ≡ get_or none files path
      → get_or o (closed_files now reason files) path ≡ closed_record now reason o
  closed_files-get_or [] path o e = rw e refl
  closed_files-get_or ((k, v) ∷ rest) path o e = elim (Bool-cases (text_eq k path)) [
    | inl t ↦ rw t (ap (closed_record now reason) (sym (e ∙ rw t refl)))
    | inr t ↦ rw t (closed_files-get_or rest path o (e ∙ rw t refl))
  ]

-- With every record in the file that its id names, and writes that succeed, a start of the daemon leaves
-- no record open: those that were planned or running have failed for the given reason, and every other
-- file is as it was.
pub close_unfinished_records-closes :
    (writable : Text → Bool) (now : Text → Text) (reason : Text) (files : Files) (path : Text)
    → ((id : Text) → writable id ≡ true)
    → HasDistinctKeys files
    → All IsFiled files
    → get_or none (close_unfinished_records writable now reason files (entries files)).0 path
      ≡ closed_record now reason (get_or none files path)
unfolding close_unfinished_records Closes
close_unfinished_records-closes writable now reason files path w d f =
    close_each-Closes now reason writable files [] files w f d (Same-whole now reason files d) path
    ∙ closed_files-get_or now reason files path (get_or none files path) refl
