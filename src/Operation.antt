-- ===== src/Operation.antt =====
-- The operation journal: src/operation/record.rs, src/operation/journal.rs, src/operation/store.rs and
-- src/operation/current.rs. The directory is a map from the stem of a file's name to its record, or to
-- nothing where the file is no record; files that are not `.json` are in no map. What the file system
-- does, the clock and fresh ids are parameters.
pub mod Closing
pub mod Pruning
pub mod Latest
mod Tests
use enclave.Common.{
  ℕ, ◌+◌, Bool, true, false, not, List, [], ◌∷◌, ◌++◌, Option, none, some, leb, if◌then◌else◌,
  length, Text, codes, text_ltb, Result, ok, err, ◌>>=◌, get_or, put, remove,
}

pub data OperationStatus : Type 0 where
  planned : OperationStatus
  running : OperationStatus
  succeeded : OperationStatus
  failed : OperationStatus

pub record OperationRecord : Type 0 where
  pub id : Text
  pub kind : Text
  pub target : Text
  pub status : OperationStatus
  pub phase : Text
  pub started_at : Text
  pub updated_at : Text
  pub error : Option Text

-- `matches!(status, Planned | Running)`.
abbrev pub is_open : OperationStatus → Bool
is_open planned = true
is_open running = true
is_open succeeded = false
is_open failed = false

-- `OperationRecord::new` with the fresh id and the time.
abbrev pub new_record : Text → Text → Text → Text → OperationRecord
new_record id now kind target = record {
  id = id;
  kind = kind;
  target = target;
  status = planned;
  phase = codes "planned";
  started_at = now;
  updated_at = now;
  error = none;
}

abbrev pub begin_record : OperationRecord → Text → Text → OperationRecord
begin_record r phase now = record r {
  status = running;
  phase = phase;
  updated_at = now;
  error = none;
}

abbrev pub phase_record : OperationRecord → Text → Text → OperationRecord
phase_record r phase now = record r { phase = phase; updated_at = now }

abbrev pub succeed_record : OperationRecord → Text → OperationRecord
succeed_record r now = record r {
  status = succeeded;
  phase = codes "complete";
  updated_at = now;
  error = none;
}

abbrev pub fail_record : OperationRecord → Text → Text → OperationRecord
fail_record r error now = record r {
  status = failed;
  phase = codes "failed";
  updated_at = now;
  error = some error;
}

-- `record_for`: the id of the request that the thread serves, if there is one.
abbrev pub record_for : Option Text → Text → Text → Text → Text → OperationRecord
record_for none fresh now kind target = new_record fresh now kind target
record_for (some id) fresh now kind target = record (new_record fresh now kind target) { id = id }

pub data JournalError : Type 0 where
  not_created : JournalError
  not_persisted : JournalError
  not_readable : JournalError
  not_removed : JournalError

abbrev pub Files : Type 0
Files = List (Text × Option OperationRecord)

-- What a write does: it replaces the file, or leaves it and fails.
abbrev pub persist_record :
    (Text → Bool) → Files → OperationRecord → Files × Result JournalError (Unit {0})
persist_record writable files r =
    if writable r.id then (put files r.id (some r), ok tt) else (files, err not_persisted)

-- A journal holds the record that it last wrote, or tried to.
pub record Journal : Type 0 where
  pub entry : OperationRecord

abbrev with_journal :
    OperationRecord → Files × Result JournalError (Unit {0}) → Files × Result JournalError Journal
with_journal r (files, result) = (files, result >>= λ _. ok (record { entry = r }))

pub begin :
    (Text → Bool)
    → Bool
    → Option Text
    → Text
    → Text
    → Text
    → Text
    → Files
    → Files × Result JournalError Journal
begin writable created current fresh now kind target files =
    if created
    then (let r = begin_record (record_for current fresh now kind target) (codes "starting") now in
        with_journal r (persist_record writable files r))
    else (files, err not_created)

pub phase :
    (Text → Bool) → Journal → Text → Text → Files → Files × Journal × Result JournalError (Unit {0})
phase writable j name now files =
    let r = phase_record j.entry name now in
    let (files', result) = persist_record writable files r in (files', record { entry = r }, result)

abbrev with_record :
    OperationRecord
    → Files × Result JournalError (Unit {0})
    → Files × Result JournalError OperationRecord
with_record r (files, result) = (files, result >>= λ _. ok r)

pub succeed : (Text → Bool) → Journal → Text → Files → Files × Result JournalError OperationRecord
succeed writable j now files =
    let r = succeed_record j.entry now in with_record r (persist_record writable files r)

pub fail :
    (Text → Bool) → Journal → Text → Text → Files → Files × Result JournalError OperationRecord
fail writable j error now files =
    let r = fail_record j.entry error now in with_record r (persist_record writable files r)

pub load : Files → Text → Result JournalError OperationRecord
load files id = elim (get_or none files id) [ none ↦ err not_readable | some r ↦ ok r ]

-- What `read_dir` gives.
pub data Listing : Type 0 where
  entries : Files → Listing
  not_found : Listing
  unreadable : Listing

-- The loop of `close_unfinished_records`; the time is that of the record's own write.
pub close_each :
    (Text → Bool)
    → (Text → Text)
    → Text
    → Files
    → List Text
    → Files
    → Files × Result JournalError (List Text)
close_each writable now reason files closed [] = (files, ok closed)
close_each writable now reason files closed ((path, none) ∷ rest) =
    close_each writable now reason files closed rest
close_each writable now reason files closed ((path, some r) ∷ rest) = elim (is_open r.status) [
  | false ↦ close_each writable now reason files closed rest
  | true ↦
      let (files', result) = persist_record writable files (fail_record r reason (now r.id)) in
      elim result [
        | ok u ↦ close_each writable now reason files' (closed ++ r.id ∷ []) rest
        | err e ↦ (files', err e)
      ]
]

pub close_unfinished_records :
    (Text → Bool) → (Text → Text) → Text → Files → Listing → Files × Result JournalError (List Text)
unfolding close_each
close_unfinished_records writable now reason files not_found = (files, ok [])
close_unfinished_records writable now reason files unreadable = (files, err not_readable)
close_unfinished_records writable now reason files (entries listed) =
    close_each writable now reason files [] listed

abbrev pub journal_terminal_limit : ℕ
journal_terminal_limit = 1000

-- The time and the path of every terminal record.
abbrev pub terminal_records : Files → List (Text × Text)
terminal_records [] = []
terminal_records ((path, none) ∷ rest) = terminal_records rest
terminal_records ((path, some r) ∷ rest) =
    if is_open r.status then terminal_records rest else (r.updated_at, path) ∷ terminal_records rest

-- `sort_by` on the time, newest first, which keeps the order of equal times.
abbrev pub insert_newest : Text × Text → List (Text × Text) → List (Text × Text)
insert_newest e [] = e ∷ []
insert_newest e (f ∷ es) = if text_ltb e.0 f.0 then f ∷ insert_newest e es else e ∷ f ∷ es

abbrev pub sort_newest : List (Text × Text) → List (Text × Text)
sort_newest [] = []
sort_newest (e ∷ es) = insert_newest e (sort_newest es)

abbrev pub skip {ℓ} : {A : Type ℓ} → ℕ → List A → List A
skip ℕ.zero xs = xs
skip (ℕ.suc n) [] = []
skip (ℕ.suc n) (x ∷ xs) = skip n xs

-- What `remove_file` answers.
pub data Removal : Type 0 where
  removed : Removal
  gone : Removal
  refused : Removal

pub remove_each : (Text → Removal) → Files → ℕ → List (Text × Text) → Files × Result JournalError ℕ
remove_each remove_file files count [] = (files, ok count)
remove_each remove_file files count ((at, path) ∷ rest) = elim (remove_file path) [
  | removed ↦ remove_each remove_file (remove files path) (count + 1) rest
  | gone ↦ remove_each remove_file (remove files path) count rest
  | refused ↦ (files, err not_removed)
]

-- What goes of the terminal records: nothing inside the limit, and all but the newest past it.
pub past_limit : ℕ → List (Text × Text) → List (Text × Text)
past_limit limit terminal =
    if leb (length terminal) limit then [] else skip limit (sort_newest terminal)

-- Pruning to a limit.
pub prune_past : ℕ → (Text → Removal) → Files → Listing → Files × Result JournalError ℕ
unfolding remove_each
prune_past limit remove_file files not_found = (files, ok 0)
prune_past limit remove_file files unreadable = (files, err not_readable)
prune_past limit remove_file files (entries listed) =
    remove_each remove_file files 0 (past_limit limit (terminal_records listed))

pub prune_terminal_records : (Text → Removal) → Files → Listing → Files × Result JournalError ℕ
unfolding prune_past
prune_terminal_records remove_file files listing =
    prune_past journal_terminal_limit remove_file files listing

abbrev pub newer : Option OperationRecord → OperationRecord → Bool
newer none r = true
newer (some current) r = text_ltb current.updated_at r.updated_at

abbrev pub latest_of : Option OperationRecord → Files → Option OperationRecord
latest_of best [] = best
latest_of best ((path, none) ∷ rest) = latest_of best rest
latest_of best ((path, some r) ∷ rest) = latest_of (if newer best r then some r else best) rest

pub latest : Listing → Result JournalError (Option OperationRecord)
latest not_found = ok none
latest unreadable = err not_readable
latest (entries listed) = ok (latest_of none listed)
