-- ===== src/StateLock.antt =====
-- The lock on a state directory: src/daemon/state_lock.rs.
-- A file is known by one number, for its device and inode; a file that is made gets a number that
-- no file had. The daemons are numbered; each runs `acquire_state_lock` and the drop of the lock one
-- system call at a time, in any interleaving. `flock` is that of Linux: at most one owner of a
-- file, and closing the file gives the lock up. The calls that write the record (set the length,
-- seek, write, sync) count as one, under the lock. The text of the record is its daemon's number.
pub mod Ownership
pub mod Calls
pub mod Failures
pub mod Exclusion
pub mod Startup
mod Tests
use enclave.Common.{ℕ, ◌+◌, Option, none, some, List, [], ◌∷◌, ◌==◌, if◌then◌else◌}

-- What the path of the lock file names.
pub data Entry : Type 0 where
  regular : ℕ → Entry
  -- a directory, a link or another thing that is no regular file
  other : Entry

pub data LockError : Type 0 where
  not_regular : LockError
  -- the record read from the file names the owner, where there is one
  already_owned : Option ℕ → LockError
  kept_replaced : LockError
  io_failed : LockError

-- Where a daemon stands in `acquire_state_lock` and in the drop of a `StateLock`.
pub data Phase : Type 0 where
  idle : Phase
  -- at the top of the loop, with this many attempts left
  attempting : ℕ → Phase
  -- the path is not something that is refused
  opening : ℕ → Phase
  -- the file is open
  opened : ℕ → ℕ → Phase
  -- the lock on the open file is taken
  locked : ℕ → ℕ → Phase
  -- the path names the locked file
  writing : ℕ → Phase
  -- the call has returned the `StateLock`
  held : ℕ → Phase
  -- the drop of the `StateLock` has begun
  dropping : ℕ → Phase
  -- the path was seen to name the locked file
  removing : ℕ → Phase
  unlocking : ℕ → Phase
  refused : LockError → Phase

pub record Host : Type 0 where
  pub path : Option Entry
  pub next_file : ℕ
  -- who holds the lock on a file
  pub owner : ℕ → Option ℕ
  -- whose record a file has
  pub record_of : ℕ → Option ℕ
  pub phase : ℕ → Phase

abbrev pub acquire_attempts : ℕ
acquire_attempts = 4

abbrev pub put {ℓ} : {A : Type ℓ} → (ℕ → A) → ℕ → A → ℕ → A
put f k v x = if x == k then v else f x

abbrev pub move : Host → ℕ → Phase → Host
move s d p = record s { phase = put s.phase d p }

-- The file is closed, and its lock with it.
abbrev pub give_up : Host → ℕ → ℕ → Phase → Host
give_up s d i p = record (move s d p) { owner = put s.owner i none }

-- The stat of the path before the open.
abbrev pub stat_path : Host → ℕ → ℕ → Option Entry → Host
stat_path s d n (some other) = move s d (refused not_regular)
stat_path s d n _ = move s d (opening n)

-- The open, which creates a missing file, and the check that it is a regular one.
abbrev pub open_file : Host → ℕ → ℕ → Option Entry → Host
open_file s d n (some other) = move s d (refused not_regular)
open_file s d n (some (regular i)) = move s d (opened i n)
open_file s d n none = record (move s d (opened s.next_file n)) {
  path = some (regular s.next_file);
  next_file = s.next_file + 1;
}

-- `flock(LOCK_EX | LOCK_NB)`.
abbrev pub take_lock : Host → ℕ → ℕ → ℕ → Option ℕ → Host
take_lock s d i n none = record (move s d (locked i n)) { owner = put s.owner i (some d) }
take_lock s d i n (some e) = move s d (refused (already_owned (s.record_of i)))

-- The lock counts where the path still names the locked file, and `continue` otherwise.
abbrev pub confirm : Host → ℕ → ℕ → ℕ → Option Entry → Host
confirm s d i n (some (regular j)) =
    if j == i then move s d (writing i) else give_up s d i (attempting n)
confirm s d i n _ = give_up s d i (attempting n)

-- The truncation, the write and the sync are one call; one that fails leaves the record that was there.
abbrev pub write_record : Host → ℕ → ℕ → Host
write_record s d i = record (move s d (held i)) { record_of = put s.record_of i (some d) }

-- The stat of the path in the drop.
abbrev pub stat_before_removal : Host → ℕ → ℕ → Option Entry → Host
stat_before_removal s d i (some (regular j)) =
    if j == i then move s d (removing i) else move s d (unlocking i)
stat_before_removal s d i _ = move s d (unlocking i)

-- The next system call of a daemon.
pub call : Host → ℕ → Phase → Host
call s d idle = s
call s d (attempting ℕ.zero) = move s d (refused kept_replaced)
call s d (attempting (ℕ.suc n)) = stat_path s d n s.path
call s d (opening n) = open_file s d n s.path
call s d (opened i n) = take_lock s d i n (s.owner i)
call s d (locked i n) = confirm s d i n s.path
call s d (writing i) = write_record s d i
call s d (held i) = s
call s d (dropping i) = stat_before_removal s d i s.path
call s d (removing i) = record (move s d (unlocking i)) { path = none }
call s d (unlocking i) = give_up s d i idle
call s d (refused e) = s

-- The next system call of a daemon fails. `acquire_state_lock` returns the error; the drop goes on.
pub fail : Host → ℕ → Phase → Host
fail s d idle = s
fail s d (attempting n) = move s d (refused io_failed)
fail s d (opening n) = move s d (refused io_failed)
fail s d (opened i n) = move s d (refused (already_owned (s.record_of i)))
fail s d (locked i n) = give_up s d i (refused io_failed)
fail s d (writing i) = give_up s d i (refused io_failed)
fail s d (held i) = s
fail s d (dropping i) = move s d (unlocking i)
fail s d (removing i) = move s d (unlocking i)
fail s d (unlocking i) = give_up s d i idle
fail s d (refused e) = s

pub start : Host → ℕ → Phase → Host
start s d idle = move s d (attempting acquire_attempts)
start s d (refused e) = move s d (attempting acquire_attempts)
start s d p = s

pub begin_drop : Host → ℕ → Phase → Host
begin_drop s d (held i) = move s d (dropping i)
begin_drop s d p = s

-- The process dies: its files close.
pub crash : Host → ℕ → Phase → Host
crash s d (locked i n) = give_up s d i idle
crash s d (writing i) = give_up s d i idle
crash s d (held i) = give_up s d i idle
crash s d (dropping i) = give_up s d i idle
crash s d (removing i) = give_up s d i idle
crash s d (unlocking i) = give_up s d i idle
crash s d p = move s d idle

pub data Event : Type 0 where
  starts : ℕ → Event
  calls : ℕ → Event
  fails : ℕ → Event
  drops : ℕ → Event
  crashes : ℕ → Event

pub step : Host → Event → Host
unfolding call fail start begin_drop crash
step s (starts d) = start s d (s.phase d)
step s (calls d) = call s d (s.phase d)
step s (fails d) = fail s d (s.phase d)
step s (drops d) = begin_drop s d (s.phase d)
step s (crashes d) = crash s d (s.phase d)

pub history : Host → List Event → Host
unfolding step
history s [] = s
history s (e ∷ es) = history (step s e) es

-- No daemon runs; a lock file may be left over, with a record.
pub at_rest : Option Entry → ℕ → (ℕ → Option ℕ) → Host
at_rest entry next_file records = record {
  path = entry;
  next_file = next_file;
  owner = λ i. none;
  record_of = records;
  phase = λ d. idle;
}
