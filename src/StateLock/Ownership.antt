-- ===== src/StateLock/Ownership.antt =====
-- One daemon at a time holds the lock that the path names: src/daemon/state_lock.rs.
use enclave.StateLock.{
  regular, Phase, idle, attempting, opening, opened, locked, writing, held, dropping, removing,
  unlocking, refused, Host, put, move, give_up,
}
use enclave.Common.{ℕ, ◌+◌, Option, none, some, ◌≡◌, arith}

-- The file whose lock a daemon has.
abbrev pub locks : Phase → Option ℕ
locks (locked i n) = some i
locks (writing i) = some i
locks (held i) = some i
locks (dropping i) = some i
locks (removing i) = some i
locks (unlocking i) = some i
locks p = none

-- The file that the path must name while a daemon is there.
abbrev pub guards : Phase → Option ℕ
guards (writing i) = some i
guards (held i) = some i
guards (dropping i) = some i
guards (removing i) = some i
guards p = none

abbrev pub publishes : Phase → Option ℕ
publishes (held i) = some i
publishes (dropping i) = some i
publishes (removing i) = some i
publishes p = none

pub record IsOwned (s : Host) : Type 0 where
  pub owned : (e i : ℕ) → locks (s.phase e) ≡ some i → s.owner i ≡ some e
  pub accounted : (e i : ℕ) → s.owner i ≡ some e → locks (s.phase e) ≡ some i
  pub named : (e i : ℕ) → guards (s.phase e) ≡ some i → s.path ≡ some (regular i)
  pub recorded : (e i : ℕ) → publishes (s.phase e) ≡ some i → s.record_of i ≡ some e

locks_of_guards : (p : Phase) (i : ℕ) → guards p ≡ some i → locks p ≡ some i
locks_of_guards idle i h = absurd (ground arith)
locks_of_guards (attempting n) i h = absurd (ground arith)
locks_of_guards (opening n) i h = absurd (ground arith)
locks_of_guards (opened j n) i h = absurd (ground arith)
locks_of_guards (locked j n) i h = absurd (ground arith)
locks_of_guards (writing j) i h = h
locks_of_guards (held j) i h = h
locks_of_guards (dropping j) i h = h
locks_of_guards (removing j) i h = h
locks_of_guards (unlocking j) i h = absurd (ground arith)
locks_of_guards (refused e) i h = absurd (ground arith)

pub guards_of_publishes : (p : Phase) (i : ℕ) → publishes p ≡ some i → guards p ≡ some i
guards_of_publishes idle i h = absurd (ground arith)
guards_of_publishes (attempting n) i h = absurd (ground arith)
guards_of_publishes (opening n) i h = absurd (ground arith)
guards_of_publishes (opened j n) i h = absurd (ground arith)
guards_of_publishes (locked j n) i h = absurd (ground arith)
guards_of_publishes (writing j) i h = absurd (ground arith)
guards_of_publishes (held j) i h = h
guards_of_publishes (dropping j) i h = h
guards_of_publishes (removing j) i h = h
guards_of_publishes (unlocking j) i h = absurd (ground arith)
guards_of_publishes (refused e) i h = absurd (ground arith)

-- Two daemons whose phases guard the path are one.
pub guards_unique :
    (s : Host) (d e i j : ℕ)
    → IsOwned s
    → guards (s.phase d) ≡ some i
    → guards (s.phase e) ≡ some j
    → d ≡ e
guards_unique s d e i j v h k = ground (
  arith,
  v.named d i h,
  v.named e j k,
  v.owned d i (locks_of_guards (s.phase d) i h),
  v.owned e j (locks_of_guards (s.phase e) j k),
)

-- A step of `d` that keeps the locks.
pub move-IsOwned :
    (s : Host) (d : ℕ) (p : Phase)
    → locks (s.phase d) ≡ locks p
    → ((i : ℕ) → guards p ≡ some i → s.path ≡ some (regular i))
    → ((i : ℕ) → publishes p ≡ some i → s.record_of i ≡ some d)
    → IsOwned s
    → IsOwned (move s d p)
move-IsOwned s d p same g r v = record {
  owned = λ e i h. ground (arith, v.owned e i, v.owned d i);
  accounted = λ e i h. ground (arith, v.accounted e i, v.accounted d i);
  named = λ e i h. ground (arith, v.named e i, g i);
  recorded = λ e i h. ground (arith, v.recorded e i, r i);
}

pub give_up-IsOwned :
    (s : Host) (d i : ℕ) (p : Phase)
    → locks (s.phase d) ≡ some i
    → locks p ≡ none
    → guards p ≡ none
    → publishes p ≡ none
    → IsOwned s
    → IsOwned (give_up s d i p)
give_up-IsOwned s d i p has l g r v = record {
  owned = λ e j h. ground (arith, v.owned e j, v.owned d i has);
  accounted = λ e j h. ground (arith, v.accounted e j, v.accounted d j);
  named = λ e j h. ground (arith, v.named e j);
  recorded = λ e j h. ground (arith, v.recorded e j);
}

pub take_lock-IsOwned :
    (s : Host) (d i n : ℕ)
    → s.phase d ≡ opened i n
    → s.owner i ≡ none
    → IsOwned s
    → IsOwned (record (move s d (locked i n)) { owner = put s.owner i (some d) })
take_lock-IsOwned s d i n q free v = record {
  owned = λ e j h. ground (arith, v.owned e j);
  accounted = λ e j h. ground (arith, v.accounted e j);
  named = λ e j h. ground (arith, v.named e j);
  recorded = λ e j h. ground (arith, v.recorded e j);
}

pub create-IsOwned :
    (s : Host) (d n : ℕ)
    → s.phase d ≡ opening n
    → s.path ≡ none
    → IsOwned s
    → IsOwned (record (move s d (opened s.next_file n)) {
      path = some (regular s.next_file);
      next_file = s.next_file + 1;
    })
create-IsOwned s d n q gone v = record {
  owned = λ e j h. ground (arith, v.owned e j);
  accounted = λ e j h. ground (arith, v.accounted e j);
  named = λ e j h. ground (arith, v.named e j);
  recorded = λ e j h. ground (arith, v.recorded e j);
}

pub remove-IsOwned :
    (s : Host) (d i : ℕ)
    → s.phase d ≡ removing i
    → IsOwned s
    → IsOwned (record (move s d (unlocking i)) { path = none })
remove-IsOwned s d i q v = record {
  owned = λ e j h. ground (arith, v.owned e j, v.owned d j);
  accounted = λ e j h. ground (arith, v.accounted e j, v.accounted d j);
  named = λ e j h. ground (arith, guards_unique s d e i j v);
  recorded = λ e j h. ground (arith, v.recorded e j);
}

pub write_record-IsOwned :
    (s : Host) (d i : ℕ)
    → s.phase d ≡ writing i
    → IsOwned s
    → IsOwned (record (move s d (held i)) { record_of = put s.record_of i (some d) })
write_record-IsOwned s d i q v = record {
  owned = λ e j h. ground (arith, v.owned e j, v.owned d j);
  accounted = λ e j h. ground (arith, v.accounted e j, v.accounted d j);
  named = λ e j h. ground (arith, v.named e j, v.named d j);
  recorded = λ e j h.
      ground (arith, v.recorded e j, guards_unique s d e i j v, guards_of_publishes (s.phase e) j);
}

-- A step of `d` to a phase that guards nothing.
pub unguarded-IsOwned :
    (s : Host) (d : ℕ) (p : Phase)
    → locks (s.phase d) ≡ locks p
    → guards p ≡ none
    → IsOwned s
    → IsOwned (move s d p)
unguarded-IsOwned s d p same g v =
    move-IsOwned s d p same (λ i h. ground arith) (λ i h. ground (arith, guards_of_publishes p i h))
      v
