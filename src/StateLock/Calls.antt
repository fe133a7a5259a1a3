-- ===== src/StateLock/Calls.antt =====
-- Each system call keeps the lock with its owner: src/daemon/state_lock.rs.
use enclave.StateLock.{
  Entry, regular, other, Phase, idle, attempting, opening, opened, locked, writing, held, dropping,
  removing, unlocking, refused, Host, stat_path, open_file, take_lock, confirm, stat_before_removal,
  call,
}
use enclave.Common.{ℕ, Option, none, some, ◌==◌, ◌≡◌, refl, inl, inr, Bool-cases, arith}
use enclave.StateLock.Ownership.{
  locks, IsOwned, move-IsOwned, give_up-IsOwned, take_lock-IsOwned, create-IsOwned, remove-IsOwned,
  write_record-IsOwned, unguarded-IsOwned,
}

stat_path-IsOwned :
    (s : Host) (d n : ℕ) (entry : Option Entry)
    → locks (s.phase d) ≡ none
    → IsOwned s
    → IsOwned (stat_path s d n entry)
stat_path-IsOwned s d n none q v = unguarded-IsOwned s d _ q refl v
stat_path-IsOwned s d n (some (regular i)) q v = unguarded-IsOwned s d _ q refl v
stat_path-IsOwned s d n (some other) q v = unguarded-IsOwned s d _ q refl v

open_file-IsOwned :
    (s : Host) (d n : ℕ) (entry : Option Entry)
    → s.phase d ≡ opening n
    → s.path ≡ entry
    → IsOwned s
    → IsOwned (open_file s d n entry)
open_file-IsOwned s d n none q e v = create-IsOwned s d n q e v
open_file-IsOwned s d n (some (regular i)) q e v = unguarded-IsOwned s d _ (ground arith) refl v
open_file-IsOwned s d n (some other) q e v = unguarded-IsOwned s d _ (ground arith) refl v

flock-IsOwned :
    (s : Host) (d i n : ℕ) (o : Option ℕ)
    → s.phase d ≡ opened i n
    → s.owner i ≡ o
    → IsOwned s
    → IsOwned (take_lock s d i n o)
flock-IsOwned s d i n none q e v = take_lock-IsOwned s d i n q e v
flock-IsOwned s d i n (some a) q e v = unguarded-IsOwned s d _ (ground arith) refl v

confirm-IsOwned :
    (s : Host) (d i n : ℕ) (entry : Option Entry)
    → s.phase d ≡ locked i n
    → s.path ≡ entry
    → IsOwned s
    → IsOwned (confirm s d i n entry)
confirm-IsOwned s d i n none q e v = give_up-IsOwned s d i _ (ground arith) refl refl refl v
confirm-IsOwned s d i n (some other) q e v = give_up-IsOwned s d i _ (ground arith) refl refl refl v
confirm-IsOwned s d i n (some (regular j)) q e v =
    let same = move-IsOwned s d (writing i) (ground arith) in
    let differ = give_up-IsOwned s d i (attempting n) (ground arith) refl refl refl v in
    elim (Bool-cases (j == i)) [
      | inl t ↦ rw t (same (λ k h. ground arith) (λ k h. ground arith) v)
      | inr t ↦ rw t differ
    ]

stat_before_removal-IsOwned :
    (s : Host) (d i : ℕ) (entry : Option Entry)
    → s.phase d ≡ dropping i
    → s.path ≡ entry
    → IsOwned s
    → IsOwned (stat_before_removal s d i entry)
stat_before_removal-IsOwned s d i none q e v = unguarded-IsOwned s d _ (ground arith) refl v
stat_before_removal-IsOwned s d i (some other) q e v = unguarded-IsOwned s d _ (ground arith) refl v
stat_before_removal-IsOwned s d i (some (regular j)) q e v =
    let same = move-IsOwned s d (removing i) (ground arith) in
    elim (Bool-cases (j == i)) [
      | inl t ↦
          rw t (same (λ k h. ground (arith, v.named d k)) (λ k h. ground (arith, v.recorded d k)) v)
      | inr t ↦ rw t (unguarded-IsOwned s d _ (ground arith) refl v)
    ]

pub call-IsOwned : (s : Host) (d : ℕ) (p : Phase) → s.phase d ≡ p → IsOwned s → IsOwned (call s d p)
unfolding call
call-IsOwned s d idle q v = v
call-IsOwned s d (attempting ℕ.zero) q v = unguarded-IsOwned s d _ (ground arith) refl v
call-IsOwned s d (attempting (ℕ.suc n)) q v = stat_path-IsOwned s d n s.path (ground arith) v
call-IsOwned s d (opening n) q v = open_file-IsOwned s d n s.path q refl v
call-IsOwned s d (opened i n) q v = flock-IsOwned s d i n (s.owner i) q refl v
call-IsOwned s d (locked i n) q v = confirm-IsOwned s d i n s.path q refl v
call-IsOwned s d (writing i) q v = write_record-IsOwned s d i q v
call-IsOwned s d (held i) q v = v
call-IsOwned s d (dropping i) q v = stat_before_removal-IsOwned s d i s.path q refl v
call-IsOwned s d (removing i) q v = remove-IsOwned s d i q v
call-IsOwned s d (unlocking i) q v = give_up-IsOwned s d i idle (ground arith) refl refl refl v
call-IsOwned s d (refused e) q v = v
