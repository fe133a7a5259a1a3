-- ===== src/StateLock/Failures.antt =====
-- Failures, drops and deaths keep the lock with its owner: src/daemon/state_lock.rs.
use enclave.StateLock.{
  Phase, idle, attempting, opening, opened, locked, writing, held, dropping, removing, unlocking,
  refused, Host, fail, start, begin_drop, crash,
}
use enclave.Common.{ℕ, ◌≡◌, refl, arith}
use enclave.StateLock.Ownership.{IsOwned, move-IsOwned, give_up-IsOwned, unguarded-IsOwned}

pub fail-IsOwned : (s : Host) (d : ℕ) (p : Phase) → s.phase d ≡ p → IsOwned s → IsOwned (fail s d p)
unfolding fail
fail-IsOwned s d idle q v = v
fail-IsOwned s d (attempting n) q v = unguarded-IsOwned s d _ (ground arith) refl v
fail-IsOwned s d (opening n) q v = unguarded-IsOwned s d _ (ground arith) refl v
fail-IsOwned s d (opened i n) q v = unguarded-IsOwned s d _ (ground arith) refl v
fail-IsOwned s d (locked i n) q v = give_up-IsOwned s d i _ (ground arith) refl refl refl v
fail-IsOwned s d (writing i) q v = give_up-IsOwned s d i _ (ground arith) refl refl refl v
fail-IsOwned s d (held i) q v = v
fail-IsOwned s d (dropping i) q v = unguarded-IsOwned s d _ (ground arith) refl v
fail-IsOwned s d (removing i) q v = unguarded-IsOwned s d _ (ground arith) refl v
fail-IsOwned s d (unlocking i) q v = give_up-IsOwned s d i _ (ground arith) refl refl refl v
fail-IsOwned s d (refused e) q v = v

pub start-IsOwned :
    (s : Host) (d : ℕ) (p : Phase) → s.phase d ≡ p → IsOwned s → IsOwned (start s d p)
unfolding start
start-IsOwned s d idle q v = unguarded-IsOwned s d _ (ground arith) refl v
start-IsOwned s d (refused e) q v = unguarded-IsOwned s d _ (ground arith) refl v
start-IsOwned s d (attempting n) q v = v
start-IsOwned s d (opening n) q v = v
start-IsOwned s d (opened i n) q v = v
start-IsOwned s d (locked i n) q v = v
start-IsOwned s d (writing i) q v = v
start-IsOwned s d (held i) q v = v
start-IsOwned s d (dropping i) q v = v
start-IsOwned s d (removing i) q v = v
start-IsOwned s d (unlocking i) q v = v

pub begin_drop-IsOwned :
    (s : Host) (d : ℕ) (p : Phase) → s.phase d ≡ p → IsOwned s → IsOwned (begin_drop s d p)
unfolding begin_drop
begin_drop-IsOwned s d (held i) q v =
    move-IsOwned s d (dropping i) (ground arith) (λ k h. ground (arith, v.named d k))
      (λ k h. ground (arith, v.recorded d k)) v
begin_drop-IsOwned s d idle q v = v
begin_drop-IsOwned s d (attempting n) q v = v
begin_drop-IsOwned s d (opening n) q v = v
begin_drop-IsOwned s d (opened i n) q v = v
begin_drop-IsOwned s d (locked i n) q v = v
begin_drop-IsOwned s d (writing i) q v = v
begin_drop-IsOwned s d (dropping i) q v = v
begin_drop-IsOwned s d (removing i) q v = v
begin_drop-IsOwned s d (unlocking i) q v = v
begin_drop-IsOwned s d (refused e) q v = v

pub crash-IsOwned :
    (s : Host) (d : ℕ) (p : Phase) → s.phase d ≡ p → IsOwned s → IsOwned (crash s d p)
unfolding crash
crash-IsOwned s d (locked i n) q v = give_up-IsOwned s d i _ (ground arith) refl refl refl v
crash-IsOwned s d (writing i) q v = give_up-IsOwned s d i _ (ground arith) refl refl refl v
crash-IsOwned s d (held i) q v = give_up-IsOwned s d i _ (ground arith) refl refl refl v
crash-IsOwned s d (dropping i) q v = give_up-IsOwned s d i _ (ground arith) refl refl refl v
crash-IsOwned s d (removing i) q v = give_up-IsOwned s d i _ (ground arith) refl refl refl v
crash-IsOwned s d (unlocking i) q v = give_up-IsOwned s d i _ (ground arith) refl refl refl v
crash-IsOwned s d idle q v = unguarded-IsOwned s d _ (ground arith) refl v
crash-IsOwned s d (attempting n) q v = unguarded-IsOwned s d _ (ground arith) refl v
crash-IsOwned s d (opening n) q v = unguarded-IsOwned s d _ (ground arith) refl v
crash-IsOwned s d (opened i n) q v = unguarded-IsOwned s d _ (ground arith) refl v
crash-IsOwned s d (refused e) q v = unguarded-IsOwned s d _ (ground arith) refl v
