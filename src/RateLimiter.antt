-- ===== src/RateLimiter.antt =====
-- The daemon's fixed-window request limiter: src/daemon/rate_limiter.rs.
-- Each `Instant::now()` is an argument of the call, in ticks of the monotonic clock;
-- `duration_since` is 0 for an earlier time, as subtraction on ℕ is. The map from uids is a
-- function, `none` where the map has no entry.
pub mod Bounds
mod Tests
use enclave.Common.{
  ℕ, ◌+◌, ◌-◌, Bool, true, false, List, [], ◌∷◌, Option, none, some, leb, ◌==◌, if◌then◌else◌,
}

pub record RateLimitState : Type 0 where
  pub window_started : ℕ
  pub count : ℕ

pub record RateLimiter : Type 0 where
  pub window : ℕ
  pub max_requests : ℕ
  pub per_uid : ℕ → Option RateLimitState
  pub global : RateLimitState
  pub global_max_requests : ℕ

pub with_global_limit : ℕ → ℕ → ℕ → ℕ → RateLimiter
with_global_limit window max_requests global_max_requests now = record {
  window = window;
  max_requests = max_requests;
  per_uid = λ _. none;
  global = record { window_started = now; count = 0 };
  global_max_requests = global_max_requests;
}

-- Starts a new window where the old one is over.
pub renew : ℕ → ℕ → RateLimitState → RateLimitState
renew window now state =
    if leb window (now - state.window_started)
    then record { window_started = now; count = 0 }
    else state

-- Counts a request against a limit.
take_slot : ℕ → RateLimitState → RateLimitState × Bool
take_slot limit state =
    if leb limit state.count
    then (state, false)
    else (record state { count = state.count + 1 }, true)

pub allow_global : ℕ → RateLimiter → RateLimiter × Bool
unfolding renew take_slot
allow_global now l =
    let (state, allowed) = take_slot l.global_max_requests (renew l.window now l.global) in
    (record l { global = state }, allowed)

-- `entry(uid).or_insert_with(..)`.
entry : ℕ → Option RateLimitState → RateLimitState
entry now none = record { window_started = now; count = 0 }
entry now (some state) = state

abbrev insert : (ℕ → Option RateLimitState) → ℕ → RateLimitState → ℕ → Option RateLimitState
insert map uid state v = if uid == v then some state else map v

pub allow_per_uid : ℕ → ℕ → RateLimiter → RateLimiter × Bool
unfolding renew take_slot entry
allow_per_uid now uid l =
    let (state, allowed) =
      take_slot l.max_requests (renew l.window now (entry now (l.per_uid uid))) in
    (record l { per_uid = insert l.per_uid uid state }, allowed)

-- A call with the two times at which it reads the clock.
pub record Call : Type 0 where
  pub uid : ℕ
  pub global_now : ℕ
  pub uid_now : ℕ

-- The global window and that of the uid, which the code takes one after the other, are one step.
pub allow : Call → RateLimiter → RateLimiter × Bool
unfolding allow_global allow_per_uid
allow c l =
    let (l', passed) = allow_global c.global_now l in
    if passed then allow_per_uid c.uid_now c.uid l' else (l', false)

pub run : RateLimiter → List Call → RateLimiter
unfolding allow
run l [] = l
run l (c ∷ cs) = run (allow c l).0 cs
