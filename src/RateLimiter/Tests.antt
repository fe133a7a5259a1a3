-- ===== src/RateLimiter/Tests.antt =====
-- Runs of the limiter: src/daemon/rate_limiter.rs.
use enclave.Common.{ℕ, ◌≤◌, ◌≡◌, refl, List, [], ◌∷◌, arith}
use enclave.RateLimiter.{Call, RateLimiter, run, with_global_limit}
use enclave.RateLimiter.Bounds.{allowed, IsWithin, allowed-le-twice}

abbrev at : ℕ → ℕ → Call
at uid now = record { uid = uid; global_now = now; uid_now = now }

-- Two requests at the end of a window, two at the start of the next.
abbrev burst : List Call
burst = at 7 9 ∷ at 7 9 ∷ at 7 9 ∷ at 7 10 ∷ at 7 11 ∷ at 7 12 ∷ []

abbrev limiter : RateLimiter
limiter = record (with_global_limit 10 2 100 0) {
  per_uid = (run (with_global_limit 10 2 100 0) (at 7 0 ∷ [])).per_uid;
}

burst_passes : allowed 7 limiter burst ≡ 3
unfolding with_global_limit run
burst_passes = refl

limiter-IsWithin : IsWithin limiter
unfolding with_global_limit run
limiter-IsWithin = record { globally = omega arith; per_uid = λ uid. ground arith }

allowed-le-twice_example : allowed 7 limiter burst ≤ 4
unfolding with_global_limit
allowed-le-twice_example =
    allowed-le-twice 7 9 limiter burst (omega arith) limiter-IsWithin (omega arith)
