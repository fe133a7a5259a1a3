-- ===== src/Common/Integers.antt =====
-- Signed integers, and the i64 of a u64.
use Prim.Native.Nat.{ℕ, ◌-◌, ◌/◌, ◌^◌}
use mathlib.Core.Bool.{Bool, true, false}
use enclave.Common.Tests.{ltb, leb, if◌then◌else◌}

pub data ℤ : Type 0 where
  pos : ℕ → ℤ
  -- `negsuc n` is -(n + 1)
  negsuc : ℕ → ℤ

abbrev pub leb_int : ℤ → ℤ → Bool
leb_int (pos a) (pos b) = leb a b
leb_int (pos a) (negsuc b) = false
leb_int (negsuc a) (pos b) = true
leb_int (negsuc a) (negsuc b) = leb b a

abbrev pub neg : ℕ → ℤ
neg ℕ.zero = pos 0
neg (ℕ.suc n) = negsuc n

-- `n as i64`.
abbrev pub as_i64 : ℕ → ℤ
as_i64 n = if ltb n (2 ^ 63) then pos n else neg (2 ^ 64 - n)

-- `(at - started).num_seconds()` on nanoseconds: cut off towards 0.
abbrev pub seconds_between : ℕ → ℕ → ℤ
seconds_between at started =
    if leb started at then pos ((at - started) / (10 ^ 9)) else neg ((started - at) / (10 ^ 9))
