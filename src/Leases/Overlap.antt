-- ===== src/Leases/Overlap.antt =====
-- Which requests may not run together, and that their plans meet at a gate: src/daemon/leases.rs,
-- the module's description and `LifecycleLeases::acquire`.
use text.Mathlib.TextEquality.{eq_iff}
use text.Mathlib.Text.{◌==◌ as str_eq}
use enclave.Common.{◌+◌, ◌≤◌, ◌≡◌, Bool, true, false, ◌&&◌, List, arith}
use enclave.Leases.{
  GateMode, shared, exclusive, GateId, global_gate, sandbox_gate, workspace_gate, Ask, scoped,
  workspace_only, plan, LeaseScope, global, sandbox, workspace,
}
use enclave.Leases.Counting.{times}

-- Which requests must not run together, after the module's description: a sandbox's operation
-- against those in the same sandbox, a workspace's against those on the same workspace, a global one
-- against all but the one taken under it.
abbrev pub overlaps : LeaseScope → LeaseScope → Bool
overlaps global _ = true
overlaps _ global = true
overlaps (sandbox s) (sandbox t) = str_eq s t
overlaps (sandbox s) (workspace t w) = str_eq s t
overlaps (workspace s v) (sandbox t) = str_eq s t
overlaps (workspace s v) (workspace t w) = str_eq s t && str_eq v w

abbrev pub asks_overlap : Ask → Ask → Bool
asks_overlap (scoped a) (scoped b) = overlaps a b
asks_overlap (scoped global) (workspace_only t w) = false
asks_overlap (workspace_only s v) (scoped global) = false
asks_overlap (scoped a) (workspace_only t w) = overlaps a (workspace t w)
asks_overlap (workspace_only s v) (scoped b) = overlaps (workspace s v) b
asks_overlap (workspace_only s v) (workspace_only t w) = str_eq s t && str_eq v w

-- A gate that both name, one of them for exclusive access.
abbrev pub Meet : List (GateId × GateMode) → List (GateId × GateMode) → GateId → Type 0
Meet p q g =
    (1 ≤ times g exclusive p + times g exclusive q)
    × (1 ≤ times g exclusive p + times g shared p)
    × (1 ≤ times g exclusive q + times g shared q)

pub overlap-Meet : (a b : Ask) → asks_overlap a b ≡ true → (g : GateId) × Meet (plan a) (plan b) g
unfolding plan
overlap-Meet (scoped global) (scoped global) e =
    (global_gate, (omega arith, omega arith, omega arith))
overlap-Meet (scoped global) (scoped (sandbox t)) e =
    (global_gate, (omega arith, omega arith, omega arith))
overlap-Meet (scoped global) (scoped (workspace t w)) e =
    (global_gate, (omega arith, omega arith, omega arith))
overlap-Meet (scoped global) (workspace_only t w) e = cc
overlap-Meet (scoped (sandbox s)) (scoped global) e =
    (global_gate, (omega arith, omega arith, omega arith))
overlap-Meet (scoped (sandbox s)) (scoped (sandbox t)) e = (
  sandbox_gate s,
  (
    ground (arith, eq_iff s s, eq_iff t s, eq_iff s t),
    ground (arith, eq_iff s s, eq_iff t s, eq_iff s t),
    ground (arith, eq_iff s s, eq_iff t s, eq_iff s t),
  ),
)
overlap-Meet (scoped (sandbox s)) (scoped (workspace t w)) e = (
  sandbox_gate s,
  (
    ground (arith, eq_iff s s, eq_iff t s, eq_iff s t),
    ground (arith, eq_iff s s, eq_iff t s, eq_iff s t),
    ground (arith, eq_iff s s, eq_iff t s, eq_iff s t),
  ),
)
overlap-Meet (scoped (sandbox s)) (workspace_only t w) e = (
  sandbox_gate s,
  (
    ground (arith, eq_iff s s, eq_iff t s, eq_iff s t),
    ground (arith, eq_iff s s, eq_iff t s, eq_iff s t),
    ground (arith, eq_iff s s, eq_iff t s, eq_iff s t),
  ),
)
overlap-Meet (scoped (workspace s v)) (scoped global) e =
    (global_gate, (omega arith, omega arith, omega arith))
overlap-Meet (scoped (workspace s v)) (scoped (sandbox t)) e = (
  sandbox_gate s,
  (
    ground (arith, eq_iff s s, eq_iff t s, eq_iff s t),
    ground (arith, eq_iff s s, eq_iff t s, eq_iff s t),
    ground (arith, eq_iff s s, eq_iff t s, eq_iff s t),
  ),
)
overlap-Meet (scoped (workspace s v)) (scoped (workspace t w)) e = (
  workspace_gate s v,
  (
    ground (arith, eq_iff s s, eq_iff t s, eq_iff s t, eq_iff v v, eq_iff w v, eq_iff v w),
    ground (arith, eq_iff s s, eq_iff t s, eq_iff s t, eq_iff v v, eq_iff w v, eq_iff v w),
    ground (arith, eq_iff s s, eq_iff t s, eq_iff s t, eq_iff v v, eq_iff w v, eq_iff v w),
  ),
)
overlap-Meet (scoped (workspace s v)) (workspace_only t w) e = (
  workspace_gate s v,
  (
    ground (arith, eq_iff s s, eq_iff t s, eq_iff s t, eq_iff v v, eq_iff w v, eq_iff v w),
    ground (arith, eq_iff s s, eq_iff t s, eq_iff s t, eq_iff v v, eq_iff w v, eq_iff v w),
    ground (arith, eq_iff s s, eq_iff t s, eq_iff s t, eq_iff v v, eq_iff w v, eq_iff v w),
  ),
)
overlap-Meet (workspace_only s v) (scoped global) e = cc
overlap-Meet (workspace_only s v) (scoped (sandbox t)) e = (
  sandbox_gate s,
  (
    ground (arith, eq_iff s s, eq_iff t s, eq_iff s t),
    ground (arith, eq_iff s s, eq_iff t s, eq_iff s t),
    ground (arith, eq_iff s s, eq_iff t s, eq_iff s t),
  ),
)
overlap-Meet (workspace_only s v) (scoped (workspace t w)) e = (
  workspace_gate s v,
  (
    ground (arith, eq_iff s s, eq_iff t s, eq_iff s t, eq_iff v v, eq_iff w v, eq_iff v w),
    ground (arith, eq_iff s s, eq_iff t s, eq_iff s t, eq_iff v v, eq_iff w v, eq_iff v w),
    ground (arith, eq_iff s s, eq_iff t s, eq_iff s t, eq_iff v v, eq_iff w v, eq_iff v w),
  ),
)
overlap-Meet (workspace_only s v) (workspace_only t w) e = (
  workspace_gate s v,
  (
    ground (arith, eq_iff s s, eq_iff t s, eq_iff s t, eq_iff v v, eq_iff w v, eq_iff v w),
    ground (arith, eq_iff s s, eq_iff t s, eq_iff s t, eq_iff v v, eq_iff w v, eq_iff v w),
    ground (arith, eq_iff s s, eq_iff t s, eq_iff s t, eq_iff v v, eq_iff w v, eq_iff v w),
  ),
)

pub Meet-overlap : (a b : Ask) (g : GateId) → Meet (plan a) (plan b) g → asks_overlap a b ≡ true
unfolding plan
Meet-overlap (scoped global) (scoped global) global_gate m = ground (arith)
Meet-overlap (scoped global) (scoped global) (sandbox_gate x) m = ground (arith)
Meet-overlap (scoped global) (scoped global) (workspace_gate x y) m = ground (arith)
Meet-overlap (scoped global) (scoped (sandbox t)) global_gate m = ground (arith)
Meet-overlap (scoped global) (scoped (sandbox t)) (sandbox_gate x) m = ground (arith, eq_iff t x)
Meet-overlap (scoped global) (scoped (sandbox t)) (workspace_gate x y) m =
    ground (arith, eq_iff t x)
Meet-overlap (scoped global) (scoped (workspace t w)) global_gate m = ground (arith)
Meet-overlap (scoped global) (scoped (workspace t w)) (sandbox_gate x) m =
    ground (arith, eq_iff t x)
Meet-overlap (scoped global) (scoped (workspace t w)) (workspace_gate x y) m =
    ground (arith, eq_iff t x, eq_iff w y)
Meet-overlap (scoped global) (workspace_only t w) global_gate m = ground (arith)
Meet-overlap (scoped global) (workspace_only t w) (sandbox_gate x) m = ground (arith, eq_iff t x)
Meet-overlap (scoped global) (workspace_only t w) (workspace_gate x y) m =
    ground (arith, eq_iff t x, eq_iff w y)
Meet-overlap (scoped (sandbox s)) (scoped global) global_gate m = ground (arith)
Meet-overlap (scoped (sandbox s)) (scoped global) (sandbox_gate x) m = ground (arith, eq_iff s x)
Meet-overlap (scoped (sandbox s)) (scoped global) (workspace_gate x y) m =
    ground (arith, eq_iff s x)
Meet-overlap (scoped (sandbox s)) (scoped (sandbox t)) global_gate m = ground (arith, eq_iff s t)
Meet-overlap (scoped (sandbox s)) (scoped (sandbox t)) (sandbox_gate x) m =
    ground (arith, eq_iff s x, eq_iff t x, eq_iff s t)
Meet-overlap (scoped (sandbox s)) (scoped (sandbox t)) (workspace_gate x y) m =
    ground (arith, eq_iff s x, eq_iff t x, eq_iff s t)
Meet-overlap (scoped (sandbox s)) (scoped (workspace t w)) global_gate m =
    ground (arith, eq_iff s t)
Meet-overlap (scoped (sandbox s)) (scoped (workspace t w)) (sandbox_gate x) m =
    ground (arith, eq_iff s x, eq_iff t x, eq_iff s t)
Meet-overlap (scoped (sandbox s)) (scoped (workspace t w)) (workspace_gate x y) m =
    ground (arith, eq_iff s x, eq_iff t x, eq_iff w y, eq_iff s t)
Meet-overlap (scoped (sandbox s)) (workspace_only t w) global_gate m = ground (arith, eq_iff s t)
Meet-overlap (scoped (sandbox s)) (workspace_only t w) (sandbox_gate x) m =
    ground (arith, eq_iff s x, eq_iff t x, eq_iff s t)
Meet-overlap (scoped (sandbox s)) (workspace_only t w) (workspace_gate x y) m =
    ground (arith, eq_iff s x, eq_iff t x, eq_iff w y, eq_iff s t)
Meet-overlap (scoped (workspace s v)) (scoped global) global_gate m = ground (arith)
Meet-overlap (scoped (workspace s v)) (scoped global) (sandbox_gate x) m =
    ground (arith, eq_iff s x)
Meet-overlap (scoped (workspace s v)) (scoped global) (workspace_gate x y) m =
    ground (arith, eq_iff s x, eq_iff v y)
Meet-overlap (scoped (workspace s v)) (scoped (sandbox t)) global_gate m =
    ground (arith, eq_iff s t)
Meet-overlap (scoped (workspace s v)) (scoped (sandbox t)) (sandbox_gate x) m =
    ground (arith, eq_iff s x, eq_iff t x, eq_iff s t)
Meet-overlap (scoped (workspace s v)) (scoped (sandbox t)) (workspace_gate x y) m =
    ground (arith, eq_iff s x, eq_iff t x, eq_iff v y, eq_iff s t)
Meet-overlap (scoped (workspace s v)) (scoped (workspace t w)) global_gate m =
    ground (arith, eq_iff s t, eq_iff v w)
Meet-overlap (scoped (workspace s v)) (scoped (workspace t w)) (sandbox_gate x) m =
    ground (arith, eq_iff s x, eq_iff t x, eq_iff s t, eq_iff v w)
Meet-overlap (scoped (workspace s v)) (scoped (workspace t w)) (workspace_gate x y) m =
    ground (arith, eq_iff s x, eq_iff t x, eq_iff v y, eq_iff w y, eq_iff s t, eq_iff v w)
Meet-overlap (scoped (workspace s v)) (workspace_only t w) global_gate m =
    ground (arith, eq_iff s t, eq_iff v w)
Meet-overlap (scoped (workspace s v)) (workspace_only t w) (sandbox_gate x) m =
    ground (arith, eq_iff s x, eq_iff t x, eq_iff s t, eq_iff v w)
Meet-overlap (scoped (workspace s v)) (workspace_only t w) (workspace_gate x y) m =
    ground (arith, eq_iff s x, eq_iff t x, eq_iff v y, eq_iff w y, eq_iff s t, eq_iff v w)
Meet-overlap (workspace_only s v) (scoped global) global_gate m = ground (arith)
Meet-overlap (workspace_only s v) (scoped global) (sandbox_gate x) m = ground (arith, eq_iff s x)
Meet-overlap (workspace_only s v) (scoped global) (workspace_gate x y) m =
    ground (arith, eq_iff s x, eq_iff v y)
Meet-overlap (workspace_only s v) (scoped (sandbox t)) global_gate m = ground (arith, eq_iff s t)
Meet-overlap (workspace_only s v) (scoped (sandbox t)) (sandbox_gate x) m =
    ground (arith, eq_iff s x, eq_iff t x, eq_iff s t)
Meet-overlap (workspace_only s v) (scoped (sandbox t)) (workspace_gate x y) m =
    ground (arith, eq_iff s x, eq_iff t x, eq_iff v y, eq_iff s t)
Meet-overlap (workspace_only s v) (scoped (workspace t w)) global_gate m =
    ground (arith, eq_iff s t, eq_iff v w)
Meet-overlap (workspace_only s v) (scoped (workspace t w)) (sandbox_gate x) m =
    ground (arith, eq_iff s x, eq_iff t x, eq_iff s t, eq_iff v w)
Meet-overlap (workspace_only s v) (scoped (workspace t w)) (workspace_gate x y) m =
    ground (arith, eq_iff s x, eq_iff t x, eq_iff v y, eq_iff w y, eq_iff s t, eq_iff v w)
Meet-overlap (workspace_only s v) (workspace_only t w) global_gate m =
    ground (arith, eq_iff s t, eq_iff v w)
Meet-overlap (workspace_only s v) (workspace_only t w) (sandbox_gate x) m =
    ground (arith, eq_iff s x, eq_iff t x, eq_iff s t, eq_iff v w)
Meet-overlap (workspace_only s v) (workspace_only t w) (workspace_gate x y) m =
    ground (arith, eq_iff s x, eq_iff t x, eq_iff v y, eq_iff w y, eq_iff s t, eq_iff v w)
