-- ===== src/Limits/Updates.antt =====
-- What an update of the limits can leave behind: src/workspace/types/limits.rs.
use enclave.Common.{◌≡◌, ◌⊎◌, Bool, Option, none, some, Result, ok, err, ◌>>◌}
use enclave.Limits.{
  Share, LimitError, WorkspaceLimits, WorkspaceLimitsUpdate, validate, with_update, any_change,
}

module _ {F : Type 0} (share : Share F) where
  -- What an update ends with.
  Outcome :
      WorkspaceLimits F
      → WorkspaceLimitsUpdate F
      → WorkspaceLimits F × Result LimitError Bool
      → Type 0
  Outcome l u r =
      (r.1 ≡ (validate share (with_update share l u) >> ok (any_change share l u)))
      × ((r.0 ≡ with_update share l u) ⊎ ((e : LimitError) × (r.1 ≡ err e)))

-- What a field is after an update: what it was where the update does not name it, and otherwise what the
-- update says.
abbrev pub Follows {ℓ} : {A : Type ℓ} → Option A → Option (Option A) → Option A → Type ℓ
Follows old none new = new ≡ old
Follows old (some value) new = new ≡ value
