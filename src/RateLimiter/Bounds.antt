-- ===== src/RateLimiter/Bounds.antt =====
-- How many requests the limiter lets through: src/daemon/rate_limiter.rs.
use mathlib.Core.Path.{subst}
use enclave.Common.{
  ℕ, ◌+◌, ◌-◌, ◌*◌, ◌≤◌, ◌<◌, ◌≡◌, refl, ◌∙◌, inl, inr, Bool, true, false, ◌&&◌, List, [], ◌∷◌,
  Option, none, some, leb, ◌==◌, if◌then◌else◌, arith, All, Bool-cases, Option-cases, ==_iff,
}
use enclave.RateLimiter.{
  RateLimitState, RateLimiter, Call, allow, allow_global, allow_per_uid, run, with_global_limit,
  renew,
}

abbrev bit : Bool → ℕ
bit true = 1
bit false = 0

-- How many of a uid's calls are let through.
abbrev pub allowed : ℕ → RateLimiter → List Call → ℕ
allowed uid l [] = 0
allowed uid l (c ∷ cs) = bit (c.uid == uid && (allow c l).1) + allowed uid (allow c l).0 cs

abbrev count_of : Option RateLimitState → ℕ
count_of none = 0
count_of (some s) = s.count

-- No counter is over its limit.
pub record IsWithin (l : RateLimiter) : Type 0 where
  pub globally : l.global.count ≤ l.global_max_requests
  pub per_uid : (uid : ℕ) → count_of (l.per_uid uid) ≤ l.max_requests

allow-IsWithin : (c : Call) (l : RateLimiter) → IsWithin l → IsWithin (allow c l).0
unfolding allow
allow-IsWithin c l v = record {
  globally = ground (arith, v.globally);
  per_uid = λ uid. ground (arith, v.per_uid uid, v.per_uid c.uid);
}

run-IsWithin_from : (l : RateLimiter) (cs : List Call) → IsWithin l → IsWithin (run l cs)
unfolding run
run-IsWithin_from l [] v = v
run-IsWithin_from l (c ∷ cs) v = run-IsWithin_from (allow c l).0 cs (allow-IsWithin c l v)

-- Whatever the calls and their times, no counter passes its limit, from the new limiter on.
pub run-IsWithin :
    (window limit global_limit now : ℕ) (cs : List Call)
    → IsWithin (run (with_global_limit window limit global_limit now) cs)
unfolding with_global_limit
run-IsWithin window limit global_limit now cs =
    run-IsWithin_from _ cs (record { globally = omega arith; per_uid = λ uid. omega arith })

abbrev pub Within : ℕ → ℕ → List Call → Type 0
Within from until cs = All (λ c. (from ≤ c.uid_now) × (c.uid_now < until)) cs

Within-mono : (a b b' : ℕ) (cs : List Call) → b ≤ b' → Within a b cs → Within a b' cs
Within-mono a b b' [] h w = tt
Within-mono a b b' (c ∷ cs) h w = ((w.0.0, omega (arith, w.0.1)), Within-mono a b b' cs h w.1)

allow-config :
    (c : Call) (l : RateLimiter)
    → ((allow c l).0.window ≡ l.window) × ((allow c l).0.max_requests ≡ l.max_requests)
unfolding allow
allow-config c l = ground arith

-- What a call makes of a uid's state: it leaves the uid without one, it counts on, or it begins a
-- window with this call.
data Entered (c : Call) (l : RateLimiter) (uid : ℕ) : Type 0 where
  absent :
      l.per_uid uid ≡ none
      → (allow c l).0.per_uid uid ≡ none
      → bit (c.uid == uid && (allow c l).1) ≡ 0
      → Entered c l uid
  counts :
      (w : RateLimitState)
      → l.per_uid uid ≡ some w
      → (allow c l).0.per_uid uid
        ≡ some (record w { count = w.count + bit (c.uid == uid && (allow c l).1) })
      → (w.count ≤ l.max_requests → w.count + bit (c.uid == uid && (allow c l).1) ≤ l.max_requests)
      → Entered c l uid
  begins :
      (allow c l).0.per_uid uid
        ≡ some (record { window_started = c.uid_now; count = bit (c.uid == uid && (allow c l).1) })
      → ((w : RateLimitState)
          → l.per_uid uid ≡ some w
          → 0 < l.window
          → w.window_started + l.window ≤ c.uid_now)
      → bit (c.uid == uid && (allow c l).1) ≤ l.max_requests
      → Entered c l uid

unchanged :
    (c : Call) (l : RateLimiter) (uid : ℕ)
    → (allow c l).0.per_uid uid ≡ l.per_uid uid
    → (c.uid == uid && (allow c l).1) ≡ false
    → Entered c l uid
unchanged c l uid same no_grant = elim (Option-cases (l.per_uid uid)) [
  | inl e ↦ absent e (same ∙ e) (ground arith)
  | inr (w, e) ↦ counts w e (ground arith) (λ h. ground arith)
]

enter_same :
    (c : Call) (l : RateLimiter) → (allow_global c.global_now l).1 ≡ true → Entered c l c.uid
unfolding allow
enter_same c l p = elim (Option-cases (l.per_uid c.uid)) [
  | inl e ↦ begins (ground arith) (λ w q. absurd (cc)) (ground arith)
  | inr (w, e) ↦ elim (Bool-cases (leb l.window (c.uid_now - w.window_started))) [
    | inl over ↦ begins (ground arith) (λ v q pos. ground arith) (ground arith)
    | inr within ↦ counts w e (ground arith) (λ h. ground arith)
  ]
]

enter : (c : Call) (l : RateLimiter) (uid : ℕ) → Entered c l uid
unfolding allow
enter c l uid = elim (Bool-cases (c.uid == uid)) [
  | inr other ↦ unchanged c l uid (ground arith) (ground arith)
  | inl same ↦ elim (Bool-cases (allow_global c.global_now l).1) [
    | inl passed ↦ subst (Entered c l) ((==_iff _ _).0 same) (enter_same c l passed)
    | inr refused ↦ unchanged c l uid (ground arith) (ground arith)
  ]
]

module _ (uid limit window : ℕ) (pos : 0 < window) where
  -- While the uid's window lasts, its count pays for what is let through.
  allowed_in_window :
      (l : RateLimiter) (cs : List Call) (from : ℕ) (w : RateLimitState)
      → l.window ≡ window
      → l.max_requests ≡ limit
      → l.per_uid uid ≡ some w
      → w.count ≤ limit
      → Within from (w.window_started + window) cs
      → allowed uid l cs + w.count ≤ limit
  allowed_in_window l [] from w ew el e h t = omega arith
  allowed_in_window l (c ∷ cs) from w ew el e h t = elim (enter c l uid) [
    | absent q _ _ ↦ absurd (cc)
    | counts v q next room ↦
        let same : v ≡ w = ground arith in
        let (kw, kl) = allow-config c l in
        let v' = record w { count = w.count + bit (c.uid == uid && (allow c l).1) } in
        let ih =
          allowed_in_window (allow c l).0 cs from v' (kw ∙ ew) (kl ∙ el) (rw same at next)
            (ground arith) t.1 in
        omega arith
    | begins next late room ↦ absurd (omega (arith, late w e (ground arith), t.0.1))
  ]

  -- From any state a stretch no longer than the window sees at most one new window.
  allowed_in_stretch :
      (l : RateLimiter) (cs : List Call) (from : ℕ)
      → l.window ≡ window
      → l.max_requests ≡ limit
      → count_of (l.per_uid uid) ≤ limit
      → Within from (from + window) cs
      → allowed uid l cs + count_of (l.per_uid uid) ≤ limit + limit
  allowed_in_stretch l [] from ew el h t = omega arith
  allowed_in_stretch l (c ∷ cs) from ew el h t =
      let (kw, kl) = allow-config c l in
      elim (enter c l uid) [
        | absent q next no_grant ↦
            let ih =
              allowed_in_stretch (allow c l).0 cs from (kw ∙ ew) (kl ∙ el) (ground arith) t.1 in
            ground arith
        | counts v q next room ↦
            let ih =
              allowed_in_stretch (allow c l).0 cs from (kw ∙ ew) (kl ∙ el) (ground arith) t.1 in
            ground arith
        | begins next late room ↦
            let ih =
              allowed_in_window (allow c l).0 cs from _ (kw ∙ ew) (kl ∙ el) next (ground arith)
                (Within-mono from (from + window) (c.uid_now + window) cs (omega arith) t.1) in
            ground arith
      ]

-- In any stretch of calls no longer than the window, whatever went before, a uid is let through at
-- most twice its limit: the rest of one window and the start of the next.
pub allowed-le-twice :
    (uid from : ℕ) (l : RateLimiter) (cs : List Call)
    → 0 < l.window
    → IsWithin l
    → Within from (from + l.window) cs
    → allowed uid l cs ≤ 2 * l.max_requests
allowed-le-twice uid from l cs pos v t = omega (
  arith,
  allowed_in_stretch uid l.max_requests l.window pos l cs from refl refl (v.per_uid uid) t,
)

-- What a call does on every branch: it is let through if the daemon-wide limit and then the uid's
-- own admit it; it counts against the daemon-wide limit whenever that admits it, also where the uid's
-- own limit then refuses it; a uid's state changes only by a call of that uid which the daemon-wide
-- limit admits.
pub allow_accounts :
    (c : Call) (l : RateLimiter) (uid : ℕ)
    → let passed = (allow_global c.global_now l).1 in
      ((allow c l).1 ≡ (passed && (allow_per_uid c.uid_now c.uid l).1))
      × ((allow c l).0.global.count ≡ (renew l.window c.global_now l.global).count + bit passed)
      × ((allow c l).0.per_uid uid ≡ (
          if c.uid == uid && passed
          then (allow_per_uid c.uid_now c.uid l).0.per_uid uid
          else l.per_uid uid))
unfolding allow
allow_accounts c l uid = (ground arith, ground arith, ground arith)
