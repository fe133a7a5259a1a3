-- ===== src/ConnectionLimiter/Accounts.antt =====
-- The limiters count the open connections and never pass their limits:
-- src/network/publish/limiter.rs.
use enclave.Common.{
  ℕ, ◌+◌, ◌≤◌, ◌≡◌, refl, inl, inr, true, false, ◌&&◌, List, [], ◌∷◌, some, arith, ltb, ◌==◌,
  if◌then◌else◌, get_elem?, remove_at, length, total, total-remove_at, Option-cases,
}
use enclave.ConnectionLimiter.{
  ConnectionLimiter, Connections, Event, connect, close, step, history, initial, budget_try_acquire,
}

-- How many open connections a port has.
abbrev pub of_port : ℕ → List ℕ → ℕ
of_port port = total (λ p. if p == port then 1 else 0)

-- The limiters count the open connections, within their limits.
pub record IsAccounted (limits : ℕ → ℕ) (global_limit : ℕ) (c : Connections) : Type 0 where
  pub counted : (port : ℕ) → (c.publishers port).active ≡ of_port port c.live
  pub counted_globally : c.global.active ≡ length c.live
  pub limited : (port : ℕ) → (c.publishers port).active ≤ (c.publishers port).limit
  pub limited_globally : c.global.active ≤ c.global.limit
  pub fixed : (port : ℕ) → (c.publishers port).limit ≡ limits port
  pub fixed_globally : c.global.limit ≡ global_limit

length-remove_at :
    (ps : List ℕ) (i p : ℕ) → get_elem? ps i ≡ some p → length (remove_at ps i) + 1 ≡ length ps
length-remove_at [] i p e = ground arith
length-remove_at (q ∷ ps) ℕ.zero p e = omega arith
length-remove_at (q ∷ ps) (ℕ.suc i) p e = omega (arith, length-remove_at ps i p e)

module _ (limits : ℕ → ℕ) (global_limit : ℕ) where
  step-IsAccounted :
      (c : Connections) (e : Event)
      → IsAccounted limits global_limit c
      → IsAccounted limits global_limit (step c e)
  unfolding step
  step-IsAccounted c (connect port) v = record {
    counted = λ p. ground (arith, v.counted p, v.counted port);
    counted_globally = ground (arith, v.counted_globally);
    limited = λ p. ground (arith, v.limited p, v.limited port);
    limited_globally = ground (arith, v.limited_globally);
    fixed = λ p. ground (arith, v.fixed p, v.fixed port);
    fixed_globally = ground (arith, v.fixed_globally);
  }
  step-IsAccounted c (close i) v = elim (Option-cases (get_elem? c.live i)) [
    | inl e ↦ rw (e, step) v
    | inr (port, e) ↦
        let n = length-remove_at c.live i port e in
        rw (e, step)
          (record {
            counted = λ p. ground (
              arith,
              v.counted p,
              v.counted port,
              total-remove_at (λ q. if q == p then 1 else 0) c.live i port e,
            );
            counted_globally = ground (arith, v.counted_globally);
            limited = λ p. ground (arith, v.limited p, v.limited port);
            limited_globally = ground (arith, v.limited_globally);
            fixed = λ p. ground (arith, v.fixed p, v.fixed port);
            fixed_globally = ground (arith, v.fixed_globally);
          })
  ]

  history-IsAccounted_from :
      (c : Connections) (es : List Event)
      → IsAccounted limits global_limit c
      → IsAccounted limits global_limit (history c es)
  unfolding history
  history-IsAccounted_from c [] v = v
  history-IsAccounted_from c (e ∷ es) v =
      history-IsAccounted_from (step c e) es (step-IsAccounted c e v)

-- Whatever connects and closes, each port's limiter counts that port's open connections and the
-- daemon-wide one counts all of them, each within its limit, and the limits never change.
pub history-IsAccounted :
    (limits : ℕ → ℕ) (global_limit : ℕ) (es : List Event)
    → IsAccounted limits global_limit (history (initial limits global_limit) es)
unfolding initial
history-IsAccounted limits global_limit es =
    history-IsAccounted_from limits global_limit _ es (record {
      counted = λ port. refl;
      counted_globally = refl;
      limited = λ port. omega arith;
      limited_globally = omega arith;
      fixed = λ port. refl;
      fixed_globally = refl;
    })

-- A connection takes one slot of each budget where both have room, and otherwise leaves both as they
-- were: the port's slot is given back where only the daemon-wide budget is full.
pub budget_try_acquire_lem :
    (publisher global : ConnectionLimiter)
    → budget_try_acquire publisher global ≡ (
        if ltb publisher.active publisher.limit && ltb global.active global.limit
        then (
          record publisher { active = publisher.active + 1 },
          record global { active = global.active + 1 },
          true,
        )
        else (publisher, global, false))
unfolding budget_try_acquire
budget_try_acquire_lem publisher global = ground arith

-- After any history a client gets its connection exactly when its port and the daemon as a whole
-- have fewer open connections than their limits.
pub connect-live :
    (limits : ℕ → ℕ) (global_limit port : ℕ) (es : List Event)
    → let c = history (initial limits global_limit) es in
      (step c (connect port)).live ≡ (
        if ltb (of_port port c.live) (limits port) && ltb (length c.live) global_limit
        then port ∷ c.live
        else c.live)
unfolding step
connect-live limits global_limit port es =
    let v = history-IsAccounted limits global_limit es in
    ground (arith, v.counted port, v.counted_globally, v.fixed port, v.fixed_globally)
