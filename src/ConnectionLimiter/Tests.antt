-- ===== src/ConnectionLimiter/Tests.antt =====
-- Runs of the connection budgets: src/network/publish/limiter.rs.
use enclave.Common.{◌≡◌, refl, List, [], ◌∷◌}
use enclave.ConnectionLimiter.{Event, connect, close, history, initial}
use enclave.ConnectionLimiter.Accounts.{IsAccounted, history-IsAccounted}

-- Two slots to a port, three in all.
abbrev busy : List Event
busy = connect 80 ∷ connect 80 ∷ connect 80 ∷ connect 81 ∷ connect 81 ∷ close 1 ∷ connect 81 ∷ []

busy_live : (history (initial (λ _. 2) 3) busy).live ≡ 81 ∷ 81 ∷ 80 ∷ []
unfolding history initial
busy_live = refl

history-IsAccounted_example : IsAccounted (λ _. 2) 3 (history (initial (λ _. 2) 3) busy)
history-IsAccounted_example = history-IsAccounted (λ _. 2) 3 busy
