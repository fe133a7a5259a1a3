-- ===== src/ConnectionLimiter.antt =====
-- The budgets of proxied connections: src/network/publish/limiter.rs.
-- A permit is a connection in the list of those that are open, by the port whose budget it draws
-- from; its drop is the connection's end.
pub mod Accounts
mod Tests
use enclave.Common.{
  ℕ, ◌+◌, ◌-◌, Bool, true, false, List, [], ◌∷◌, none, some, leb, ◌==◌, if◌then◌else◌, get_elem?,
  remove_at,
}

pub record ConnectionLimiter : Type 0 where
  pub active : ℕ
  pub limit : ℕ

pub new : ℕ → ConnectionLimiter
new limit = record { active = 0; limit = limit }

-- The limiter after the call, and whether a permit was given.
pub try_acquire : ConnectionLimiter → ConnectionLimiter × Bool
try_acquire l =
    if leb l.limit l.active then (l, false) else (record l { active = l.active + 1 }, true)

-- `Drop for Permit`.
pub drop_permit : ConnectionLimiter → ConnectionLimiter
drop_permit l = record l { active = l.active - 1 }

-- `ConnectionBudget::try_acquire` on the port's limiter and the daemon-wide one. The permit of the
-- port is dropped where the daemon-wide limiter refuses. The two mutexes are taken in one step.
pub budget_try_acquire :
    ConnectionLimiter → ConnectionLimiter → ConnectionLimiter × ConnectionLimiter × Bool
unfolding try_acquire drop_permit
budget_try_acquire publisher global =
    let (publisher', first) = try_acquire publisher in
    let (global', second) = try_acquire global in
    if first
    then if second then (publisher', global', true) else (drop_permit publisher', global', false)
    else (publisher', global, false)

pub record Connections : Type 0 where
  pub publishers : ℕ → ConnectionLimiter
  pub global : ConnectionLimiter
  pub live : List ℕ

pub data Event : Type 0 where
  -- a client connects to a published port
  connect : ℕ → Event
  -- the connection at this place ends
  close : ℕ → Event

abbrev update : (ℕ → ConnectionLimiter) → ℕ → ConnectionLimiter → ℕ → ConnectionLimiter
update publishers port l p = if port == p then l else publishers p

pub step : Connections → Event → Connections
unfolding budget_try_acquire
step c (connect port) =
    let (publisher, global, given) = budget_try_acquire (c.publishers port) c.global in
    record {
      publishers = update c.publishers port publisher;
      global = global;
      live = if given then port ∷ c.live else c.live;
    }
step c (close i) = elim (get_elem? c.live i) [
  | none ↦ c
  | some port ↦ record {
    publishers = update c.publishers port (drop_permit (c.publishers port));
    global = drop_permit c.global;
    live = remove_at c.live i;
  }
]

pub history : Connections → List Event → Connections
unfolding step
history c [] = c
history c (e ∷ es) = history (step c e) es

pub initial : (ℕ → ℕ) → ℕ → Connections
unfolding new
initial limits global_limit = record {
  publishers = λ port. new (limits port);
  global = new global_limit;
  live = [];
}
