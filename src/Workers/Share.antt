-- ===== src/Workers/Share.antt =====
-- The exec queue and its workers, in any order of their calls: src/daemon/workers/mod.rs.
pub mod Lost
use enclave.Common.{
  ℕ, ◌+◌, ◌≤◌, ◌≡◌, refl, sym, ◌∙◌, Bool, true, false, List, [], ◌∷◌, Option, none, some, arith,
  length, total, get_elem?, remove_at, Text, is_empty,
}
use enclave.Workers.{
  exec_queue_capacity, RequestJob, ExecQueueState, default_state, pending_of, in_flight_of, queued,
  has_room, enqueue, Next, job, next, finish, close,
}
use enclave.Workers.Invariant.{jobs_of, WithinShare, Inv}
use enclave.Workers.Steps.{enqueue-Inv, next-Inv, finish-Inv, close-Inv}

-- The queue, and the job of every worker that has one.
pub record ExecPool : Type 0 where
  pub queue : ExecQueueState
  pub serving : List RequestJob

-- One call under the queue's mutex. Which clients are found gone may differ at every call. A worker
-- calls `finish` when its request is over, however it ended.
pub data Step (per_workspace : Option ℕ) (e : ExecPool) : ExecPool → Type 0 where
  submitted :
      (gone : ℕ → Bool) (j : RequestJob)
      → Step per_workspace e
          (record e { queue = (enqueue per_workspace gone e.queue j exec_queue_capacity).0 })
  taken :
      (s : ExecQueueState) (j : RequestJob)
      → next e.queue ≡ (s, job j)
      → Step per_workspace e (record { queue = s; serving = j ∷ e.serving })
  finished :
      (gone : ℕ → Bool) (i : ℕ) (j : RequestJob)
      → get_elem? e.serving i ≡ some j
      → Step per_workspace e (record {
        queue = finish per_workspace gone e.queue j.workspace_key;
        serving = remove_at e.serving i;
      })
  stopped : Step per_workspace e (record e { queue = close e.queue })

abbrev pub idle_pool : ExecPool
idle_pool = record { queue = default_state; serving = [] }

pub data Reach (per_workspace : Option ℕ) : ExecPool → Type 0 where
  start : Reach per_workspace idle_pool
  later :
      {e e' : ExecPool} → Reach per_workspace e → Step per_workspace e e' → Reach per_workspace e'

abbrev PoolInv : Option ℕ → ExecPool → Type 0
PoolInv pw e = Inv pw exec_queue_capacity e.queue e.serving

Step-Inv : {pw : Option ℕ} {e e' : ExecPool} → Step pw e e' → PoolInv pw e → PoolInv pw e'
Step-Inv (submitted gone j) inv = enqueue-Inv gone j inv
Step-Inv (taken s j h) inv = next-Inv s j inv h
Step-Inv (finished gone i j at) inv = finish-Inv gone i j inv at
Step-Inv stopped inv = close-Inv inv

none_in_flight : (pw : Option ℕ) → WithinShare pw 0
none_in_flight none = tt
none_in_flight (some limit) = omega arith

start-Inv : (pw : Option ℕ) → PoolInv pw idle_pool
start-Inv pw = record {
  sound = record {
    counted = refl;
    distinct = tt;
    within = omega arith;
    shared = λ key. none_in_flight pw;
    taken_shares = λ key. omega arith;
  };
  waits = λ key q. absurd (ground (arith, q));
}

pub Reach-Inv : {pw : Option ℕ} {e : ExecPool} → Reach pw e → PoolInv pw e
Reach-Inv {pw} start = start-Inv pw
Reach-Inv (later r st) = Step-Inv st (Reach-Inv r)

-- Where a workspace's share is `limit`, in every reachable state its jobs that workers serve and
-- those that are ready for one are together at most `limit`.
pub jobs_within_share :
    (limit : ℕ) (e : ExecPool) (key : Text)
    → Reach (some limit) e
    → jobs_of key e.queue.ready + jobs_of key e.serving ≤ limit
jobs_within_share limit e key r =
    let inv = Reach-Inv r in omega (arith, inv.taken_shares key, inv.shared key)

-- In every reachable state the requests that are ready and those that wait in the workspaces' queues
-- are together at most the capacity, and the count of those that wait is their number.
pub queue_bounded :
    (per_workspace : Option ℕ) (e : ExecPool)
    → Reach per_workspace e
    → (length e.queue.ready + queued e.queue.pending ≤ exec_queue_capacity)
      × (e.queue.pending_count ≡ queued e.queue.pending)
queue_bounded per_workspace e r =
    let inv = Reach-Inv r in (omega (arith, inv.within, inv.counted), inv.counted)

-- In every reachable state a workspace whose requests wait has no room left in its share.
pub waits_only_at_share :
    (per_workspace : Option ℕ) (e : ExecPool) (key : Text)
    → Reach per_workspace e
    → is_empty (pending_of e.queue key) ≡ false
    → has_room per_workspace (in_flight_of e.queue key) ≡ false
waits_only_at_share per_workspace e key r = (Reach-Inv r).waits key
