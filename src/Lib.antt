-- ===== src/Lib.antt =====
-- Enclave runs isolated workspaces on one host from a root daemon. This library models the daemon's
-- core decisions and proves what makes them correct. Paths below are from the repository's root.
--
-- Parts and files.
--   Leases (src/daemon/leases.rs): the gates that serialise lifecycle requests. `Leases.step` runs one
--     operation until it waits, wakes, times out or drops a guard; `Leases.history` is any interleaving.
--   StateLock (src/daemon/state_lock.rs): the file lock that keeps a second daemon from a state
--     directory. `StateLock.step` runs one system call of one daemon; `StateLock.history` is any
--     interleaving of starts, calls, failures, drops and crashes.
--   RateLimiter (src/daemon/rate_limiter.rs): the two fixed windows that a request has to fit into
--     before it is authorized. `RateLimiter.allow` is `RateLimiter::allow`.
--   Policy (src/policy/types.rs, src/policy/engine): rules, the decision on an action, the commands
--     that change the rules, and `authorize`. A request passes the limiter, then `authorize`, then takes
--     its lease.
--   ConnectionLimiter (src/network/publish/limiter.rs): the slots of proxied connections, for a port and
--     for the daemon.
--   Workers (src/daemon/workers/mod.rs, src/daemon/workers/request.rs): the exec queue with its share per
--     workspace. `Workers.enqueue`, `next`, `finish` and `close` are the queue's methods;
--     `Workers.Share.Step` is what the exec workers do with it, `Workers.Order` keeps the calls alone;
--     `Workers.Requests` reads a request's class, `Workers.Pools` submits it, `Workers.Pools.Shutdown`
--     waits for the workers.
--   ActiveOperations (src/daemon/active_operations.rs): the registry of running operations, their guards
--     and the wait for them at shutdown.
--   Operation (src/operation): the journal of lifecycle operations, its closing and pruning at startup.
--   Parallel (src/parallel.rs): a batch of jobs on a bounded number of threads; a step takes an item or
--     stores a result.
--   Activity (src/workspace/activity_service.rs, src/workspace/activity.rs, src/workspace/types): the
--     leases of requests, the live jobs, their reaping, and the candidates of the idle and destroy
--     sweeps. The process table is a parameter. A request holds a lease of `Activity.acquire` until it
--     returns, and the sweep reads the counts.
--   Cancellation (src/workspace/cancel.rs): the markers of running commands, and a cancel that signals
--     their helpers, in `Cancellation.Run`. A command's end and a cancel take one lock, so each is a
--     function on the files.
--   Jobs (src/workspace/jobs.rs): the records of commands and their files, which `Activity` finishes,
--     reaps and reconciles.
--   Ports (src/workspace/ports.rs): published ports as text and as records, and their merging.
--   Ipam (src/network/ipam.rs): the bitmap of used addresses and the allocation from it.
--   Limits (src/resource_limits.rs, src/workspace/types/limits.rs): the limits of a workspace and their
--     update. A CPU share, which is an f64 of the source, is a type with the tests that the code makes.
--   UserNamespace (src/workspace/session/userns): subordinate id files, and the plan of a user namespace
--     that they allow.
--   Auth (src/auth/names.rs, src/auth/scope.rs): the names of credentials, the slots of environment
--     tokens and the user ids that become directories. `Auth.Resolution` (src/auth/resolution.rs,
--     src/auth/providers.rs) is what a workspace's credentials resolve to, over a store that is a
--     parameter; `Auth.Scrub` (src/auth/scrub.rs) takes secrets out of a text.
--   Histogram (src/perf/histogram.rs): latency buckets and percentiles.
--   Common: Boolean tests, lists over the native numbers, association lists, text as code points, parsing
--     and printing of numbers, signed integers, results.
--
-- Conventions. A mutex-guarded object is a record, and a method takes and returns it. Condition
-- variables are modelled by cutting a method where it gives its mutex up; the order of the pieces is
-- the list of events. Clock readings are arguments. An `anyhow` error is a constructor that names the
-- refusal; message texts are not modelled. A poisoned mutex is recovered by the code and is not a
-- state of the model. Recursion is structural, with fuel in two places: `decimal` prints a u16 with five
-- digits at most, and reading it back is proved to give it; `await_workers` polls as often as the grace
-- period has pauses and twice more, which is proved to be enough. A loop that waits for other threads,
-- for processes or for bytes of a client takes the list of what it sees in each round.
-- Files are lists of what they hold, with a Boolean or an answer for whether a write or a removal
-- succeeds. A socket is a number, and a predicate tells which clients have gone away. Threads are the
-- interleavings of a step relation. JSON, system calls, mounts, host commands, f64 arithmetic and the
-- texts of messages are not modelled.
pub mod Common
pub mod Leases
pub mod StateLock
pub mod RateLimiter
pub mod Policy
pub mod ConnectionLimiter
pub mod Activity
pub mod ActiveOperations
pub mod Operation
pub mod Workers
pub mod Parallel
pub mod Cancellation
pub mod Jobs
pub mod Ports
pub mod Ipam
pub mod Limits
pub mod UserNamespace
pub mod Auth
pub mod Histogram
