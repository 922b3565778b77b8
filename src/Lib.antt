-- ===== src/Lib.antt =====
-- SwarmAI: the controller of missions with its task graphs and scheduler, the durable lease store of
-- the coordinator, the quota ledger and the admission of its broker, and the store of its
-- consequential tool effects.
--
-- A mission is a graph of tasks. Agents propose changes of the graph, which the controller validates
-- against the revision they are based on; the scheduler chooses among the tasks whose dependencies
-- are met, within its slots and the epoch of its site. Workers claim tasks from the coordinator
-- under leases, renew them, submit results, and the coordinator accepts at most one result per
-- attempt; every row carries generations by which stale work is fenced. Model calls go through a
-- broker, which reserves quota in every bucket that a call touches before it is sent, and settles or
-- releases it afterwards. A tool call with consequences is an effect with a key: it is reserved
-- once, admitted to one executor at a time under an approval, and closed with a receipt.
--
-- Lease: src/swarm/db/lease_fencing.py, over the rows of src/swarm/db/models.py.
--   Lease/Rows.antt: the rows, their statuses and the reasons of exceptions. `Db` is what a session
--     sees of the database: one table per kind of row, and the outbox.
--   Lease/Authority.antt: the private checks of `LeaseLifecycleService`.
--   Lease/Claim.antt: `claim_eligible_attempt`, `_lock_ready_candidates`, `_bind_claim`.
--   Lease/RenewalChecks.antt, Lease/Renew.antt: `renew_lease`, `_require_current_lease_authority`,
--     `_renewal_expires_at`.
--   Lease/Expire.antt: `expire_leases`, `_expire_task_status`.
--   Lease/Cancel.antt: `cancel_active_lease`, `revoke_mission_work`, `cancel_mission`.
--   Lease/AcceptFence.antt, Lease/Results.antt: `_assert_accept_fence`, `submit_result`,
--     `accept_result`.
--   Lease/Workers.antt: `WorkerRegistrationRepository`.
--   Lease/Moves.antt: the abstract protocol of the lease table: a lease is issued for a task that
--     no active lease holds, is renewed, and ends. Lease/Refinement sets each operation against it,
--     Lease/System.antt has the calls in any order as a step relation, and Lease/System/Safety.antt
--     is about any number of steps. Lease/Acceptance.antt is about results, Lease/Credentials.antt
--     about the tokens and capabilities of workers.
-- Quota: src/swarm/broker/ledger.py.
--   Quota/Buckets.antt: `_LiveBucket`, `LedgerConfig`, `_maybe_reset`, `_effective_remaining`.
--   Quota/Estimate.antt: `estimate_amounts`. Quota/Reserve.antt: `reserve`, `release`.
--   Quota/Settle.antt: `settle`, `bottleneck`. Quota/System.antt: the calls in any order.
-- Effects: src/swarm/tools/effects.py, the store in memory.
--   Effects/Rows.antt: effects under their project and key, approvals, receipts.
--   Effects/Store.antt: the operations of `InMemoryEffectStore`. Effects/System.antt: the calls in
--     any order. Effects/Winner.antt is about executions of one effect.
-- Graph: src/swarm/controller/graph.py.
--   Graph/Walks.antt: the graph of dependencies and its walks. Graph/Search.antt: the depth-first
--     search of `_would_cycle`. Graph/Specs.antt: tasks and proposals of
--     src/swarm/contracts/mission.py. Graph/Proposals.antt: `validate_proposal`.
-- Scheduler: src/swarm/controller/scheduler.py.
--   Scheduler/Choose.antt: `AdaptiveScheduler`. Scheduler/Authority.antt: the epochs of sites,
--     src/swarm/recovery/authority.py. Scheduler/Profiles.antt: queries of capability profiles,
--     src/swarm/evals/profiles.py. Scheduler/Integers.antt: Python's integers, for aged priorities.
-- Mission: src/swarm/controller/mission.py, over Graph and Scheduler.
--   Mission/State.antt: what a `MissionController` keeps. Mission/Commit.antt:
--     `commit_validated_revision`. Mission/Work.antt: `choose_ready_work`. Mission/Complete.antt:
--     `try_complete`. Mission/System.antt: the calls in any order. Mission/Revisions.antt is about the
--     revisions over them, and Mission/Races.antt about two proposals.
-- Runtime: src/swarm/runtime/backpressure.py, a bounded queue with quotas around the scheduler.
-- Reservations: src/swarm/controller/reservations.py, capacity of several resources at once.
--   Reservations/Service.antt: `ReservationService`. Reservations/Returned.antt is about what is taken
--     and given back.
-- Broker: src/swarm/broker/circuit.py (Broker/Circuit.antt) and src/swarm/broker/policy.py
--   (Broker/Policy.antt), what is asked before a call is sent.
-- Prelude: tables, lists, results, queries with an order and a limit, shared by all.
--
-- Conventions. A method is a function from its arguments and the store to a result and the store:
-- what was written before an exception stays in the session, as in the code, where the caller rolls
-- back. Identifiers, digests and texts that are only compared are natural numbers, with 0 for the
-- empty text; times are seconds. A call is one step: the code holds row locks, or one lock, from its
-- first look at what it writes; the controller and the scheduler run on one thread and do not yield
-- inside a call. `SKIP LOCKED` is a predicate of the rows that others hold.
-- Bounds. Each page of the scan of claims but the last holds a candidate that no page before it held,
-- so the scan has fuel for one page more than there are candidates.
-- The search for cycles has fuel for one node more than there are tasks: a path of the search holds
-- each task once, and may end at a name that is no task.
-- Parameters: the keyed digest of membership tokens (src/swarm/db/token_hash.py), the test of a
-- new token for marks of a provider's secret, and the arithmetic of floating point numbers in
-- reservations.
-- Not modelled: columns that no modelled operation reads, the JSON progress of heartbeats, the scan
-- of free JSON for raw tokens, the Wilson bound of capability profiles and other floating point
-- statistics, the dictionaries that explain a dispatch, the effect store over SQL, database errors,
-- and the parts of the program around these stores (HTTP interface, providers, tools, front end).
pub mod Prelude
pub mod Lease
pub mod Quota
pub mod Effects
pub mod Graph
pub mod Scheduler
pub mod Mission
pub mod Runtime
pub mod Reservations
pub mod Broker
