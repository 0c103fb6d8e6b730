-- ===== src/Lib.antt =====
-- Walwatch watches blobs in decentralized storage and renews them before they expire. An API (api/src)
-- keeps policies, budgets and jobs in a database, and a keeper (keeper/src) scans, schedules and
-- executes renewals against RPC endpoints. This library models the parts that decide.
--
-- The parts, their files here, and the code they follow:
-- * StateMachine (api/src/lib/state-machine.ts): the registry of machines (`register_machine`,
--   `get_machine`), `validate_transition`, `valid_next_states`, `is_terminal`, and the fifteen
--   lifecycles (StateMachine/Machines).
-- * Breaker (api/src/lib/circuit-breaker.ts and keeper/src/circuit-breaker.ts): the two circuit
--   breakers. `execute` and `call` are cut at their `await`: `begin`, then `on_success` or
--   `on_failure`, so that a list of events is any interleaving of overlapping calls.
-- * Retry (api/src/lib/retry.ts, keeper/src/retry.ts, api/src/lib/errors.ts): the two `withRetry`
--   loops, the API's classification of errors, and the keeper's (Retry/Jobs).
-- * Pagination (api/src/lib/cursor-pagination.ts): the keyset condition, the order, the page and the
--   `limit` parameter.
-- * Scheduler (keeper/src/scheduler.ts): cron intervals, missed windows and their catching up, and
--   `executeSchedule` under its advisory lock (AdvisoryLock).
-- * Cost (api/src/lib/cost-engine.ts): estimates, what a budget has spent, the check before an
--   execution (Cost/Check, Cost/Verdict), the record of the actual cost, and the rollover of a budget's
--   window.
-- * Policy (api/src/lib/policy-engine.ts): which policy applies to a blob.
-- * SuiPool (keeper/src/sui-pool.ts): failover over RPC endpoints, each with the keeper's breaker of
--   Breaker/Keeper, and the check of an endpoint's address.
-- * Renewal (keeper/src/executor.ts, keeper/src/scanner.ts): the vaults that are due (Renewal/Scanner,
--   with the objects of the chain in Renewal/MoveValue) and the attempts of a renewal
--   (Renewal/Executor) over the pool of SuiPool, with the errors of Retry/Jobs, the events of a
--   transaction (Renewal/Events) and the cached fee object (Renewal/FeeConfig), whose query is
--   repeated by Retry/Keeper.
-- * JobLoop (keeper/src/index.ts): the queue of renewal jobs, which asks Cost, Policy, Renewal and
--   Publisher; their answers for a job are given. Its transitions are those of StateMachine.
-- * Publisher (keeper/src/publisher-selector.ts): the publisher of a renewal.
-- * Leader (keeper/src/leader.ts): the electors of several keepers (Leader/Fleet), whose calls, and the
--   connections that the pool of keeper/src/db.ts closes, are a list, over an advisory lock.
-- * AdvisoryLock (of Leader and Scheduler): the lock that the database keeps for a session, an interface
--   with its documented laws, and one that counts (AdvisoryLock/Counted).
-- * Saga (api/src/lib/compensating-actions.ts): actions that are undone after a failure.
-- * RateLimit (api/src/middleware/rate-limit.ts): the in-memory limiter.
-- * Access (api/src/lib/delegation.ts, api/src/lib/permissions.ts): delegations and capabilities.
-- * Queue (api/src/lib/queue.ts): the job queue and its dead letters. `claimNextJob` is two steps, the
--   read and the update, which other calls may come between.
-- Prelude has the shared names, tests, list lemmas, texts and the sort.
--
-- State is passed explicitly: a breaker, a pool, a database of tables as lists of rows. An error is a
-- value of the result. Identifiers, and texts that are only compared, are numbers; texts that are
-- taken apart are lists of character codes. Numbers are natural numbers: where the source subtracts
-- times, the model compares sums. Amounts are whole, and a product with a fraction is rounded exactly
-- where the source has a double; the quotient that a budget's threshold is compared with is of doubles,
-- whose arithmetic is a parameter.
--
-- Every loop is structural: `withRetry` and the pool's `call` recurse on the attempts that are left.
-- A client that follows cursors is given a number of pages as fuel: the table's length plus one, since
-- every page but the last has a row. The scanner's pages are given two more than the chain has objects:
-- one for an empty page and one for the test that ends the loop.
--
-- Parameters, not definitions: what `fn` does at each attempt, what endpoints, the aggregator and the
-- chain answer, the advisory lock of the database, random numbers, clock readings, the rows that the
-- database driver hands back, the sum that the query of a spending limit ends with, or its error, the
-- encoding of a cursor's sort value, and the platform's URL parser and doubles. Not modelled: routes
-- and services (api/src/routes, api/src/services), encryption, the SDK, the command line, the user
-- interface and the contracts, which send, show or store; and, so far, the idempotency middleware, the
-- notification engine, the event bus and the keeper's scan cycle.
pub mod Prelude
pub mod StateMachine
pub mod Breaker
pub mod Retry
pub mod Pagination
pub mod Scheduler
pub mod Cost
pub mod Policy
pub mod SuiPool
pub mod Queue
pub mod Access
pub mod AdvisoryLock
pub mod JobLoop
pub mod Leader
pub mod Publisher
pub mod RateLimit
pub mod Renewal
pub mod Saga
