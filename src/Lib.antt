-- ===== src/Lib.antt =====
-- Verification of the core of omp-bundler, a server that puts a coding agent behind chat adapters.
--
-- An adapter posts inbound messages to the core. The core deduplicates each by adapter and message id
-- (the idempotency store), decides whether it starts a turn of the agent or waits in the backlog of its
-- conversation (the ingest buffer), finds the session file of the conversation (the session
-- registry), runs the turn in a child process and delivers the terminal event back to the adapter,
-- recording that in the idempotency store. The pool hands out the children, under a limit on the
-- slots that they occupy and to one caller at a time each; the emitter turns a child's frames into
-- events and delivers them. A scheduler beside the core runs cron jobs. All parts of the core address
-- a conversation by one storage key of the adapter's id and its conversation key.
--
-- The files:
--   StorageKey    packages/core/src/adapter-registry.ts, conversationStorageKey.
--   Contracts     packages/contracts/src/{shared,inbound,outbound}.ts, the payloads.
--   Ingest        packages/core/src/ingest-buffer.ts. Every method is the function of its name, from a
--                 state and the clock's reading to the new state and the answer; `arrive` is the body
--                 of `ingest` for one conversation. Ingest/Render has the prompt text, Ingest/History
--                 sequences of calls; the other children prove.
--   Idempotency   packages/core/src/idempotency-store.ts. The table is the list of its rows, a
--                 statement the function of the rows that its SQL says, and an exception a value.
--                 Idempotency/Begin, Transitions and Correlation have the methods, Curate the
--                 text of a reason, History sequences of writes; the other children prove.
--   Sessions      packages/core/src/session-registry.ts, in the same way. `create` and `getOrCreate`
--                 wait for the child process: `create` takes the table before the wait and the one
--                 after it, and a call of `getOrCreate` is split at the wait into `get_or_create`
--                 and `settle_creation`.
--   Adapters      packages/core/src/adapter-registry.ts, the registrations: the loop of the
--                 constructor is `register`, and a lookup that throws returns an error.
--   Cron          packages/core/src/cron-expression.ts. Cron/Next has the search for the next run, over
--                 a record of what `Intl` and `Date` compute; the other children prove.
--   Pool          packages/core/src/pool-manager.ts, as a machine. A stretch of a method between two
--                 waits is a function on the pool's state (Pool/Sections from a call, Pool/Wakes from
--                 the end of a wait), what waits is a task of the state, and Pool/Machine has the step
--                 for each event, a call or the end of one task's wait, in any order. Entries are
--                 objects under the numbers of their children. Pool/Claim has the registry's part of
--                 a creation, on the table of Sessions; the other children prove.
--   Outbound      packages/core/src/outbound-emitter.ts, in the same way. The outbox is a table, the chain
--                 of promises a list of operations, and Outbound/Machine has the step for each call, for
--                 one POST of the operation at the head of the chain, and for a restart. Outbound/Frames
--                 has the handlers of the child's frames, Outbound/Delivery the deliveries; the other
--                 children prove.
--   Scheduler     packages/core/src/cron-scheduler.ts: which fires of a job are due (on Cron/Next), and
--                 the ticks over the jobs that were loaded. Scheduler/Source has the checks of a schedule
--                 file, Scheduler/Command the run of a command; Scheduler/Due and Fires prove.
--   Prelude       lists, texts (UTF-16 code units), results, maps and tables for all of them.
--
-- Bounds: the digits of a length have one unit of fuel more than the number, which is at least
-- the number of its digits. The counting loop of a cron field has one round for each number from its
-- first to its last value, as many as its step of 1 or more can need. The search for the next run has
-- the 366 rounds of the source. The search for the last fire that is due has one round for each
-- millisecond since the last run, and each round passes one at least. All else is structural recursion.
--
-- Parameters: the digest of a payload, SQLite's order of texts, the clock's readings, random ids,
-- the replies of the child process, the calendar of one time zone, the URL parser, the encoder and
-- the digests of the adapter registry, and the hooks and answers of the emitter's adapter. No
-- theorem assumes anything of them.
--
-- Not modelled: the child processes, the supervisor, the HTTP server, the turns of cron jobs, the
-- adapters and the command line. Numbers are whole; fractional options of the ingest buffer and
-- clocks before 1970 are left out. In the pool a child that failed in its creation is closed in
-- the same step, the microtasks between a promise's end and the code of the pool that awaits it
-- are steps only after an eviction and after a creation, and `close` ends when nothing starts or
-- closes any more. The emitter's database fails only on a taken event id.
pub mod Prelude
pub mod StorageKey
pub mod Contracts
pub mod Ingest
pub mod Idempotency
pub mod Sessions
pub mod Cron
pub mod Adapters
pub mod Pool
pub mod Outbound
pub mod Scheduler
