-- ===== src/Lib.antt =====
-- JAA, the job application agent: a model of the program's own core logic, with the theorems that make it
-- correct.
--
-- The program. An Express API (apps/api) keeps everything in one PostgreSQL database, through Prisma
-- (packages/database). A user's applications move through a table of statuses; each move writes a log
-- row, an audit row and an outbox event in the same transaction. Work that takes time is a row of the
-- table of automation jobs, which workers lease, renew, complete or fail, and which a sweep recovers when
-- a lease runs out; a queue message names a job with an attempt and a delivery generation. Before a job
-- is applied to, the quality gate and the user's rules (packages/job-engine) decide on it. Requests that
-- must run once go through a table of idempotency records, and a signed-in user holds a family of
-- refresh token sessions. A dispatcher hands due jobs to BullMQ queues as envelopes, whose workers process
-- them and wait longer after each failure. A page that asks for a captcha or a login stops an application
-- until its user has acted (human verification); which pages a browser may open is for the browser policy to
-- say, and secrets are encrypted in a vault.
--
-- How it is modelled. A table is a list of rows, a row is a record with the columns as fields, and an
-- UPDATE is a function over the rows. A transaction reads and writes the store and may throw, in which
-- case the store is as before (Prelude/Transactions); code that runs several transactions keeps what
-- the earlier ones committed (Prelude/Sessions). Unique indexes and primary keys are tests that throw.
-- What other transactions commit between two statements or transactions of an operation is a function on
-- the store that the operation takes as an argument. The clock, generated identifiers and tokens, hashes,
-- the verification of tokens, Unicode tables and the database's order of texts are arguments too. Times
-- are milliseconds as natural numbers; a number or a date of a request is a type that has the values
-- which the code rejects (Prelude/Numbers).
--
-- The files:
--   Prelude/      what the parts share: Boolean tests, lists, membership, sorting, texts, numbers,
--                 transactions.
--   Json/         JSON values and the texts by which they are compared: Canonical has canonicalJson of
--                 apps/api/src/services/application-state-machine.ts and canonicalize of idempotency.ts, which
--                 order keys by code units, Locale has canonicalJson and payloadEquals of
--                 automation-jobs.ts, which order them with localeCompare.
--   Application/  apps/api/src/services/application-state-machine.ts: Status has `transitions`,
--                 `canTransition` and `allowedTransitions`; Store the tables; Machine
--                 `transitionApplicationInTenant` and `transitionApplication`; Graph, Steps, Commits,
--                 Retry, Chain and History are about them.
--   Automation/   apps/api/src/services/automation-jobs.ts: Jobs has the tables; Checks the input
--                 checks; Creation, Leasing, Ownership and Recovery the operations under the names of
--                 the code, in snake case; Invariant collects them as calls, and the other modules are
--                 about them.
--   Sessions/     apps/api/src/services/refresh-sessions.ts, and `issueTokens` of
--                 apps/api/src/routes/auth.ts: Rows, Rotation; Families has the requests as events.
--   Idempotency/  apps/api/src/services/idempotency.ts: Command has `executeIdempotentCommand`.
--   Outbox/       apps/api/src/services/outbox-publisher.ts: Publisher has the claim and the loop of a
--                 batch, Batch `publishOutboxBatch` with its options.
--   Queue/        packages/queue/src: names.ts (Names, with the job types that
--                 apps/api/src/services/automation-job-handlers.ts handles), registry.ts (Envelope) and
--                 worker.ts (Delay has `retryJitter` and `retryDelayMs`, Worker the processing of a
--                 delivery).
--   Dispatch/     apps/api/src/services/automation-job-dispatcher.ts: Loop has `dispatchAutomationJobs`,
--                 from the job table of Automation to the envelopes of Queue.
--   Browser/      packages/security/src/browser-policy.ts: Addresses classifies IP addresses, Policy has
--                 `normalizeBrowserHostname` and `BrowserNavigationPolicy`.
--   Credentials/  packages/security/src/encryption.ts (Encryption) and credential-vault.ts (Vault).
--   Verification/ apps/api/src/services/human-verification.ts: Store has the tables, Machine the request,
--                 Resolution the resolution, Handoff the cancellation and the resumption, over the transitions
--                 of Application; Classification is the end of packages/security/src/browser-policy.ts.
--   Rules/        packages/job-engine/src/rules.ts (Engine) and application-quality.ts (Quality), with
--                 the conditions that both test (Conditions).
-- In each part Tests runs the definitions and applies the theorems at concrete inputs.
--
-- Fuel. Only `execute_in_transaction` of Idempotency/Command recurses on fuel: the code calls itself
-- again after it deleted an expired record, and by the unique index no record has the key then, so that two
-- rounds are enough. All other loops are over lists.
--
-- Strings are the native ones where the code only compares them, and lists of UTF-16 code units
-- (Prelude/Units) where it cuts them up: host names, IP addresses, encrypted texts.
--
-- Parameters. The URL parser, `isIP` and the resolver of names, node:crypto, and whether BullMQ takes a job
-- are arguments, and so are localeCompare, what a jsonb column gives back of a value, where the code compares it
-- or reads it again, and which times the database client takes for a batch of the outbox; what AES-GCM promises for a text is a hypothesis (Credentials/Roundtrip). The delay before a
-- retry is computed exactly, where the code computes with doubles.
--
-- Left out. Advisory locks, which only make transactions run one after the other; row level security;
-- messages of errors and of quality evidence; fractions among scores and priorities. Not modelled: the
-- web client, the HTTP routes and middleware beyond what is named above, the AI agents, the adapters that
-- fetch jobs and fill forms in a browser, e-mail, document storage, and notifications: these are input and
-- output around calls of other libraries, or are parts of their own. Of BullMQ's workers the timers, the
-- renewal of a lease and the pausing of a queue are left out.
pub mod Prelude
pub mod Json
pub mod Application
pub mod Automation
pub mod Browser
pub mod Credentials
pub mod Dispatch
pub mod Idempotency
pub mod Outbox
pub mod Queue
pub mod Rules
pub mod Sessions
pub mod Verification
