-- ===== src/Lib.antt =====
-- plk-memory keeps the knowledge of an organization as facts with versions. This library models
-- its PostgreSQL backend, of its Git backend the requests for promotion and for an improvement
-- by AI and the synchronisation of the index, and the evaluation of workflows by signed reviews.
-- In the PostgreSQL backend the fact tables are the source of truth, every write puts an event
-- into an outbox in its own transaction, and a worker projects the current heads of facts into a
-- search index.
--
-- Domain          src/plk_memory/domain.py: the values that pass between the parts
-- Ports           src/plk_memory/ports.py: the failures, as values
-- Postgres/Schema, Postgres/Tables
--                 src/plk_memory/postgres/schema.py: rows, keys, unique constraints
-- Postgres/Session
--                 src/plk_memory/postgres/database.py: a unit of work, committed or rolled back
-- Postgres/Mappers, Postgres/WriteOps
--                 src/plk_memory/postgres/mappers.py and write_ops.py: rows from values and back,
--                 idempotency records, outbox events, audit events
-- Postgres/Repository (Validate, Validate/Policy, Locking, Queries)
--                 src/plk_memory/postgres/repository.py: create, invalidate, list, get, history
-- Postgres/Replay what an idempotency key promises, for create and invalidate
-- Postgres/Approvals (Requests)
--                 src/plk_memory/postgres/approvals.py: propose and decide, with the promotion
-- Postgres/Ledger what the tables promise together, and that the writes keep it
-- Postgres/Outbox, Postgres/IndexState
--                 src/plk_memory/postgres/outbox.py: the change feed with its leases, and the
--                 checkpoints of the projection
-- Postgres/Worker src/plk_memory/postgres/worker.py: a run of the index worker, the status; a
--                 heartbeat renews between the reads and the write of a projection
-- Postgres/Application
--                 src/plk_memory/postgres/application.py: the search tool, the tools that
--                 write (Tools), those that read (Reads)
-- Postgres/System the tools and the workers together, in any order
-- Telemetry, Postgres/Telemetry (Recording, Decisions, Actions)
--                 src/plk_memory/telemetry.py and postgres/telemetry.py: what agents report on their
--                 searches, decisions and actions; the tools are in Postgres/Application/Reporting
-- Promotions      src/plk_memory/promotions.py: promotion requests of the Git backend
-- Dict            the dictionaries behind the stores of the Git backend
-- Feedback (System, Effects, Safety)
--                 src/plk_memory/feedback.py: requests for an improvement, their coordinator, and
--                 its steps in any order
-- Sync (Engine)   src/plk_memory/sync.py and state.py: the engine that brings the index of the Git
--                 backend up to the head of the clone
-- Workflow        src/plk_memory/workflow_evaluation.py: cases, suites and reviews (Enums, Cases,
--                 Reviews), the suite against the corpus (Corpus), the file of signed reviews, its
--                 lines and its chain (Store, Lines, History, Files), summaries (Cohorts, Summary),
--                 the status of a pilot (Pilot)
-- Tests           samples, and the theorems at concrete inputs
--
-- A table is the list of its rows. A unit of work is a function from tables to a result with new
-- tables; `transaction` keeps the old tables where it raises, as the rollback does. Transactions
-- run one after another: row locks, on which the code relies for this, are not modelled, but an
-- argument tells which rows another transaction has locked where the code skips these. Row level
-- security is not modelled either: the queries filter by organization themselves, and the worker's
-- status, which relies on it, has the filter written out. Foreign keys and
-- the texts of messages are left out. UUIDs and instants are natural numbers; what the code draws
-- from `uuid4()` is the argument `fresh` (or `token`), and what it reads from the clock `now`.
--
-- Texts of files are as a handle reads them, with line feeds for carriage returns. The rows of the
-- searches of a decision come in the order of its ids, one of those the database may choose.
--
-- The tables of telemetry hold one organization's rows, as dictionaries by the rest of their keys.
-- An operation on them gets what its transaction has read and, apart, what stands when it writes.
--
-- No definition uses fuel: every loop of the modelled code is over a list.
--
-- Parameters stand for what is not in the repository or is computed outside it: SHA-256 of
-- canonical JSON, the schema of plk_validator, the scanner of secrets, the parser of UUIDs
-- (Postgres/External), what git and front matter hold and the answers of the index (Sync), base64,
-- Ed25519, JSON and pydantic's reading of fields (Workflow/Store), the search index and the jitter
-- of the retry delay (Postgres/Worker and Postgres/Application). The telemetry of the search tool
-- stands beside it, in Postgres/Application/Reporting, since it cannot change the response.
--
-- Not modelled: the rest of the Git backend, the web layer, the listing of telemetry and the
-- metrics, the clients of GitHub, Slack and Graphiti, the migrations.
pub mod Base
pub mod Dict
pub mod Domain
pub mod Feedback
pub mod Ports
pub mod Postgres
pub mod Promotions
pub mod Sync
pub mod Telemetry
pub mod Workflow
mod Tests
