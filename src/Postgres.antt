-- ===== src/Postgres.antt =====
-- The PostgreSQL backend: tables, transactions, the fact and approval repositories, the outbox.
pub mod Schema
pub mod Session
pub mod Tables
pub mod External
pub mod Mappers
pub mod WriteOps
pub mod Repository
pub mod Approvals
pub mod Ledger
pub mod Outbox
pub mod IndexState
pub mod Worker
pub mod Replay
pub mod Application
pub mod System
pub mod Telemetry
