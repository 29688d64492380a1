-- ===== src/Postgres/Worker.antt =====
-- postgres/worker.py: the index worker, which projects the current heads into the search index; an
-- event of the outbox is only the signal to look. The clock is read anew for each use; times,
-- leases and delays count in one unit, and `jitter` stands for the random factor on a delay.
pub mod Projection
pub mod Runs
pub mod Lag
use plk_memory.Base.{
  ℕ, ◌+◌, ◌-◌, ◌*◌, ◌^◌, min, String, Bool, true, false, Option, none, some, List, [], ◌∷◌, ◌==◌,
  leb, length, nat_eq, string_eq, if◌then◌else◌, ◌&&◌, ltb, not, keep,
}
use plk_memory.Domain.{FactRecord, IndexEntry, ClaimedChange, QueryScope}
use plk_memory.Ports.{Error, Result, ok, err}
use plk_memory.Postgres.Schema.{FactRow, ProjectionRow, Db, OutboxRow}
use plk_memory.Postgres.Session.{Tx, pure, lift, transaction, ◌>>=◌, ◌>>◌}
use plk_memory.Postgres.Repository.Queries.{get}
use plk_memory.Postgres.Outbox.{claim, ack, renew, fail, is_open, is_none}
use plk_memory.Postgres.Tables.{first_where, count_where}
use plk_memory.Postgres.IndexState.{projection_key, put_if_newer, get as index_get}

-- The settings that the worker reads.
pub record WorkerSettings : Type 0 where
  pub worker_consumer_name : String
  pub outbox_batch_size : ℕ
  pub outbox_lease_seconds : ℕ
  pub outbox_max_attempts : ℕ
  pub outbox_retry_base_seconds : ℕ
  pub outbox_retry_max_seconds : ℕ

-- Readings of the clock, and what else the run of one claim meets.
pub record Moment : Type 0 where
  -- the times at which the heartbeat renews while the projection runs
  pub beats : List ℕ
  pub acked_at : ℕ
  pub retry_from : ℕ
  pub failed_at : ℕ

-- What `run_once` reports.
pub record RunResult : Type 0 where
  pub claimed : ℕ
  pub succeeded : ℕ
  pub failed : ℕ

-- Transactions one after another: an exception ends them, and what was committed stays.
abbrev pub Step {ℓ} : Type ℓ → Type ℓ
Step A = Db → Result A × Db

abbrev pub then_do {ℓ κ} : {A : Type ℓ} {B : Type κ} → Result A × Db → (A → Step B) → Result B × Db
then_do (ok a, db) f = f a db
then_do (err e, db) f = (err e, db)

-- What the first step and all that may follow it leave.
pub then_do-leaves {ℓ κ} :
    {A : Type ℓ} {B : Type κ} (P : Db → Type 0) (r : Result A × Db) (f : A → Step B)
    → P r.1
    → ((a : A) (db : Db) → P db → P (f a db).1)
    → P (then_do r f).1
then_do-leaves P (ok a, db) f h k = k a db h
then_do-leaves P (err e, db) f h k = h

module _ (settings : WorkerSettings) (backend : String)
    (upsert : FactRecord → Option IndexEntry → Result IndexEntry) (describe : Error → String)
    (jitter : ℕ → ℕ) where
  abbrev worker_scope : ClaimedChange → QueryScope
  worker_scope c = record {
    organization_id = c.change.organization_id;
    actor_id = settings.worker_consumer_name;
    roles = "worker" ∷ [];
  }

  abbrev up_to_date : Option IndexEntry → FactRecord → Bool
  up_to_date none fact = false
  up_to_date (some old) fact = leb fact.revision old.indexed_revision

  unfoldable pub plan_entry :
      ClaimedChange → FactRecord → Option IndexEntry → Tx (Option IndexEntry)
  plan_entry c fact old = do
    entry ← lift (upsert fact old)
    pure (
        some (record entry {
          indexed_revision = fact.revision;
          last_event_id = some c.change.event_id;
        }))

  -- `_project` up to the entry that it puts; `none` where the index is up to date. Its two reads are
  -- taken at one moment.
  unfoldable pub plan : ClaimedChange → Tx (Option IndexEntry)
  unfolding plan_entry
  plan c = do
    fact ← get (worker_scope c) c.change.fact_id
    old ← index_get backend c.change.organization_id c.change.fact_id
    if up_to_date old fact then pure none else plan_entry c fact old

  unfoldable pub put_entry : Option IndexEntry → Tx (Unit {0})
  put_entry none = pure tt
  put_entry (some entry) = do written ← put_if_newer backend entry; pure tt

  -- `_heartbeat`: a renewal at each of the times.
  unfoldable pub heartbeat : ClaimedChange → List ℕ → Step (Unit {0})
  heartbeat c [] db = (ok tt, db)
  heartbeat c (t ∷ ts) db =
      then_do (transaction (renew t c (t + settings.outbox_lease_seconds)) db) λ _. heartbeat c ts

  -- `_project_with_lease_heartbeat`: a renewal that fails ends the projection before its write.
  unfoldable pub project : ClaimedChange → List ℕ → Step (Unit {0})
  unfolding heartbeat
  project c beats db =
      then_do (transaction (plan c) db)
        λ entry db1. then_do (heartbeat c beats db1) λ _. transaction (put_entry entry)

  unfoldable pub retry_delay : ClaimedChange → ℕ
  retry_delay c =
      min settings.outbox_retry_max_seconds
        (settings.outbox_retry_base_seconds * 2 ^ (c.attempts - 1))

  -- The `except` clause; a failure to report the failure is passed over.
  unfoldable pub settle : ClaimedChange → Moment → Result (Unit {0}) × Db → Bool × Db
  unfolding retry_delay
  settle c m (ok _, db) = (true, db)
  settle c m (err e, db) = (
    false,
    (transaction
        (fail m.failed_at settings.outbox_max_attempts c (describe e)
          (m.retry_from + jitter (retry_delay c)))
        db).1,
  )

  -- One claim of the batch: whether it succeeded.
  unfoldable pub handle : ClaimedChange → Moment → Db → Bool × Db
  unfolding settle project
  handle c m db =
      settle c m (then_do (project c m.beats db) λ _. transaction (ack m.acked_at (c ∷ [])))

  -- The loop over the claims, with the counts of successes and failures.
  unfoldable pub handle_all : (ℕ → Moment) → ℕ → List ClaimedChange → Db → (ℕ × ℕ) × Db
  unfolding handle
  handle_all moments n [] db = ((0, 0), db)
  handle_all moments n (c ∷ cs) db =
      let (succeeded, db1) = handle c (moments n) db in
      let (counts, db2) = handle_all moments (n + 1) cs db1 in
      ((if succeeded then (counts.0 + 1, counts.1) else (counts.0, counts.1 + 1)), db2)

  unfoldable pub run_once : (OutboxRow → Bool) → ℕ → ℕ → ℕ → (ℕ → Moment) → Step RunResult
  unfolding handle_all
  run_once unlocked token now claimed_at moments db =
      then_do
        (transaction
          (claim claimed_at unlocked token settings.worker_consumer_name settings.outbox_batch_size
            (now + settings.outbox_lease_seconds))
          db)
        λ claims db1.
          let (counts, db2) = handle_all moments 0 claims db1 in
          (ok (record { claimed = length claims; succeeded = counts.0; failed = counts.1 }), db2)

-- `PostgresProjectionStatus`
pub record Snapshot : Type 0 where
  pub pending_events : ℕ
  pub dead_letters : ℕ
  pub oldest_pending_seconds : Option ℕ
  pub projection_lag_facts : ℕ

abbrev pub lags : String → List ProjectionRow → FactRow → Bool
lags backend rows h = behind (first_where (projection_key backend h.organization_id h.fact_id) rows)
  where
    behind : Option ProjectionRow → Bool
    behind none = true
    behind (some r) = ltb r.indexed_version h.current_version

abbrev is_pending : ℕ → OutboxRow → Bool
is_pending org r = r.organization_id == org && is_open r

abbrev oldest_of : List OutboxRow → Option ℕ
oldest_of [] = none
oldest_of (r ∷ rs) = elim (oldest_of rs) [
  | none ↦ some r.occurred_at
  | some t ↦ some (min r.occurred_at t)
]

-- `max((now - oldest).total_seconds(), 0)`: the difference of naturals stops at 0.
abbrev age : ℕ → Option ℕ → Option ℕ
age now none = none
age now (some t) = some (now - t)

-- Row level security shows the rows of the organization only.
unfoldable pub snapshot : String → ℕ → ℕ → Db → Snapshot
unfolding count_where first_where
snapshot backend now org db = record {
  pending_events = count_where (is_pending org) db.outbox;
  dead_letters =
      count_where (λ (r : OutboxRow). r.organization_id == org && not (is_none r.dead_lettered_at))
        db.outbox;
  oldest_pending_seconds = age now (oldest_of (keep (is_pending org) db.outbox));
  projection_lag_facts =
      count_where (λ (h : FactRow). h.organization_id == org && lags backend db.projections h)
        db.facts;
}
