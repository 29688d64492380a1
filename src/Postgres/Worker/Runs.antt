-- ===== src/Postgres/Worker/Runs.antt =====
-- A run of the worker: its counts add up, and the fact tables stay consistent.
use plk_memory.Base.{
  refl, [], ◌∷◌, string_eq, List, ℕ, ◌≡◌, nat_eq, Bool, arith, some, none, Option, length, String,
  ◌+◌, ◌≤◌, ◌<◌, length-map,
}
use plk_memory.Domain.{FactRecord, IndexEntry, ClaimedChange}
use plk_memory.Ports.{Error, Result, ok, err}
use plk_memory.Postgres.Schema.{OutboxRow, Db}
use plk_memory.Postgres.Session.{transaction}
use plk_memory.Postgres.Session.Keeps.{
  Keeps, Keeps-pure, Keeps-bind, keeps_rules, transaction-Keeps,
}
use plk_memory.Postgres.Outbox.{claim, ack, renew, claimed, claimable_rows}
use plk_memory.Postgres.IndexState.{get as index_get}
use plk_memory.Postgres.Outbox.Claims.{claim-ok, taken-bounded}
use plk_memory.Postgres.Repository.Queries.{get}
use plk_memory.Postgres.Ledger.{IsConsistent}
use plk_memory.Postgres.Worker.{
  WorkerSettings, Moment, RunResult, Step, then_do, plan, plan_entry, put_entry, heartbeat, project,
  settle, handle, handle_all, run_once, then_do-leaves,
}
use plk_memory.Postgres.Ledger.Feed.{
  claim-Keeps, ack-Keeps, renew-Keeps, fail-Keeps, put_if_newer-Keeps,
}

module _ (settings : WorkerSettings) (backend : String)
    (upsert : FactRecord → Option IndexEntry → Result IndexEntry) (describe : Error → String)
    (jitter : ℕ → ℕ) where
  plan-Keeps :
      (c : ClaimedChange) → Keeps IsConsistent (plan settings backend upsert describe jitter c)
  unfolding plan plan_entry get index_get
  plan-Keeps c = search (keeps_rules)

  put_entry-Keeps :
      (e : Option IndexEntry)
      → Keeps IsConsistent (put_entry settings backend upsert describe jitter e)
  unfolding put_entry
  put_entry-Keeps none = Keeps-pure tt
  put_entry-Keeps (some e) = Keeps-bind _ _ (put_if_newer-Keeps backend e) λ _. Keeps-pure tt

  heartbeat-IsConsistent :
      (c : ClaimedChange) (beats : List ℕ) (db : Db)
      → IsConsistent db
      → IsConsistent (heartbeat settings backend upsert describe jitter c beats db).1
  unfolding heartbeat
  heartbeat-IsConsistent c [] db h = h
  heartbeat-IsConsistent c (t ∷ ts) db h =
      then_do-leaves IsConsistent (transaction (renew t c (t + settings.outbox_lease_seconds)) db)
        (λ _. heartbeat settings backend upsert describe jitter c ts)
        (transaction-Keeps _ db (renew-Keeps t c _) h)
        (λ _ db1 h1. heartbeat-IsConsistent c ts db1 h1)

  settle-IsConsistent :
      (c : ClaimedChange) (m : Moment) (r : Result (Unit {0}) × Db)
      → IsConsistent r.1
      → IsConsistent (settle settings backend upsert describe jitter c m r).1
  unfolding settle
  settle-IsConsistent c m (ok _, db) h = h
  settle-IsConsistent c m (err e, db) h = transaction-Keeps _ db (fail-Keeps _ _ c _ _) h

  abbrev put : Option IndexEntry → Step (Unit {0})
  put entry = transaction (put_entry settings backend upsert describe jitter entry)

  abbrev beat_and_put : ClaimedChange → List ℕ → Option IndexEntry → Step (Unit {0})
  beat_and_put c beats entry db =
      then_do (heartbeat settings backend upsert describe jitter c beats db) λ _. put entry

  project-IsConsistent :
      (c : ClaimedChange) (beats : List ℕ) (db : Db)
      → IsConsistent db
      → IsConsistent (project settings backend upsert describe jitter c beats db).1
  unfolding project
  project-IsConsistent c beats db h =
      then_do-leaves IsConsistent (transaction (plan settings backend upsert describe jitter c) db)
        (beat_and_put c beats) (transaction-Keeps _ db (plan-Keeps c) h)
        (λ entry db1 h1.
          then_do-leaves IsConsistent
            (heartbeat settings backend upsert describe jitter c beats db1) (λ _. put entry)
            (heartbeat-IsConsistent c beats db1 h1)
            (λ _ db2. transaction-Keeps _ db2 (put_entry-Keeps entry)))

  handle-IsConsistent :
      (c : ClaimedChange) (m : Moment) (db : Db)
      → IsConsistent db
      → IsConsistent (handle settings backend upsert describe jitter c m db).1
  unfolding handle
  handle-IsConsistent c m db h =
      settle-IsConsistent c m
        (then_do (project settings backend upsert describe jitter c m.beats db)
          λ _. transaction (ack m.acked_at (c ∷ [])))
        (then_do-leaves IsConsistent (project settings backend upsert describe jitter c m.beats db)
          (λ _. transaction (ack m.acked_at (c ∷ []))) (project-IsConsistent c m.beats db h)
          (λ _ db3. transaction-Keeps _ db3 (ack-Keeps _ _)))

  handle_all-IsConsistent :
      (moments : ℕ → Moment) (n : ℕ) (cs : List ClaimedChange) (db : Db)
      → IsConsistent db
      → IsConsistent (handle_all settings backend upsert describe jitter moments n cs db).1
  unfolding handle_all
  handle_all-IsConsistent moments n [] db h = h
  handle_all-IsConsistent moments n (c ∷ cs) db h =
      handle_all-IsConsistent moments (n + 1) cs _ (handle-IsConsistent c (moments n) db h)

  -- Whatever becomes of its claims, a run of the worker leaves consistent tables consistent.
  pub run_once-IsConsistent :
      (unlocked : OutboxRow → Bool) (token now claimed_at : ℕ) (moments : ℕ → Moment) (db : Db)
      → IsConsistent db
      → IsConsistent
          (run_once settings backend upsert describe jitter unlocked token now claimed_at moments
            db).1
  unfolding run_once
  run_once-IsConsistent unlocked token now claimed_at moments db h =
      then_do-leaves IsConsistent
        (transaction
          (claim claimed_at unlocked token settings.worker_consumer_name settings.outbox_batch_size
            (now + settings.outbox_lease_seconds))
          db)
        (λ claims db1.
          let (counts, db2) =
            handle_all settings backend upsert describe jitter moments 0 claims db1 in
          (ok (record { claimed = length claims; succeeded = counts.0; failed = counts.1 }), db2))
        (transaction-Keeps _ db (claim-Keeps _ _ _ _ _ _) h)
        (λ claims db1 h1. handle_all-IsConsistent moments 0 claims db1 h1)

  handle_all-counts :
      (moments : ℕ → Moment) (n : ℕ) (cs : List ClaimedChange) (db : Db)
      → length cs
        ≡ (handle_all settings backend upsert describe jitter moments n cs db).0.0
          + (handle_all settings backend upsert describe jitter moments n cs db).0.1
  unfolding handle_all
  handle_all-counts moments n [] db = refl
  handle_all-counts moments n (c ∷ cs) db = ground (
    arith,
    handle_all-counts moments (n + 1) cs
        (handle settings backend upsert describe jitter c (moments n) db).1,
  )

  -- With a batch size and a lease that are positive a run always returns, whatever the index, the
  -- acknowledgements and the reports of failures do: each of at most `outbox_batch_size` claims
  -- is counted once, as a success or as a failure.
  pub run_once-counts :
      (unlocked : OutboxRow → Bool) (token now claimed_at : ℕ) (moments : ℕ → Moment) (db : Db)
      → 1 ≤ settings.outbox_batch_size
      → claimed_at < now + settings.outbox_lease_seconds
      → (result : RunResult) × ((run_once settings backend upsert describe jitter unlocked token now
            claimed_at moments db).0
          ≡ ok result)
        × (result.claimed ≡ result.succeeded + result.failed)
        × (result.claimed ≤ settings.outbox_batch_size)
  unfolding run_once
  run_once-counts unlocked token now claimed_at moments db positive later =
      rw
        (claim-ok claimed_at unlocked token settings.worker_consumer_name settings.outbox_batch_size
          (now + settings.outbox_lease_seconds) db positive later)
        (
          _,
          refl,
          handle_all-counts moments 0 _ _,
          rw
              (length-map (claimed settings.worker_consumer_name token)
                (claimable_rows unlocked settings.outbox_batch_size claimed_at db.outbox))
              (taken-bounded claimed_at unlocked settings.outbox_batch_size db.outbox),
        )
