-- ===== src/Postgres/System.antt =====
-- The PostgreSQL backend as a whole: the tools of postgres/application.py and the runs of
-- postgres/worker.py, one transaction after another, by any callers and workers, from empty tables.
-- A tool that reads before it writes may have read from any tables `old`.
use plk_memory.Base.{ℕ, String, Bool, Option, [], ◌≡◌, arith, Bool-cases, not, inl, inr}
use plk_memory.Domain.{ActorContext, FactPayload, FactRecord, IndexEntry, InvalidateFact}
use plk_memory.Ports.{Error, Result, ok}
use plk_memory.Postgres.Schema.{Db, OutboxRow}
use plk_memory.Postgres.External.{External}
use plk_memory.Postgres.Repository.{Expected}
use plk_memory.Postgres.Tables.{count_where}
use plk_memory.Postgres.Worker.{WorkerSettings, Moment, run_once}
use plk_memory.Postgres.Worker.Runs.{run_once-IsConsistent}
use plk_memory.Postgres.Ledger.{IsConsistent, head_version}
use plk_memory.Postgres.Ledger.Repository.{create-IsConsistent, invalidate-IsConsistent}
use plk_memory.Postgres.Ledger.Approvals.{propose-IsConsistent}
use plk_memory.Postgres.Ledger.Decide.{decide-IsConsistent}
use plk_memory.Postgres.Application.Tools.{
  ToolSettings, AddArguments, lacks_key, key_or, prepare_add, add_command, add_prepared, reason_or,
  prepare_invalidate, invalidate_prepared, tool_propose_promotion, tool_decide_promotion,
}

abbrev pub no_rows : Db
no_rows = record {
  facts = [];
  revisions = [];
  relations = [];
  idempotency = [];
  outbox = [];
  approvals = [];
  decisions = [];
  audit = [];
  projections = [];
}

module _ (ext : External) where
  pub data Step (db : Db) : Db → Type 0 where
    adds :
        (actor : ActorContext) (fresh : ℕ → ℕ) (now : ℕ) (generated key : String)
        (fact_id_of : ℕ → String → String) (args : AddArguments) (old : Db) (payload : FactPayload)
        (expected : Expected)
        → prepare_add actor args old ≡ ok (payload, expected)
        → Step db
            (add_prepared ext actor fresh now generated fact_id_of args key
              (λ _. db)
              old
              (ok (payload, expected))).1
    invalidates :
        (actor : ActorContext) (fresh : ℕ → ℕ) (now : ℕ) (generated key fact_id reason : String)
        (wanted : Option ℕ) (old : Db) (command : InvalidateFact) (revision : ℕ)
        → prepare_invalidate actor fact_id reason wanted old ≡ ok (command, revision)
        → Step db
            (invalidate_prepared ext actor fresh now generated key
              (λ _. db)
              old
              (ok (command, revision))).1
    proposes :
        (actor : ActorContext) (fresh : ℕ → ℕ) (now : ℕ) (generated : String) (has_approvals : Bool)
        (settings : ToolSettings) (fact_id : String) (reason key : Option String)
        → Step db
            (tool_propose_promotion ext actor fresh now generated has_approvals settings fact_id
              reason key db).1
    decides :
        (actor : ActorContext) (fresh : ℕ → ℕ) (now : ℕ) (generated : String) (has_approvals : Bool)
        (settings : ToolSettings) (request_id verdict rationale : String) (revision : ℕ)
        (key : Option String)
        → Step db
            (tool_decide_promotion ext actor fresh now generated has_approvals settings request_id
              verdict rationale revision key db).1
    works :
        (settings : WorkerSettings) (backend : String)
        (upsert : FactRecord → Option IndexEntry → Result IndexEntry) (describe : Error → String)
        (jitter : ℕ → ℕ) (unlocked : OutboxRow → Bool) (token now claimed_at : ℕ)
        (moments : ℕ → Moment)
        → Step db
            (run_once settings backend upsert describe jitter unlocked token now claimed_at moments
              db).1

  pub data Reach : Db → Type 0 where
    starts : Reach no_rows
    steps : {db db' : Db} → Reach db → Step db db' → Reach db'

  no_rows-IsConsistent : IsConsistent no_rows
  unfolding count_where head_version
  no_rows-IsConsistent = record {
    unique = tt;
    recorded = λ org fact_id v. ground arith;
    announced = λ org fact_id v. ground arith;
    pinned = tt;
    requests = tt;
  }

  Step-IsConsistent : {db db' : Db} → Step db db' → IsConsistent db → IsConsistent db'
  unfolding add_prepared invalidate_prepared tool_propose_promotion tool_decide_promotion
  Step-IsConsistent {db}
        (adds actor fresh now generated key fact_id_of args old payload expected read) h =
      create-IsConsistent ext actor fresh now (add_command actor fact_id_of args key payload)
        expected key db h
  Step-IsConsistent {db}
        (invalidates actor fresh now generated key fact_id reason wanted old command revision read)
        h =
      invalidate-IsConsistent ext actor fresh now command revision key db h
  Step-IsConsistent {db}
        (proposes actor fresh now generated has_approvals settings fact_id reason key) h =
      elim (Bool-cases (not has_approvals)) [
        | inl without ↦ rw without h
        | inr with_them ↦ elim (Bool-cases (lacks_key settings key)) [
          | inl lacking ↦ rw (with_them, lacking) h
          | inr keyed ↦
              rw (with_them, keyed)
                (propose-IsConsistent ext actor fresh now fact_id (reason_or reason)
                  (key_or key generated) db h)
        ]
      ]
  Step-IsConsistent {db}
        (decides actor fresh now generated has_approvals settings request_id verdict rationale
          revision key)
        h =
      elim (Bool-cases (not has_approvals)) [
        | inl without ↦ rw without h
        | inr with_them ↦ elim (Bool-cases (lacks_key settings key)) [
          | inl lacking ↦ rw (with_them, lacking) h
          | inr keyed ↦
              rw (with_them, keyed)
                (decide-IsConsistent ext actor fresh now request_id verdict rationale revision
                  (key_or key generated) db h)
        ]
      ]
  Step-IsConsistent {db}
        (works settings backend upsert describe jitter unlocked token now claimed_at moments) h =
      run_once-IsConsistent settings backend upsert describe jitter unlocked token now claimed_at
        moments db h

  -- Whatever tools are called and whatever the workers do, in any order and with reads of any age,
  -- the tables that are reached from empty ones are consistent: each version of each fact is
  -- recorded by one revision and announced by one event, heads are unique and lead to their
  -- revisions, and requests for promotion name versions that were reached.
  pub Reach-IsConsistent : (db : Db) → Reach db → IsConsistent db
  Reach-IsConsistent db starts = no_rows-IsConsistent
  Reach-IsConsistent db (steps {db = before} reached step) =
      Step-IsConsistent step (Reach-IsConsistent before reached)
