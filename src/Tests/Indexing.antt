-- ===== src/Tests/Indexing.antt =====
-- The index worker at concrete tables.
use plk_memory.Base.{
  ℕ, String, Bool, true, [], ◌∷◌, none, some, Option, ◌≡◌, refl, arith, ◌≤◌, ◌+◌, subst, ◌↔◌, All,
}
use plk_memory.Domain.{ClaimedChange, FactRecord, IndexEntry, created}
use plk_memory.Ports.{Error, Result, ok}
use plk_memory.Postgres.Schema.{Db, OutboxRow}
use plk_memory.Postgres.Session.{◌>>=◌}
use plk_memory.Postgres.IndexState.{put_if_newer, upsert_row, get as index_get}
use plk_memory.Postgres.IndexState.Monotone.{IsPut, put_if_newer-IsPut}
use plk_memory.Postgres.Ledger.{IsConsistent}
use plk_memory.Postgres.Ledger.Repository.{create-IsConsistent}
use plk_memory.Postgres.Worker.{
  WorkerSettings, Moment, RunResult, run_once, project, plan, plan_entry, put_entry, snapshot,
}
use plk_memory.Postgres.Worker.Runs.{run_once-IsConsistent, run_once-counts}
use plk_memory.Domain.{logic, active, SourceType, ActorType}
use plk_memory.Postgres.Schema.{FactRow, RevisionRow}
use plk_memory.Postgres.Tables.{find_fact, find_revision}
use plk_memory.Postgres.Mappers.{record_from_row}
use plk_memory.Postgres.Repository.Queries.{get}
use plk_memory.Postgres.Tables.Laws.{UniqueFacts}
use plk_memory.Postgres.Ledger.{head_version}
use plk_memory.Postgres.IndexState.Monotone.{indexed}
use plk_memory.Postgres.Worker.Projection.{project-indexed}
use plk_memory.Postgres.Worker.Lag.{IsIndexed, snapshot-IsIndexed}
use plk_memory.Tests.Samples.{ext, writer, first_fact, ids_from, empty, empty-IsConsistent, stored}

abbrev settings : WorkerSettings
settings = record {
  worker_consumer_name = "w";
  outbox_batch_size = 1;
  outbox_lease_seconds = 60;
  outbox_max_attempts = 10;
  outbox_retry_base_seconds = 1;
  outbox_retry_max_seconds = 300;
}

abbrev entry : FactRecord → IndexEntry
entry fact = record {
  organization_id = fact.organization_id;
  fact_id = fact.id;
  indexed_revision = fact.revision;
  content_hash = "h";
  backend_refs = [];
  partition = none;
  last_event_id = none;
  indexed_at = 5000;
}

abbrev index : FactRecord → Option IndexEntry → Result IndexEntry
index fact old = ok (entry fact)

abbrev describe : Error → String
describe e = "error"

abbrev jitter : ℕ → ℕ
jitter delay = delay

abbrev moments : ℕ → Moment
moments n = record { beats = 2020 ∷ []; acked_at = 2030; retry_from = 2030; failed_at = 2030 }

abbrev unlocked : OutboxRow → Bool
unlocked r = true

run_once-IsConsistent_example :
    IsConsistent
      (run_once settings "graphiti" index describe jitter unlocked 50 2000 2001 moments stored).1
run_once-IsConsistent_example =
    run_once-IsConsistent settings "graphiti" index describe jitter unlocked 50 2000 2001 moments
      stored
      (create-IsConsistent ext writer (ids_from 10) 1000 first_fact [] "k1" empty
        empty-IsConsistent)

run_once-counts_example :
    (result : RunResult) × ((run_once settings "graphiti" index describe jitter unlocked 50 2000
        2001 moments stored).0
      ≡ ok result)
    × (result.claimed ≡ result.succeeded + result.failed)
    × (result.claimed ≤ 1)
run_once-counts_example =
    run_once-counts settings "graphiti" index describe jitter unlocked 50 2000 2001 moments stored
      (omega arith) (omega arith)

abbrev new_entry : IndexEntry
new_entry = record {
  organization_id = 7;
  fact_id = "f1";
  indexed_revision = 2;
  content_hash = "h";
  backend_refs = [];
  partition = none;
  last_event_id = some 12;
  indexed_at = 5000;
}

put_if_newer-IsPut_example :
    (written : Bool) × (db' : Db) × (put_if_newer "graphiti" new_entry stored ≡ ok (written, db'))
    × IsPut "graphiti" new_entry stored written db'
put_if_newer-IsPut_example = put_if_newer-IsPut "graphiti" new_entry 12 stored (omega arith) refl

-- The claim of the event that `stored` holds.
abbrev stored_claim : ClaimedChange
stored_claim = record {
  change = record {
    event_id = 11;
    organization_id = 7;
    fact_id = "f1";
    revision = 1;
    operation = created;
    occurred_at = 1000;
  };
  consumer = "w";
  lease_token = 50;
  attempts = 1;
}

-- One fact with its revision, and the checkpoint that its projection writes.
abbrev head : FactRow
head = record {
  organization_id = 7;
  fact_id = "f1";
  kind = logic;
  namespace = "plk.domain.tax";
  status = active;
  current_version = 1;
  current_revision_id = 10;
  created_by = "claude";
  created_at = 1000;
  updated_by = "claude";
  updated_at = 1000;
}

abbrev revision : RevisionRow
revision = record {
  organization_id = 7;
  revision_id = 10;
  fact_id = "f1";
  version = 1;
  kind = logic;
  statement = "s";
  why = "w";
  how_to_apply = "h";
  sources = "src" ∷ [];
  source_type = SourceType.agent;
  namespace = "plk.domain.tax";
  tags = [];
  body = "";
  status = active;
  invalidation_reason = none;
  change_reason = "added";
  actor_id = "claude";
  actor_type = ActorType.agent;
  content_hash = "s";
  created_at = 1000;
}

abbrev pub unindexed : Db
unindexed = record empty { facts = head ∷ []; revisions = revision ∷ [] }

abbrev indexed_db : Db
indexed_db = record unindexed {
  projections =
      record {
        organization_id = 7;
        backend = "graphiti";
        fact_id = "f1";
        indexed_version = 1;
        content_hash = "h";
        backend_refs = [];
        partition = none;
        last_event_id = 11;
        indexed_at = 5000;
      }
      ∷ [];
}

projected :
    project settings "graphiti" index describe jitter stored_claim [] unindexed
    ≡ (ok tt, indexed_db)
unfolding project plan plan_entry put_entry put_if_newer upsert_row ◌>>=◌ get find_revision
    record_from_row index_get
projected = refl

pub one_fact : UniqueFacts (head ∷ [])
unfolding find_fact
one_fact = (refl, tt)

index_names :
    (fact : FactRecord) (old : Option IndexEntry) (e : IndexEntry)
    → index fact old ≡ ok e
    → (e.organization_id ≡ fact.organization_id) × (e.fact_id ≡ fact.id)
index_names fact old e made =
    let same : entry fact ≡ e = cc made in
    subst (λ (x : IndexEntry). (x.organization_id ≡ fact.organization_id) × (x.fact_id ≡ fact.id))
      same (refl, refl)

project-indexed_example : head_version 7 "f1" unindexed.facts ≤ indexed "graphiti" 7 "f1" indexed_db
project-indexed_example =
    project-indexed settings "graphiti" index describe jitter index_names stored_claim [] unindexed
      indexed_db one_fact projected

snapshot-IsIndexed_example :
    ((snapshot "graphiti" 9000 7 indexed_db).projection_lag_facts ≡ 0)
    ↔ All (IsIndexed "graphiti" 7 indexed_db) indexed_db.facts
snapshot-IsIndexed_example = snapshot-IsIndexed "graphiti" 9000 7 indexed_db (omega arith, tt)

-- Before the projection the fact lags.
one_lags : (snapshot "graphiti" 9000 7 unindexed).projection_lag_facts ≡ 1
unfolding snapshot
one_lags = refl
