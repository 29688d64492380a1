-- ===== src/Postgres/Application/Reads.antt =====
-- postgres/application.py: the tools and pages that read. Two reads of one call are two
-- transactions; `between` is what other transactions have done in the meantime.
use plk_memory.Base.{
  ℕ, String, Bool, Option, none, some, List, [], ◌∷◌, map, ◌==◌, string_eq, if◌then◌else◌,
}
use plk_memory.Domain.{QueryScope, FactFilters, FactRecord, FactRevision, FactHistory, FactStatus}
use plk_memory.Ports.{Result, ok, err, fact_missing, ◌>>=◌}
use plk_memory.Postgres.Schema.{Db}
use plk_memory.Postgres.Session.{transaction}
use plk_memory.Postgres.Repository.Queries.{get, history, list_facts}
use plk_memory.Postgres.Application.{SearchHit, search_hit, parse_kind, parse_status}

pub record HistoryView : Type 0 where
  pub id : String
  pub status : FactStatus
  pub current_revision : ℕ
  pub superseded_by : Option String
  pub supersedes : List String
  pub superseded_by_chain : List String
  pub revisions : List FactRevision

abbrev first_of : List String → Option String
first_of [] = none
first_of (x ∷ _) = some x

abbrev pub history_view : String → FactHistory → FactRecord → HistoryView
history_view fact_id known current = record {
  id = fact_id;
  status = current.status;
  current_revision = known.current_revision;
  superseded_by = first_of known.superseded_by;
  supersedes = known.supersedes;
  superseded_by_chain = known.superseded_by;
  revisions = known.revisions;
}

-- none for a fact that is missing; another exception leaves the call.
unfoldable pub unless_missing {ℓ} : {A : Type ℓ} → Result A → Result (Option A)
unless_missing (ok a) = ok (some a)
unless_missing (err (fact_missing _)) = ok none
unless_missing (err e) = err e

module _ (collate : String → String → Bool) (scope : QueryScope) (between : Db → Db) where
  unfoldable pub tool_history : String → Db → Result (Option HistoryView)
  unfolding unless_missing
  tool_history fact_id db = unless_missing (do
    known ← (transaction (history collate scope fact_id) db).0
    current ← (transaction (get scope fact_id) (between db)).0
    ok (history_view fact_id known current))

  -- `ui_fact_detail`: the record and its history
  unfoldable pub ui_fact_detail : String → Db → Result (Option (FactRecord × FactHistory))
  unfolding unless_missing
  ui_fact_detail fact_id db = unless_missing (do
    r ← (transaction (get scope fact_id) db).0
    known ← (transaction (history collate scope fact_id) (between db)).0
    ok (r, known))

abbrev namespaces_of : Option String → List String
namespaces_of none = []
namespaces_of (some namespace) = if namespace == "" then [] else namespace ∷ []

module _ {Score : Type 0} (scope : QueryScope) where
  unfoldable pub ui_list_facts :
      Option String → Option String → String → Db → Result (List (SearchHit Score))
  unfolding parse_kind parse_status
  ui_list_facts namespace kind_text status_text db = do
    kind ← parse_kind kind_text
    status ← parse_status status_text
    let filters : FactFilters = record {
      namespaces = namespaces_of namespace;
      kind = kind;
      status = status;
      limit = 1000;
    }
    records ← (transaction (list_facts scope filters) db).0
    ok (map (λ (r : FactRecord). search_hit r none) records)

-- `ui_metrics_posts`: every fact, of either status
unfoldable pub ui_metrics_posts : QueryScope → Db → Result (List FactRecord)
ui_metrics_posts scope db =
    (transaction
      (list_facts scope (record { namespaces = []; kind = none; status = none; limit = 1000 }))
      db).0
