-- ===== src/Postgres/Application.antt =====
-- postgres/application.py: the search tool. The index only names candidates; what is returned is
-- read from the tables.
pub mod Hits
pub mod Visible
pub mod Search
pub mod Tools
pub mod Reads
pub mod Reporting
use plk_memory.Base.{
  ℕ, ◌+◌, ◌*◌, min, max, String, Bool, true, false, not, ◌&&◌, ◌||◌, Option, none, some, List, [],
  ◌∷◌, map, ◌==◌, elem, leb, nat_eq, string_eq, if◌then◌else◌,
}
use plk_memory.Domain.{
  QueryScope, FactFilters, FactRecord, FactKind, FactStatus, IndexCandidate, kind_eq, status_eq,
  philosophy, logic, knowhow, active,
}
use plk_memory.Ports.{Error, Result, ok, err, validation_error, value_error, raise_if, ◌>>=◌, ◌>>◌}
use plk_memory.Postgres.Schema.{Db}
use plk_memory.Postgres.Session.{transaction}
use plk_memory.Postgres.Repository.Queries.{
  get_many, matches_namespaces, matches_kind, matches_status,
}

-- `FactFilters.model_validate`: the texts that are a kind or a status.
unfoldable pub parse_kind : Option String → Result (Option FactKind)
parse_kind none = ok none
parse_kind (some text) =
    if text == "philosophy"
    then ok (some philosophy)
    else if text == "logic"
    then ok (some logic)
    else if text == "knowhow"
    then ok (some knowhow)
    else err (validation_error "kind")

unfoldable pub parse_status : String → Result (Option FactStatus)
parse_status text =
    if text == "active"
    then ok (some active)
    else if text == "invalidated"
    then ok (some FactStatus.invalidated)
    else err (validation_error "status")

-- `list(dict.fromkeys(ids))`, where `seen` came before.
unfoldable pub distinct : List String → List String → List String
distinct seen [] = []
distinct seen (i ∷ is) =
    let old = distinct seen is in
    let new = distinct (i ∷ seen) is in if elem i seen then old else i ∷ new

-- `{record.id: record for record in records}.get(fact_id)`: the last one counts.
unfoldable pub by_id : String → List FactRecord → Option FactRecord
by_id fact_id [] = none
by_id fact_id (r ∷ rs) = elim (by_id fact_id rs) [
  | some found ↦ some found
  | none ↦ if r.id == fact_id then some r else none
]

-- `_visible`; `None` and an empty list of namespaces are alike.
unfoldable pub visible :
    List String → Option FactKind → Option FactStatus → Bool → FactRecord → Bool
visible namespaces kind status allow_quarantine r =
    not (r.payload.namespace == "plk.quarantine" && not allow_quarantine)
    && matches_namespaces namespaces r
    && matches_kind kind r
    && matches_status status r

pub record SearchHit (Score : Type 0) : Type 0 where
  pub fact_id : String
  pub statement : String
  pub namespace : String
  pub kind : FactKind
  pub status : FactStatus
  pub fact_text : String
  pub created_at : ℕ
  pub revision : ℕ
  pub score : Option Score

-- The three shapes of the response.
pub data SearchResponse (Score : Type 0) : Type 0 where
  degraded : String → SearchResponse Score
  rejected : String → SearchResponse Score
  found : List (SearchHit Score) → SearchResponse Score

-- The record of a candidate, if it is to be shown.
abbrev pub shown : (FactRecord → Bool) → Option FactRecord → Option FactRecord
shown test none = none
shown test (some r) = if test r then some r else none

module _ {Score : Type 0} where
  -- `_search_hit`
  abbrev pub search_hit : FactRecord → Option Score → SearchHit Score
  search_hit r score = record {
    fact_id = r.id;
    statement = r.payload.statement;
    namespace = r.payload.namespace;
    kind = r.payload.kind;
    status = r.status;
    fact_text = r.payload.statement;
    created_at = r.created_at;
    revision = r.revision;
    score = score;
  }

  -- The loop over the candidates, where `count` hits have been found; it stops once `limit` is
  -- reached, which is asked after a hit is added.
  unfoldable pub collect :
      (FactRecord → Bool)
      → List FactRecord
      → ℕ
      → ℕ
      → List (IndexCandidate Score)
      → List (SearchHit Score)
  unfolding by_id
  collect test records limit count [] = []
  collect test records limit count (c ∷ cs) =
      let passed_over = collect test records limit count cs in
      let rest = collect test records limit (count + 1) cs in
      elim (shown test (by_id c.fact_id records)) [
        | none ↦ passed_over
        | some r ↦ search_hit r c.score ∷ (if leb limit (count + 1) then [] else rest)
      ]

  -- The `except` clauses.
  unfoldable pub respond : Result (List (SearchHit Score)) → SearchResponse Score
  respond (ok hits) = found hits
  respond (err (validation_error e)) = rejected e
  respond (err (value_error e)) = rejected e
  respond (err _) = degraded "search failed"

  -- `tool_search`, less its telemetry. A limit below 0 acts as 0 does.
  unfoldable pub tool_search :
      Bool
      → (QueryScope → String → FactFilters → Result (List (IndexCandidate Score)))
      → QueryScope
      → String
      → List String
      → Option String
      → String
      → ℕ
      → Db
      → SearchResponse Score
  unfolding respond collect visible distinct parse_kind parse_status
  tool_search ready search scope query namespaces kind_text status_text limit db =
      if ready
      then respond (do
        kind ← parse_kind kind_text
        status ← parse_status status_text
        let filters : FactFilters = record {
          namespaces = namespaces;
          kind = kind;
          status = status;
          limit = min (max (limit * 5) 50) 1000;
        }
        raise_if (query == "") (validation_error "query")
        candidates ← search scope query filters
        let ids = distinct [] (map (λ (c : IndexCandidate Score). c.fact_id) candidates)
        records ← (transaction (get_many scope ids) db).0
        ok (
            collect (visible namespaces kind status (elem "plk.quarantine" namespaces)) records
              limit 0 candidates))
      else degraded "search index is not connected"
