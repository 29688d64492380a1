-- ===== src/Tests/Searching.antt =====
-- The search tool at concrete tables.
use plk_memory.Domain.{SourceType, active}
use plk_memory.Base.{◌≡◌, refl, true, [], ◌∷◌, none, some, ℕ, String, List}
use plk_memory.Domain.{QueryScope, FactFilters, IndexCandidate, FactRecord, logic}
use plk_memory.Ports.{Result, ok}
use plk_memory.Postgres.Session.{◌>>=◌}
use plk_memory.Postgres.Application.{found, tool_search, search_hit}
use plk_memory.Postgres.Application.Search.{OfResponse, Sound, tool_search-IsCurrentHit}
use plk_memory.Postgres.Repository.Queries.{get_many}
use plk_memory.Postgres.Tables.{find_revision}
use plk_memory.Postgres.Mappers.{record_from_row}
use plk_memory.Tests.Indexing.{unindexed, one_fact}

abbrev caller : QueryScope
caller = record { organization_id = 7; actor_id = "claude"; roles = [] }

abbrev candidate : String → IndexCandidate ℕ
candidate fact_id = record { fact_id = fact_id; indexed_revision = 1; score = some 9 }

-- The index still has a fact that the tables do not have.
abbrev stale_index : QueryScope → String → FactFilters → Result (List (IndexCandidate ℕ))
stale_index scope query filters = ok (candidate "gone" ∷ candidate "f1" ∷ [])

tool_search-IsCurrentHit_example :
    OfResponse
      (Sound {Score = ℕ} caller [] none "active" 10 unindexed one_fact)
      (tool_search true stale_index caller "tax" [] none "active" 10 unindexed)
tool_search-IsCurrentHit_example =
    tool_search-IsCurrentHit caller [] none "active" 10 unindexed one_fact true stale_index "tax"

abbrev fact_f1 : FactRecord
fact_f1 = record {
  id = "f1";
  organization_id = 7;
  revision = 1;
  payload = record {
    kind = logic;
    statement = "s";
    why = "w";
    how_to_apply = "h";
    source = "src";
    source_type = SourceType.agent;
    namespace = "plk.domain.tax";
    tags = [];
    body = "";
  };
  status = active;
  invalidation_reason = none;
  created_by = "claude";
  created_at = 1000;
  updated_by = "claude";
  updated_at = 1000;
}

-- With a limit of 0 one hit is returned.
one_at_zero :
    tool_search true stale_index caller "tax" [] none "active" 0 unindexed
    ≡ found (search_hit fact_f1 (some 9) ∷ [])
unfolding tool_search ◌>>=◌ get_many find_revision record_from_row
one_at_zero = refl
