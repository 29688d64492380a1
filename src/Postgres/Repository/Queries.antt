-- ===== src/Postgres/Repository/Queries.antt =====
-- postgres/repository.py: the reads. Each sees the rows of its own organization only.
use plk_memory.Base.{
  ℕ, String, Bool, ◌&&◌, Option, none, some, true, List, [], ◌∷◌, map, ◌==◌, elem, keep, take,
  sort_by, leb, nat_eq, string_eq, if◌then◌else◌,
}
use plk_memory.Domain.{
  QueryScope, FactFilters, FactRecord, FactHistory, FactKind, FactStatus, kind_eq, status_eq,
}
use plk_memory.Ports.{fact_missing}
use plk_memory.Postgres.Schema.{FactRow, RevisionRow, RelationRow}
use plk_memory.Postgres.Session.{Tx, gets, or_raise, ◌>>=◌}
use plk_memory.Postgres.Tables.{find_revision, find_fact}
use plk_memory.Postgres.Mappers.{record_from_row, revision_from_row}

-- `_current_query`: the heads of an organization joined with their current revisions
unfoldable pub current : ℕ → List RevisionRow → List FactRow → List FactRecord
current org revisions [] = []
current org revisions (h ∷ hs) =
    let rest = current org revisions hs in
    if h.organization_id == org
    then elim (find_revision org h.current_revision_id revisions) [
      | none ↦ rest
      | some row ↦ record_from_row h row ∷ rest
    ]
    else rest

abbrev pub matches_namespaces : List String → FactRecord → Bool
matches_namespaces [] r = true
matches_namespaces (n ∷ ns) r = elem r.payload.namespace (n ∷ ns)

abbrev pub matches_kind : Option FactKind → FactRecord → Bool
matches_kind none r = true
matches_kind (some k) r = r.payload.kind == k

abbrev pub matches_status : Option FactStatus → FactRecord → Bool
matches_status none r = true
matches_status (some s) r = r.status == s

-- The filters of `list`; an empty one is left out of the query.
unfoldable pub matches : FactFilters → FactRecord → Bool
matches f r =
    matches_namespaces f.namespaces r && matches_kind f.kind r && matches_status f.status r

-- `order_by(updated_at.desc())`; rows of one instant come in any order
unfoldable pub newest_first : List FactRecord → List FactRecord
unfolding sort_by
newest_first = sort_by (λ r x. leb x.updated_at r.updated_at)

unfoldable pub list_facts : QueryScope → FactFilters → Tx (List FactRecord)
unfolding current matches newest_first
list_facts scope filters = gets (λ db.
    take filters.limit
      (newest_first (keep (matches filters) (current scope.organization_id db.revisions db.facts))))

unfoldable pub record_by_id : String → List FactRecord → Option FactRecord
record_by_id fact_id [] = none
record_by_id fact_id (r ∷ rs) = if r.id == fact_id then some r else record_by_id fact_id rs

unfoldable pub get : QueryScope → String → Tx FactRecord
unfolding current record_by_id
get scope fact_id = do
  found ← gets (λ db. record_by_id fact_id (current scope.organization_id db.revisions db.facts))
  or_raise found (fact_missing fact_id)

unfoldable pub pick : List String → List FactRecord → List FactRecord
unfolding record_by_id
pick [] records = []
pick (i ∷ is) records =
    let rest = pick is records in elim (record_by_id i records) [ none ↦ rest | some r ↦ r ∷ rest ]

-- In the order of the ids; an unknown id is passed over.
unfoldable pub get_many : QueryScope → List String → Tx (List FactRecord)
unfolding current pick
get_many scope fact_ids =
    gets (λ db. pick fact_ids (current scope.organization_id db.revisions db.facts))

unfoldable pub by_version : List RevisionRow → List RevisionRow
unfolding sort_by
by_version = sort_by (λ r x. leb r.version x.version)

-- `collate` is the order of texts under the database's collation.
unfoldable pub history : (String → String → Bool) → QueryScope → String → Tx FactHistory
unfolding by_version sort_by
history collate scope fact_id = do
  let org = scope.organization_id
  found ← gets (λ db. find_fact org fact_id db.facts)
  head ← or_raise found (fact_missing fact_id)
  gets (λ db. record {
    fact_id = fact_id;
    current_revision = head.current_version;
    revisions = map revision_from_row (
        by_version (
          keep (λ (r : RevisionRow). r.organization_id == org && r.fact_id == fact_id)
            db.revisions));
    supersedes = sort_by collate (
        map (λ (r : RelationRow). r.to_fact_id)
          (keep (λ (r : RelationRow). r.organization_id == org && r.from_fact_id == fact_id)
            db.relations));
    superseded_by = sort_by collate (
        map (λ (r : RelationRow). r.from_fact_id)
          (keep (λ (r : RelationRow). r.organization_id == org && r.to_fact_id == fact_id)
            db.relations));
  })
