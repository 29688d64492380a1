-- ===== src/Postgres/IndexState.antt =====
-- postgres/outbox.py: `PostgresIndexStateRepository`, the checkpoints of the search projection.
pub mod Monotone
use plk_memory.Base.{
  ℕ, String, Bool, true, false, ◌&&◌, Option, none, some, ◌∷◌, ◌==◌, ltb, nat_eq, string_eq,
  if◌then◌else◌, List,
}
use plk_memory.Base.Text.{first_chars}
use plk_memory.Domain.{IndexEntry}
use plk_memory.Ports.{value_error}
use plk_memory.Postgres.External.{External}
use plk_memory.Postgres.Schema.{OutboxRow, ProjectionRow, Db}
use plk_memory.Postgres.Session.{Tx, pure, raise, gets, modify, or_raise, ◌>>=◌, ◌>>◌}
use plk_memory.Postgres.Tables.{first_where, update_where}

-- The primary key of search_projection_state.
abbrev pub projection_key : String → ℕ → String → ProjectionRow → Bool
projection_key backend org fact_id r =
    r.organization_id == org && r.backend == backend && r.fact_id == fact_id

abbrev pub entry_of : ProjectionRow → IndexEntry
entry_of r = record {
  organization_id = r.organization_id;
  fact_id = r.fact_id;
  indexed_revision = r.indexed_version;
  content_hash = r.content_hash;
  backend_refs = r.backend_refs;
  partition = r.partition;
  last_event_id = some r.last_event_id;
  indexed_at = r.indexed_at;
}

abbrev pub row_of : String → IndexEntry → ℕ → ProjectionRow
row_of backend e event_id = record {
  organization_id = e.organization_id;
  backend = backend;
  fact_id = e.fact_id;
  indexed_version = e.indexed_revision;
  content_hash = e.content_hash;
  backend_refs = e.backend_refs;
  partition = e.partition;
  last_event_id = event_id;
  indexed_at = e.indexed_at;
}

abbrev pub entry_found : Option ProjectionRow → Option IndexEntry
entry_found none = none
entry_found (some r) = some (entry_of r)

module _ (backend : String) where
  -- The organization is a UUID already, so that its parsing is left out.
  unfoldable pub get : ℕ → String → Tx (Option IndexEntry)
  unfolding first_where
  get org fact_id =
      gets (λ db. entry_found (first_where (projection_key backend org fact_id) db.projections))

  unfoldable pub overwrite : ProjectionRow → Tx Bool
  unfolding update_where
  overwrite new = do
    modify (λ db. record db {
      projections =
          update_where (projection_key backend new.organization_id new.fact_id) (λ r. new)
            db.projections;
    })
    pure true

  -- `INSERT ... ON CONFLICT DO UPDATE ... WHERE excluded.indexed_version > indexed_version`
  unfoldable pub upsert_row : ProjectionRow → Option ProjectionRow → Tx Bool
  unfolding overwrite
  upsert_row new none = do
    modify (λ db. record db { projections = new ∷ db.projections })
    pure true
  upsert_row new (some old) =
      if ltb old.indexed_version new.indexed_version then overwrite new else pure false

  -- Whether a row was written.
  unfoldable pub put_if_newer : IndexEntry → Tx Bool
  unfolding upsert_row first_where
  put_if_newer e = do
    event_id ←
        or_raise e.last_event_id
          (value_error "last_event_id is required for PostgreSQL projection state")
    old ←
        gets (λ db. first_where (projection_key backend e.organization_id e.fact_id) db.projections)
    upsert_row (row_of backend e event_id) old

unfoldable pub mark_failed : External → String → String → Tx (Unit {0})
unfolding update_where first_chars
mark_failed ext event_id error = do
  uuid ← or_raise (ext.parse_uuid event_id) (value_error "badly formed UUID")
  modify (λ db. record db {
    outbox =
        update_where (λ (r : OutboxRow). r.event_id == uuid)
          (λ r. record r { last_error = some (first_chars 4000 error) }) db.outbox;
  })
