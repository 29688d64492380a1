-- ===== src/Postgres/Mappers.antt =====
-- postgres/mappers.py: rows to domain records and back.
use plk_memory.Base.{ℕ, String, ◌≡◌, refl, Option, List, [], ◌∷◌}
use plk_memory.Domain.{ActorContext, FactPayload, FactRecord, FactRevision, FactStatus}
use plk_memory.Postgres.Schema.{FactRow, RevisionRow}
use plk_memory.Postgres.External.{External}

abbrev first_source : List String → String
first_source [] = ""
first_source (s ∷ _) = s

unfoldable pub payload_from_row : RevisionRow → FactPayload
payload_from_row row = record {
  kind = row.kind;
  statement = row.statement;
  why = row.why;
  how_to_apply = row.how_to_apply;
  source = first_source row.sources;
  source_type = row.source_type;
  namespace = row.namespace;
  tags = row.tags;
  body = row.body;
}

-- A joined row: of a column that both tables have, the head's value is read.
unfoldable pub record_from_row : FactRow → RevisionRow → FactRecord
unfolding payload_from_row
record_from_row head row = record {
  id = head.fact_id;
  organization_id = head.organization_id;
  revision = head.current_version;
  payload = record (payload_from_row row) { kind = head.kind; namespace = head.namespace };
  status = head.status;
  invalidation_reason = row.invalidation_reason;
  created_by = head.created_by;
  created_at = head.created_at;
  updated_by = head.updated_by;
  updated_at = head.updated_at;
}

unfoldable pub revision_from_row : RevisionRow → FactRevision
unfolding payload_from_row
revision_from_row row = record {
  fact_id = row.fact_id;
  organization_id = row.organization_id;
  revision = row.version;
  payload = payload_from_row row;
  status = row.status;
  invalidation_reason = row.invalidation_reason;
  change_reason = row.change_reason;
  actor_id = row.actor_id;
  actor_type = row.actor_type;
  created_at = row.created_at;
}

-- The arguments of `revision_values` that are not the payload.
pub record RevisionMeta : Type 0 where
  pub revision_id : ℕ
  pub fact_id : String
  pub version : ℕ
  pub status : FactStatus
  pub invalidation_reason : Option String
  pub change_reason : String
  pub created_at : ℕ

unfoldable pub revision_values : External → ActorContext → RevisionMeta → FactPayload → RevisionRow
revision_values ext actor m payload = record {
  organization_id = actor.organization_id;
  revision_id = m.revision_id;
  fact_id = m.fact_id;
  version = m.version;
  kind = payload.kind;
  statement = payload.statement;
  why = payload.why;
  how_to_apply = payload.how_to_apply;
  sources = payload.source ∷ [];
  source_type = payload.source_type;
  namespace = payload.namespace;
  tags = payload.tags;
  body = payload.body;
  status = m.status;
  invalidation_reason = m.invalidation_reason;
  change_reason = m.change_reason;
  actor_id = actor.actor_id;
  actor_type = actor.actor_type;
  content_hash = ext.payload_hash payload;
  created_at = m.created_at;
}

-- What is stored as a revision is read back as the same payload.
pub payload_from_row-revision_values :
    (ext : External) (actor : ActorContext) (m : RevisionMeta) (p : FactPayload)
    → payload_from_row (revision_values ext actor m p) ≡ p
unfolding payload_from_row revision_values
payload_from_row-revision_values ext actor m p = refl
