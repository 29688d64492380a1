-- ===== src/Postgres/Schema.antt =====
-- postgres/schema.py: the rows of the tables that the repositories read and write. A table is the
-- list of its rows, newest insert first; no query depends on that order.
use plk_memory.Base.{ℕ, String, Option, List}
use plk_memory.Domain.{
  FactKind, FactStatus, SourceType, ActorType, ChangeOperation, ApprovalStatus, WriteResult,
  PromotionRequestRecord, PromotionDecisionResult,
}

-- knowledge_facts
pub record FactRow : Type 0 where
  pub organization_id : ℕ
  pub fact_id : String
  pub kind : FactKind
  pub namespace : String
  pub status : FactStatus
  pub current_version : ℕ
  pub current_revision_id : ℕ
  pub created_by : String
  pub created_at : ℕ
  pub updated_by : String
  pub updated_at : ℕ

-- knowledge_fact_revisions
pub record RevisionRow : Type 0 where
  pub organization_id : ℕ
  pub revision_id : ℕ
  pub fact_id : String
  pub version : ℕ
  pub kind : FactKind
  pub statement : String
  pub why : String
  pub how_to_apply : String
  pub sources : List String
  pub source_type : SourceType
  pub namespace : String
  pub tags : List String
  pub body : String
  pub status : FactStatus
  pub invalidation_reason : Option String
  pub change_reason : String
  pub actor_id : String
  pub actor_type : ActorType
  pub content_hash : String
  pub created_at : ℕ

-- knowledge_relations; the code writes active `supersedes` rows only
pub record RelationRow : Type 0 where
  pub organization_id : ℕ
  pub relation_id : ℕ
  pub from_fact_id : String
  pub to_fact_id : String
  pub created_revision_id : ℕ
  pub created_at : ℕ

-- The three shapes of `response_body`.
pub data Response : Type 0 where
  write_result : WriteResult → Response
  proposal : PromotionRequestRecord → Response
  decision : PromotionDecisionResult → Response

-- idempotency_records
pub record IdempotencyRow : Type 0 where
  pub organization_id : ℕ
  pub idempotency_key : String
  pub request_hash : String
  pub operation : String
  pub response_body : Option Response

-- outbox_events; the columns of `payload` repeat the other columns
pub record OutboxRow : Type 0 where
  pub organization_id : ℕ
  pub event_id : ℕ
  pub aggregate_id : String
  pub aggregate_version : ℕ
  pub operation : ChangeOperation
  pub occurred_at : ℕ
  pub available_at : ℕ
  pub attempts : ℕ
  pub lease_owner : Option String
  pub lease_token : Option ℕ
  pub lease_until : Option ℕ
  pub processed_at : Option ℕ
  pub dead_lettered_at : Option ℕ
  pub last_error : Option String

-- approval_requests
pub record ApprovalRow : Type 0 where
  pub organization_id : ℕ
  pub request_id : ℕ
  pub fact_id : String
  pub source_version : ℕ
  pub status : ApprovalStatus
  pub requested_by : String
  pub request_reason : String
  pub created_at : ℕ
  pub updated_at : ℕ

-- approval_decisions
pub record DecisionRow : Type 0 where
  pub organization_id : ℕ
  pub decision_id : ℕ
  pub request_id : ℕ
  pub decision : ApprovalStatus
  pub rationale : String
  pub actor_id : String
  pub actor_type : ActorType
  pub created_at : ℕ

-- audit_events
pub record AuditRow : Type 0 where
  pub organization_id : ℕ
  pub audit_id : ℕ
  pub action : String
  pub resource_id : String
  pub actor_id : String
  pub actor_type : ActorType
  pub created_at : ℕ

-- search_projection_state
pub record ProjectionRow : Type 0 where
  pub organization_id : ℕ
  pub backend : String
  pub fact_id : String
  pub indexed_version : ℕ
  pub content_hash : String
  pub backend_refs : List String
  pub partition : Option String
  pub last_event_id : ℕ
  pub indexed_at : ℕ

pub record Db : Type 0 where
  pub facts : List FactRow
  pub revisions : List RevisionRow
  pub relations : List RelationRow
  pub idempotency : List IdempotencyRow
  pub outbox : List OutboxRow
  pub approvals : List ApprovalRow
  pub decisions : List DecisionRow
  pub audit : List AuditRow
  pub projections : List ProjectionRow
