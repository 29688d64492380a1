-- ===== src/Domain.antt =====
-- domain.py: the storage-neutral records. UUIDs and instants are numbers, ids and texts are strings.
mod Enums
pub use Enums.*
use plk_memory.Base.{ℕ, String, Bool, Option, List}

-- The principal of one operation; `roles` is a set, of which only membership is asked.
pub record ActorContext : Type 0 where
  pub organization_id : ℕ
  pub actor_id : String
  pub actor_type : ActorType
  pub roles : List String

pub record QueryScope : Type 0 where
  pub organization_id : ℕ
  pub actor_id : String
  pub roles : List String

pub record FactPayload : Type 0 where
  pub kind : FactKind
  pub statement : String
  pub why : String
  pub how_to_apply : String
  pub source : String
  pub source_type : SourceType
  pub namespace : String
  pub tags : List String
  pub body : String

pub record FactRecord : Type 0 where
  pub id : String
  pub organization_id : ℕ
  pub revision : ℕ
  pub payload : FactPayload
  pub status : FactStatus
  pub invalidation_reason : Option String
  pub created_by : String
  pub created_at : ℕ
  pub updated_by : String
  pub updated_at : ℕ

pub record FactRevision : Type 0 where
  pub fact_id : String
  pub organization_id : ℕ
  pub revision : ℕ
  pub payload : FactPayload
  pub status : FactStatus
  pub invalidation_reason : Option String
  pub change_reason : String
  pub actor_id : String
  pub actor_type : ActorType
  pub created_at : ℕ

pub record FactFilters : Type 0 where
  pub namespaces : List String
  pub kind : Option FactKind
  pub status : Option FactStatus
  pub limit : ℕ

pub record CreateFact : Type 0 where
  pub fact_id : String
  pub payload : FactPayload
  pub change_reason : String
  pub supersedes : List String

pub record InvalidateFact : Type 0 where
  pub fact_id : String
  pub reason : String

pub record WriteResult : Type 0 where
  pub fact_id : String
  pub revision : ℕ
  pub replayed : Bool
  pub event_id : ℕ

pub record FactHistory : Type 0 where
  pub fact_id : String
  pub current_revision : ℕ
  pub revisions : List FactRevision
  pub supersedes : List String
  pub superseded_by : List String

pub record PromotionRequestRecord : Type 0 where
  pub request_id : ℕ
  pub organization_id : ℕ
  pub fact_id : String
  pub source_revision : ℕ
  pub status : ApprovalStatus
  pub requested_by : String
  pub reason : String
  pub created_at : ℕ
  pub updated_at : ℕ

pub record PromotionDecisionResult : Type 0 where
  pub request : PromotionRequestRecord
  pub fact_revision : Option ℕ
  pub event_id : Option ℕ
  pub replayed : Bool

pub record KnowledgeChanged : Type 0 where
  pub event_id : ℕ
  pub organization_id : ℕ
  pub fact_id : String
  pub revision : ℕ
  pub operation : ChangeOperation
  pub occurred_at : ℕ

pub record ClaimedChange : Type 0 where
  pub change : KnowledgeChanged
  pub consumer : String
  pub lease_token : ℕ
  pub attempts : ℕ

pub record IndexEntry : Type 0 where
  pub organization_id : ℕ
  pub fact_id : String
  pub indexed_revision : ℕ
  pub content_hash : String
  pub backend_refs : List String
  pub partition : Option String
  pub last_event_id : Option ℕ
  pub indexed_at : ℕ

-- Scores are floats that no code here computes with, so their type is a parameter.
pub record IndexCandidate (Score : Type 0) : Type 0 where
  pub fact_id : String
  pub indexed_revision : ℕ
  pub score : Option Score
