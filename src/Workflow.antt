-- ===== src/Workflow.antt =====
-- workflow_evaluation.py: the data of the evaluation of workflows: cases, suites, and the reviews
-- of their episodes that a person has signed. Instants are natural numbers.
pub mod Enums
pub mod Cases
pub mod Reviews
pub mod Corpus
pub mod Lines
pub mod Store
pub mod History
pub mod Files
pub mod Cohorts
pub mod Summary
pub mod Pilot
pub use Enums.*
use plk_memory.Base.{ℕ, String, Bool, Option, List}

pub record ExpectedFact : Type 0 where
  pub id : String
  pub content_hash : String

pub record RetrievalRequirement : Type 0 where
  pub mode : RetrievalMode
  pub facts : List ExpectedFact

pub record CaseSource : Type 0 where
  pub kind : SourceKind
  pub reported_on : String
  pub is_reviewed : Bool
  pub evidence_ref : String

-- A value of `evaluator_input` is a text or a list of texts.
pub record CaseVariant : Type 0 where
  pub id : String
  pub evaluator_input : List (String × List String)
  pub expected_result : String
  pub required_evidence_tier : EvidenceTier

pub record WorkflowCase : Type 0 where
  pub id : String
  pub title : String
  pub status : CaseStatus
  pub source : CaseSource
  pub situation : String
  pub memory_expected : Bool
  pub retrieval : Option RetrievalRequirement
  pub expected_actions : List String
  pub forbidden_actions : List String
  pub required_evidence : List String
  pub required_stages : List RatedStage
  pub variants : List CaseVariant
  pub failure_routing : List (FailureStage × String)

pub record WorkflowSuite : Type 0 where
  pub version : ℕ
  pub cases : List WorkflowCase

pub record StageRatings : Type 0 where
  pub trigger : StageResult
  pub retrieval : StageResult
  pub application : StageResult
  pub action : StageResult

pub record EvaluationRevisions : Type 0 where
  pub client : String
  pub model : String
  pub instruction : String
  pub retriever : String
  pub corpus : String

-- WorkflowReviewSubmission with the envelope of WorkflowReview. `reviewed_at` is the instant,
-- `has_zone` whether the text of it has named a time zone, and `reviewed_on` the day of its date in
-- that zone, counted from 1970-01-01, a Thursday.
pub record WorkflowReview : Type 0 where
  pub review_id : String
  pub case_id : String
  pub variant_id : String
  pub reviewed_at : ℕ
  pub has_zone : Bool
  pub reviewed_on : ℕ
  pub reviewer : String
  pub trace_id : Option String
  pub search_ids : List String
  pub action_ids : List String
  pub ratings : StageRatings
  pub evidence_tier : EvidenceTier
  pub evidence_refs : List String
  pub failure_stage : Option FailureStage
  pub improvement_target : Option String
  pub change_id : Option String
  pub replay_of : Option String
  pub revisions : EvaluationRevisions
  pub recorded_by : String
  pub previous_hash : String
  pub record_hash : String
  pub attestation : String
