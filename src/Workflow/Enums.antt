-- ===== src/Workflow/Enums.antt =====
-- workflow_evaluation.py: the literal types, with equality tests by instances.
use plk_memory.Base.{◌≡◌, ◌↔◌, Bool, true, false, arith, Eq}

-- `pass` and `fail` of the source
pub data StageResult : Type 0 where
  pass fail unknown not_applicable : StageResult

pub data RatedStage : Type 0 where
  trigger retrieval application action : RatedStage

-- The four rated stages, and two that are not rated.
pub data FailureStage : Type 0 where
  rated : RatedStage → FailureStage
  knowledge evidence : FailureStage

pub data EvidenceTier : Type 0 where
  tier_a tier_b tier_c : EvidenceTier

pub data RetrievalMode : Type 0 where
  all_of any_of_them : RetrievalMode

pub data SourceKind : Type 0 where
  user_reported_failure human_review production_incident : SourceKind

pub data CaseStatus : Type 0 where
  pilot active retired : CaseStatus

abbrev pub result_beq : StageResult → StageResult → Bool
result_beq pass pass = true
result_beq fail fail = true
result_beq unknown unknown = true
result_beq not_applicable not_applicable = true
result_beq _ _ = false

pub result_beq_iff : (a b : StageResult) → (result_beq a b ≡ true) ↔ (a ≡ b)
result_beq_iff a b = ground arith

instance abbrev pub result_eq : Eq StageResult
result_eq = record { same = result_beq; same_iff = result_beq_iff }

abbrev pub stage_beq : RatedStage → RatedStage → Bool
stage_beq trigger trigger = true
stage_beq retrieval retrieval = true
stage_beq application application = true
stage_beq action action = true
stage_beq _ _ = false

pub stage_beq_iff : (a b : RatedStage) → (stage_beq a b ≡ true) ↔ (a ≡ b)
stage_beq_iff a b = ground arith

instance abbrev pub stage_eq : Eq RatedStage
stage_eq = record { same = stage_beq; same_iff = stage_beq_iff }

abbrev pub failure_beq : FailureStage → FailureStage → Bool
failure_beq (rated s) (rated t) = stage_beq s t
failure_beq knowledge knowledge = true
failure_beq evidence evidence = true
failure_beq _ _ = false

pub failure_beq_iff : (a b : FailureStage) → (failure_beq a b ≡ true) ↔ (a ≡ b)
failure_beq_iff a b = ground (arith)

instance abbrev pub failure_eq : Eq FailureStage
failure_eq = record { same = failure_beq; same_iff = failure_beq_iff }

abbrev pub tier_beq : EvidenceTier → EvidenceTier → Bool
tier_beq tier_a tier_a = true
tier_beq tier_b tier_b = true
tier_beq tier_c tier_c = true
tier_beq _ _ = false

pub tier_beq_iff : (a b : EvidenceTier) → (tier_beq a b ≡ true) ↔ (a ≡ b)
tier_beq_iff a b = ground arith

instance abbrev pub tier_eq : Eq EvidenceTier
tier_eq = record { same = tier_beq; same_iff = tier_beq_iff }
