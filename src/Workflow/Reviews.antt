-- ===== src/Workflow/Reviews.antt =====
-- workflow_evaluation.py: the validation of one review, by itself and against the suite.
use plk_memory.Base.{
  Bool, false, not, ◌&&◌, Option, none, some, List, [], ◌∷◌, any_of, ◌==◌, string_eq,
}
use plk_memory.Ports.{Result, err, value_error, raise_if, ◌>>◌}
use plk_memory.Workflow.{
  StageResult, fail, pass, not_applicable, result_eq, RatedStage, trigger, retrieval, application,
  action, FailureStage, rated, tier_a, tier_eq, StageRatings, WorkflowReview, WorkflowCase,
  WorkflowSuite,
}
use plk_memory.Workflow.Cases.{case_of, is_none}

-- `ratings[stage]`
unfoldable pub rating : StageRatings → RatedStage → StageResult
rating ratings trigger = ratings.trigger
rating ratings retrieval = ratings.retrieval
rating ratings application = ratings.application
rating ratings action = ratings.action

abbrev pub stage_names : List RatedStage
stage_names = trigger ∷ retrieval ∷ application ∷ action ∷ []

-- `"fail" in values`
abbrev pub has_failed : StageRatings → Bool
has_failed ratings = any_of (λ stage. rating ratings stage == fail) stage_names

unfoldable pub validate_review : WorkflowReview → Result (Unit {0})
unfolding rating
validate_review review =
    raise_if (not review.has_zone) (value_error "timezone")
    >> raise_if (failed && is_none review.failure_stage) (value_error "failure_stage required")
    >> raise_if (failed && is_none review.improvement_target)
        (value_error "improvement_target required")
    >> raise_if (not failed && not (is_none review.failure_stage))
        (value_error "failure_stage forbidden")
    >> raise_if (review.ratings.action == pass && not (review.evidence_tier == tier_a))
        (value_error "Tier A required")
    >> raise_if (not (is_none review.replay_of) && is_none review.change_id)
        (value_error "change_id required")
  where
    failed : Bool
    failed = has_failed review.ratings

-- `review.failure_stage in ratings and ratings[review.failure_stage] != "fail"`
abbrev pub names_unfailed : StageRatings → Option FailureStage → Bool
names_unfailed ratings (some (rated stage)) = not (rating ratings stage == fail)
names_unfailed ratings _ = false

unfoldable pub validate_against_case : WorkflowReview → WorkflowCase → Result (Unit {0})
unfolding rating
validate_against_case review case =
    raise_if (not (any_of (λ variant. variant.id == review.variant_id) case.variants))
      (value_error "unknown variant")
    >> raise_if
        (any_of (λ stage. rating review.ratings stage == not_applicable) case.required_stages)
        (value_error "required stage not applicable")
    >> raise_if (review.ratings.action == not_applicable) (value_error "action not applicable")
    >> raise_if (names_unfailed review.ratings review.failure_stage) (value_error "failure_stage")

unfoldable pub validate_review_against_suite : WorkflowReview → WorkflowSuite → Result (Unit {0})
unfolding validate_against_case
validate_review_against_suite review suite = elim (case_of review.case_id suite.cases) [
  | none ↦ err (value_error "unknown case")
  | some case ↦ validate_against_case review case
]
