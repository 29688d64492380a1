-- ===== src/Workflow/Pilot.antt =====
-- workflow_evaluation.py: `summarize_pilot_status`, whether the evidence of a pilot case is enough
-- for a person to decide. A rate is a pair of counts, as in the summaries.
pub mod Evidence
pub mod Ready
use plk_memory.Base.{
  ℕ, ◌*◌, String, Bool, true, false, not, ◌&&◌, ◌||◌, Option, none, some, List, [], ◌∷◌, ◌++◌, map,
  length, keep, any_of, sort_by, leb, ltb, ◌==◌, nat_eq, string_eq, if◌then◌else◌,
}
use plk_memory.Ports.{Result, ok, err, value_error, raise_if, or_raise, ◌>>=◌, ◌>>◌}
use plk_memory.Dict.{Dict, find}
use plk_memory.Workflow.{
  pass, fail, tier_a, result_eq, tier_eq, WorkflowReview, WorkflowCase, WorkflowSuite,
}
use plk_memory.Workflow.Cases.{case_of, is_none, is_subset, distinct_of}
use plk_memory.Workflow.Cohorts.{Cohort, rate, count_of, succeeds}
use plk_memory.Workflow.Summary.{Summary, summarize_reviews, originals, original_of, text_leb}

pub data ApiStatus : Type 0 where
  healthy unavailable : ApiStatus

pub data PilotState : Type 0 where
  rollback insufficient_data ready_for_human_decision : PilotState

pub data Criterion : Type 0 where
  reviewed_episodes variant_coverage tier_a_action_evidence failed_episode
        changed_same_case_replay :
      Criterion

pub data RollbackReason : Type 0 where
  aggregate_api_unavailable private_data_exposure unknown_rate_increased pilot_replay_failed :
      RollbackReason

-- `original = originals.get(review.replay_of)` and its checks
abbrev check_same : WorkflowReview → Option WorkflowReview → Result (Unit {0})
check_same review none = err (value_error "replay of another case")
check_same review (some original) =
    raise_if
      (not (original.case_id == review.case_id) || not (original.variant_id == review.variant_id))
      (value_error "replay of another variant")

unfoldable pub check_pilot_replays : Dict WorkflowReview → List WorkflowReview → Result (Unit {0})
check_pilot_replays known [] = ok tt
check_pilot_replays known (review ∷ rest) =
    elim review.replay_of [
      | none ↦ ok tt
      | some replay_of ↦ check_same review (find replay_of known)
    ]
    >> check_pilot_replays known rest

abbrev pub is_change_after : Option WorkflowReview → WorkflowReview → Bool
is_change_after none after = false
is_change_after (some before) after =
    not (is_none before.failure_stage) && not (is_none after.change_id)

-- `changed_replays`, by the review after
unfoldable pub is_changed_replay : Dict WorkflowReview → WorkflowReview → Bool
is_changed_replay known after = is_change_after (original_of known after.replay_of) after

-- `action_evidence`
abbrev pub has_action_evidence : WorkflowReview → Bool
has_action_evidence review =
    (review.evidence_tier == tier_a)
    && ((review.ratings.action == pass) || (review.ratings.action == fail))

-- `criteria`, each with whether it is met
unfoldable pub criteria :
    WorkflowCase → List WorkflowReview → List WorkflowReview → List (Criterion × Bool)
unfolding is_subset distinct_of
criteria case pilot_reviews changed_replays =
    (reviewed_episodes, leb 5 (length pilot_reviews))
    ∷ (
      variant_coverage,
      is_subset (map (λ variant. variant.id) case.variants)
          (map (λ review. review.variant_id) pilot_reviews),
    )
    ∷ (
      tier_a_action_evidence,
      (count_of has_action_evidence pilot_reviews == length pilot_reviews)
          && ltb 0 (length pilot_reviews),
    )
    ∷ (
      failed_episode,
      ltb 0 (count_of (λ review. not (is_none review.failure_stage)) pilot_reviews),
    )
    ∷ (changed_same_case_replay, ltb 0 (length changed_replays))
    ∷ []

abbrev pub missing_of : List (Criterion × Bool) → List Criterion
missing_of [] = []
missing_of ((name, met) ∷ rest) = if met then missing_of rest else name ∷ missing_of rest

abbrev pub only_if {ℓ} : {A : Type ℓ} → Bool → A → List A
only_if true a = a ∷ []
only_if false a = []

-- `rate > baseline`, of two quotients that may be missing
abbrev pub exceeds : Option (ℕ × ℕ) → Option (ℕ × ℕ) → Bool
exceeds (some (over, under)) (some (over', under')) = ltb (over' * under) (over * under')
exceeds _ _ = false

unfoldable pub rollback_reasons : ApiStatus → Bool → Bool → ℕ → List RollbackReason
rollback_reasons api exposed increased failed_replays =
    only_if (elim api [ healthy ↦ false | unavailable ↦ true ]) aggregate_api_unavailable
    ++ only_if exposed private_data_exposure
    ++ only_if increased unknown_rate_increased
    ++ only_if (ltb 0 failed_replays) pilot_replay_failed

abbrev pub pilot_state : List RollbackReason → List Criterion → PilotState
pilot_state (reason ∷ reasons) missing = rollback
pilot_state [] (name ∷ missing) = insufficient_data
pilot_state [] [] = ready_for_human_decision

pub data DashboardView : Type 0 where
  telemetry reviewed_e2e : DashboardView

abbrev dashboard_view : List RollbackReason → DashboardView
dashboard_view [] = reviewed_e2e
dashboard_view (_ ∷ _) = telemetry

-- Of the criteria it has those that are missing; the counts that they were judged by are left out.
pub record PilotStatus : Type 0 where
  pub status : PilotState
  pub case_id : String
  pub missing : List Criterion
  pub pilot_unknown_rate : Option (ℕ × ℕ)
  pub aggregate_unknown_rate : Option (ℕ × ℕ)
  pub reasons : List RollbackReason
  pub replay_failure_count : ℕ
  pub recommended_dashboard_view : DashboardView

abbrev out_of_range : Option (ℕ × ℕ) → Bool
out_of_range none = false
out_of_range (some (over, under)) = ltb under over

abbrev pub changed_replays : List WorkflowReview → List WorkflowReview
changed_replays pilot_reviews = keep (is_changed_replay (originals pilot_reviews [])) pilot_reviews

-- What it returns, once the reviews are checked.
unfoldable pub pilot_status :
    WorkflowCase
    → Summary
    → Summary
    → List WorkflowReview
    → ApiStatus
    → Bool
    → Option (ℕ × ℕ)
    → PilotStatus
unfolding criteria rollback_reasons is_changed_replay originals succeeds
pilot_status case aggregate pilot pilot_reviews api exposed baseline = record {
  status = pilot_state reasons missing;
  case_id = case.id;
  missing = missing;
  pilot_unknown_rate = unknown_rate;
  aggregate_unknown_rate = rate aggregate.overall.unknown aggregate.overall.reviews;
  reasons = reasons;
  replay_failure_count = failed;
  recommended_dashboard_view = dashboard_view reasons;
}
  where
    changed : List WorkflowReview
    changed = changed_replays pilot_reviews

    failed : ℕ
    failed = count_of (λ after. not (succeeds case.required_stages after)) changed

    unknown_rate : Option (ℕ × ℕ)
    unknown_rate = rate pilot.overall.unknown pilot.overall.reviews

    missing : List Criterion
    missing = missing_of (criteria case pilot_reviews changed)

    reasons : List RollbackReason
    reasons = rollback_reasons api exposed (exceeds unknown_rate baseline) failed

abbrev pub of_case : String → List WorkflowReview → List WorkflowReview
of_case case_id reviews = keep (λ review. review.case_id == case_id) reviews

unfoldable pub summarize_pilot_status :
    List WorkflowReview
    → WorkflowSuite
    → String
    → ApiStatus
    → Bool
    → Option (ℕ × ℕ)
    → Result PilotStatus
unfolding pilot_status summarize_reviews check_pilot_replays case_of
summarize_pilot_status reviews suite case_id api exposed baseline = do
  case ← or_raise (case_of case_id suite.cases) (value_error "unknown case")
  _ ← raise_if (out_of_range baseline) (value_error "baseline_unknown_rate")
  aggregate ← summarize_reviews reviews suite
  pilot ← summarize_reviews (of_case case_id reviews) suite
  _ ← check_pilot_replays (originals (of_case case_id reviews) []) (of_case case_id reviews)
  ok (pilot_status case aggregate pilot (of_case case_id reviews) api exposed baseline)
