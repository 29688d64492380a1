-- ===== src/Workflow/Summary.antt =====
-- workflow_evaluation.py: `summarize_reviews`.
pub mod Groups
pub mod AddsUp
use Prim.Native.String.{compare as string_compare}
use Prim.Native.Nat.{Ordering}
use plk_memory.Base.{
  ℕ, ◌+◌, ◌-◌, ◌%◌, String, Bool, true, false, not, ◌&&◌, ◌||◌, Option, none, some, List, [], ◌∷◌,
  ◌++◌, map, length, keep, any_of, sort_by, leb, ltb, Eq, ◌==◌, nat_eq, string_eq, if◌then◌else◌,
}
use plk_memory.Ports.{Result, ok, err, ◌>>=◌, ◌>>◌}
use plk_memory.Dict.{Dict, find, put}
use plk_memory.Workflow.{
  StageResult, pass, fail, unknown, not_applicable, result_eq, RatedStage, trigger, retrieval,
  application, action, FailureStage, failure_eq, rated, knowledge, evidence, tier_a, tier_eq,
  StageRatings, WorkflowReview, WorkflowCase, WorkflowSuite,
}
use plk_memory.Workflow.Cases.{case_of, is_none}
use plk_memory.Workflow.Reviews.{rating, stage_names, has_failed, validate_review_against_suite}
use plk_memory.Workflow.Cohorts.{
  is_success, count_of, rate, Cohort, cohort, StageCounts, stage_counts, grouped,
}
use plk_memory.Workflow.Files.{check_all}

unfoldable pub stage_name : FailureStage → String
stage_name (rated trigger) = "trigger"
stage_name (rated retrieval) = "retrieval"
stage_name (rated application) = "application"
stage_name (rated action) = "action"
stage_name knowledge = "knowledge"
stage_name evidence = "evidence"

abbrev pub text_leb : String → String → Bool
text_leb a b = elim (string_compare a b) [ Ordering.gt ↦ false | _ ↦ true ]

-- `failures[stage] = failures.get(stage, 0) + 1`
unfoldable pub add_failure : FailureStage → List (FailureStage × ℕ) → List (FailureStage × ℕ)
add_failure stage [] = (stage, 1) ∷ []
add_failure stage ((s, n) ∷ rest) =
    let others = add_failure stage rest in if s == stage then (s, n + 1) ∷ rest else (s, n) ∷ others

abbrev pub note_failure : Option FailureStage → List (FailureStage × ℕ) → List (FailureStage × ℕ)
note_failure none failures = failures
note_failure (some stage) failures = add_failure stage failures

unfoldable pub count_failures :
    List WorkflowReview → List (FailureStage × ℕ) → List (FailureStage × ℕ)
unfolding add_failure
count_failures [] failures = failures
count_failures (review ∷ rest) failures =
    count_failures rest (note_failure review.failure_stage failures)

unfoldable pub failure_stages : List WorkflowReview → List (FailureStage × ℕ)
unfolding count_failures stage_name
failure_stages reviews =
    sort_by (λ a b. text_leb (stage_name a.0) (stage_name b.0)) (count_failures reviews [])

-- `{review.review_id: review for review in reviews}`
unfoldable pub originals : List WorkflowReview → Dict WorkflowReview → Dict WorkflowReview
originals [] known = known
originals (review ∷ rest) known = originals rest (put review.review_id review known)

-- `lead_time_hours` is (replayed_at - reviewed_at) / 3600.
pub record ImprovementPair : Type 0 where
  pub before_success : Bool
  pub after_success : Bool
  pub before_failure_stage : Option FailureStage
  pub after_failure_stage : Option FailureStage
  pub same_failure_recurred : Bool
  pub reviewed_at : ℕ
  pub replayed_at : ℕ

abbrev same_failure : Option FailureStage → Option FailureStage → Bool
same_failure (some a) (some b) = a == b
same_failure _ _ = false

unfoldable pub improvement_pair : WorkflowSuite → WorkflowReview → WorkflowReview → ImprovementPair
unfolding is_success
improvement_pair suite original replay = record {
  before_success = is_success suite original;
  after_success = is_success suite replay;
  before_failure_stage = original.failure_stage;
  after_failure_stage = replay.failure_stage;
  same_failure_recurred = same_failure original.failure_stage replay.failure_stage;
  reviewed_at = original.reviewed_at;
  replayed_at = replay.reviewed_at;
}

-- The original of a replay, where it is known.
abbrev pub original_of : Dict WorkflowReview → Option String → Option WorkflowReview
original_of known none = none
original_of known (some replay_of) = find replay_of known

unfoldable pub improvement_pairs :
    WorkflowSuite → Dict WorkflowReview → List WorkflowReview → List ImprovementPair
unfolding improvement_pair
improvement_pairs suite known [] = []
improvement_pairs suite known (replay ∷ rest) =
    let others = improvement_pairs suite known rest in
    elim (original_of known replay.replay_of) [
      | none ↦ others
      | some original ↦ improvement_pair suite original replay ∷ others
    ]

-- `lead_time_hours` has the sum of the instants of the replays, that of the originals, and how many
-- they are: the average is the difference over 3600 times the count.
pub record Improvements : Type 0 where
  pub reviewed_replays : ℕ
  pub failed_before : ℕ
  pub same_failure_recurrences : ℕ
  pub recurrence_rate : Option (ℕ × ℕ)
  pub lead_time_hours : ℕ × ℕ × ℕ

abbrev sum_of : (ImprovementPair → ℕ) → List ImprovementPair → ℕ
sum_of f [] = 0
sum_of f (pair ∷ rest) = f pair + sum_of f rest

unfoldable pub improvements : List ImprovementPair → Improvements
improvements pairs =
    let failed_pairs = keep (λ pair. not (is_none pair.before_failure_stage)) pairs in
    let recurred = count_of (λ pair. pair.same_failure_recurred) failed_pairs in
    record {
      reviewed_replays = length pairs;
      failed_before = length failed_pairs;
      same_failure_recurrences = recurred;
      recurrence_rate = rate recurred (length failed_pairs);
      lead_time_hours = (
        sum_of (λ pair. pair.replayed_at) pairs,
        sum_of (λ pair. pair.reviewed_at) pairs,
        length pairs,
      );
    }

pub record Summary : Type 0 where
  pub overall : Cohort
  pub stages : List (RatedStage × StageCounts)
  pub failures : List (FailureStage × ℕ)
  pub by_case : List (String × Cohort)
  pub by_client : List (String × Cohort)
  pub by_week : List (ℕ × Cohort)
  pub improved : Improvements

-- The Monday of the week of a day; 1970-01-01 is a Thursday.
abbrev pub monday : ℕ → ℕ
monday day = day - (day + 3) % 7

-- What it returns, once the reviews are checked.
unfoldable pub summary_of : List WorkflowReview → WorkflowSuite → Summary
unfolding cohort stage_counts failure_stages grouped originals improvement_pairs improvements
summary_of reviews suite = record {
  overall = cohort suite reviews;
  stages = map (λ stage. (stage, stage_counts reviews stage)) stage_names;
  failures = failure_stages reviews;
  by_case = grouped text_leb suite (λ review. review.case_id) reviews;
  by_client = grouped text_leb suite (λ review. review.revisions.client) reviews;
  by_week = grouped leb suite (λ review. monday review.reviewed_on) reviews;
  improved = improvements (improvement_pairs suite (originals reviews []) reviews);
}

unfoldable pub summarize_reviews : List WorkflowReview → WorkflowSuite → Result Summary
unfolding check_all summary_of
summarize_reviews reviews suite = do
  _ ← check_all (λ review. validate_review_against_suite review suite) reviews
  ok (summary_of reviews suite)
