-- ===== src/Workflow/Summary/AddsUp.antt =====
-- workflow_evaluation.py: the counts of a summary add up.
use native.Mathlib.Nat.{zero-add}
use plk_memory.Base.{
  ℕ, ◌+◌, ◌≤◌, Bool, not, List, [], ◌∷◌, ◌≡◌, refl, ◌∙◌, subst, arith, length, keep, All,
  Option-cases, inl, inr, nat_eq, string_eq,
}
use plk_memory.Ports.{ok, Result-cases}
use plk_memory.Workflow.{
  result_eq, RatedStage, trigger, retrieval, application, action, FailureStage, failure_eq,
  WorkflowReview, WorkflowSuite,
}
use plk_memory.Workflow.Cases.{is_none}
use plk_memory.Workflow.Reviews.{validate_review_against_suite}
use plk_memory.Workflow.Cohorts.{count_of, stage_counts, cohort, Cohort, is_evaluable, is_success}
use plk_memory.Workflow.Files.{check_all}
use plk_memory.Workflow.Summary.{
  Summary, summary_of, summarize_reviews, add_failure, count_failures, failure_stages,
}
use plk_memory.Workflow.Summary.Groups.{
  sum_over, sum_over-sort_by, Partitions, grouped-Partitions, cohort-successes, count_of-bound,
}

stage_counts-total :
    (stage : RatedStage) (reviews : List WorkflowReview)
    → let counts = stage_counts reviews stage in
      counts.passed + counts.failed + counts.undecided + counts.inapplicable ≡ length reviews
unfolding stage_counts
stage_counts-total stage [] = omega arith
stage_counts-total stage (r ∷ rest) = ground (arith, stage_counts-total stage rest)

abbrev counted : FailureStage × ℕ → ℕ
counted failure = failure.1

add_failure-total :
    (stage : FailureStage) (failures : List (FailureStage × ℕ))
    → sum_over counted (add_failure stage failures) ≡ sum_over counted failures + 1
unfolding add_failure sum_over
add_failure-total stage [] = omega arith
add_failure-total stage ((s, n) ∷ rest) = ground (arith, add_failure-total stage rest)

abbrev has_failure_stage : WorkflowReview → Bool
has_failure_stage review = not (is_none review.failure_stage)

count_failures-total :
    (reviews : List WorkflowReview) (failures : List (FailureStage × ℕ))
    → sum_over counted (count_failures reviews failures)
      ≡ sum_over counted failures + count_of has_failure_stage reviews
unfolding count_failures
count_failures-total [] failures = omega arith
count_failures-total (r ∷ rest) failures = elim (Option-cases r.failure_stage) [
  | inl none_noted ↦ rw none_noted (count_failures-total rest failures)
  | inr (stage, e) ↦ rw e (
      omega (
        arith,
        count_failures-total rest (add_failure stage failures),
        add_failure-total stage failures,
      ))
]

-- What `AddsUp` says of a cohort.
abbrev pub CohortAddsUp : WorkflowSuite → List WorkflowReview → Cohort → Type 0
CohortAddsUp suite reviews c =
    (c.reviews ≡ length reviews)
    × (c.evaluable + c.unknown ≡ c.reviews)
    × (c.successes ≤ c.evaluable)
    × (c.evaluable ≡ count_of (is_evaluable suite) reviews)
    × (c.successes ≡ count_of (is_success suite) reviews)

cohort-CohortAddsUp :
    (suite : WorkflowSuite) (reviews : List WorkflowReview)
    → CohortAddsUp suite reviews (cohort suite reviews)
unfolding cohort
cohort-CohortAddsUp suite reviews = (
  refl,
  omega (arith, count_of-bound (is_evaluable suite) reviews),
  count_of-bound (is_success suite) (keep (is_evaluable suite) reviews),
  refl,
  cohort-successes suite reviews,
)

pub record AddsUp (suite : WorkflowSuite) (reviews : List WorkflowReview) (s : Summary)
    : Type 0 where
  pub overall : CohortAddsUp suite reviews s.overall
  pub stages :
      All
        (λ entry.
          entry.1.passed + entry.1.failed + entry.1.undecided + entry.1.inapplicable
          ≡ length reviews)
        s.stages
  pub failures : sum_over (λ failure. failure.1) s.failures ≡ count_of has_failure_stage reviews
  pub by_case : Partitions suite reviews s.by_case
  pub by_client : Partitions suite reviews s.by_client
  pub by_week : Partitions suite reviews s.by_week

summary_of-AddsUp :
    (reviews : List WorkflowReview) (suite : WorkflowSuite)
    → AddsUp suite reviews (summary_of reviews suite)
unfolding summary_of failure_stages sum_over
summary_of-AddsUp reviews suite = record {
  overall = cohort-CohortAddsUp suite reviews;
  stages =
      let each = λ (stage : RatedStage). stage_counts-total stage reviews in
      (each trigger, (each retrieval, (each application, (each action, tt))));
  failures =
      sum_over-sort_by counted _ (count_failures reviews [])
      ∙ count_failures-total reviews []
      ∙ zero-add (count_of has_failure_stage reviews);
  by_case = grouped-Partitions _ suite _ reviews;
  by_client = grouped-Partitions _ suite _ reviews;
  by_week = grouped-Partitions _ suite _ reviews;
}

-- A summary that is made adds up: evaluable and unknown reviews are all reviews, successes are
-- among the evaluable; for each stage the four results are counted once for each review; the
-- counts of failure stages are those of the reviews that name one; and over the cases, over the
-- clients and over the weeks, the reviews, the evaluable ones and the successes of the groups sum
-- up to those of the whole.
pub summarize_reviews-AddsUp :
    (reviews : List WorkflowReview) (suite : WorkflowSuite) (s : Summary)
    → summarize_reviews reviews suite ≡ ok s
    → AddsUp suite reviews s
unfolding summarize_reviews
summarize_reviews-AddsUp reviews suite s h =
    elim (Result-cases (check_all (λ review. validate_review_against_suite review suite) reviews)) [
      | inl (passed, checked) ↦
          let same : summary_of reviews suite ≡ s = cc (rw checked at h) in
          subst (AddsUp suite reviews) same (summary_of-AddsUp reviews suite)
      | inr (e, failed) ↦ absurd (cc (rw failed at h))
    ]
