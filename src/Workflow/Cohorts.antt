-- ===== src/Workflow/Cohorts.antt =====
-- workflow_evaluation.py: when a review is a success, and the counts over a group of reviews. A
-- rate is the pair of the counts that it is the quotient of.
use plk_memory.Base.{
  ℕ, ◌-◌, Bool, true, not, ◌&&◌, ◌||◌, Option, none, some, List, [], ◌∷◌, ◌++◌, map, length, keep,
  sort_by, ltb, Eq, ◌==◌, nat_eq, string_eq, if◌then◌else◌,
}
use plk_memory.Workflow.{
  pass, fail, unknown, not_applicable, result_eq, RatedStage, failure_eq, tier_a, tier_eq,
  WorkflowReview, WorkflowSuite,
}
use plk_memory.Workflow.Cases.{case_of}
use plk_memory.Workflow.Reviews.{rating, stage_names, has_failed}

-- The error for an unknown case is left out: every review has been validated against the suite.
unfoldable pub required_stages : WorkflowSuite → WorkflowReview → List RatedStage
unfolding case_of
required_stages suite review = elim (case_of review.case_id suite.cases) [
  | none ↦ []
  | some case ↦ case.required_stages
]

-- `all(test(x) for x in xs)`
abbrev pub all_of {ℓ} : {A : Type ℓ} → (A → Bool) → List A → Bool
all_of test [] = true
all_of test (x ∷ xs) = test x && all_of test xs

-- Tier A evidence, an action that passed, no failed stage, and every stage of a list passed.
unfoldable pub succeeds : List RatedStage → WorkflowReview → Bool
unfolding rating
succeeds stages review =
    (review.evidence_tier == tier_a)
    && (review.ratings.action == pass)
    && all_of (λ stage. not (rating review.ratings stage == fail)) stage_names
    && all_of (λ stage. rating review.ratings stage == pass) stages

unfoldable pub is_success : WorkflowSuite → WorkflowReview → Bool
unfolding succeeds required_stages
is_success suite review = succeeds (required_stages suite review) review

unfoldable pub is_evaluable : WorkflowSuite → WorkflowReview → Bool
unfolding is_success rating
is_evaluable suite review = is_success suite review || has_failed review.ratings

-- `sum(test(x) for x in xs)`
abbrev pub count_of {ℓ} : {A : Type ℓ} → (A → Bool) → List A → ℕ
count_of test xs = length (keep test xs)

-- `over / under if under else None`
abbrev pub rate : ℕ → ℕ → Option (ℕ × ℕ)
rate over under = if under == 0 then none else some (over, under)

-- `has_data` is the status "ok", its negation "insufficient_data".
pub record Cohort : Type 0 where
  pub has_data : Bool
  pub reviews : ℕ
  pub evaluable : ℕ
  pub unknown : ℕ
  pub successes : ℕ
  pub success_rate : Option (ℕ × ℕ)

unfoldable pub cohort : WorkflowSuite → List WorkflowReview → Cohort
unfolding is_evaluable is_success
cohort suite rows =
    let judged = keep (is_evaluable suite) rows in
    let passed = keep (is_success suite) judged in
    record {
      has_data = ltb 0 (length judged);
      reviews = length rows;
      evaluable = length judged;
      unknown = length rows - length judged;
      successes = length passed;
      success_rate = rate (length passed) (length judged);
    }

pub record StageCounts : Type 0 where
  pub passed : ℕ
  pub failed : ℕ
  pub undecided : ℕ
  pub inapplicable : ℕ

unfoldable pub stage_counts : List WorkflowReview → RatedStage → StageCounts
unfolding rating
stage_counts reviews stage = record {
  passed = count_of (λ review. rating review.ratings stage == pass) reviews;
  failed = count_of (λ review. rating review.ratings stage == fail) reviews;
  undecided = count_of (λ review. rating review.ratings stage == unknown) reviews;
  inapplicable = count_of (λ review. rating review.ratings stage == not_applicable) reviews;
}

-- `grouped`: `values.setdefault(key(review), []).append(review)`, then sorted by key.
module _ {K : Type 0} ⦃e : Eq K⦄ where
  unfoldable pub add_row :
      K → WorkflowReview → List (K × List WorkflowReview) → List (K × List WorkflowReview)
  add_row key review [] = (key, review ∷ []) ∷ []
  add_row key review ((k, rows) ∷ rest) =
      let others = add_row key review rest in
      if k == key then (k, rows ++ review ∷ []) ∷ rest else (k, rows) ∷ others

  unfoldable pub group_rows :
      (WorkflowReview → K)
      → List WorkflowReview
      → List (K × List WorkflowReview)
      → List (K × List WorkflowReview)
  unfolding add_row
  group_rows key [] groups = groups
  group_rows key (review ∷ rest) groups = group_rows key rest (add_row (key review) review groups)

  unfoldable pub grouped :
      (K → K → Bool)
      → WorkflowSuite
      → (WorkflowReview → K)
      → List WorkflowReview
      → List (K × Cohort)
  unfolding group_rows cohort
  grouped before suite key reviews =
      map (λ group. (group.0, cohort suite group.1))
        (sort_by (λ a b. before a.0 b.0) (group_rows key reviews []))
