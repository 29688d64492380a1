-- ===== src/Workflow/Pilot/Ready.antt =====
-- workflow_evaluation.py: when a pilot is said to be ready for a person's decision.
use plk_memory.Base.{
  ℕ, ◌≤◌, String, Bool, true, false, not, Option, none, some, List, [], ◌∷◌, map, ◌≡◌, ◌↔◌, refl,
  ◌∙◌, ap, subst, arith, length, All, All-from, elem, Eq, string_eq, nat_eq, Option-cases, inl, inr,
  ◌*◌, keep, sym, ◌==◌,
}
use plk_memory.Ports.{ok, bind_ok, Result-cases}
use plk_memory.Workflow.{FailureStage, WorkflowReview, WorkflowSuite, WorkflowCase}
use plk_memory.Workflow.Cases.{case_of, is_none, is_subset}
use plk_memory.Workflow.Reviews.{validate_review_against_suite}
use plk_memory.Workflow.Files.{check_all}
use plk_memory.Workflow.Cohorts.{count_of, rate, succeeds, is_evaluable, cohort}
use plk_memory.Workflow.Summary.{Summary, summarize_reviews, summary_of, originals}
use plk_memory.Workflow.Summary.Groups.{count_of-bound}
use mathlib.Core.List.{Memᴰ}
use plk_memory.Workflow.Pilot.Evidence.{
  IsEvidence, IsSuccess, FollowsFailure, Replays, has_action_evidence-IsEvidence,
  succeeds-IsSuccess, is_changed_replay-FollowsFailure, FollowsFailure-is_changed_replay,
  check_pilot_replays-Replays, keep-some, keep-each, keep-not, case_of_lem, some_inside,
}
use plk_memory.Workflow.Pilot.{
  ApiStatus, healthy, PilotStatus, ready_for_human_decision, has_action_evidence, changed_replays,
  of_case, is_changed_replay, check_pilot_replays, exceeds, criteria, rollback_reasons,
  pilot_status, summarize_pilot_status,
}

is_subset-All {ℓ} :
    {A : Type ℓ} ⦃e : Eq A⦄ (xs ys : List A)
    → (is_subset xs ys ≡ true) ↔ All (λ x. elem x ys ≡ true) xs
unfolding is_subset
is_subset-All [] ys = (λ h. tt, λ h. refl)
is_subset-All (x ∷ xs) ys = ground (arith, is_subset-All xs ys)

count_of-All {ℓ} :
    {A : Type ℓ} (test : A → Bool) (xs : List A)
    → count_of test xs ≡ length xs
    → All (λ x. test x ≡ true) xs
count_of-All test [] h = tt
count_of-All test (x ∷ xs) h = (
  ground (arith, count_of-bound test xs),
  count_of-All test xs (ground (arith, count_of-bound test xs)),
)

count_of-none {ℓ} :
    {A : Type ℓ} (test : A → Bool) (xs : List A)
    → count_of (λ x. not (test x)) xs ≡ 0
    → All (λ x. test x ≡ true) xs
count_of-none test [] h = tt
count_of-none test (x ∷ xs) h = (ground arith, count_of-none test xs (ground arith))

-- Of two quotients that are known, the first is not above the second.
abbrev pub AtMost : Option (ℕ × ℕ) → Option (ℕ × ℕ) → Type 0
AtMost (some (over, under)) (some (over', under')) = over * under' ≤ over' * under
AtMost _ _ = Unit

exceeds-AtMost : (a b : Option (ℕ × ℕ)) → exceeds a b ≡ false → AtMost a b
exceeds-AtMost none b h = tt
exceeds-AtMost (some a) none h = tt
exceeds-AtMost (some (over, under)) (some (over', under')) h = ground arith

-- Enough evidence, and nothing that asks for a rollback.
pub record IsReady (suite : WorkflowSuite) (case : WorkflowCase)
    (pilot_reviews : List WorkflowReview) (api : ApiStatus) (exposed : Bool)
    (unknown_rate baseline : Option (ℕ × ℕ)) : Type 0 where
  pub episodes : 5 ≤ length pilot_reviews
  pub covered :
      All
        (λ id. elem id (map (λ review. review.variant_id) pilot_reviews) ≡ true)
        (map (λ variant. variant.id) case.variants)
  pub evidenced : All IsEvidence pilot_reviews
  pub failed :
      (review : WorkflowReview) × Memᴰ review pilot_reviews
      × ((stage : FailureStage) × (review.failure_stage ≡ some stage))
  pub replayed :
      (after : WorkflowReview) × Memᴰ after pilot_reviews × FollowsFailure pilot_reviews after
  pub replays_match :
      (after : WorkflowReview)
      → Memᴰ after pilot_reviews
      → (id : String) → after.replay_of ≡ some id
      → Replays pilot_reviews id after
  pub replays_succeed :
      (after : WorkflowReview)
      → Memᴰ after pilot_reviews
      → FollowsFailure pilot_reviews after
      → IsSuccess case.required_stages after
  pub reachable : api ≡ healthy
  pub unexposed : exposed ≡ false
  pub judged :
      unknown_rate
      ≡ some (length (keep (λ r. not (is_evaluable suite r)) pilot_reviews), length pilot_reviews)
  pub steady : AtMost unknown_rate baseline

judged_rate :
    (suite : WorkflowSuite) (rows : List WorkflowReview)
    → 5 ≤ length rows
    → rate (cohort suite rows).unknown (cohort suite rows).reviews
      ≡ some (length (keep (λ r. not (is_evaluable suite r)) rows), length rows)
unfolding cohort
judged_rate suite rows many =
    let some_rows : (length rows == 0) ≡ false = ground (arith, many) in
    rw some_rows (ap (λ z. some (z, length rows)) (keep-not (is_evaluable suite) rows))

pilot_status-IsReady :
    (suite : WorkflowSuite) (case : WorkflowCase) (aggregate pilot : Summary)
    (pilot_reviews : List WorkflowReview) (api : ApiStatus) (exposed : Bool)
    (baseline : Option (ℕ × ℕ))
    → let s = pilot_status case aggregate pilot pilot_reviews api exposed baseline in
      s.status ≡ ready_for_human_decision
      → check_pilot_replays (originals pilot_reviews []) pilot_reviews ≡ ok tt
      → pilot.overall ≡ cohort suite pilot_reviews
      → IsReady suite case pilot_reviews api exposed s.pilot_unknown_rate baseline
unfolding pilot_status criteria rollback_reasons
pilot_status-IsReady suite case aggregate pilot pilot_reviews api exposed baseline h checked
      summed =
    record {
      episodes = (ground arith);
      covered =
          (is_subset-All (map (λ variant. variant.id) case.variants)
              (map (λ review. review.variant_id) pilot_reviews)).0
            (ground arith);
      evidenced =
          All-from _ _ pilot_reviews has_action_evidence-IsEvidence
            (count_of-All has_action_evidence pilot_reviews (ground arith));
      failed =
          let (review, m, t) =
            keep-some (λ review. not (is_none review.failure_stage)) pilot_reviews (ground arith) in
          (review, m, some_inside review.failure_stage t);
      replayed =
          let (after, m, t) =
            keep-some (is_changed_replay (originals pilot_reviews [])) pilot_reviews
              (ground arith) in
          (after, m, is_changed_replay-FollowsFailure pilot_reviews after t);
      replays_match = check_pilot_replays-Replays pilot_reviews checked;
      replays_succeed = λ after m f. succeeds-IsSuccess case.required_stages after (
          keep-each (λ z. succeeds case.required_stages z ≡ true)
            (is_changed_replay (originals pilot_reviews [])) pilot_reviews
            (count_of-none (succeeds case.required_stages) (changed_replays pilot_reviews)
              (ground arith))
            after m (FollowsFailure-is_changed_replay pilot_reviews after f));
      reachable = (ground arith);
      unexposed = (ground arith);
      judged =
          ap (λ z. rate z.unknown z.reviews) summed
          ∙ judged_rate suite pilot_reviews (ground arith);
      steady =
          exceeds-AtMost (rate pilot.overall.unknown pilot.overall.reviews) baseline (ground arith);
    }

summarize_reviews-cohort :
    (reviews : List WorkflowReview) (suite : WorkflowSuite) (summary : Summary)
    → summarize_reviews reviews suite ≡ ok summary
    → summary.overall ≡ cohort suite reviews
unfolding summarize_reviews summary_of
summarize_reviews-cohort reviews suite summary h =
    let (_, _, made) =
      bind_ok (check_all (λ review. validate_review_against_suite review suite) reviews)
        (λ _. ok (summary_of reviews suite)) summary h in
    let e : summary_of reviews suite ≡ summary = cc made in ap (λ z. z.overall) (sym e)

-- The reviews of a case
abbrev pub reviews_of : String → List WorkflowReview → List WorkflowReview
reviews_of case_id reviews = keep (λ review. review.case_id == case_id) reviews

-- A pilot is reported as ready for a person's decision only if its case is in the suite and, of the
-- reviews of that case: there are at least five, every variant is covered, each has Tier A evidence
-- of an action that passed or failed, one has failed, and one with a change replays one that
-- failed; each replay is of the case and the variant of the last review with the id it names; each
-- with a change after a failure succeeds, with Tier A evidence, an action that passed, no failed
-- stage and every required stage passed; the API is healthy, no private data is exposed, and the
-- reported rate, that of the reviews that are not evaluable, is not above the baseline, where there
-- is one.
pub summarize_pilot_status-IsReady :
    (reviews : List WorkflowReview) (suite : WorkflowSuite) (case_id : String) (api : ApiStatus)
    (exposed : Bool) (baseline : Option (ℕ × ℕ)) (s : PilotStatus)
    → summarize_pilot_status reviews suite case_id api exposed baseline ≡ ok s
    → s.status ≡ ready_for_human_decision
    → (case : WorkflowCase) × Memᴰ case suite.cases
      × (case.id ≡ case_id)
      × IsReady suite case (reviews_of case_id reviews) api exposed s.pilot_unknown_rate baseline
unfolding summarize_pilot_status
summarize_pilot_status-IsReady reviews suite case_id api exposed baseline s h ready =
    elim (Option-cases (case_of case_id suite.cases)) [
      | inl missing ↦ absurd (ground (arith, missing))
      | inr (case, found) ↦ elim (Result-cases (summarize_reviews reviews suite)) [
        | inl (aggregate, one) ↦
            elim (Result-cases (summarize_reviews (of_case case_id reviews) suite)) [
              | inl (pilot, two) ↦
                  let checked : check_pilot_replays (originals (of_case case_id reviews) [])
                        (of_case case_id reviews)
                      ≡ ok tt =
                    ground (arith, found, one, two) in
                  let same : pilot_status case aggregate pilot (of_case case_id reviews) api exposed
                        baseline
                      ≡ s =
                    ground (arith, found, one, two) in
                  (
                    case,
                    (case_of_lem case_id suite.cases case found).0,
                    (case_of_lem case_id suite.cases case found).1,
                    subst
                        (λ z.
                          IsReady suite case (reviews_of case_id reviews) api exposed
                            z.pilot_unknown_rate baseline)
                        same
                        (pilot_status-IsReady suite case aggregate pilot (of_case case_id reviews)
                          api exposed baseline (ap (λ z. z.status) same ∙ ready) checked
                          (summarize_reviews-cohort (of_case case_id reviews) suite pilot two)),
                  )
              | inr (e, two) ↦ absurd (ground (arith, found, one, two))
            ]
        | inr (e, one) ↦ absurd (ground (arith, found, one))
      ]
    ]
