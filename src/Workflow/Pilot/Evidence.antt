-- ===== src/Workflow/Pilot/Evidence.antt =====
-- workflow_evaluation.py: what counts as evidence for a pilot, said without its tests.
use mathlib.Core.List.{Memᴰ}
use plk_memory.Base.{
  ◌<◌, String, Bool, true, false, not, Option, none, some, List, [], ◌∷◌, ◌≡◌, ◌≢◌, ◌&&◌, ◌⊎◌, refl,
  ap, sym, ◌∙◌, subst, arith, eq_iff, length, keep, All, Option-cases, Bool-cases, inl, inr, ◌==◌,
  string_eq, if◌then◌else◌, ◌-◌, ◌+◌,
}
use plk_memory.Ports.{ok}
use plk_memory.Dict.{Dict, find, put}
use plk_memory.Dict.Laws.{find-put}
use plk_memory.Workflow.{
  pass, fail, tier_a, result_eq, tier_eq, RatedStage, FailureStage, WorkflowReview, WorkflowCase,
}
use plk_memory.Workflow.Cases.{is_none, case_of}
use plk_memory.Workflow.Reviews.{rating, stage_names}
use plk_memory.Workflow.Cohorts.{all_of, succeeds}
use plk_memory.Workflow.Summary.{originals, original_of}
use plk_memory.Workflow.Pilot.{has_action_evidence, is_changed_replay, check_pilot_replays}

-- Tier A evidence of an action that passed or failed
abbrev pub IsEvidence : WorkflowReview → Type 0
IsEvidence r = (r.evidence_tier ≡ tier_a) × ((r.ratings.action ≡ pass) ⊎ (r.ratings.action ≡ fail))

pub has_action_evidence-IsEvidence :
    (r : WorkflowReview) → has_action_evidence r ≡ true → IsEvidence r
has_action_evidence-IsEvidence r h = (ground arith, ground arith)

-- Tier A evidence of an action that passed; no stage failed, and each of `stages` passed.
pub record IsSuccess (stages : List RatedStage) (r : WorkflowReview) : Type 0 where
  pub tier : r.evidence_tier ≡ tier_a
  pub acted : r.ratings.action ≡ pass
  pub unfailed : All (λ stage. rating r.ratings stage ≢ fail) stage_names
  pub passed : All (λ stage. rating r.ratings stage ≡ pass) stages

all_of-All {ℓ κ} :
    {A : Type ℓ} (P : A → Type κ) (test : A → Bool) (xs : List A)
    → ((x : A) → test x ≡ true → P x)
    → all_of test xs ≡ true
    → All P xs
all_of-All P test [] each h = tt
all_of-All P test (x ∷ xs) each h =
    (each x (ground arith), all_of-All P test xs each (ground arith))

pub succeeds-IsSuccess :
    (stages : List RatedStage) (r : WorkflowReview) → succeeds stages r ≡ true → IsSuccess stages r
unfolding succeeds
succeeds-IsSuccess stages r h = record {
  tier = ground arith;
  acted = ground arith;
  unfailed =
      all_of-All (λ stage. rating r.ratings stage ≢ fail)
        (λ stage. not (rating r.ratings stage == fail)) stage_names (λ stage t e. ground arith)
        (ground arith);
  passed =
      all_of-All (λ stage. rating r.ratings stage ≡ pass) (λ stage. rating r.ratings stage == pass)
        stages (λ stage t. ground arith) (ground arith);
}

-- The last review with an id
abbrev pub latest : String → List WorkflowReview → Option WorkflowReview
latest id [] = none
latest id (r ∷ rs) = elim (latest id rs) [
  | some later ↦ some later
  | none ↦ if r.review_id == id then some r else none
]

abbrev or_known : Option WorkflowReview → Option WorkflowReview → Option WorkflowReview
or_known (some r) known = some r
or_known none known = known

put_last :
    (here : Bool) (r : WorkflowReview) (known : Option WorkflowReview)
    → (if here then some r else known) ≡ or_known (if here then some r else none) known
put_last true r known = refl
put_last false r known = refl

nothing_known : (found : Option WorkflowReview) → or_known found none ≡ found
nothing_known none = refl
nothing_known (some r) = refl

find-originals :
    (id : String) (rs : List WorkflowReview) (known : Dict WorkflowReview)
    → find id (originals rs known) ≡ or_known (latest id rs) (find id known)
unfolding originals
find-originals id [] known = refl
find-originals id (r ∷ rs) known =
    let h = find-originals id rs (put r.review_id r known) in
    elim (Option-cases (latest id rs)) [
      | inl none_later ↦
          h
          ∙ rw none_later
              (find-put id r.review_id r known ∙ put_last (r.review_id == id) r (find id known))
      | inr (x, later) ↦ h ∙ rw later refl
    ]

pub find-originals-latest :
    (id : String) (rs : List WorkflowReview) → find id (originals rs []) ≡ latest id rs
unfolding find
find-originals-latest id rs = find-originals id rs [] ∙ nothing_known (latest id rs)

-- A review with a change that replays one that failed
abbrev pub FollowsFailure : List WorkflowReview → WorkflowReview → Type 0
FollowsFailure rs after =
    (id : String) × (before : WorkflowReview) × (after.replay_of ≡ some id)
    × (latest id rs ≡ some before)
    × ((stage : FailureStage) × (before.failure_stage ≡ some stage))
    × ((change : String) × (after.change_id ≡ some change))

original_of-some :
    (known : Dict WorkflowReview) (replay_of : Option String) (before : WorkflowReview)
    → original_of known replay_of ≡ some before
    → (id : String) × (replay_of ≡ some id) × (find id known ≡ some before)
original_of-some known none before h = absurd (cc h)
original_of-some known (some id) before h = (id, refl, h)

pub some_inside {ℓ} : {A : Type ℓ} (o : Option A) → not (is_none o) ≡ true → (a : A) × (o ≡ some a)
some_inside none h = absurd (cc h)
some_inside (some a) h = (a, refl)

pub is_changed_replay-FollowsFailure :
    (rs : List WorkflowReview) (after : WorkflowReview)
    → is_changed_replay (originals rs []) after ≡ true
    → FollowsFailure rs after
unfolding is_changed_replay
is_changed_replay-FollowsFailure rs after h =
    elim (Option-cases (original_of (originals rs []) after.replay_of)) [
      | inl missing ↦ absurd (cc (rw missing at h))
      | inr (before, found) ↦
          let (id, replays, known) =
            original_of-some (originals rs []) after.replay_of before found in
          let k : not (is_none before.failure_stage) && not (is_none after.change_id) ≡ true =
            rw found at h in
          (
            id,
            before,
            replays,
            sym (find-originals-latest id rs) ∙ known,
            some_inside before.failure_stage (ground arith),
            some_inside after.change_id (ground arith),
          )
    ]

pub FollowsFailure-is_changed_replay :
    (rs : List WorkflowReview) (after : WorkflowReview)
    → FollowsFailure rs after
    → is_changed_replay (originals rs []) after ≡ true
unfolding is_changed_replay
FollowsFailure-is_changed_replay rs after
      (id, before, replays, found, (stage, failed), (change, changed)) =
    let known : original_of (originals rs []) after.replay_of ≡ some before =
      ap (original_of (originals rs [])) replays ∙ find-originals-latest id rs ∙ found in
    rw known (rw failed (rw changed refl))

pub keep-some {ℓ} :
    {A : Type ℓ} (test : A → Bool) (xs : List A)
    → 0 < length (keep test xs)
    → (x : A) × Memᴰ x xs × (test x ≡ true)
keep-some test [] h = absurd (omega arith)
keep-some test (x ∷ xs) h = elim (Bool-cases (test x)) [
  | inl here ↦ (x, Memᴰ.head refl, here)
  | inr other ↦ let (y, m, t) = keep-some test xs (ground (arith, other)) in (y, Memᴰ.tail m, t)
]

pub keep-each {ℓ κ} :
    {A : Type ℓ} (P : A → Type κ) (test : A → Bool) (xs : List A)
    → All P (keep test xs)
    → (x : A) → Memᴰ x xs
    → test x ≡ true
    → P x
keep-each P test [] all x m t = elim m [ ]
keep-each P test (y ∷ xs) all x (Memᴰ.head e) t =
    let here : test y ≡ true = subst (λ z. test z ≡ true) e t in subst P (sym e) (rw here at all).0
keep-each P test (y ∷ xs) all x (Memᴰ.tail m) t = elim (Bool-cases (test y)) [
  | inl here ↦ keep-each P test xs (rw here at all).1 x m t
  | inr other ↦ keep-each P test xs (rw other at all) x m t
]

-- The review and the one that it replays are of one case and one variant.
abbrev pub Replays : List WorkflowReview → String → WorkflowReview → Type 0
Replays rs id after =
    (before : WorkflowReview) × (latest id rs ≡ some before)
    × (before.case_id ≡ after.case_id)
    × (before.variant_id ≡ after.variant_id)

check_pilot_replays_lem :
    (known : Dict WorkflowReview) (rs : List WorkflowReview)
    → check_pilot_replays known rs ≡ ok tt
    → (after : WorkflowReview) → Memᴰ after rs
    → (id : String) → after.replay_of ≡ some id
    → (before : WorkflowReview) × (find id known ≡ some before)
      × (before.case_id ≡ after.case_id)
      × (before.variant_id ≡ after.variant_id)
unfolding check_pilot_replays
check_pilot_replays_lem known [] h after m id e = elim m [ ]
check_pilot_replays_lem known (r ∷ rs) h after (Memᴰ.head here) id e =
    let replays : r.replay_of ≡ some id = ap (λ z. z.replay_of) (sym here) ∙ e in
    elim (Option-cases (find id known)) [
      | inl missing ↦ absurd (cc (rw (replays, missing) at h))
      | inr (before, found) ↦
          let k = rw (replays, found) at h in
          (
            before,
            found,
            ground (arith, here, k, eq_iff before.case_id r.case_id),
            ground (arith, here, k, eq_iff before.variant_id r.variant_id),
          )
    ]
check_pilot_replays_lem known (r ∷ rs) h after (Memᴰ.tail m) id e =
    check_pilot_replays_lem known rs (ground arith) after m id e

pub check_pilot_replays-Replays :
    (rs : List WorkflowReview)
    → check_pilot_replays (originals rs []) rs ≡ ok tt
    → (after : WorkflowReview) → Memᴰ after rs
    → (id : String) → after.replay_of ≡ some id
    → Replays rs id after
check_pilot_replays-Replays rs h after m id e =
    let (before, known, case, variant) =
      check_pilot_replays_lem (originals rs []) rs h after m id e in
    (before, sym (find-originals-latest id rs) ∙ known, case, variant)

pub keep-not {ℓ} :
    {A : Type ℓ} (test : A → Bool) (xs : List A)
    → length xs - length (keep test xs) ≡ length (keep (λ x. not (test x)) xs)
keep-not test xs = omega (arith, keep-both test xs)
  where
    keep-both :
        {A : Type ℓ} (test : A → Bool) (xs : List A)
        → length (keep test xs) + length (keep (λ x. not (test x)) xs) ≡ length xs
    keep-both test [] = refl
    keep-both test (x ∷ xs) = ground (arith, keep-both test xs)

pub case_of_lem :
    (case_id : String) (cases : List WorkflowCase) (case : WorkflowCase)
    → case_of case_id cases ≡ some case
    → Memᴰ case cases × (case.id ≡ case_id)
unfolding case_of
case_of_lem case_id [] case h = absurd (cc h)
case_of_lem case_id (x ∷ cases) case h = elim (Bool-cases (x.id == case_id)) [
  | inl hit ↦
      let e : x ≡ case = ground (arith, hit, h) in
      (Memᴰ.head (sym e), subst (λ z. z.id ≡ case_id) e (ground (arith, eq_iff x.id case_id)))
  | inr miss ↦
      let (m, e) = case_of_lem case_id cases case (ground (arith, miss, h)) in (Memᴰ.tail m, e)
]
