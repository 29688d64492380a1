-- ===== src/Workflow/Cases.antt =====
-- workflow_evaluation.py: the validation of cases and suites.
use plk_memory.Base.{
  String, Bool, true, false, not, ◌&&◌, Option, none, some, List, [], ◌∷◌, map, length, elem, Eq,
  ◌==◌, string_eq, nat_eq, if◌then◌else◌,
}
use plk_memory.Ports.{Result, value_error, raise_if, ◌>>◌}
use plk_memory.Workflow.{
  RatedStage, stage_eq, trigger, retrieval, application, action, FailureStage, failure_eq, rated,
  knowledge, evidence, WorkflowCase, WorkflowSuite, RetrievalRequirement,
}

-- `set(xs)`
unfoldable pub distinct_of {ℓ} : {A : Type ℓ} ⦃e : Eq A⦄ → List A → List A
distinct_of [] = []
distinct_of (x ∷ xs) = let rest = distinct_of xs in if elem x xs then rest else x ∷ rest

-- `len(set(xs)) != len(xs)`
unfoldable pub has_repeats {ℓ} : {A : Type ℓ} ⦃e : Eq A⦄ → List A → Bool
unfolding distinct_of
has_repeats xs = not (length (distinct_of xs) == length xs)

-- `set(xs).issubset(ys)`
unfoldable pub is_subset {ℓ} : {A : Type ℓ} ⦃e : Eq A⦄ → List A → List A → Bool
is_subset [] ys = true
is_subset (x ∷ xs) ys = elem x ys && is_subset xs ys

-- `set(xs) == set(ys)`
unfoldable pub is_same_set {ℓ} : {A : Type ℓ} ⦃e : Eq A⦄ → List A → List A → Bool
unfolding is_subset
is_same_set xs ys = is_subset xs ys && is_subset ys xs

abbrev pub is_none {ℓ} : {A : Type ℓ} → Option A → Bool
is_none none = true
is_none (some _) = false

abbrev pub fact_ids : Option RetrievalRequirement → List String
fact_ids none = []
fact_ids (some requirement) = map (λ fact. fact.id) requirement.facts

abbrev pub memory_stages : List RatedStage
memory_stages = trigger ∷ retrieval ∷ application ∷ []

abbrev pub all_stages : List FailureStage
all_stages =
    rated trigger ∷ rated retrieval ∷ knowledge ∷ rated application ∷ rated action ∷ evidence ∷ []

unfoldable pub validate_case : WorkflowCase → Result (Unit {0})
unfolding has_repeats is_subset is_same_set
validate_case case =
    raise_if (case.memory_expected && is_none case.retrieval) (value_error "retrieval required")
    >> raise_if (not case.memory_expected && not (is_none case.retrieval))
        (value_error "retrieval forbidden")
    >> raise_if (has_repeats (fact_ids case.retrieval)) (value_error "fact ids")
    >> raise_if (has_repeats (map (λ variant. variant.id) case.variants))
        (value_error "variant ids")
    >> raise_if (has_repeats case.required_stages) (value_error "required stages")
    >> raise_if (not (elem action case.required_stages)) (value_error "action required")
    >> raise_if (case.memory_expected && not (is_subset memory_stages case.required_stages))
        (value_error "memory stages required")
    >> raise_if (not case.memory_expected && not (is_same_set case.required_stages (action ∷ [])))
        (value_error "action only")
    >> raise_if (not (is_same_set (map (λ route. route.0) case.failure_routing) all_stages))
        (value_error "failure_routing")

unfoldable pub validate_ids : WorkflowSuite → Result (Unit {0})
unfolding has_repeats
validate_ids suite =
    raise_if (has_repeats (map (λ case. case.id) suite.cases)) (value_error "case ids")

-- `next((row for row in suite.cases if row.id == case_id), None)`
unfoldable pub case_of : String → List WorkflowCase → Option WorkflowCase
case_of case_id [] = none
case_of case_id (case ∷ rest) = if case.id == case_id then some case else case_of case_id rest
