-- ===== src/Workflow/Corpus/Active.antt =====
-- workflow_evaluation.py: what it means that a suite fits the corpus.
use plk_memory.Base.{
  String, Option, none, some, List, [], ◌∷◌, ◌++◌, ◌≡◌, ◌↔◌, refl, subst, arith, eq_iff, All,
  string_eq,
}
use plk_memory.Ports.{ok}
use plk_memory.Dict.{Dict, find}
use plk_memory.Workflow.{RetrievalRequirement, ExpectedFact, WorkflowCase, WorkflowSuite}
use plk_memory.Workflow.Corpus.{
  CorpusFile, facts_of, compare_fact, fact_errors, expected_facts, corpus_errors,
  validate_suite_corpus,
}
use plk_memory.Workflow.Corpus.Holding.{IsLast, find-facts_of}

-- Of the files that hold the fact the last is active and has the hash that is expected.
abbrev pub IsActive : List CorpusFile → ExpectedFact → Type 0
IsActive files fact = IsLast files fact.id "active" fact.content_hash

compare_fact-empty :
    (case_id : String) (expected : ExpectedFact) (found : Option (String × String))
    → (compare_fact case_id expected found ≡ []) ↔ (found ≡ some ("active", expected.content_hash))
compare_fact-empty case_id expected none = (λ h. absurd (cc h), λ h. absurd (cc h))
compare_fact-empty case_id expected (some (status, hash)) = (
  λ h. ground (arith, h, eq_iff status "active", eq_iff hash expected.content_hash),
  λ h.
      let (one, two) = both h in
      ground (arith, one, two, eq_iff status "active", eq_iff hash expected.content_hash),
)
  where
    both :
        ◌≡◌ {A = Option (String × String)}
          (some (status, hash))
          (some ("active", expected.content_hash))
        → (status ≡ "active") × (hash ≡ expected.content_hash)
    both e = (cc e, cc e)

append-empty {ℓ} : {A : Type ℓ} (xs ys : List A) → (xs ++ ys ≡ []) ↔ ((xs ≡ []) × (ys ≡ []))
append-empty [] ys = (λ h. (refl, h), λ h. h.1)
append-empty (x ∷ xs) ys = (λ h. absurd (cc h), λ h. absurd (cc h.0))

abbrev HasFact : Dict (String × String) → ExpectedFact → Type 0
HasFact facts fact = find fact.id facts ≡ some ("active", fact.content_hash)

fact_errors-All :
    (facts : Dict (String × String)) (case_id : String) (expected : List ExpectedFact)
    → (fact_errors facts case_id expected ≡ []) ↔ All (HasFact facts) expected
unfolding fact_errors
fact_errors-All facts case_id [] = (λ h. tt, λ h. refl)
fact_errors-All facts case_id (fact ∷ rest) =
    let here = compare_fact-empty case_id fact (find fact.id facts) in
    let later = fact_errors-All facts case_id rest in
    let split =
      append-empty (compare_fact case_id fact (find fact.id facts))
        (fact_errors facts case_id rest) in
    (λ h. (here.0 (split.0 h).0, later.0 (split.0 h).1), λ h. split.1 (here.1 h.0, later.1 h.1))

corpus_errors-All :
    (facts : Dict (String × String)) (cases : List WorkflowCase)
    → (corpus_errors facts cases ≡ [])
      ↔ All (λ case. All (HasFact facts) (expected_facts case.retrieval)) cases
unfolding corpus_errors
corpus_errors-All facts [] = (λ h. tt, λ h. refl)
corpus_errors-All facts (case ∷ rest) =
    let here = fact_errors-All facts case.id (expected_facts case.retrieval) in
    let later = corpus_errors-All facts rest in
    let split =
      append-empty (fact_errors facts case.id (expected_facts case.retrieval))
        (corpus_errors facts rest) in
    (λ h. (here.0 (split.0 h).0, later.0 (split.0 h).1), λ h. split.1 (here.1 h.0, later.1 h.1))

All-iff {ℓ κ μ} :
    {A : Type ℓ} {P : A → Type κ} {Q : A → Type μ} (xs : List A)
    → ((x : A) → P x ↔ Q x)
    → All P xs ↔ All Q xs
All-iff [] each = (λ h. tt, λ h. tt)
All-iff (x ∷ xs) each =
    let later = All-iff xs each in
    (λ h. ((each x).0 h.0, later.0 h.1), λ h. ((each x).1 h.0, later.1 h.1))

-- What a case expects to be retrieved fits the files.
abbrev pub Fits : List CorpusFile → WorkflowCase → Type 0
Fits files case =
    (requirement : RetrievalRequirement)
    → case.retrieval ≡ some requirement
    → All (IsActive files) requirement.facts

expected_facts_lem :
    (P : ExpectedFact → Type 0) (retrieval : Option RetrievalRequirement)
    → All P (expected_facts retrieval) ↔ (
        (requirement : RetrievalRequirement)
        → retrieval ≡ some requirement
        → All P requirement.facts)
expected_facts_lem P none = (λ h requirement e. absurd (cc e), λ h. tt)
expected_facts_lem P (some r) = (
  λ h requirement e. let same : r ≡ requirement = cc e in subst (λ z. All P z.facts) same h,
  λ h. h r refl,
)

-- A suite passes just if for each fact that a case expects to be retrieved, the last of the files
-- that hold the fact (of those not named CONVENTIONS.md or README.md, with its id, and with a
-- status, which is active where there is none) is active and has the content hash the case names.
pub validate_suite_corpus-All :
    (suite : WorkflowSuite) (files : List CorpusFile)
    → (validate_suite_corpus suite files ≡ ok tt) ↔ All (Fits files) suite.cases
unfolding validate_suite_corpus
validate_suite_corpus-All suite files =
    let errors = corpus_errors-All (facts_of files []) suite.cases in
    let active = All-iff suite.cases (λ case. fits case) in
    (λ h. active.0 (errors.0 (ground arith)), λ h. rw (errors.1 (active.1 h)) refl)
  where
    fits :
        (case : WorkflowCase)
        → All (HasFact (facts_of files [])) (expected_facts case.retrieval) ↔ Fits files case
    fits case =
        let each =
          All-iff {P = HasFact (facts_of files [])} {Q = IsActive files}
            (expected_facts case.retrieval)
            (λ fact. find-facts_of files fact.id "active" fact.content_hash) in
        let listed = expected_facts_lem (IsActive files) case.retrieval in
        (λ h. listed.0 (each.0 h), λ h. each.1 (listed.1 h))
