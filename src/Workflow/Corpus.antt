-- ===== src/Workflow/Corpus.antt =====
-- workflow_evaluation.py: the suite against the files of the knowledge corpus. What a file's front
-- matter holds is given, with the content hash that rendering.py computes of it.
pub mod Holding
pub mod Active
use plk_memory.Base.{
  String, Bool, true, false, not, Option, none, some, List, [], ◌∷◌, ◌++◌, ◌≡◌, ◌↔◌, refl, arith,
  eq_iff, elem, All, ◌==◌, string_eq, if◌then◌else◌,
}
use plk_memory.Ports.{Result, ok, value_error, raise_if}
use plk_memory.Dict.{Dict, find, put}
use plk_memory.Workflow.{ExpectedFact, RetrievalRequirement, WorkflowCase, WorkflowSuite}

-- A value of the front matter: none, a text, or a value of another type.
pub data Metadata : Type 0 where
  absent other_value : Metadata
  text : String → Metadata

-- A file below `domains`, in the order of their paths: its name, its front matter, its hash
pub record CorpusFile : Type 0 where
  pub name : String
  pub id : Metadata
  pub status : Metadata
  pub content_hash : String

-- `isinstance(post.get("id"), str)`
abbrev pub text_of : Metadata → Option String
text_of absent = none
text_of other_value = none
text_of (text s) = some s

-- `post.get("status", "active")`, where it is a text
abbrev pub status_of : Metadata → Option String
status_of absent = some "active"
status_of other_value = none
status_of (text s) = some s

abbrev pub not_a_fact : String → Bool
not_a_fact name = elem name ("CONVENTIONS.md" ∷ "README.md" ∷ [])

abbrev pub put_fact :
    Option String → Option String → String → Dict (String × String) → Dict (String × String)
put_fact (some id) (some status) hash facts = put id (status, hash) facts
put_fact _ _ hash facts = facts

unfoldable pub facts_of : List CorpusFile → Dict (String × String) → Dict (String × String)
facts_of [] facts = facts
facts_of (file ∷ rest) facts = facts_of rest (
    if not_a_fact file.name
    then facts
    else put_fact (text_of file.id) (status_of file.status) file.content_hash facts)

-- A line of `errors`
pub data CorpusError : Type 0 where
  missing invalidated changed : String → String → CorpusError

abbrev pub compare_fact : String → ExpectedFact → Option (String × String) → List CorpusError
compare_fact case_id expected none = missing case_id expected.id ∷ []
compare_fact case_id expected (some (status, hash)) =
    if not (status == "active")
    then invalidated case_id expected.id ∷ []
    else if not (hash == expected.content_hash)
    then changed case_id expected.id ∷ []
    else []

unfoldable pub fact_errors : Dict (String × String) → String → List ExpectedFact → List CorpusError
fact_errors facts case_id [] = []
fact_errors facts case_id (expected ∷ rest) =
    compare_fact case_id expected (find expected.id facts) ++ fact_errors facts case_id rest

abbrev pub expected_facts : Option RetrievalRequirement → List ExpectedFact
expected_facts none = []
expected_facts (some requirement) = requirement.facts

unfoldable pub corpus_errors : Dict (String × String) → List WorkflowCase → List CorpusError
unfolding fact_errors
corpus_errors facts [] = []
corpus_errors facts (case ∷ rest) =
    fact_errors facts case.id (expected_facts case.retrieval) ++ corpus_errors facts rest

abbrev pub is_empty {ℓ} : {A : Type ℓ} → List A → Bool
is_empty [] = true
is_empty (_ ∷ _) = false

unfoldable pub validate_suite_corpus : WorkflowSuite → List CorpusFile → Result (Unit {0})
unfolding facts_of corpus_errors
validate_suite_corpus suite files =
    raise_if (not (is_empty (corpus_errors (facts_of files []) suite.cases)))
      (value_error "workflow cases do not match active corpus")
