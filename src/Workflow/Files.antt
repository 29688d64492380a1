-- ===== src/Workflow/Files.antt =====
-- workflow_evaluation.py: reading the store of reviews, and appending a signed review to it. What
-- `append_review` gives is the file after it has written; where it raises, it has written nothing.
pub mod Reading
pub mod Tampering
pub mod Appending
use plk_memory.Base.{
  String, Bool, true, false, not, Option, none, some, List, [], ◌∷◌, ◌++◌, ◌==◌, string_eq,
}
use plk_memory.Ports.{Result, ok, err, value_error, raise_if, or_raise, ◌>>=◌, ◌>>◌}
use plk_memory.Workflow.{WorkflowReview, WorkflowSuite}
use plk_memory.Workflow.Reviews.{validate_review_against_suite}
use plk_memory.Workflow.Store.{
  External, Settings, File, zero_hash, reviewer_verifier, validate_attestation, parse_reviews,
  open_review_store,
}
use plk_memory.Workflow.Lines.{splitlines, text_append, newline}
use plk_memory.Workflow.History.{validate_review_history, last_hash}

-- `for x in xs: check(x)`
unfoldable pub check_all {ℓ} : {A : Type ℓ} → (A → Result (Unit {0})) → List A → Result (Unit {0})
check_all check [] = ok tt
check_all check (x ∷ xs) = check x >> check_all check xs

abbrev pub against : Option WorkflowSuite → WorkflowReview → Result (Unit {0})
against none review = ok tt
against (some suite) review = validate_review_against_suite review suite

module _ (ext : External) where
  unfoldable pub read_lines :
      Settings → Option WorkflowSuite → String → Option File → Result (List WorkflowReview)
  unfolding splitlines validate_review_history check_all
  read_lines settings suite trusted_head none =
      raise_if (not (trusted_head == zero_hash)) (value_error "trusted head") >> ok []
  read_lines settings suite trusted_head (some file) = do
    reviews ← parse_reviews ext (splitlines file.text)
    _ ← check_all (validate_attestation ext settings) reviews
    _ ← validate_review_history reviews trusted_head
    _ ← check_all (against suite) reviews
    ok reviews

  unfoldable pub read_reviews :
      Settings → Option WorkflowSuite → Option File → Result (List WorkflowReview)
  unfolding read_lines open_review_store
  read_reviews settings suite path = do
    (_, _, trusted_head) ← reviewer_verifier ext settings
    file ← open_review_store false path
    read_lines settings suite trusted_head file

  -- `review.model_dump_json() + "\n"`
  abbrev pub line_of : WorkflowReview → String
  line_of review = text_append (ext.model_dump_json review) newline

  -- The file with the line of the review written at its end.
  unfoldable pub append_to : Settings → WorkflowSuite → String → WorkflowReview → File → Result File
  unfolding splitlines parse_reviews validate_attestation validate_review_history check_all
      last_hash
  append_to settings suite trusted_head review file = do
    existing ← parse_reviews ext (splitlines file.text)
    _ ← check_all (validate_attestation ext settings) existing
    _ ← validate_review_history existing trusted_head
    _ ←
        raise_if (not (review.previous_hash == last_hash existing))
          (value_error "does not extend the chain")
    _ ← validate_review_history (existing ++ review ∷ []) review.record_hash
    _ ← check_all (λ old. validate_review_against_suite old suite) existing
    ok (record file { text = text_append file.text (line_of review) })

  unfoldable pub append_review :
      Settings → WorkflowSuite → WorkflowReview → Option File → Result File
  unfolding append_to open_review_store reviewer_verifier validate_attestation
  append_review settings suite review path = do
    _ ← validate_review_against_suite review suite
    _ ← validate_attestation ext settings review
    (_, _, trusted_head) ← reviewer_verifier ext settings
    opened ← open_review_store true path
    file ← or_raise opened (value_error "could not be created")
    append_to settings suite trusted_head review file
