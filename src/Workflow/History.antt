-- ===== src/Workflow/History.antt =====
-- workflow_evaluation.py: the chain of signed reviews, and what a replay of an episode needs.
pub mod Fits
pub mod Accepted
pub mod Chain
use plk_memory.Base.{
  ℕ, String, Bool, true, false, not, ◌||◌, Option, none, some, List, [], ◌∷◌, ◌++◌, elem, leb, ◌==◌,
  string_eq,
}
use plk_memory.Ports.{Result, ok, err, value_error, raise_if, or_raise, ◌>>=◌, ◌>>◌}
use plk_memory.Dict.{Dict, find, put}
use plk_memory.Workflow.{WorkflowReview}
use plk_memory.Workflow.Cases.{is_none}
use plk_memory.Workflow.Store.{zero_hash}

-- The loop of `_validate_review_history`: the reviews seen, the ids that have a replay, the hash
-- of the review before.
abbrev check_original : List String → WorkflowReview → WorkflowReview → Result (List String)
check_original replayed review original =
    raise_if
      (not (original.case_id == review.case_id) || not (original.variant_id == review.variant_id))
      (value_error "replay of another case")
    >> raise_if (leb review.reviewed_at original.reviewed_at) (value_error "replay too early")
    >> raise_if (elem original.review_id replayed) (value_error "already has a replay")
    >> ok (original.review_id ∷ replayed)

unfoldable pub check_replay :
    Dict WorkflowReview → List String → WorkflowReview → Option String → Result (List String)
check_replay seen replayed review none = ok replayed
check_replay seen replayed review (some replay_of) = do
  original ← or_raise (find replay_of seen) (value_error "unknown replay_of")
  check_original replayed review original

unfoldable pub check_link :
    Dict WorkflowReview → List String → String → WorkflowReview → Result (List String)
unfolding check_replay
check_link seen replayed previous_hash review =
    raise_if (not (review.previous_hash == previous_hash)) (value_error "chain is broken")
    >> raise_if (not (is_none (find review.review_id seen))) (value_error "duplicate review_id")
    >> check_replay seen replayed review review.replay_of

unfoldable pub validate_from :
    Dict WorkflowReview → List String → String → List WorkflowReview → String → Result (Unit {0})
unfolding check_link
validate_from seen replayed previous_hash [] trusted_head =
    raise_if (not (previous_hash == trusted_head)) (value_error "trusted head")
validate_from seen replayed previous_hash (review ∷ rest) trusted_head =
    check_link seen replayed previous_hash review >>= λ replayed'.
    validate_from (put review.review_id review seen) replayed' review.record_hash rest trusted_head

unfoldable pub validate_review_history : List WorkflowReview → String → Result (Unit {0})
unfolding validate_from
validate_review_history reviews trusted_head = validate_from [] [] zero_hash reviews trusted_head

-- `existing[-1].record_hash if existing else "0" * 64`
abbrev pub hash_after : String → List WorkflowReview → String
hash_after hash [] = hash
hash_after hash (review ∷ rest) = hash_after review.record_hash rest

unfoldable pub last_hash : List WorkflowReview → String
last_hash reviews = hash_after zero_hash reviews
