-- ===== src/Workflow/History/Fits.antt =====
-- workflow_evaluation.py: what it means for a review to continue a history, said of the reviews
-- before it alone.
use plk_memory.Base.{
  ◌<◌, String, Bool, false, ◌||◌, Option, none, some, List, [], ◌∷◌, ◌++◌, ◌≡◌, refl, arith, eq_iff,
  any_of, ◌==◌, string_eq, if◌then◌else◌,
}
use plk_memory.Workflow.{WorkflowReview}
use plk_memory.Workflow.Store.{zero_hash}
use plk_memory.Workflow.History.{last_hash, hash_after}

-- The first review with an id.
unfoldable pub earlier : String → List WorkflowReview → Option WorkflowReview
earlier id [] = none
earlier id (r ∷ rest) = if r.review_id == id then some r else earlier id rest

abbrev pub names : String → Option String → Bool
names id none = false
names id (some other) = id == other

unfoldable pub is_replayed : String → List WorkflowReview → Bool
is_replayed id before = any_of (λ r. names id r.replay_of) before

-- A replay names an earlier review, of the same case and variant, made before it, which no earlier
-- review replays.
abbrev pub ReplayFits : List WorkflowReview → WorkflowReview → Option String → Type 0
ReplayFits before r none = Unit
ReplayFits before r (some replay_of) =
    (original : WorkflowReview) × (earlier replay_of before ≡ some original)
    × (original.case_id ≡ r.case_id)
    × (original.variant_id ≡ r.variant_id)
    × (original.reviewed_at < r.reviewed_at)
    × (is_replayed replay_of before ≡ false)

pub record Fits (before : List WorkflowReview) (r : WorkflowReview) : Type 0 where
  pub linked : r.previous_hash ≡ last_hash before
  pub new : earlier r.review_id before ≡ none
  pub replay : ReplayFits before r r.replay_of

pub earlier-id :
    (id : String) (before : List WorkflowReview) {r : WorkflowReview}
    → earlier id before ≡ some r
    → r.review_id ≡ id
unfolding earlier
earlier-id id [] {r} h = cc
earlier-id id (x ∷ rest) {r} h = ground (arith, earlier-id id rest {r = r}, eq_iff x.review_id id)

pub earlier-append :
    (id : String) (before : List WorkflowReview) (r : WorkflowReview)
    → earlier r.review_id before ≡ none
    → earlier id (before ++ r ∷ []) ≡ (if r.review_id == id then some r else earlier id before)
unfolding earlier
earlier-append id [] r h = refl
earlier-append id (x ∷ rest) r h = ground (
  arith,
  earlier-append id rest r,
  eq_iff x.review_id id,
  eq_iff r.review_id id,
  eq_iff x.review_id r.review_id,
)

pub is_replayed-append :
    (id : String) (before : List WorkflowReview) (r : WorkflowReview)
    → is_replayed id (before ++ r ∷ []) ≡ (is_replayed id before || names id r.replay_of)
unfolding is_replayed
is_replayed-append id [] r = ground arith
is_replayed-append id (x ∷ rest) r = ground (arith, is_replayed-append id rest r)

hash_after-append :
    (hash : String) (before : List WorkflowReview) (r : WorkflowReview)
    → hash_after hash (before ++ r ∷ []) ≡ r.record_hash
hash_after-append hash [] r = refl
hash_after-append hash (x ∷ rest) r = hash_after-append x.record_hash rest r

pub last_hash-append :
    (before : List WorkflowReview) (r : WorkflowReview)
    → last_hash (before ++ r ∷ []) ≡ r.record_hash
unfolding last_hash
last_hash-append before r = hash_after-append zero_hash before r
