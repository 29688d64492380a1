-- ===== src/Workflow/Files/Tampering.antt =====
-- workflow_evaluation.py: the trusted head in the settings fixes what a read can give.
use plk_memory.Base.{Option, List, ◌≡◌, ◌≢◌, sym, ◌∙◌, All, All-both, All-from}
use plk_memory.Ports.{ok}
use plk_memory.Workflow.{WorkflowReview, WorkflowSuite}
use plk_memory.Workflow.Store.{External, Settings, File, zero_hash, review_record_hash}
use plk_memory.Workflow.History.Chain.{IsHistory-same, AllSeparate, NoneZero}
use plk_memory.Workflow.Files.{read_reviews}
use plk_memory.Workflow.Files.Reading.{read_reviews_lem}

-- What the hash does not see.
abbrev pub unhashed : WorkflowReview → WorkflowReview
unhashed r = record r { record_hash = "" }

unhashed_inj :
    (r s : WorkflowReview) → r.record_hash ≡ s.record_hash → unhashed r ≡ unhashed s → r ≡ s
unhashed_inj r s h u i = record (u i) { record_hash = h i }

module _ (ext : External) where
  -- On the reviews of two lists the hash has no collision, and it is never the one of 64 zeros.
  abbrev pub NoCollision : List WorkflowReview → List WorkflowReview → Type 0
  NoCollision a b =
      All
        (λ r.
          All (λ s. review_record_hash ext r ≡ review_record_hash ext s → unhashed r ≡ unhashed s)
            b)
        a

  abbrev pub NoZero : List WorkflowReview → Type 0
  NoZero = All (λ r. review_record_hash ext r ≢ zero_hash)

  abbrev AllHashed : List WorkflowReview → Type 0
  AllHashed = All (λ r. r.record_hash ≡ review_record_hash ext r)

  nonzero : (a : List WorkflowReview) → AllHashed a → NoZero a → NoneZero a
  nonzero a hashed free = All-from _ _ a (λ r (h, k) e. k (sym h ∙ e)) (All-both _ _ a hashed free)

  separate :
      (a b : List WorkflowReview) → AllHashed a → AllHashed b → NoCollision a b → AllSeparate a b
  separate a b hashed_a hashed_b distinct =
      All-from _ _ a
        (λ r (h, free).
          All-from _ _ b (λ s (k, differ) e. unhashed_inj r s e (differ (sym h ∙ e ∙ k)))
            (All-both _ _ b hashed_b free))
        (All-both _ _ a hashed_a distinct)

  -- Under the same settings, two reads that succeed give the same reviews, whatever was done to
  -- the file between them, and whatever suites they are read against: if the hash has no collision
  -- on the reviews read, and is not 64 zeros on any of them.
  pub read_reviews-same :
      (settings : Settings) (suite suite' : Option WorkflowSuite) (path path' : Option File)
      (a b : List WorkflowReview)
      → NoCollision a b
      → NoZero a
      → NoZero b
      → read_reviews ext settings suite path ≡ ok a
      → read_reviews ext settings suite' path' ≡ ok b
      → a ≡ b
  read_reviews-same settings suite suite' path path' a b distinct za zb h h' =
      let (history_a, hashed_a) = read_reviews_lem ext settings suite path a h in
      let (history_b, hashed_b) = read_reviews_lem ext settings suite' path' b h' in
      IsHistory-same a b _ history_a history_b (separate a b hashed_a hashed_b distinct)
        (nonzero a hashed_a za) (nonzero b hashed_b zb)
