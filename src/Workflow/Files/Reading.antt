-- ===== src/Workflow/Files/Reading.antt =====
-- workflow_evaluation.py: what a successful read of the store has checked.
use plk_memory.Base.{
  String, false, Option, none, some, List, [], ◌∷◌, ◌≡◌, subst, arith, eq_iff, All, string_eq, inl,
  inr,
}
use plk_memory.Base.Text.{strip}
use plk_memory.Ports.{Result, ok, bind_ok, Result-cases}
use plk_memory.Workflow.{WorkflowReview, WorkflowSuite}
use plk_memory.Workflow.Store.{
  External, Settings, File, zero_hash, reviewer_verifier, validate_attestation, review_record_hash,
  parse_reviews, open_review_store,
}
use plk_memory.Workflow.Lines.{splitlines}
use plk_memory.Workflow.History.{validate_review_history, validate_from}
use plk_memory.Workflow.History.Accepted.{IsHistory, validate_review_history-IsHistory}
use plk_memory.Workflow.Files.{check_all, against, read_lines, read_reviews}

pub check_all-All {ℓ κ} :
    {A : Type ℓ} (P : A → Type κ) (check : A → Result (Unit {0})) (xs : List A)
    → ((x : A) → check x ≡ ok tt → P x)
    → check_all check xs ≡ ok tt
    → All P xs
unfolding check_all
check_all-All P check [] each h = tt
check_all-All P check (x ∷ xs) each h =
    let (_, first, rest) = bind_ok (check x) _ _ h in
    (each x first, check_all-All P check xs each rest)

module _ (ext : External) where
  pub validate_attestation-hash :
      (settings : Settings) (r : WorkflowReview)
      → validate_attestation ext settings r ≡ ok tt
      → r.record_hash ≡ review_record_hash ext r
  unfolding validate_attestation
  validate_attestation-hash settings r h = elim (Result-cases (reviewer_verifier ext settings)) [
    | inl ((id, key, head), v) ↦
        ground (arith, rw v at h, eq_iff r.record_hash (review_record_hash ext r))
    | inr (e, v) ↦ absurd (cc (rw v at h))
  ]

  pub reviewer_verifier-head :
      (settings : Settings) {id head : String} {key : ext.PublicKey}
      → reviewer_verifier ext settings ≡ ok (id, key, head)
      → head ≡ strip settings.workflow_review_trusted_head
  unfolding reviewer_verifier
  reviewer_verifier-head settings h = ground arith

  -- The checks that the lines have passed.
  pub record Checked (settings : Settings) (suite : Option WorkflowSuite) (head : String)
      (file : File) (reviews : List WorkflowReview) : Type 0 where
    pub parsed : parse_reviews ext (splitlines file.text) ≡ ok reviews
    pub attested : check_all (validate_attestation ext settings) reviews ≡ ok tt
    pub chained : validate_review_history reviews head ≡ ok tt
    pub suited : check_all (against suite) reviews ≡ ok tt

  pub read_lines-Checked :
      (settings : Settings) (suite : Option WorkflowSuite) (head : String) (file : File)
      (reviews : List WorkflowReview)
      → read_lines ext settings suite head (some file) ≡ ok reviews
      → Checked settings suite head file reviews
  unfolding read_lines
  read_lines-Checked settings suite head file reviews h = record {
    parsed = ground arith;
    attested = ground arith;
    chained = ground arith;
    suited = ground arith;
  }

  read_lines_lem :
      (settings : Settings) (suite : Option WorkflowSuite) (head : String) (file : Option File)
      (reviews : List WorkflowReview)
      → read_lines ext settings suite head file ≡ ok reviews
      → IsHistory reviews head × All (λ r. r.record_hash ≡ review_record_hash ext r) reviews
  unfolding read_lines validate_review_history validate_from
  read_lines_lem settings suite head none reviews h =
      let empty : reviews ≡ [] = ground arith in
      let passed : validate_review_history reviews head ≡ ok tt =
        rw empty (ground (arith, eq_iff head zero_hash, eq_iff zero_hash head)) in
      ((validate_review_history-IsHistory reviews head).0 passed, rw empty tt)
  read_lines_lem settings suite head (some file) reviews h =
      let checked = read_lines-Checked settings suite head file reviews h in
      (
        (validate_review_history-IsHistory reviews head).0 checked.chained,
        check_all-All _ _ reviews (validate_attestation-hash settings) checked.attested,
      )

  pub read_reviews_lem :
      (settings : Settings) (suite : Option WorkflowSuite) (path : Option File)
      (reviews : List WorkflowReview)
      → read_reviews ext settings suite path ≡ ok reviews
      → IsHistory reviews (strip settings.workflow_review_trusted_head)
        × All (λ r. r.record_hash ≡ review_record_hash ext r) reviews
  unfolding read_reviews
  read_reviews_lem settings suite path reviews h =
      elim (Result-cases (reviewer_verifier ext settings)) [
        | inl ((id, key, head), v) ↦ elim (Result-cases (open_review_store false path)) [
          | inl (file, opened) ↦
              let read : read_lines ext settings suite head file ≡ ok reviews =
                rw (v, opened) at h in
              subst
                (λ z.
                  IsHistory reviews z × All (λ r. r.record_hash ≡ review_record_hash ext r) reviews)
                (reviewer_verifier-head settings v)
                (read_lines_lem settings suite head file reviews read)
          | inr (e, closed) ↦ absurd (cc (rw (v, closed) at h))
        ]
        | inr (e, v) ↦ absurd (cc (rw v at h))
      ]
