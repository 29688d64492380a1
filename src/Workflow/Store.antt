-- ===== src/Workflow/Store.antt =====
-- workflow_evaluation.py: the store of reviews, a text file to which signed reviews are
-- appended, and the chain of their hashes, whose head the settings hold.
use Prim.Native.Char.{code}
use plk_memory.Base.{
  ℕ, String, Bool, true, false, not, ◌&&◌, ◌||◌, Option, none, some, List, [], ◌∷◌, leb, nat_eq,
  ◌==◌, string_eq, if◌then◌else◌, ◌%◌,
}
use plk_memory.Base.Text.{strip, char_count}
use plk_memory.Ports.{Result, ok, value_error, raise_if, or_raise, ◌>>=◌, ◌>>◌}
use plk_memory.Workflow.{WorkflowReview}
use plk_memory.Workflow.Reviews.{validate_review}

-- What the libraries do: base64, Ed25519, SHA-256, JSON, and pydantic's reading of the fields.
pub record External : Type 1 where
  pub PublicKey : Type 0
  -- `Ed25519PublicKey.from_public_bytes(b64decode(text))`; none for the ValueError
  pub public_key : String → Option PublicKey
  -- `b64decode(text, validate=True)`
  pub b64decode : String → Option String
  -- `public_key.verify(signature, payload)` returns
  pub verifies : PublicKey → String → String → Bool
  pub sha256 : String → String
  -- `json.dumps(review.model_dump(exclude=...))`, in its canonical form
  pub dumps : List String → WorkflowReview → String
  -- the fields of a line of JSON, before `validate_review`
  pub fields_of : String → Option WorkflowReview
  pub model_dump_json : WorkflowReview → String

pub record Settings : Type 0 where
  pub workflow_reviewer_id : String
  pub workflow_reviewer_public_key : String
  pub workflow_review_trusted_head : String

-- What `os.open` and `os.fstat` find at the path: `opens` is false where the open fails (a link,
-- say). `text` is what `handle.read()` gives.
pub record File : Type 0 where
  pub opens : Bool
  pub is_regular : Bool
  pub mode : ℕ
  pub text : String

-- `"0" * 64`
abbrev pub zero_hash : String
zero_hash = "0000000000000000000000000000000000000000000000000000000000000000"

-- The digits of a hexadecimal text in lower case.
unfoldable pub all_hex : String → Bool
all_hex String.[] = true
all_hex (String.◌∷◌ c rest) =
    let others = all_hex rest in
    ((leb 48 (code c) && leb (code c) 57) || (leb 97 (code c) && leb (code c) 102)) && others

module _ (ext : External) where
  unfoldable pub reviewer_verifier : Settings → Result (String × ext.PublicKey × String)
  unfolding all_hex
  reviewer_verifier settings =
      raise_if (reviewer_id == "" || public_key_text == "" || trusted_head == "")
        (value_error "not configured")
      >> raise_if (not (char_count trusted_head == 64) || not (all_hex trusted_head))
          (value_error "trusted head is invalid")
      >> or_raise (ext.public_key public_key_text) (value_error "public key is invalid")
      >>= λ key. ok (reviewer_id, key, trusted_head)
    where
      reviewer_id : String
      reviewer_id = strip settings.workflow_reviewer_id

      public_key_text : String
      public_key_text = strip settings.workflow_reviewer_public_key

      trusted_head : String
      trusted_head = strip settings.workflow_review_trusted_head

  abbrev pub attestation_payload : WorkflowReview → String
  attestation_payload review = ext.dumps ("attestation" ∷ "record_hash" ∷ []) review

  abbrev pub review_record_hash : WorkflowReview → String
  review_record_hash review = ext.sha256 (ext.dumps ("record_hash" ∷ []) review)

  unfoldable pub validate_attestation : Settings → WorkflowReview → Result (Unit {0})
  unfolding reviewer_verifier
  validate_attestation settings review = do
    (reviewer_id, key, _) ← reviewer_verifier settings
    _ ←
        raise_if
          (not (review.recorded_by == reviewer_id)
            || not (review.record_hash == review_record_hash review))
          (value_error "attestation is invalid")
    signature ← or_raise (ext.b64decode review.attestation) (value_error "attestation is invalid")
    raise_if (not (ext.verifies key signature (attestation_payload review)))
        (value_error "attestation is invalid")

  -- `WorkflowReview.model_validate_json(line)`
  unfoldable pub model_validate_json : String → Result WorkflowReview
  unfolding validate_review
  model_validate_json line = do
    review ← or_raise (ext.fields_of line) (value_error "invalid workflow review")
    _ ← validate_review review
    ok review

  unfoldable pub parse_reviews : List String → Result (List WorkflowReview)
  unfolding model_validate_json
  parse_reviews [] = ok []
  parse_reviews (line ∷ rest) =
      if strip line == ""
      then parse_reviews rest
      else (model_validate_json line >>= λ review.
          parse_reviews rest >>= λ reviews. ok (review ∷ reviews))

-- `_open_review_store`: none where there is no file to read. A file that is opened for writing is
-- created, and has the mode 0600.
abbrev created : File
created = record { opens = true; is_regular = true; mode = 384; text = "" }

abbrev check_file : Bool → File → Result (Option File)
check_file write file =
    raise_if (not file.opens) (value_error "not a safe regular file")
    >> raise_if (not file.is_regular) (value_error "not a regular file")
    >> raise_if (not (file.mode % 64 == 0)) (value_error "mode 0600 required")
    >> ok (some (if write then record file { mode = 384 } else file))

unfoldable pub open_review_store : Bool → Option File → Result (Option File)
open_review_store write (some file) = check_file write file
open_review_store true none = ok (some created)
open_review_store false none = ok none
