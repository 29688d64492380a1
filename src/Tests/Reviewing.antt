-- ===== src/Tests/Reviewing.antt =====
-- workflow_evaluation.py: a suite of one case, and reviews of it.
use plk_memory.Base.{
  ℕ, String, true, false, Option, none, some, List, [], ◌∷◌, ◌++◌, ◌≡◌, ◌≢◌, ◌↔◌, refl, ◌==◌,
  string_eq, if◌then◌else◌, eq_iff,
}
use plk_memory.Base.Text.{strip, char_count}
use plk_memory.Ports.{ok, err, value_error}
use plk_memory.Dict.{find, put}
use plk_memory.Workflow.{
  user_reported_failure, pass, fail, trigger, retrieval, application, action, rated, knowledge,
  evidence, tier_a, pilot, all_of, RetrievalRequirement, WorkflowCase, WorkflowSuite, StageRatings,
  EvaluationRevisions, WorkflowReview,
}
use plk_memory.Workflow.Cases.{
  validate_case, has_repeats, distinct_of, is_subset, is_same_set, case_of,
}
use plk_memory.Workflow.Reviews.{
  rating, validate_review, validate_against_case, validate_review_against_suite,
}
use plk_memory.Workflow.Store.{
  External, Settings, File, zero_hash, all_hex, reviewer_verifier, validate_attestation,
  model_validate_json, parse_reviews, open_review_store,
}
use plk_memory.Workflow.History.{
  check_replay, check_link, validate_from, validate_review_history, last_hash,
}
use plk_memory.Workflow.History.Accepted.{IsHistory, validate_review_history-IsHistory}
use plk_memory.Workflow.Lines.{splitlines, has_break, ends_line}
use plk_memory.Workflow.Files.{check_all, read_lines, read_reviews, append_to, append_review}
use plk_memory.Workflow.Files.Tampering.{read_reviews-same}
use plk_memory.Workflow.Files.Appending.{append_review-read, with_head, IsPrinted}

abbrev expected : RetrievalRequirement
expected = record { mode = all_of; facts = record { id = "f1"; content_hash = "h1" } ∷ [] }

abbrev the_case : WorkflowCase
the_case = record {
  id = "c";
  title = "t";
  status = pilot;
  source = record {
    kind = user_reported_failure;
    reported_on = "2026-01-01";
    is_reviewed = false;
    evidence_ref = "e";
  };
  situation = "s";
  expected_actions = "a" ∷ [];
  forbidden_actions = [];
  required_evidence = "e" ∷ [];
  memory_expected = true;
  retrieval = some expected;
  required_stages = trigger ∷ retrieval ∷ application ∷ action ∷ [];
  variants =
      record {
        id = "v";
        evaluator_input = [];
        expected_result = "done";
        required_evidence_tier = tier_a;
      }
      ∷ [];
  failure_routing =
      (rated trigger, "a")
      ∷ (rated retrieval, "a")
      ∷ (knowledge, "a")
      ∷ (rated application, "a")
      ∷ (rated action, "a")
      ∷ (evidence, "a")
      ∷ [];
}

abbrev pub suite : WorkflowSuite
suite = record { version = 1; cases = the_case ∷ [] }

case_passes : validate_case the_case ≡ ok tt
unfolding validate_case has_repeats distinct_of is_subset is_same_set
case_passes = refl

abbrev all_passed : StageRatings
all_passed = record { trigger = pass; retrieval = pass; application = pass; action = pass }

abbrev revisions : EvaluationRevisions
revisions = record { client = "cli"; model = "m"; instruction = "i"; retriever = "r"; corpus = "k" }

abbrev ones : String
ones = "1111111111111111111111111111111111111111111111111111111111111111"

abbrev twos : String
twos = "2222222222222222222222222222222222222222222222222222222222222222"

abbrev pub passed_review : String → ℕ → WorkflowReview
passed_review id at = record {
  review_id = id;
  case_id = "c";
  variant_id = "v";
  reviewed_at = at;
  has_zone = true;
  reviewed_on = 20000;
  reviewer = "p";
  trace_id = none;
  search_ids = [];
  action_ids = [];
  ratings = all_passed;
  evidence_tier = tier_a;
  evidence_refs = "e" ∷ [];
  failure_stage = none;
  improvement_target = none;
  change_id = none;
  replay_of = none;
  revisions = revisions;
  recorded_by = "p";
  previous_hash = zero_hash;
  record_hash = ones;
  attestation = "sig";
}

abbrev pub original : WorkflowReview
original = record (passed_review "r1" 10) {
  ratings = record all_passed { trigger = fail };
  failure_stage = some (rated trigger);
  improvement_target = some "skill";
}

abbrev pub replay : WorkflowReview
replay = record (passed_review "r2" 20) {
  change_id = some "pr-1";
  replay_of = some "r1";
  previous_hash = ones;
  record_hash = twos;
}

-- Libraries of a toy: a review is hashed and printed by its id.
abbrev libraries : External
libraries = record {
  PublicKey = Unit;
  public_key = λ text. some tt;
  b64decode = λ text. some text;
  verifies = λ key signature payload. true;
  sha256 = λ text. if text == "r1" then ones else twos;
  dumps = λ excluded review. review.review_id;
  fields_of = λ line.
      if line == "line r1" then some original else if line == "line r2" then some replay else none;
  model_dump_json = λ review. if review.review_id == "r1" then "line r1" else "line r2";
}

abbrev settings : Settings
settings = record {
  workflow_reviewer_id = "p";
  workflow_reviewer_public_key = "k";
  workflow_review_trusted_head = ones;
}

abbrev holding : String → Option File
holding text = some (record { opens = true; is_regular = true; mode = 384; text = text })

validate_review_history-IsHistory_example :
    (validate_review_history (original ∷ replay ∷ []) twos ≡ ok tt)
    ↔ IsHistory (original ∷ replay ∷ []) twos
validate_review_history-IsHistory_example =
    validate_review_history-IsHistory (original ∷ replay ∷ []) twos

history_passes : validate_review_history (original ∷ replay ∷ []) twos ≡ ok tt
unfolding validate_review_history validate_from check_link check_replay find put
history_passes = refl

replayed_early :
    validate_review_history (original ∷ record replay { reviewed_at = 10 } ∷ []) twos
    ≡ err (value_error "replay too early")
unfolding validate_review_history validate_from check_link check_replay find put
replayed_early = refl

read_one : read_reviews libraries settings (some suite) (holding "line r1\n") ≡ ok (original ∷ [])
unfolding splitlines read_reviews read_lines reviewer_verifier strip char_count all_hex
    open_review_store parse_reviews model_validate_json validate_review rating check_all
    validate_attestation validate_review_history validate_from check_link check_replay find put
    validate_review_against_suite validate_against_case case_of
read_one = refl

read_blank : read_reviews libraries settings none (holding " \nline r1") ≡ ok (original ∷ [])
unfolding splitlines read_reviews read_lines reviewer_verifier strip char_count all_hex
    open_review_store parse_reviews model_validate_json validate_review rating check_all
    validate_attestation validate_review_history validate_from check_link check_replay find put
read_blank = refl

ones_nonzero : ones ≢ zero_hash
ones_nonzero e = absurd (cc ((eq_iff ones zero_hash).1 e))

abbrev one_review : List WorkflowReview
one_review = original ∷ []

read_reviews-same_example : one_review ≡ one_review
read_reviews-same_example =
    read_reviews-same libraries settings (some suite) none (holding "line r1\n")
      (holding " \nline r1") one_review one_review ((λ e. refl, tt), tt) (ones_nonzero, tt)
      (ones_nonzero, tt) read_one read_blank

abbrev appended : File
appended = record { opens = true; is_regular = true; mode = 384; text = "line r1\nline r2\n" }

-- Where the last line is not ended, the new one is glued to it, and the store cannot be read.
abbrev glued : File
glued = record appended { text = "line r1line r2\n" }

append_glues : append_review libraries settings suite replay (holding "line r1") ≡ ok glued
unfolding splitlines append_review append_to reviewer_verifier strip char_count all_hex
    open_review_store parse_reviews model_validate_json validate_review rating check_all
    validate_attestation validate_review_history validate_from check_link check_replay find put
    validate_review_against_suite validate_against_case case_of last_hash
append_glues = refl

glued_unread :
    read_reviews libraries
      (record settings { workflow_review_trusted_head = twos })
      none
      (some glued)
    ≡ err (value_error "invalid workflow review")
unfolding splitlines read_reviews read_lines reviewer_verifier strip char_count all_hex
    open_review_store parse_reviews model_validate_json
glued_unread = refl

append_passes : append_review libraries settings suite replay (holding "line r1\n") ≡ ok appended
unfolding splitlines append_review append_to reviewer_verifier strip char_count all_hex
    open_review_store parse_reviews model_validate_json validate_review rating check_all
    validate_attestation validate_review_history validate_from check_link check_replay find put
    validate_review_against_suite validate_against_case case_of last_hash
append_passes = refl

replay-IsPrinted : IsPrinted libraries replay
unfolding strip char_count all_hex validate_review rating has_break
replay-IsPrinted = record {
  reads = refl;
  visible = refl;
  valid = refl;
  one_line = refl;
  hash = (refl, refl);
}

line_ended : ends_line "line r1\n" ≡ true
unfolding ends_line
line_ended = refl

append_review-read_example :
    (existing : List WorkflowReview) × (read_reviews libraries settings
        (some suite)
        (holding "line r1\n")
      ≡ ok existing)
    × (read_reviews libraries (with_head settings replay.record_hash) (some suite) (some appended)
        ≡ ok (existing ++ replay ∷ []))
    × (ends_line appended.text ≡ true)
append_review-read_example =
    append_review-read libraries settings suite replay (holding "line r1\n") appended
      replay-IsPrinted line_ended append_passes
