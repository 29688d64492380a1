-- ===== src/Tests/Piloting.antt =====
-- workflow_evaluation.py: summaries, the status of a pilot, and the corpus, at concrete reviews.
use plk_memory.Base.{false, none, some, List, [], ◌∷◌, ◌≡◌, ◌↔◌, refl, All, string_eq}
use mathlib.Core.List.{Memᴰ}
use plk_memory.Ports.{ok}
use plk_memory.Dict.{find, put}
use plk_memory.Workflow.{WorkflowCase, WorkflowReview}
use plk_memory.Workflow.Cases.{case_of}
use plk_memory.Workflow.Reviews.{rating, validate_against_case, validate_review_against_suite}
use plk_memory.Workflow.Corpus.{CorpusFile, text, absent, validate_suite_corpus}
use plk_memory.Workflow.Corpus.Active.{Fits, validate_suite_corpus-All}
use plk_memory.Workflow.Files.{check_all}
use plk_memory.Workflow.Summary.{summarize_reviews, summary_of}
use plk_memory.Workflow.Summary.AddsUp.{AddsUp, summarize_reviews-AddsUp}
use plk_memory.Workflow.Pilot.{
  healthy, PilotStatus, ready_for_human_decision, summarize_pilot_status, pilot_status, criteria,
  rollback_reasons, check_pilot_replays, is_changed_replay, reviewed_e2e,
}
use plk_memory.Workflow.Pilot.Ready.{IsReady, reviews_of, summarize_pilot_status-IsReady}
use plk_memory.Tests.Reviewing.{suite, original, replay, passed_review}

abbrev five : List WorkflowReview
five =
    original ∷ replay ∷ passed_review "r3" 30 ∷ passed_review "r4" 40 ∷ passed_review "r5" 50 ∷ []

five_suit : check_all (λ r. validate_review_against_suite r suite) five ≡ ok tt
unfolding check_all validate_review_against_suite validate_against_case case_of rating
five_suit = refl

five_summarized : summarize_reviews five suite ≡ ok (summary_of five suite)
unfolding summarize_reviews
five_summarized = rw five_suit refl

summarize_reviews-AddsUp_example : AddsUp suite five (summary_of five suite)
summarize_reviews-AddsUp_example =
    summarize_reviews-AddsUp five suite (summary_of five suite) five_summarized

abbrev five_status : PilotStatus
five_status = record {
  status = ready_for_human_decision;
  case_id = "c";
  missing = [];
  pilot_unknown_rate = some (0, 5);
  aggregate_unknown_rate = some (0, 5);
  reasons = [];
  replay_failure_count = 0;
  recommended_dashboard_view = reviewed_e2e;
}

five_ready : summarize_pilot_status five suite "c" healthy false none ≡ ok five_status
unfolding summarize_pilot_status summarize_reviews summary_of pilot_status criteria rollback_reasons
    check_pilot_replays is_changed_replay validate_review_against_suite find put
five_ready = refl

summarize_pilot_status-IsReady_example :
    (case : WorkflowCase) × Memᴰ case suite.cases
    × (case.id ≡ "c")
    × IsReady suite case (reviews_of "c" five) healthy false (some (0, 5)) none
summarize_pilot_status-IsReady_example =
    summarize_pilot_status-IsReady five suite "c" healthy false none five_status five_ready refl

abbrev corpus_file : CorpusFile
corpus_file = record { name = "f1.md"; id = text "f1"; status = absent; content_hash = "h1" }

validate_suite_corpus-All_example :
    (validate_suite_corpus suite (corpus_file ∷ []) ≡ ok tt)
    ↔ All (Fits (corpus_file ∷ [])) suite.cases
validate_suite_corpus-All_example = validate_suite_corpus-All suite (corpus_file ∷ [])
