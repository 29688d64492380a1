-- ===== src/Tests/Improving.antt =====
-- feedback.py: the coordinator at concrete requests.
use plk_memory.Base.{String, true, false, Option, none, some, [], ◌∷◌, ◌≡◌, ◌≤◌, refl}
use plk_memory.Base.Text.{strip, char_count}
use plk_memory.Ports.{ok, err, value_error}
use plk_memory.Dict.{find, put, values, tally}
use plk_memory.Feedback.{
  Store, FeedbackRequest, FeedbackProposal, FeedbackState, Original, Limits, Target, queued,
  running, proposed, applying, applied, rejected, submit, resume_pending, upsert_all, pending,
  upsert, new_request, run_begin, run_end, claim_apply, reject, transition, returned, is_active,
  is_allowed, get, upsert,
}
use plk_memory.Feedback.Effects.{live, live_for}
use plk_memory.Feedback.System.{
  Coordinator, Step, Reach, submits, begins, ends, claims, rejects, restarts, starts, steps, set,
  idle,
}
use plk_memory.Feedback.Safety.Guarantees.{
  Reach-bounded, Reach-AllEvolve, Reach-terminal, transition-claimed,
}
use plk_memory.Feedback.Safety.Evolution.{AllEvolve}

abbrev limits : Limits
limits = record { max_feedback_chars = 4000; max_active_requests = 20 }

abbrev original : Original
original = record {
  statement = "s";
  why = "w";
  how_to_apply = "h";
  tags = [];
  body = "";
  namespace = "plk.shared";
  kind = "rule";
  source = "chat";
}

abbrev target : Target
target = record {
  fact_id = "f1";
  base_content_hash = "c0";
  namespace = "plk.shared";
  kind = "rule";
  source = "chat";
  original = original;
}

abbrev proposal : FeedbackProposal
proposal = record {
  statement = "s2";
  why = "w2";
  how_to_apply = "h2";
  tags = [];
  body = "";
  rationale = "r";
}

abbrev request_in : FeedbackState → Option FeedbackProposal → String → FeedbackRequest
request_in status result time = record {
  id = "q1";
  fact_id = "f1";
  base_content_hash = "c0";
  namespace = "plk.shared";
  kind = "rule";
  source = "chat";
  original = original;
  feedback = "fix it";
  state = status;
  proposal = result;
  error = none;
  replacement_fact_id = none;
  created_at = "t0";
  updated_at = time;
}

abbrev holding : FeedbackState → Option FeedbackProposal → String → Store
holding status result time = ("q1", request_in status result time) ∷ []

abbrev after_submit : Coordinator
after_submit = idle (holding queued none "t0")

abbrev after_begin : Coordinator
after_begin = record {
  items = holding running none "t1";
  awaiting = set "q1" true (λ id. false);
  claimed = λ id. false;
}

abbrev after_end : Coordinator
after_end = record after_begin {
  items = holding proposed (some proposal) "t2";
  awaiting = set "q1" false (set "q1" true (λ id. false));
}

abbrev after_claim : Coordinator
after_claim = record after_end {
  items = holding applying (some proposal) "t3";
  claimed = set "q1" true (λ id. false);
}

abbrev after_reject : Coordinator
after_reject = record after_end { items = holding rejected (some proposal) "t3" }

path_submit : Reach limits after_submit
unfolding find submit strip char_count new_request values put upsert is_active
path_submit = steps starts (submits "q1" "t0" target " fix it " refl refl)

path_end : Reach limits after_end
unfolding run_begin run_end get upsert find put
path_end =
    steps (steps path_submit (begins "t1" "q1" refl)) (ends "t2" "q1" (returned proposal) refl refl)

path_claim : Reach limits after_claim
unfolding claim_apply get upsert find put
path_claim = steps path_end (claims "t3" "q1" refl)

reject_step : Step limits after_end after_reject
unfolding reject get upsert find put
reject_step = rejects "t3" "q1" refl

Reach-bounded_example :
    (tally live after_claim.items ≤ 20)
    × ((fact_id : String) → tally (live_for fact_id) after_claim.items ≤ 1)
Reach-bounded_example = Reach-bounded limits after_claim path_claim

Reach-AllEvolve_example : AllEvolve after_end.items after_reject.items
Reach-AllEvolve_example = Reach-AllEvolve limits after_end after_reject path_end reject_step

Reach-terminal_example :
    find "q1" (idle (resume_pending "t4" after_reject.items)).items
    ≡ some (request_in rejected (some proposal) "t3")
unfolding is_active find
Reach-terminal_example =
    Reach-terminal limits after_reject (idle (resume_pending "t4" after_reject.items)) "q1"
      (request_in rejected (some proposal) "t3") (steps path_end reject_step) (restarts "t4") refl
      refl

transition-claimed_example :
    (r : FeedbackRequest) × (items : Store) × (transition "t4" "q1" applied
        (some "f2")
        none
        after_claim.items
      ≡ ok (r, items))
    × (find "q1" items ≡ some r)
    × (r.state ≡ applied)
unfolding is_allowed
transition-claimed_example =
    transition-claimed limits after_claim "t4" "q1" applied (some "f2") none path_claim refl refl

too_short : submit limits "q1" "t0" target "  ab \n" [] ≡ err (value_error "too short")
unfolding submit strip char_count
too_short = refl

second_for_fact :
    submit limits "q2" "t9" target "again" (holding proposed none "t2")
    ≡ err (value_error "active request")
unfolding submit strip char_count is_active values
second_for_fact = refl

resumed_after_stop :
    resume_pending "t5" (holding applying (some proposal) "t3")
    ≡ (
      "q1",
      record (request_in proposed (some proposal) "t5") { error = some "反映処理が中断されたため再確認が必要です" },
    )
      ∷ []
unfolding resume_pending upsert_all pending values upsert put
resumed_after_stop = refl
