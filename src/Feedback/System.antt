-- ===== src/Feedback/System.antt =====
-- feedback.py and git_services.py: the coordinator at work, as steps on its store. The tasks that
-- await the runner and the handlers between `claim_apply` and their transition
-- (`ui_apply_feedback`) are the sets `awaiting` and `claimed`; steps come in any order, and a
-- restart of the process loses both sets.
use plk_memory.Base.{
  String, Bool, true, false, Option, none, some, [], ◌==◌, string_eq, if◌then◌else◌, ◌≡◌,
}
use plk_memory.Ports.{ok}
use plk_memory.Dict.{find}
use plk_memory.Feedback.{
  Store, FeedbackRequest, FeedbackState, Limits, Target, Outcome, submit, run_begin, run_end,
  transition, claim_apply, reject, resume_pending,
}

pub record Coordinator : Type 0 where
  pub items : Store
  pub awaiting : String → Bool
  pub claimed : String → Bool

abbrev pub nobody : String → Bool
nobody id = false

abbrev pub set : String → Bool → (String → Bool) → String → Bool
set id value members other = if other == id then value else members other

abbrev pub idle : Store → Coordinator
idle items = record { items = items; awaiting = nobody; claimed = nobody }

pub data Step (limits : Limits) (s : Coordinator) : Coordinator → Type 0 where
  submits :
      (ulid now : String) (target : Target) (feedback : String) {r : FeedbackRequest}
      {items : Store}
      → find ulid s.items ≡ none
      → submit limits ulid now target feedback s.items ≡ ok (r, items)
      → Step limits s (record s { items = items })
  begins :
      (now id : String) {r : FeedbackRequest} {items : Store}
      → run_begin now id s.items ≡ ok (some r, items)
      → Step limits s (record s { items = items; awaiting = set id true s.awaiting })
  ends :
      (now id : String) (outcome : Outcome) {items : Store}
      → s.awaiting id ≡ true
      → run_end now id outcome s.items ≡ ok items
      → Step limits s (record s { items = items; awaiting = set id false s.awaiting })
  claims :
      (now id : String) {r : FeedbackRequest} {items : Store}
      → claim_apply now id s.items ≡ ok (r, items)
      → Step limits s (record s { items = items; claimed = set id true s.claimed })
  settles :
      (now id : String) (next : FeedbackState) (replacement_fact_id error : Option String)
      {r : FeedbackRequest} {items : Store}
      → s.claimed id ≡ true
      → transition now id next replacement_fact_id error s.items ≡ ok (r, items)
      → Step limits s (record s { items = items; claimed = set id false s.claimed })
  rejects :
      (now id : String) {r : FeedbackRequest} {items : Store}
      → reject now id s.items ≡ ok (r, items)
      → Step limits s (record s { items = items })
  restarts : (now : String) → Step limits s (idle (resume_pending now s.items))

pub data Reach (limits : Limits) : Coordinator → Type 0 where
  starts : Reach limits (idle [])
  steps : {s t : Coordinator} → Reach limits s → Step limits s t → Reach limits t
