-- ===== src/Feedback.antt =====
-- feedback.py: requests for an AI improvement of a fact, their store, and the coordinator that
-- takes them from submission to application. Each function here is the part of a coordinator's
-- method that holds its lock, so an atomic step on the store. `now` is the text of the clock's
-- reading, `ulid` a new ULID; a key that is missing raises KeyError.

pub mod System
pub mod Effects
pub mod Safety
use plk_memory.Base.{
  ℕ, String, Bool, true, false, not, ◌&&◌, Option, none, some, List, [], ◌∷◌, ◌==◌, string_eq,
  if◌then◌else◌, ltb, leb, length, keep, any_of, sort_by, insert_sorted, map,
}
use plk_memory.Base.Text.{strip, char_count}
use plk_memory.Ports.{Result, ok, err, runtime_error, value_error, raise_if, or_raise, ◌>>=◌, ◌>>◌}
use plk_memory.Dict.{Dict, find, put, values}

pub data FeedbackState : Type 0 where
  queued running proposed applying applied rejected failed stale : FeedbackState

pub record FeedbackProposal : Type 0 where
  pub statement : String
  pub why : String
  pub how_to_apply : String
  pub tags : List String
  pub body : String
  pub rationale : String

-- The dictionary `original`, with the keys that its one caller writes (git_services.py).
pub record Original : Type 0 where
  pub statement : String
  pub why : String
  pub how_to_apply : String
  pub tags : List String
  pub body : String
  pub namespace : String
  pub kind : String
  pub source : String

pub record FeedbackRequest : Type 0 where
  pub id : String
  pub fact_id : String
  pub base_content_hash : String
  pub namespace : String
  pub kind : String
  pub source : String
  pub original : Original
  pub feedback : String
  pub state : FeedbackState
  pub proposal : Option FeedbackProposal
  pub error : Option String
  pub replacement_fact_id : Option String
  pub created_at : String
  pub updated_at : String

-- `_ALLOWED_TRANSITIONS`
unfoldable pub is_allowed : FeedbackState → FeedbackState → Bool
is_allowed queued running = true
is_allowed queued failed = true
is_allowed running queued = true
is_allowed running proposed = true
is_allowed running failed = true
is_allowed proposed applying = true
is_allowed proposed rejected = true
is_allowed applying proposed = true
is_allowed applying applied = true
is_allowed applying stale = true
is_allowed _ _ = false

abbrev pub is_queued : FeedbackState → Bool
is_queued queued = true
is_queued _ = false

abbrev pub is_proposed : FeedbackState → Bool
is_proposed proposed = true
is_proposed _ = false

abbrev pub is_applying : FeedbackState → Bool
is_applying applying = true
is_applying _ = false

-- `active_states` of `submit`
unfoldable pub is_active : FeedbackState → Bool
is_active queued = true
is_active running = true
is_active proposed = true
is_active applying = true
is_active _ = false

abbrev pub Store : Type 0
Store = Dict FeedbackRequest

-- FeedbackStore
unfoldable pub get : String → Store → Result FeedbackRequest
get request_id items = or_raise (find request_id items) (runtime_error "KeyError")

unfoldable pub upsert : FeedbackRequest → Store → Store
upsert request items = put request.id request items

-- `later` compares the texts of two times.
unfoldable pub by_fact : (String → String → Bool) → String → Store → List FeedbackRequest
by_fact later fact_id items =
    sort_by (λ a b. not (later b.created_at a.created_at))
      (keep (λ item. item.fact_id == fact_id) (values items))

abbrev pub is_pending : FeedbackRequest → Bool
is_pending request = elim request.state [ queued ↦ true | running ↦ true | _ ↦ false ]

unfoldable pub pending : Store → List FeedbackRequest
pending items = keep is_pending (values items)

-- The coordinator's limits, and what a submission is about.
pub record Limits : Type 0 where
  pub max_feedback_chars : ℕ
  pub max_active_requests : ℕ

pub record Target : Type 0 where
  pub fact_id : String
  pub base_content_hash : String
  pub namespace : String
  pub kind : String
  pub source : String
  pub original : Original

unfoldable pub new_request : String → String → Target → String → FeedbackRequest
new_request ulid now target normalized_feedback = record {
  id = ulid;
  fact_id = target.fact_id;
  base_content_hash = target.base_content_hash;
  namespace = target.namespace;
  kind = target.kind;
  source = target.source;
  original = target.original;
  feedback = normalized_feedback;
  state = queued;
  proposal = none;
  error = none;
  replacement_fact_id = none;
  created_at = now;
  updated_at = now;
}

unfoldable pub submit :
    Limits → String → String → Target → String → Store → Result (FeedbackRequest × Store)
unfolding new_request is_active upsert
submit limits ulid now target feedback items =
    let normalized_feedback = strip feedback in
    let request = new_request ulid now target normalized_feedback in
    let active = keep (λ item. is_active item.state) (values items) in
    raise_if (ltb (char_count normalized_feedback) 3) (value_error "too short")
    >> raise_if (ltb limits.max_feedback_chars (char_count normalized_feedback))
        (value_error "too long")
    >> raise_if (target.kind == "philosophy") (value_error "philosophy")
    >> raise_if (leb limits.max_active_requests (length active)) (value_error "too many requests")
    >> raise_if (any_of (λ item. item.fact_id == target.fact_id) active)
        (value_error "active request")
    >> ok (request, upsert request items)

-- `_run` before the runner is called: none when it returns early.
unfoldable pub run_begin : String → String → Store → Result (Option FeedbackRequest × Store)
unfolding get upsert
run_begin now request_id items = do
  request ← get request_id items
  let started : FeedbackRequest = record request { state = running; updated_at = now } in
      if is_queued request.state then ok (some started, upsert started items) else ok (none, items)

-- What the runner ends with.
pub data Outcome : Type 0 where
  raised : String → Outcome
  returned : FeedbackProposal → Outcome

abbrev pub ended : String → Outcome → FeedbackRequest → FeedbackRequest
ended now (raised text) current = record current {
  state = failed;
  error = some text;
  updated_at = now;
}
ended now (returned result) current = record current {
  state = proposed;
  proposal = some result;
  error = none;
  updated_at = now;
}

-- `_run` after the runner has ended.
unfoldable pub run_end : String → String → Outcome → Store → Result Store
unfolding get upsert
run_end now request_id outcome items = do
  current ← get request_id items
  ok (upsert (ended now outcome current) items)

abbrev pub moved :
    String → FeedbackState → Option String → Option String → FeedbackRequest → FeedbackRequest
moved now next replacement_fact_id error request = record request {
  state = next;
  replacement_fact_id = replacement_fact_id;
  error = error;
  updated_at = now;
}

unfoldable pub transition :
    String
    → String
    → FeedbackState
    → Option String
    → Option String
    → Store
    → Result (FeedbackRequest × Store)
unfolding get upsert is_allowed
transition now request_id next replacement_fact_id error items = do
  request ← get request_id items
  let updated : FeedbackRequest = moved now next replacement_fact_id error request in
      raise_if (not (is_allowed request.state next)) (value_error "illegal transition")
      >> ok (updated, upsert updated items)

abbrev is_some {ℓ} : {A : Type ℓ} → Option A → Bool
is_some none = false
is_some (some _) = true

unfoldable pub claim_apply : String → String → Store → Result (FeedbackRequest × Store)
unfolding get upsert
claim_apply now request_id items = do
  request ← get request_id items
  let claimed : FeedbackRequest = record request {
    state = applying;
    error = none;
    updated_at = now;
  } in
      raise_if (not (is_proposed request.state && is_some request.proposal))
        (value_error "cannot apply")
      >> ok (claimed, upsert claimed items)

unfoldable pub reject : String → String → Store → Result (FeedbackRequest × Store)
unfolding get upsert
reject now request_id items = do
  request ← get request_id items
  let refused : FeedbackRequest = record request { state = rejected; updated_at = now } in
      raise_if (not (is_proposed request.state)) (value_error "cannot reject")
      >> ok (refused, upsert refused items)

-- `resume_pending`: the upserts of a loop over a list that was read before it.
unfoldable pub upsert_all : List FeedbackRequest → Store → Store
unfolding upsert
upsert_all [] items = items
upsert_all (request ∷ rest) items = upsert_all rest (upsert request items)

abbrev pub interrupted : String → FeedbackRequest → FeedbackRequest
interrupted now request = record request {
  state = proposed;
  updated_at = now;
  error = some "反映処理が中断されたため再確認が必要です";
}

abbrev pub requeued : String → FeedbackRequest → FeedbackRequest
requeued now request = record request { state = queued; updated_at = now; error = none }

-- It also spawns a run for each request that it has put in the queue again.
unfoldable pub resume_pending : String → Store → Store
unfolding upsert_all pending
resume_pending now items =
    let reclaimed =
      upsert_all (map (interrupted now) (keep (λ r. is_applying r.state) (values items))) items in
    upsert_all (map (requeued now) (pending reclaimed)) reclaimed
