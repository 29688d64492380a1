-- ===== src/Feedback/Effects.antt =====
-- feedback.py: what a successful operation of the coordinator has read and written.
use plk_memory.Base.{
  ◌≡◌, String, Option, some, true, arith, ◌==◌, string_eq, Option-cases, inl, inr, Bool, ◌&&◌, ◌<◌,
}
use plk_memory.Base.Text.{strip}
use plk_memory.Dict.Counts.{length-keep-values, tally-both_none}
use plk_memory.Ports.{ok}
use plk_memory.Dict.{find, put, tally}
use plk_memory.Feedback.{
  Store, FeedbackRequest, FeedbackState, Limits, Target, Outcome, submit, run_begin, run_end,
  transition, claim_apply, reject, get, upsert, queued, running, proposed, applying, rejected,
  is_allowed, ended, new_request, is_active,
}

-- The request under `id` became `after`: of the same id and fact.
pub record Rewrites (id : String) (before after : FeedbackRequest) (old new : Store) : Type 0 where
  pub found : find id old ≡ some before
  pub stored : new ≡ put after.id after old
  pub same_id : after.id ≡ before.id
  pub same_fact : after.fact_id ≡ before.fact_id

-- A transition of the request under `id` that a test of its state lets through.
abbrev pub Moves : String → (FeedbackState → Type 0) → FeedbackRequest → Store → Store → Type 0
Moves id From after old new =
    (before : FeedbackRequest) × Rewrites id before after old new × From before.state

pub run_begin_lem :
    (now id : String) (items : Store) {r : FeedbackRequest} {items' : Store}
    → run_begin now id items ≡ ok (some r, items')
    → Moves id (λ from. from ≡ queued) r items items' × (r.state ≡ running)
unfolding run_begin get upsert
run_begin_lem now id items h = elim (Option-cases (find id items)) [
  | inl missing ↦ ground (arith, missing)
  | inr (before, found) ↦
      ((before, ground (arith, found), ground (arith, found)), ground (arith, found))
]

pub claim_apply_lem :
    (now id : String) (items : Store) {r : FeedbackRequest} {items' : Store}
    → claim_apply now id items ≡ ok (r, items')
    → Moves id (λ from. from ≡ proposed) r items items' × (r.state ≡ applying)
unfolding claim_apply get upsert
claim_apply_lem now id items h = elim (Option-cases (find id items)) [
  | inl missing ↦ ground (arith, missing)
  | inr (before, found) ↦
      ((before, ground (arith, found), ground (arith, found)), ground (arith, found))
]

pub reject_lem :
    (now id : String) (items : Store) {r : FeedbackRequest} {items' : Store}
    → reject now id items ≡ ok (r, items')
    → Moves id (λ from. from ≡ proposed) r items items' × (r.state ≡ rejected)
unfolding reject get upsert
reject_lem now id items h = elim (Option-cases (find id items)) [
  | inl missing ↦ ground (arith, missing)
  | inr (before, found) ↦
      ((before, ground (arith, found), ground (arith, found)), ground (arith, found))
]

pub transition_lem :
    (now id : String) (next : FeedbackState) (fact error : Option String) (items : Store)
    {r : FeedbackRequest} {items' : Store}
    → transition now id next fact error items ≡ ok (r, items')
    → Moves id (λ from. is_allowed from r.state ≡ true) r items items' × (r.state ≡ next)
unfolding transition get upsert
transition_lem now id next fact error items h = elim (Option-cases (find id items)) [
  | inl missing ↦ ground (arith, missing)
  | inr (before, found) ↦
      ((before, ground (arith, found), ground (arith, found)), ground (arith, found))
]

pub run_end_lem :
    (now id : String) (outcome : Outcome) (items : Store) {items' : Store}
    → run_end now id outcome items ≡ ok items'
    → (before : FeedbackRequest) × Rewrites id before (ended now outcome before) items items'
unfolding run_end get upsert
run_end_lem now id outcome items h = elim (Option-cases (find id items)) [
  | inl missing ↦ ground (arith, missing)
  | inr (before, found) ↦ (before, ground (arith, found))
]

-- `item.state in active_states`, and the same of a request for one fact.
abbrev pub live : FeedbackRequest → Bool
live r = is_active r.state

abbrev pub live_for : String → FeedbackRequest → Bool
live_for fact_id r = is_active r.state && (r.fact_id == fact_id)

pub submit_lem :
    (limits : Limits) (ulid now : String) (target : Target) (feedback : String) (items : Store)
    {r : FeedbackRequest} {items' : Store}
    → submit limits ulid now target feedback items ≡ ok (r, items')
    → (r ≡ new_request ulid now target (strip feedback))
      × (items' ≡ put ulid r items)
      × (tally live items < limits.max_active_requests)
      × (tally (live_for target.fact_id) items ≡ 0)
unfolding submit upsert new_request
submit_lem limits ulid now target feedback items h = ground (
  arith,
  length-keep-values live items,
  tally-both_none live (λ r. r.fact_id == target.fact_id) items,
)
