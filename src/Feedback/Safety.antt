-- ===== src/Feedback/Safety.antt =====
-- feedback.py: what holds of the store and of the running tasks between two steps.
pub mod Rewriting
pub mod Resuming
pub mod Submitting
pub mod Steps
pub mod Evolution
pub mod Guarantees
use plk_memory.Base.{ℕ, String, Bool, true, some, ◌≡◌, ◌≤◌}
use plk_memory.Dict.{find, tally, UniqueKeys}
use plk_memory.Feedback.{Store, FeedbackRequest, FeedbackState, Limits, running, applying}
use plk_memory.Feedback.Effects.{live, live_for}
use plk_memory.Feedback.System.{Coordinator}

-- At most `limit` requests are active, at most one for a fact, and a key is its request's id.
pub record IsWithin (limit : ℕ) (items : Store) : Type 0 where
  pub bounded : tally live items ≤ limit
  pub one_each : (fact_id : String) → tally (live_for fact_id) items ≤ 1
  pub keyed : (id : String) (r : FeedbackRequest) → find id items ≡ some r → r.id ≡ id
  pub unique : UniqueKeys items

abbrev pub HasState : FeedbackState → String → Store → Type 0
HasState status id items = (r : FeedbackRequest) × (find id items ≡ some r) × (r.state ≡ status)

-- What a set of ids holds is in one state.
abbrev pub AllIn : FeedbackState → (String → Bool) → Store → Type 0
AllIn status members items = (id : String) → members id ≡ true → HasState status id items

pub record IsSound (limits : Limits) (s : Coordinator) : Type 0 where
  pub within : IsWithin limits.max_active_requests s.items
  pub awaited : AllIn running s.awaiting s.items
  pub held : AllIn applying s.claimed s.items
