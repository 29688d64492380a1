-- ===== src/Feedback/Safety/Guarantees.antt =====
-- feedback.py: what the coordinator promises, whatever order its tasks and handlers run in.
use plk_memory.Base.{refl, subst, String, true, false, some, ◌≡◌, ◌≤◌, arith, Option}
use plk_memory.Ports.{ok}
use plk_memory.Dict.{put, find, tally}
use plk_memory.Dict.Laws.{find-put_same}
use plk_memory.Feedback.{
  moved, Store, FeedbackRequest, FeedbackState, Limits, applying, is_active, is_allowed, transition,
  get, upsert,
}
use plk_memory.Feedback.Effects.{live, live_for}
use plk_memory.Feedback.System.{Coordinator, Step, Reach}
use plk_memory.Feedback.Safety.Steps.{Reach-IsSound}
use plk_memory.Feedback.Safety.Evolution.{AllEvolve, Step-AllEvolve}

-- In every state that the coordinator can reach from an empty store, by submissions, runs that
-- begin and end, claims, transitions of claimed requests, rejections and restarts in any order,
-- at most `max_active_requests` requests are active, and at most one of them for a fact.
pub Reach-bounded :
    (limits : Limits) (s : Coordinator)
    → Reach limits s
    → (tally live s.items ≤ limits.max_active_requests)
      × ((fact_id : String) → tally (live_for fact_id) s.items ≤ 1)
Reach-bounded limits s reached =
    let sound = Reach-IsSound reached in (sound.within.bounded, sound.within.one_each)

-- In a step from a reachable state, a request that is stored stays stored under its id: it is
-- unchanged, or its states are a pair of `_ALLOWED_TRANSITIONS` (though the end of a run tests no
-- state), or it was queued and is queued again.
pub Reach-AllEvolve :
    (limits : Limits) (s t : Coordinator)
    → Reach limits s
    → Step limits s t
    → AllEvolve s.items t.items
Reach-AllEvolve limits s t reached = Step-AllEvolve (Reach-IsSound reached)

-- A request that is not active (applied, rejected, failed or stale) is never changed by a step
-- from a reachable state.
pub Reach-terminal :
    (limits : Limits) (s t : Coordinator) (id : String) (r : FeedbackRequest)
    → Reach limits s
    → Step limits s t
    → find id s.items ≡ some r
    → is_active r.state ≡ false
    → find id t.items ≡ some r
unfolding is_active is_allowed
Reach-terminal limits s t id r reached step found ended =
    let (next, stored, how) = Reach-AllEvolve limits s t reached step id r found in ground arith

-- In a reachable state, a handler that has claimed a request can always settle it: a transition
-- to a state that `applying` allows (proposed, applied or stale) is not refused, and what is
-- stored is the request in that state.
pub transition-claimed :
    (limits : Limits) (s : Coordinator) (now id : String) (next : FeedbackState)
    (fact error : Option String)
    → Reach limits s
    → s.claimed id ≡ true
    → is_allowed applying next ≡ true
    → (r : FeedbackRequest) × (items : Store) × (transition now id next fact error s.items
        ≡ ok (r, items))
      × (find id items ≡ some r)
      × (r.state ≡ next)
unfolding transition get upsert
transition-claimed limits s now id next fact error reached claimed allowed =
    let sound = Reach-IsSound reached in
    let (r, found, is) = sound.held id claimed in
    let key : r.id ≡ id = sound.within.keyed id r found in
    let after = moved now next fact error r in
    let allows : is_allowed r.state next ≡ true = rw is allowed in
    (
      after,
      put r.id after s.items,
      rw (found, allows) refl,
      subst (λ k. find k (put r.id after s.items) ≡ some after) key
          (find-put_same r.id after s.items),
      refl,
    )
