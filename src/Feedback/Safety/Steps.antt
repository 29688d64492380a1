-- ===== src/Feedback/Safety/Steps.antt =====
-- feedback.py: every step of the coordinator, in any order, keeps its invariant.
use plk_memory.Base.{refl, String, true, some, [], ◌≡◌, string_eq, arith, Bool, subst}
use plk_memory.Dict.{find, tally}
use plk_memory.Feedback.{
  Store, FeedbackRequest, FeedbackState, Limits, running, applying, is_active,
}
use plk_memory.Feedback.Effects.{
  run_begin_lem, run_end_lem, claim_apply_lem, reject_lem, transition_lem,
}
use plk_memory.Feedback.System.{
  Coordinator, Step, submits, begins, ends, claims, settles, rejects, restarts, Reach, starts,
  steps, idle,
}
use plk_memory.Feedback.Safety.{AllIn, IsSound}
use plk_memory.Feedback.Safety.Rewriting.{new-IsWithin, AllIn-kept, AllIn-joined, AllIn-left}
use plk_memory.Feedback.Safety.Submitting.{submit-IsWithin, submit-AllIn}
use plk_memory.Feedback.Safety.Resuming.{resume_pending-IsWithin}

-- The state of a request that a set of ids holds.
pub state_in :
    {status : FeedbackState} {members : String → Bool} {id : String} {r : FeedbackRequest}
    (items : Store)
    → AllIn status members items
    → find id items ≡ some r
    → members id ≡ true
    → r.state ≡ status
state_in {status} {members} {id} {r} items all found m =
    let (s, held, is) = all id m in
    let same : s ≡ r = cc (held, found) in subst (λ z. z.state ≡ status) same is

-- Each step keeps the invariant.
pub Step-IsSound :
    {limits : Limits} {s t : Coordinator} → Step limits s t → IsSound limits s → IsSound limits t
unfolding is_active
Step-IsSound {limits} {s} (submits ulid now target feedback fresh h) sound = record {
  within = submit-IsWithin limits ulid now target feedback s.items fresh h sound.within;
  awaited =
      submit-AllIn limits ulid now target feedback s.items fresh h running s.awaiting sound.awaited;
  held = submit-AllIn limits ulid now target feedback s.items fresh h applying s.claimed sound.held;
}
Step-IsSound {limits} {s} (begins now id {r} h) sound =
    let ((before, w, from), to) = run_begin_lem now id s.items h in
    record {
      within = new-IsWithin sound.within w (λ _. rw from refl);
      awaited = AllIn-joined sound.within w running s.awaiting sound.awaited to;
      held = AllIn-kept sound.within w applying s.claimed sound.held (λ e. absurd (cc (e, from)));
    }
Step-IsSound {limits} {s} (ends now id outcome awaiting h) sound =
    let (before, w) = run_end_lem now id outcome s.items h in
    let from : before.state ≡ running = state_in s.items sound.awaited w.found awaiting in
    record {
      within = new-IsWithin sound.within w (λ _. rw from refl);
      awaited = AllIn-left sound.within w running s.awaiting sound.awaited;
      held = AllIn-kept sound.within w applying s.claimed sound.held (λ e. absurd (cc (e, from)));
    }
Step-IsSound {limits} {s} (claims now id h) sound =
    let ((before, w, from), to) = claim_apply_lem now id s.items h in
    record {
      within = new-IsWithin sound.within w (λ _. rw from refl);
      awaited =
          AllIn-kept sound.within w running s.awaiting sound.awaited (λ e. absurd (cc (e, from)));
      held = AllIn-joined sound.within w applying s.claimed sound.held to;
    }
Step-IsSound {limits} {s} (settles now id next fact error claimed h) sound =
    let ((before, w, allowed), to) = transition_lem now id next fact error s.items h in
    let from : before.state ≡ applying = state_in s.items sound.held w.found claimed in
    record {
      within = new-IsWithin sound.within w (λ _. rw from refl);
      awaited =
          AllIn-kept sound.within w running s.awaiting sound.awaited (λ e. absurd (cc (e, from)));
      held = AllIn-left sound.within w applying s.claimed sound.held;
    }
Step-IsSound {limits} {s} (rejects now id h) sound =
    let ((before, w, from), to) = reject_lem now id s.items h in
    record {
      within = new-IsWithin sound.within w (λ _. rw from refl);
      awaited =
          AllIn-kept sound.within w running s.awaiting sound.awaited (λ e. absurd (cc (e, from)));
      held = AllIn-kept sound.within w applying s.claimed sound.held (λ e. absurd (cc (e, from)));
    }
Step-IsSound {limits} {s} (restarts now) sound = record {
  within = resume_pending-IsWithin now sound.within;
  awaited = λ id m. absurd (cc m);
  held = λ id m. absurd (cc m);
}

idle-IsSound : (limits : Limits) → IsSound limits (idle [])
unfolding find tally
idle-IsSound limits = record {
  within = record {
    bounded = omega arith;
    one_each = λ f. omega arith;
    keyed = λ id r h. absurd (cc h);
    unique = tt;
  };
  awaited = λ id m. absurd (cc m);
  held = λ id m. absurd (cc m);
}

pub Reach-IsSound : {limits : Limits} {s : Coordinator} → Reach limits s → IsSound limits s
Reach-IsSound {limits} starts = idle-IsSound limits
Reach-IsSound (steps before step) = Step-IsSound step (Reach-IsSound before)
