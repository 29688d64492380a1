-- ===== src/Feedback/Safety/Evolution.antt =====
-- feedback.py: how a stored request changes from one step to the next.
use plk_memory.Base.{
  String, true, some, ◌≡◌, ◌⊎◌, ◌==◌, string_eq, arith, eq_iff, refl, Bool-cases, inl, inr, subst,
  ℕ, sym,
}
use plk_memory.Dict.{find}
use plk_memory.Dict.Laws.{find-put}
use plk_memory.Feedback.{Store, FeedbackRequest, Limits, queued, is_allowed, raised, returned}
use plk_memory.Feedback.Effects.{
  Rewrites, submit_lem, run_begin_lem, run_end_lem, claim_apply_lem, reject_lem, transition_lem,
}
use plk_memory.Feedback.System.{
  Coordinator, Step, submits, begins, ends, claims, settles, rejects, restarts,
}
use plk_memory.Feedback.Safety.{IsWithin, IsSound}
use plk_memory.Feedback.Safety.Rewriting.{find-new}
use plk_memory.Feedback.Safety.Resuming.{find-resume_some, requeue, reclaim}
use plk_memory.Feedback.Safety.Steps.{state_in}

-- A request is as before, or takes a transition of the table, or is put in the queue again.
abbrev pub Evolves : FeedbackRequest → FeedbackRequest → Type 0
Evolves r s =
    (r ≡ s) ⊎ ((is_allowed r.state s.state ≡ true) ⊎ ((r.state ≡ queued) × (s.state ≡ queued)))

-- Every request of one store evolves to the one under its id in another.
abbrev pub AllEvolve : Store → Store → Type 0
AllEvolve old new =
    (id : String) (r : FeedbackRequest)
    → find id old ≡ some r
    → (s : FeedbackRequest) × (find id new ≡ some s) × Evolves r s

rewritten_evolve :
    {limit : ℕ} {id : String} {before after : FeedbackRequest} {old new : Store}
    → IsWithin limit old
    → Rewrites id before after old new
    → is_allowed before.state after.state ≡ true
    → AllEvolve old new
rewritten_evolve {limit} {id} {before} {after} {old} within w allowed other r found =
    elim (Bool-cases (id == other)) [
      | inl same ↦
          let e : id ≡ other = ground (arith, eq_iff id other) in
          let there : find id old ≡ some r = subst (λ z. find z old ≡ some r) (sym e) found in
          let it : before ≡ r = cc (there, w.found) in
          (
            after,
            ground (arith, find-new within w other),
            inr (inl (subst (λ z. is_allowed z.state after.state ≡ true) it allowed)),
          )
      | inr differ ↦ (r, ground (arith, find-new within w other), inl refl)
    ]

resumed_evolve : (now : String) (r : FeedbackRequest) → Evolves r (requeue now (reclaim now r))
unfolding is_allowed
resumed_evolve now r = ground arith

-- Each step.
pub Step-AllEvolve :
    {limits : Limits} {s t : Coordinator}
    → IsSound limits s
    → Step limits s t
    → AllEvolve s.items t.items
unfolding is_allowed
Step-AllEvolve {limits} {s} sound (submits ulid now target feedback {r = made} fresh h) id r found =
    let effect = submit_lem limits ulid now target feedback s.items h in
    (
      r,
      rw effect.1 (ground (arith, find-put id ulid made s.items, eq_iff ulid id, fresh)),
      inl refl,
    )
Step-AllEvolve {limits} {s} sound (begins now id h) other r found =
    let ((before, w, from), to) = run_begin_lem now id s.items h in
    rewritten_evolve sound.within w (rw (from, to) refl) other r found
Step-AllEvolve {limits} {s} sound (ends now id (raised text) awaiting h) other r found =
    let (before, w) = run_end_lem now id (raised text) s.items h in
    rewritten_evolve sound.within w (rw (state_in s.items sound.awaited w.found awaiting) refl)
      other r found
Step-AllEvolve {limits} {s} sound (ends now id (returned result) awaiting h) other r found =
    let (before, w) = run_end_lem now id (returned result) s.items h in
    rewritten_evolve sound.within w (rw (state_in s.items sound.awaited w.found awaiting) refl)
      other r found
Step-AllEvolve {limits} {s} sound (claims now id h) other r found =
    let ((before, w, from), to) = claim_apply_lem now id s.items h in
    rewritten_evolve sound.within w (rw (from, to) refl) other r found
Step-AllEvolve {limits} {s} sound (settles now id next fact error claimed h) other r found =
    let ((before, w, allowed), to) = transition_lem now id next fact error s.items h in
    rewritten_evolve sound.within w allowed other r found
Step-AllEvolve {limits} {s} sound (rejects now id h) other r found =
    let ((before, w, from), to) = reject_lem now id s.items h in
    rewritten_evolve sound.within w (rw (from, to) refl) other r found
Step-AllEvolve {limits} {s} sound (restarts now) id r found = (
  requeue now (reclaim now r),
  find-resume_some now sound.within id r found,
  resumed_evolve now r,
)
