-- ===== src/Feedback/Safety/Rewriting.antt =====
-- feedback.py: a rewritten request keeps the store within its limits.
use plk_memory.Base.{
  ℕ, String, Bool, true, false, some, ◌≡◌, ◌==◌, string_eq, arith, eq_iff, ◌∙◌, sym, subst,
  if◌then◌else◌, Bool-cases, inl, inr,
}
use plk_memory.Dict.{find, put}
use plk_memory.Dict.Laws.{find-put, put-UniqueKeys}
use plk_memory.Dict.Counts.{tally-put_old}
use plk_memory.Feedback.{Store, FeedbackRequest, FeedbackState, is_active}
use plk_memory.Feedback.Effects.{Rewrites, live, live_for}
use plk_memory.Feedback.System.{set}
use plk_memory.Feedback.Safety.{IsWithin, HasState, AllIn}

module _ {limit : ℕ} {id : String} {before after : FeedbackRequest} {old new : Store}
    (within : IsWithin limit old) (rewritten : Rewrites id before after old new) where
  at_id : after.id ≡ id
  at_id = rewritten.same_id ∙ within.keyed id before rewritten.found

  stored_at : new ≡ put id after old
  stored_at = subst (λ z. new ≡ put z after old) at_id rewritten.stored

  -- After the rewriting, the id has the new request, and other ids are as before.
  pub find-new :
      (other : String) → find other new ≡ (if id == other then some after else find other old)
  find-new other = rw stored_at (find-put other id after old)

  pub new-IsWithin : (live after ≡ true → live before ≡ true) → IsWithin limit new
  unfolding is_active
  new-IsWithin kept = record {
    bounded =
        rw stored_at
          (ground (arith, tally-put_old live id after before old rewritten.found, within.bounded));
    one_each = λ f. rw stored_at (
        ground (
          arith,
          tally-put_old (live_for f) id after before old rewritten.found,
          within.one_each f,
          rewritten.same_fact,
        ));
    keyed = λ k r h. ground (arith, find-new k, eq_iff id k, within.keyed k r, at_id);
    unique = rw stored_at (put-UniqueKeys id after old within.unique);
  }

  pub HasState-new : (status : FeedbackState) → after.state ≡ status → HasState status id new
  HasState-new status e = (after, ground (arith, find-new id, eq_iff id id), e)

  pub HasState-other :
      (status : FeedbackState) (other : String)
      → (id == other) ≡ false
      → HasState status other old
      → HasState status other new
  HasState-other status other e (r, found, is) = (r, ground (arith, find-new other), is)

  module _ (status : FeedbackState) (members : String → Bool) (all : AllIn status members old) where
    apart :
        (other : String) → (id == other) ≡ false → members other ≡ true → HasState status other new
    apart other e m = HasState-other status other e (all other m)

    -- The rewritten request does not belong to the set, by its state.
    pub AllIn-kept : (before.state ≡ status → members id ≡ false) → AllIn status members new
    AllIn-kept free other m = elim (Bool-cases (id == other)) [
      | inl same ↦
          let e : id ≡ other = ground (arith, eq_iff id other) in
          let mine : HasState status id old =
            subst (λ z. HasState status z old) (sym e) (all other m) in
          let same_request : mine.0 ≡ before = cc (mine.1, rewritten.found) in
          let status_of : before.state ≡ status =
            subst (λ r. r.state ≡ status) same_request mine.2 in
          absurd (cc (free status_of, m, e))
      | inr differ ↦ apart other differ m
    ]

    pub AllIn-joined : after.state ≡ status → AllIn status (set id true members) new
    AllIn-joined e other m = elim (Bool-cases (id == other)) [
      | inl same ↦
          subst (λ z. HasState status z new) (ground (arith, eq_iff id other))
            (HasState-new status e)
      | inr differ ↦ apart other differ (ground (arith, eq_iff id other, eq_iff other id))
    ]

    pub AllIn-left : AllIn status (set id false members) new
    AllIn-left other m = elim (Bool-cases (id == other)) [
      | inl same ↦ absurd (ground (arith, eq_iff id other, eq_iff other id))
      | inr differ ↦ apart other differ (ground (arith, eq_iff id other, eq_iff other id))
    ]
