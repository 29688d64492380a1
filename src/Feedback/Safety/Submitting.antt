-- ===== src/Feedback/Safety/Submitting.antt =====
-- feedback.py: an accepted submission keeps the store within its limits.
use plk_memory.Base.{
  String, none, ◌≡◌, ◌==◌, string_eq, arith, eq_iff, Bool-cases, inl, inr, subst, ◌<◌, ◌≤◌, Bool,
}
use plk_memory.Base.Text.{strip}
use plk_memory.Ports.{ok}
use plk_memory.Dict.{find, put, tally}
use plk_memory.Dict.Laws.{find-put, put-UniqueKeys}
use plk_memory.Dict.Counts.{tally-put_new}
use plk_memory.Feedback.{
  Store, FeedbackRequest, FeedbackState, Limits, Target, submit, new_request, is_active,
}
use plk_memory.Feedback.Effects.{live, live_for, submit_lem}
use plk_memory.Feedback.Safety.{IsWithin, AllIn}

module _ (limits : Limits) (ulid now : String) (target : Target) (feedback : String) (old : Store)
    {new : Store} {r : FeedbackRequest} (fresh : find ulid old ≡ none)
    (submitted : submit limits ulid now target feedback old ≡ ok (r, new)) where
  effect :
      (r ≡ new_request ulid now target (strip feedback))
      × (new ≡ put ulid r old)
      × (tally live old < limits.max_active_requests)
      × (tally (live_for target.fact_id) old ≡ 0)
  effect = submit_lem limits ulid now target feedback old submitted

  one_live : (f : String) → tally (live_for f) old ≤ 1 → tally (live_for f) (put ulid r old) ≤ 1
  unfolding is_active new_request
  one_live f h = elim (Bool-cases (target.fact_id == f)) [
    | inl same ↦
        let e : target.fact_id ≡ f = ground (arith, eq_iff target.fact_id f) in
        let none_yet : tally (live_for f) old ≡ 0 =
          subst (λ z. tally (live_for z) old ≡ 0) e effect.3 in
        ground (arith, tally-put_new (live_for f) ulid r old fresh, none_yet)
    | inr differ ↦ rw effect.0 (
        ground (
          arith,
          tally-put_new (live_for f) ulid (new_request ulid now target (strip feedback)) old fresh,
          h,
          differ,
        ))
  ]

  pub submit-IsWithin :
      IsWithin limits.max_active_requests old → IsWithin limits.max_active_requests new
  unfolding is_active new_request
  submit-IsWithin within = rw effect.1 (record {
    bounded = ground (arith, tally-put_new live ulid r old fresh, effect.2);
    one_each = λ f. one_live f (within.one_each f);
    keyed =
        λ k s h. ground (arith, find-put k ulid r old, eq_iff ulid k, within.keyed k s, effect.0);
    unique = put-UniqueKeys ulid r old within.unique;
  })

  pub submit-AllIn :
      (status : FeedbackState) (members : String → Bool)
      → AllIn status members old
      → AllIn status members new
  submit-AllIn status members all other m =
      let (s, found, is) = all other m in
      (
        s,
        rw effect.1 (ground (arith, find-put other ulid r old, eq_iff ulid other, fresh, found)),
        is,
      )
