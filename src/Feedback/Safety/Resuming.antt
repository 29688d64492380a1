-- ===== src/Feedback/Safety/Resuming.antt =====
-- feedback.py: `resume_pending` changes each request by its state, and keeps the store within its
-- limits.
use plk_memory.Base.{
  ℕ, String, Bool, true, false, none, some, List, [], ◌∷◌, map, ◌≡◌, refl, ◌==◌, string_eq, arith,
  eq_iff, ◌∙◌, ap, if◌then◌else◌, keep, All, Bool-cases, inl, inr, Option-cases,
}
use plk_memory.Dict.{find, put, values, tally, UniqueKeys}
use plk_memory.Dict.Adjust.{
  adjust, find-adjust-some, find-adjust-none, adjust-UniqueKeys, tally-adjust, All-find,
}
use plk_memory.Feedback.{
  Store, FeedbackRequest, is_active, is_applying, is_pending, interrupted, requeued, upsert,
  upsert_all, pending, resume_pending,
}
use plk_memory.Feedback.Effects.{live, live_for}
use plk_memory.Feedback.Safety.{IsWithin}

abbrev AllKeyed : Store → Type 0
AllKeyed = All (λ entry. entry.1.id ≡ entry.0)

-- The change of one request in a loop over those that pass a test.
abbrev pub when :
    (FeedbackRequest → Bool)
    → (FeedbackRequest → FeedbackRequest)
    → FeedbackRequest
    → FeedbackRequest
when test g r = if test r then g r else r

ids_differ :
    (k : String) (test : FeedbackRequest → Bool) (g : FeedbackRequest → FeedbackRequest)
    (rest : Store)
    → ((r : FeedbackRequest) → (g r).id ≡ r.id)
    → find k rest ≡ none
    → AllKeyed rest
    → All (λ r. (r.id == k) ≡ false) (map g (keep test (values rest)))
unfolding find values
ids_differ k test g [] same free keyed = tt
ids_differ k test g ((k₁, v) ∷ rest) same free keyed =
    let later = ids_differ k test g rest same (ground arith) keyed.1 in
    let first : ((g v).id == k) ≡ false =
      ground (arith, same v, keyed.0, eq_iff k₁ k, eq_iff (g v).id k) in
    elim (Bool-cases (test v)) [ inl kept ↦ rw kept (first, later) | inr left ↦ rw left later ]

-- Upserts of other requests pass an entry by.
upsert_all-cons :
    (rows : List FeedbackRequest) (k : String) (v : FeedbackRequest) (rest : Store)
    → All (λ r. (r.id == k) ≡ false) rows
    → upsert_all rows ((k, v) ∷ rest) ≡ (k, v) ∷ upsert_all rows rest
unfolding upsert_all upsert put
upsert_all-cons [] k v rest h = refl
upsert_all-cons (r ∷ rows) k v rest h =
    ground
      (arith, h.0, eq_iff k r.id, eq_iff r.id k, upsert_all-cons rows k v (put r.id r rest) h.1)

module _ (test : FeedbackRequest → Bool) (g : FeedbackRequest → FeedbackRequest)
    (same : (r : FeedbackRequest) → (g r).id ≡ r.id) where
  upsert_all-adjust :
      (items : Store)
      → UniqueKeys items
      → AllKeyed items
      → upsert_all (map g (keep test (values items))) items ≡ adjust (when test g) items
  unfolding upsert_all upsert put values adjust
  upsert_all-adjust [] u k = refl
  upsert_all-adjust ((k, v) ∷ rest) u keyed =
      let rows = map g (keep test (values rest)) in
      let later : upsert_all rows rest ≡ adjust (when test g) rest =
        upsert_all-adjust rest u.1 keyed.1 in
      let pass = λ (w : FeedbackRequest).
        upsert_all-cons rows k w rest (ids_differ k test g rest same u.0 keyed.1) in
      elim (Bool-cases (test v)) [
        | inl kept ↦
            let at : (g v).id ≡ k = same v ∙ keyed.0 in
            let hit : (k == (g v).id) ≡ true = ground (arith, eq_iff k (g v).id) in
            let first : upsert (g v) ((k, v) ∷ rest) ≡ (k, g v) ∷ rest = rw hit refl in
            rw kept (ap (upsert_all rows) first ∙ pass (g v) ∙ ap (λ z. (k, g v) ∷ z) later)
        | inr left ↦ rw left (pass v ∙ ap (λ z. (k, v) ∷ z) later)
      ]

adjust-AllKeyed :
    (g : FeedbackRequest → FeedbackRequest) (items : Store)
    → ((r : FeedbackRequest) → (g r).id ≡ r.id)
    → AllKeyed items
    → AllKeyed (adjust g items)
unfolding adjust
adjust-AllKeyed g [] same keyed = tt
adjust-AllKeyed g ((k, v) ∷ rest) same keyed =
    (same v ∙ keyed.0, adjust-AllKeyed g rest same keyed.1)

-- The two loops of `resume_pending`, on one request.
abbrev pub reclaim : String → FeedbackRequest → FeedbackRequest
reclaim now = when (λ r. is_applying r.state) (interrupted now)

abbrev pub requeue : String → FeedbackRequest → FeedbackRequest
requeue now = when is_pending (requeued now)

reclaim_id : (now : String) (r : FeedbackRequest) → (reclaim now r).id ≡ r.id
reclaim_id now r = ground arith

requeue_id : (now : String) (r : FeedbackRequest) → (requeue now r).id ≡ r.id
requeue_id now r = ground arith

module _ {limit : ℕ} {items : Store} (now : String) (within : IsWithin limit items) where
  keyed_all : AllKeyed items
  keyed_all = All-find (λ k r. r.id ≡ k) items within.unique within.keyed

  pub resume_pending-adjust :
      resume_pending now items ≡ adjust (requeue now) (adjust (reclaim now) items)
  unfolding resume_pending pending
  resume_pending-adjust =
      let first : upsert_all
            (map (interrupted now) (keep (λ r. is_applying r.state) (values items))) items
          ≡ adjust (reclaim now) items =
        upsert_all-adjust (λ r. is_applying r.state) (interrupted now) (λ r. refl) items
          within.unique keyed_all in
      rw first (
        upsert_all-adjust is_pending (requeued now) (λ r. refl) (adjust (reclaim now) items)
          (adjust-UniqueKeys (reclaim now) items within.unique)
          (adjust-AllKeyed (reclaim now) items (reclaim_id now) keyed_all))

  -- What a restart makes of a request.
  pub find-resume_some :
      (id : String) (r : FeedbackRequest)
      → find id items ≡ some r
      → find id (resume_pending now items) ≡ some (requeue now (reclaim now r))
  find-resume_some id r h = rw resume_pending-adjust (
      find-adjust-some (requeue now) id (reclaim now r) (adjust (reclaim now) items)
        (find-adjust-some (reclaim now) id r items h))

  pub find-resume_none :
      (id : String) → find id items ≡ none → find id (resume_pending now items) ≡ none
  find-resume_none id h = rw resume_pending-adjust (
      find-adjust-none (requeue now) id (adjust (reclaim now) items)
        (find-adjust-none (reclaim now) id items h))

  tally_resumed :
      (test : FeedbackRequest → Bool)
      → ((r : FeedbackRequest) → test (requeue now r) ≡ test r)
      → ((r : FeedbackRequest) → test (reclaim now r) ≡ test r)
      → tally test (resume_pending now items) ≡ tally test items
  tally_resumed test h k = rw resume_pending-adjust (
      tally-adjust test (requeue now) (adjust (reclaim now) items) h
      ∙ tally-adjust test (reclaim now) items k)

  pub resume_pending-IsWithin : IsWithin limit (resume_pending now items)
  unfolding is_active
  resume_pending-IsWithin = record {
    bounded =
        ground (arith, tally_resumed live (λ r. ground arith) (λ r. ground arith), within.bounded);
    one_each = λ f. ground (
      arith,
      tally_resumed (live_for f) (λ r. ground arith) (λ r. ground arith),
      within.one_each f,
    );
    keyed = λ id r h. elim (Option-cases (find id items)) [
      | inl missing ↦ absurd (cc (find-resume_none id missing, h))
      | inr (before, found) ↦ ground (
        arith,
        find-resume_some id before found,
        requeue_id now (reclaim now before),
        reclaim_id now before,
        within.keyed id before found,
      )
    ];
    unique =
        rw resume_pending-adjust
          (adjust-UniqueKeys (requeue now) _ (adjust-UniqueKeys (reclaim now) items within.unique));
  }
