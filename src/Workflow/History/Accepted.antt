-- ===== src/Workflow/History/Accepted.antt =====
-- workflow_evaluation.py: the loop over the history, with its dictionary of reviews, its set of
-- replayed ids and its last hash, accepts just the histories whose every review fits.
use plk_memory.Base.{
  String, false, ◌||◌, Option, none, some, List, [], ◌∷◌, ◌++◌, ◌≡◌, ◌↔◌, refl, sym, ◌∙◌, subst,
  arith, eq_iff, elem, string_eq, Option-cases, inl, inr, ap,
}
use mathlib.Core.List.{append_assoc, append-nil}
use plk_memory.Ports.{ok, Result-cases}
use plk_memory.Dict.{Dict, find, put}
use plk_memory.Dict.Laws.{find-put}
use plk_memory.Workflow.{WorkflowReview}
use plk_memory.Workflow.History.{
  last_hash, check_link, check_replay, validate_from, validate_review_history,
}
use plk_memory.Workflow.History.Fits.{
  Fits, ReplayFits, earlier, names, is_replayed, earlier-id, earlier-append, is_replayed-append,
  last_hash-append,
}

-- What the loop remembers stands for the reviews that it has passed.
record Remembers (seen : Dict WorkflowReview) (replayed : List String)
    (before : List WorkflowReview) : Type 0 where
  finds : (id : String) → find id seen ≡ earlier id before
  marks : (id : String) → elem id replayed ≡ is_replayed id before

check_replay_sound :
    (seen : Dict WorkflowReview) (replayed : List String) (before : List WorkflowReview)
    (r : WorkflowReview) (replay_of : Option String) {next : List String}
    → Remembers seen replayed before
    → check_replay seen replayed r replay_of ≡ ok next
    → ReplayFits before r replay_of
      × ((id : String) → elem id next ≡ (elem id replayed || names id replay_of))
unfolding check_replay
check_replay_sound seen replayed before r none m h = (tt, λ id. ground (arith))
check_replay_sound seen replayed before r (some o) {next} m h = elim (Option-cases (find o seen)) [
  | inl missing ↦ absurd (ground (arith, missing))
  | inr (original, found) ↦
      let there : earlier o before ≡ some original = sym (m.finds o) ∙ found in
      let id : original.review_id ≡ o = earlier-id o before there in
      (
        (
          original,
          there,
          ground (arith, found, eq_iff original.case_id r.case_id),
          ground (arith, found, eq_iff original.variant_id r.variant_id),
          ground (arith, found),
          sym (m.marks o) ∙ subst (λ z. elem z replayed ≡ false) id (ground (arith, found)),
        ),
        λ other. ground (arith, found, id, eq_iff other o),
      )
]

check_replay_complete :
    (seen : Dict WorkflowReview) (replayed : List String) (before : List WorkflowReview)
    (r : WorkflowReview) (replay_of : Option String)
    → Remembers seen replayed before
    → ReplayFits before r replay_of
    → (next : List String) × (check_replay seen replayed r replay_of ≡ ok next)
unfolding check_replay
check_replay_complete seen replayed before r none m h = (replayed, refl)
check_replay_complete seen replayed before r (some o) m
      (original, there, same_case, same_variant, later, free) =
    let found : find o seen ≡ some original = m.finds o ∙ there in
    let id : original.review_id ≡ o = earlier-id o before there in
    let unmarked : elem original.review_id replayed ≡ false =
      subst (λ z. elem z replayed ≡ false) (sym id) (m.marks o ∙ free) in
    (
      original.review_id ∷ replayed,
      rw found (
          ground (
            arith,
            unmarked,
            eq_iff original.case_id r.case_id,
            eq_iff original.variant_id r.variant_id,
          )),
    )

-- What the loop remembers after a review.
remember :
    (seen : Dict WorkflowReview) (replayed next : List String) (before : List WorkflowReview)
    (r : WorkflowReview)
    → Remembers seen replayed before
    → earlier r.review_id before ≡ none
    → ((id : String) → elem id next ≡ (elem id replayed || names id r.replay_of))
    → Remembers (put r.review_id r seen) next (before ++ r ∷ [])
remember seen replayed next before r m new marked = record {
  finds = λ id.
      ground (arith, find-put id r.review_id r seen, earlier-append id before r, new, m.finds id);
  marks = λ id. ground (arith, marked id, m.marks id, is_replayed-append id before r);
}

check_link_sound :
    (seen : Dict WorkflowReview) (replayed next : List String) (before : List WorkflowReview)
    (r : WorkflowReview)
    → Remembers seen replayed before
    → check_link seen replayed (last_hash before) r ≡ ok next
    → Fits before r × Remembers (put r.review_id r seen) next (before ++ r ∷ [])
unfolding check_link
check_link_sound seen replayed next before r m h =
    let new : earlier r.review_id before ≡ none = ground (arith, m.finds r.review_id) in
    let passed : check_replay seen replayed r r.replay_of ≡ ok next = ground arith in
    let (fits, marked) = check_replay_sound seen replayed before r r.replay_of m passed in
    (
      record {
        linked = ground (arith, eq_iff r.previous_hash (last_hash before));
        new = new;
        replay = fits;
      },
      remember seen replayed next before r m new marked,
    )

check_link_complete :
    (seen : Dict WorkflowReview) (replayed : List String) (before : List WorkflowReview)
    (r : WorkflowReview)
    → Remembers seen replayed before
    → Fits before r
    → (next : List String) × (check_link seen replayed (last_hash before) r ≡ ok next)
unfolding check_link
check_link_complete seen replayed before r m fits =
    let (next, passed) = check_replay_complete seen replayed before r r.replay_of m fits.replay in
    (
      next,
      ground (
        arith,
        m.finds r.review_id,
        fits.new,
        fits.linked,
        passed,
        eq_iff r.previous_hash (last_hash before),
      ),
    )

AllFit : List WorkflowReview → List WorkflowReview → String → Type 0
AllFit before [] trusted_head = last_hash before ≡ trusted_head
AllFit before (r ∷ rest) trusted_head = Fits before r × AllFit (before ++ r ∷ []) rest trusted_head

validate_from_sound :
    (seen : Dict WorkflowReview) (replayed : List String) (before rest : List WorkflowReview)
    (trusted_head : String)
    → Remembers seen replayed before
    → validate_from seen replayed (last_hash before) rest trusted_head ≡ ok tt
    → AllFit before rest trusted_head
unfolding validate_from AllFit
validate_from_sound seen replayed before [] trusted_head m h =
    ground (arith, eq_iff (last_hash before) trusted_head)
validate_from_sound seen replayed before (r ∷ rest) trusted_head m h =
    elim (Result-cases (check_link seen replayed (last_hash before) r)) [
      | inl (next, passed) ↦
          let (fits, kept) = check_link_sound seen replayed next before r m passed in
          let later : validate_from (put r.review_id r seen) next r.record_hash rest trusted_head
              ≡ ok tt =
            rw passed at h in
          (
            fits,
            validate_from_sound (put r.review_id r seen) next (before ++ r ∷ []) rest trusted_head
                kept (rw (last_hash-append before r) later),
          )
      | inr (e, failed) ↦ absurd (cc (rw failed at h))
    ]

validate_from_complete :
    (seen : Dict WorkflowReview) (replayed : List String) (before rest : List WorkflowReview)
    (trusted_head : String)
    → Remembers seen replayed before
    → AllFit before rest trusted_head
    → validate_from seen replayed (last_hash before) rest trusted_head ≡ ok tt
unfolding validate_from AllFit
validate_from_complete seen replayed before [] trusted_head m h =
    ground (arith, eq_iff (last_hash before) trusted_head)
validate_from_complete seen replayed before (r ∷ rest) trusted_head m (fits, all) =
    let (next, passed) = check_link_complete seen replayed before r m fits in
    let (_, kept) = check_link_sound seen replayed next before r m passed in
    rw passed (
      rw (last_hash-append before r) at (
        validate_from_complete (put r.review_id r seen) next (before ++ r ∷ []) rest trusted_head
          kept all))

-- A history: each review fits what stands before it, and the last hash is the trusted one.
pub record IsHistory (reviews : List WorkflowReview) (trusted_head : String) : Type 0 where
  pub all_fit :
      (before : List WorkflowReview) (r : WorkflowReview) (after : List WorkflowReview)
      → reviews ≡ before ++ r ∷ after
      → Fits before r
  pub ends_at : last_hash reviews ≡ trusted_head

at_split :
    (done rest : List WorkflowReview) (trusted_head : String)
    → AllFit done rest trusted_head
    → (before : List WorkflowReview) (r : WorkflowReview) (after : List WorkflowReview)
    → rest ≡ before ++ r ∷ after
    → Fits (done ++ before) r
unfolding AllFit
at_split done [] trusted_head all [] r after e = absurd (cc e)
at_split done [] trusted_head all (x ∷ before) r after e = absurd (cc e)
at_split done (x ∷ rest) trusted_head all [] r after e =
    let same : x ≡ r = cc e in rw append-nil (subst (λ z. Fits done z) same all.0)
at_split done (x ∷ rest) trusted_head all (y ∷ before) r after e =
    let same : x ≡ y = cc e in
    let tail : rest ≡ before ++ r ∷ after = cc e in
    subst (λ z. Fits (done ++ z ∷ before) r) same
      (subst (λ z. Fits z r) (append_assoc done (x ∷ []) before)
        (at_split (done ++ x ∷ []) rest trusted_head all.1 before r after tail))

from_splits :
    (done rest : List WorkflowReview) (trusted_head : String)
    → ((before : List WorkflowReview) (r : WorkflowReview) (after : List WorkflowReview)
        → rest ≡ before ++ r ∷ after
        → Fits (done ++ before) r)
    → last_hash (done ++ rest) ≡ trusted_head
    → AllFit done rest trusted_head
unfolding AllFit
from_splits done [] trusted_head h e = rw append-nil at e
from_splits done (x ∷ rest) trusted_head h e = (
  rw append-nil at (h [] x rest refl),
  from_splits (done ++ x ∷ []) rest trusted_head
      (λ before r after split.
        rw (append_assoc done (x ∷ []) before) (h (x ∷ before) r after (ap (λ z. x ∷ z) split)))
      (rw (append_assoc done (x ∷ []) rest) e),
)

ends_with :
    (done rest : List WorkflowReview) (trusted_head : String)
    → AllFit done rest trusted_head
    → last_hash (done ++ rest) ≡ trusted_head
unfolding AllFit
ends_with done [] trusted_head e = rw append-nil e
ends_with done (x ∷ rest) trusted_head all =
    rw append_assoc at (ends_with (done ++ x ∷ []) rest trusted_head all.1)

-- A history is accepted, under a trusted head, just if that is the hash of its last review (of 64
-- zeros if there is none) and each review fits those before it: its `previous_hash` is the hash of
-- the one before, its id is new, and if it is a replay, the original stands before it, of the same
-- case and variant and reviewed earlier, and has no other replay before.
pub validate_review_history-IsHistory :
    (reviews : List WorkflowReview) (trusted_head : String)
    → (validate_review_history reviews trusted_head ≡ ok tt) ↔ IsHistory reviews trusted_head
unfolding validate_review_history last_hash find earlier is_replayed
validate_review_history-IsHistory reviews trusted_head =
    let start : Remembers [] [] [] = record { finds = λ id. refl; marks = λ id. refl } in
    (
      λ h.
          let all : AllFit [] reviews trusted_head =
            validate_from_sound [] [] [] reviews trusted_head start h in
          record {
            all_fit = at_split [] reviews trusted_head all;
            ends_at = ends_with [] reviews trusted_head all;
          },
      λ h.
          validate_from_complete [] [] [] reviews trusted_head start
            (from_splits [] reviews trusted_head h.all_fit h.ends_at),
    )
