-- ===== src/Workflow/History/Chain.antt =====
-- workflow_evaluation.py: the trusted head fixes the history whose last hash it is.
use plk_memory.Base.{
  ℕ, zero, suc, ◌≤◌, String, List, [], ◌∷◌, ◌++◌, ◌≡◌, ◌≢◌, ◌⊎◌, inl, inr, refl, sym, ◌∙◌, ap,
  subst, arith, All, length, length-append, All-from,
}
use mathlib.Core.List.{append_assoc}
use plk_memory.Workflow.{WorkflowReview}
use plk_memory.Workflow.Store.{zero_hash}
use plk_memory.Workflow.History.{last_hash}
use plk_memory.Workflow.History.Fits.{last_hash-append}
use plk_memory.Workflow.History.Accepted.{IsHistory}

snoc_cases {ℓ} :
    {A : Type ℓ} (xs : List A) → (xs ≡ []) ⊎ ((before : List A) × (x : A) × (xs ≡ before ++ x ∷ []))
snoc_cases [] = inl refl
snoc_cases (x ∷ xs) = elim (snoc_cases xs) [
  | inl empty ↦ inr ([], x, ap (λ z. x ∷ z) empty)
  | inr (before, y, e) ↦ inr (x ∷ before, y, ap (λ z. x ∷ z) e)
]

All-snoc {ℓ κ} :
    {A : Type ℓ} (P : A → Type κ) (xs : List A) (x : A) → All P (xs ++ x ∷ []) → All P xs × P x
All-snoc P [] x h = (tt, h.0)
All-snoc P (y ∷ xs) x h = let (rest, at) = All-snoc P xs x h.1 in ((h.0, rest), at)

-- Every review names the hash of the one before.
Linked : List WorkflowReview → Type 0
Linked reviews =
    (before : List WorkflowReview) (r : WorkflowReview) (after : List WorkflowReview)
    → reviews ≡ before ++ r ∷ after
    → r.previous_hash ≡ last_hash before

Linked-snoc :
    (before : List WorkflowReview) (r : WorkflowReview)
    → Linked (before ++ r ∷ [])
    → Linked before × (r.previous_hash ≡ last_hash before)
unfolding Linked
Linked-snoc before r h = (
  λ b s after e.
      h b s (after ++ r ∷ []) (ap (λ z. z ++ r ∷ []) e ∙ append_assoc b (s ∷ after) (r ∷ [])),
  h before r [] refl,
)

-- Reviews of two lists with one hash are one review.
abbrev pub AllSeparate : List WorkflowReview → List WorkflowReview → Type 0
AllSeparate a b = All (λ r. All (λ s. r.record_hash ≡ s.record_hash → r ≡ s) b) a

abbrev pub NoneZero : List WorkflowReview → Type 0
NoneZero = All (λ r. r.record_hash ≢ zero_hash)

empty_chain : (b : List WorkflowReview) → NoneZero b → zero_hash ≡ last_hash b → [] ≡ b
unfolding last_hash
empty_chain b nonzero e = elim (snoc_cases b) [
  | inl empty ↦ sym empty
  | inr (bs, s, at) ↦ absurd (
      (All-snoc _ bs s (subst NoneZero at nonzero)).1
        (sym (e ∙ ap last_hash at ∙ last_hash-append bs s)))
]

-- Without the last review of each list, they still are separate.
AllSeparate-snoc :
    (as' bs : List WorkflowReview) (r s : WorkflowReview)
    → AllSeparate (as' ++ r ∷ []) (bs ++ s ∷ [])
    → AllSeparate as' bs × (r.record_hash ≡ s.record_hash → r ≡ s)
AllSeparate-snoc as' bs r s h =
    let (rest, at) = All-snoc _ as' r h in
    (All-from _ _ as' (λ x k. (All-snoc _ bs s k).0) rest, (All-snoc _ bs s at).1)

-- Two linked lists with one last hash: their last reviews are one, and so are the lists before.
module _ (as' bs : List WorkflowReview) (r s : WorkflowReview) where
  snoc_chain :
      (last_hash as' ≡ last_hash bs → as' ≡ bs)
      → r.previous_hash ≡ last_hash as'
      → s.previous_hash ≡ last_hash bs
      → (r.record_hash ≡ s.record_hash → r ≡ s)
      → last_hash (as' ++ r ∷ []) ≡ last_hash (bs ++ s ∷ [])
      → as' ++ r ∷ [] ≡ bs ++ s ∷ []
  snoc_chain shorter link link' separate e =
      let same_hash : r.record_hash ≡ s.record_hash =
        sym (last_hash-append as' r) ∙ e ∙ last_hash-append bs s in
      let same : r ≡ s = separate same_hash in
      let before : as' ≡ bs = shorter (sym link ∙ ap (λ z. z.previous_hash) same ∙ link') in
      ap (λ z. z ++ r ∷ []) before ∙ ap (λ z. bs ++ z ∷ []) same

same_chain :
    (n : ℕ) (a b : List WorkflowReview)
    → length a ≤ n
    → Linked a
    → Linked b
    → AllSeparate a b
    → NoneZero a
    → NoneZero b
    → last_hash a ≡ last_hash b
    → a ≡ b
unfolding last_hash
same_chain zero [] b short la lb separate za zb e = empty_chain b zb e
same_chain zero (x ∷ a) b short la lb separate za zb e = absurd (omega (arith, short))
same_chain (suc n) a b short la lb separate za zb e = elim (snoc_cases a) [
  | inl empty ↦ empty ∙ empty_chain b zb (sym (ap last_hash empty) ∙ e)
  | inr (as', r, at) ↦ elim (snoc_cases b) [
    | inl empty ↦ sym (empty ∙ empty_chain a za (sym (ap last_hash empty) ∙ sym e))
    | inr (bs, s, at') ↦
        let (parts, last) =
          AllSeparate-snoc as' bs r s
            (subst (λ z. AllSeparate z (bs ++ s ∷ [])) at (subst (AllSeparate a) at' separate)) in
        let (links, link) = Linked-snoc as' r (subst Linked at la) in
        let (links', link') = Linked-snoc bs s (subst Linked at' lb) in
        let fewer : length as' ≤ n =
          omega (arith, short, ap length at, length-append as' (r ∷ [])) in
        let before =
          same_chain n as' bs fewer links links' parts (All-snoc _ as' r (subst NoneZero at za)).0
            (All-snoc _ bs s (subst NoneZero at' zb)).0 in
        at
        ∙ snoc_chain as' bs r s before link link' last
            (sym (ap last_hash at) ∙ e ∙ ap last_hash at')
        ∙ sym at'
  ]
]

pub IsHistory-same :
    (a b : List WorkflowReview) (trusted_head : String)
    → IsHistory a trusted_head
    → IsHistory b trusted_head
    → AllSeparate a b
    → NoneZero a
    → NoneZero b
    → a ≡ b
unfolding Linked
IsHistory-same a b trusted_head history_a history_b separate za zb =
    same_chain (length a) a b (omega arith)
      (λ before r after e. (history_a.all_fit before r after e).linked)
      (λ before r after e. (history_b.all_fit before r after e).linked) separate za zb
      (history_a.ends_at ∙ sym history_b.ends_at)
