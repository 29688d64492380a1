-- ===== src/Postgres/Tables/Laws.antt =====
-- Laws of the lookups, counts and updates of tables.
use plk_memory.Base.{
  All, subst, ℕ, String, Bool, true, false, ◌&&◌, Option, none, some, List, [], ◌∷◌, ◌≡◌, refl,
  any_of, inl, inr, nat_eq, string_eq, if◌then◌else◌, arith, eq_iff, Bool-cases,
}
use plk_memory.Postgres.Schema.{FactRow, RevisionRow}
use plk_memory.Postgres.Tables.{
  first_where, count_where, update_where, fact_key, find_fact, find_revision, fact_clash,
  revision_clash,
}

abbrev pub updated {ℓ} : {A : Type ℓ} → (A → Bool) → (A → A) → Option A → Option A
updated test f none = none
updated test f (some x) = some (if test x then f x else x)

module _ {ℓ} {A : Type ℓ} (p : A → Bool) where
  pub first_where-holds : (xs : List A) (x : A) → first_where p xs ≡ some x → p x ≡ true
  unfolding first_where
  first_where-holds [] x h = cc
  first_where-holds (y ∷ ys) x h = ground (arith, first_where-holds ys x)

  -- An update that keeps `p` changes what is found, not what is sought.
  pub first_where-update_where :
      (test : A → Bool) (f : A → A) (keeps : (x : A) → p (f x) ≡ p x) (xs : List A)
      → first_where p (update_where test f xs) ≡ updated test f (first_where p xs)
  unfolding first_where update_where
  first_where-update_where test f keeps [] = refl
  first_where-update_where test f keeps (x ∷ xs) =
      ground (arith, keeps x, first_where-update_where test f keeps xs)

-- The primary key of the heads.
abbrev pub UniqueFacts : List FactRow → Type 0
UniqueFacts [] = Unit
UniqueFacts (r ∷ rs) = (find_fact r.organization_id r.fact_id rs ≡ none) × UniqueFacts rs

pub fact_clash-find_fact :
    (new : FactRow) (rows : List FactRow)
    → any_of (fact_clash new) rows ≡ false
    → find_fact new.organization_id new.fact_id rows ≡ none
unfolding find_fact fact_clash
fact_clash-find_fact new [] h = refl
fact_clash-find_fact new (r ∷ rs) h =
    ground (arith, fact_clash-find_fact new rs, eq_iff r.fact_id new.fact_id)

pub revision_clash-find_revision :
    (new : RevisionRow) (rows : List RevisionRow)
    → any_of (revision_clash new) rows ≡ false
    → find_revision new.organization_id new.revision_id rows ≡ none
unfolding find_revision revision_clash
revision_clash-find_revision new [] h = refl
revision_clash-find_revision new (r ∷ rs) h = ground (arith, revision_clash-find_revision new rs)

module _ (org : ℕ) (fact_id : String) where
  none-count_where :
      (q : FactRow → Bool) (rows : List FactRow)
      → find_fact org fact_id rows ≡ none
      → count_where (λ r. fact_key org fact_id r && q r) rows ≡ 0
  unfolding find_fact count_where
  none-count_where q [] h = refl
  none-count_where q (r ∷ rs) h = ground (arith, none-count_where q rs)

  pub fact_key-eq :
      (r : FactRow)
      → fact_key org fact_id r ≡ true
      → (r.organization_id ≡ org) × (r.fact_id ≡ fact_id)
  fact_key-eq r h = ground (arith, eq_iff r.fact_id fact_id)

  none_below :
      (r : FactRow) (rows : List FactRow)
      → fact_key org fact_id r ≡ true
      → find_fact r.organization_id r.fact_id rows ≡ none
      → find_fact org fact_id rows ≡ none
  none_below r rows h n = rw (← (fact_key-eq r h).0, ← (fact_key-eq r h).1) n

  -- A row that an update matches is the one that the key finds.
  pub count_where-find_fact :
      (q : FactRow → Bool) (rows : List FactRow)
      → UniqueFacts rows
      → count_where (λ r. fact_key org fact_id r && q r) rows ≡ 1
      → (r : FactRow) × (find_fact org fact_id rows ≡ some r) × (q r ≡ true)
  unfolding find_fact count_where
  count_where-find_fact q [] u h = absurd (omega arith)
  count_where-find_fact q (x ∷ xs) u h = elim (Bool-cases (fact_key org fact_id x)) [
    | inl hit ↦ (x, rw hit, ground (arith, none-count_where q xs (none_below x xs hit u.0)))
    | inr miss ↦ rw miss (count_where-find_fact q xs u.1 (ground arith))
  ]

  -- And the row that the key finds is matched once.
  pub find_fact-count_where :
      (q : FactRow → Bool) (rows : List FactRow) (r : FactRow)
      → UniqueFacts rows
      → find_fact org fact_id rows ≡ some r
      → q r ≡ true
      → count_where (λ x. fact_key org fact_id x && q x) rows ≡ 1
  unfolding find_fact count_where
  find_fact-count_where q [] r u h t = cc
  find_fact-count_where q (x ∷ xs) r u h t = elim (Bool-cases (fact_key org fact_id x)) [
    | inl hit ↦ ground (arith, none-count_where q xs (none_below x xs hit u.0))
    | inr miss ↦ rw miss (ground (arith, find_fact-count_where q xs r u.1))
  ]

  none-All :
      (P : FactRow → Type 0) (rows : List FactRow)
      → find_fact org fact_id rows ≡ none
      → All (λ r. fact_key org fact_id r ≡ true → P r) rows
  unfolding find_fact
  none-All P [] h = tt
  none-All P (r ∷ rs) h = (λ hit. absurd (no_hit hit), none-All P rs (ground arith))
    where
      no_hit : fact_key org fact_id r ≡ true → ⊥
      no_hit hit = ground arith

  -- The rows of a key are the one that is found.
  pub find_fact-All :
      (P : FactRow → Type 0) (rows : List FactRow) (head : FactRow)
      → UniqueFacts rows
      → find_fact org fact_id rows ≡ some head
      → P head
      → All (λ r. fact_key org fact_id r ≡ true → P r) rows
  unfolding find_fact
  find_fact-All P [] head u h p = tt
  find_fact-All P (x ∷ xs) head u h p = elim (Bool-cases (fact_key org fact_id x)) [
    | inl hit ↦
        let same : head ≡ x = ground arith in
        (λ _. subst P same p, none-All P xs (none_below x xs hit u.0))
    | inr miss ↦ (λ hit. absurd (cc (hit, miss)), find_fact-All P xs head u.1 (ground arith) p)
  ]
