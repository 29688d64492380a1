-- ===== src/Workflow/Summary/Groups.antt =====
-- workflow_evaluation.py: grouping and sorting lose no review and count none twice.
use native.Mathlib.Nat.{zero-add}
use plk_memory.Base.{
  ℕ, ◌+◌, ◌≤◌, Bool, true, false, List, [], ◌∷◌, ◌++◌, map, ◌≡◌, refl, ◌∙◌, sym, ap, arith, length,
  keep, Eq, if◌then◌else◌, insert_sorted, sort_by, Bool-cases, inl, inr,
}
use plk_memory.Workflow.{WorkflowReview, WorkflowSuite}
use plk_memory.Workflow.Cohorts.{
  count_of, add_row, group_rows, grouped, Cohort, cohort, is_evaluable, is_success,
}

-- The sum of a measure over a list.
unfoldable pub sum_over {ℓ} : {A : Type ℓ} → (A → ℕ) → List A → ℕ
sum_over f [] = 0
sum_over f (x ∷ xs) = f x + sum_over f xs

module _ {ℓ} {A : Type ℓ} (f : A → ℕ) (before : A → A → Bool) where
  sum_over-insert_sorted :
      (x : A) (xs : List A) → sum_over f (insert_sorted before x xs) ≡ f x + sum_over f xs
  unfolding insert_sorted sum_over
  sum_over-insert_sorted x [] = refl
  sum_over-insert_sorted x (y ∷ ys) = ground (arith, sum_over-insert_sorted x ys)

  pub sum_over-sort_by : (xs : List A) → sum_over f (sort_by before xs) ≡ sum_over f xs
  unfolding sort_by sum_over
  sum_over-sort_by [] = refl
  sum_over-sort_by (x ∷ xs) =
      omega (arith, sum_over-insert_sorted x (sort_by before xs), sum_over-sort_by xs)

sum_over-map {ℓ κ} :
    {A : Type ℓ} {B : Type κ} (f : B → ℕ) (g : A → B) (xs : List A)
    → sum_over f (map g xs) ≡ sum_over (λ x. f (g x)) xs
unfolding sum_over
sum_over-map f g [] = refl
sum_over-map f g (x ∷ xs) = omega (arith, sum_over-map f g xs)

sum_over-same {ℓ} :
    {A : Type ℓ} (f g : A → ℕ)
    → ((x : A) → f x ≡ g x)
    → (xs : List A) → sum_over f xs ≡ sum_over g xs
unfolding sum_over
sum_over-same f g h [] = refl
sum_over-same f g h (x ∷ xs) = omega (arith, h x, sum_over-same f g h xs)

pub count_of-append {ℓ} :
    {A : Type ℓ} (test : A → Bool) (xs ys : List A)
    → count_of test (xs ++ ys) ≡ count_of test xs + count_of test ys
count_of-append test [] ys = omega arith
count_of-append test (x ∷ xs) ys = ground (arith, count_of-append test xs ys)

module _ {K : Type 0} ⦃e : Eq K⦄ (test : WorkflowReview → Bool) where
  abbrev measure : K × List WorkflowReview → ℕ
  measure group = count_of test group.1

  sum_over-add_row :
      (key : K) (r : WorkflowReview) (groups : List (K × List WorkflowReview))
      → sum_over measure (add_row key r groups) ≡ sum_over measure groups + count_of test (r ∷ [])
  unfolding add_row sum_over
  sum_over-add_row key r [] = omega arith
  sum_over-add_row key r ((k, rows) ∷ rest) =
      ground (arith, sum_over-add_row key r rest, count_of-append test rows (r ∷ []))

  pub sum_over-group_rows :
      (key : WorkflowReview → K) (reviews : List WorkflowReview)
      (groups : List (K × List WorkflowReview))
      → sum_over measure (group_rows key reviews groups)
        ≡ sum_over measure groups + count_of test reviews
  unfolding group_rows
  sum_over-group_rows key [] groups = omega arith
  sum_over-group_rows key (r ∷ rest) groups = omega (
    arith,
    sum_over-group_rows key rest (add_row (key r) r groups),
    sum_over-add_row (key r) r groups,
    count_of-append test (r ∷ []) rest,
  )

pub count_of-all {ℓ} : {A : Type ℓ} (xs : List A) → count_of (λ _. true) xs ≡ length xs
count_of-all [] = refl
count_of-all (x ∷ xs) = omega (arith, count_of-all xs)

pub count_of-bound {ℓ} : {A : Type ℓ} (test : A → Bool) (xs : List A) → count_of test xs ≤ length xs
count_of-bound test [] = omega arith
count_of-bound test (x ∷ xs) = ground (arith, count_of-bound test xs)

-- What passes the narrower of two tests is counted among what passes the wider.
pub keep-keep {ℓ} :
    {A : Type ℓ} (narrow wide : A → Bool) (xs : List A)
    → ((x : A) → narrow x ≡ true → wide x ≡ true)
    → keep narrow (keep wide xs) ≡ keep narrow xs
keep-keep narrow wide [] h = refl
keep-keep narrow wide (x ∷ xs) h = elim (Bool-cases (wide x)) [
  | inl wider ↦ rw wider (ap (λ z. if narrow x then x ∷ z else z) (keep-keep narrow wide xs h))
  | inr outside ↦
      let neither : narrow x ≡ false = elim (Bool-cases (narrow x)) [
        | inl n ↦ absurd (cc (h x n, outside))
        | inr n ↦ n
      ] in
      rw (outside, neither) (keep-keep narrow wide xs h)
]

pub is_success-evaluable :
    (suite : WorkflowSuite) (r : WorkflowReview)
    → is_success suite r ≡ true
    → is_evaluable suite r ≡ true
unfolding is_evaluable
is_success-evaluable suite r h = rw h refl

pub cohort-successes :
    (suite : WorkflowSuite) (rows : List WorkflowReview)
    → (cohort suite rows).successes ≡ count_of (is_success suite) rows
unfolding cohort
cohort-successes suite rows =
    ap length (keep-keep (is_success suite) (is_evaluable suite) rows (is_success-evaluable suite))

-- A count over the groups is the count over the reviews.
abbrev pub Partitions :
    {K : Type 0} → WorkflowSuite → List WorkflowReview → List (K × Cohort) → Type 0
Partitions suite reviews groups =
    (sum_over (λ group. group.1.reviews) groups ≡ length reviews)
    × (sum_over (λ group. group.1.evaluable) groups ≡ count_of (is_evaluable suite) reviews)
    × (sum_over (λ group. group.1.successes) groups ≡ count_of (is_success suite) reviews)

module _ {K : Type 0} ⦃e : Eq K⦄ (before : K → K → Bool) (suite : WorkflowSuite)
    (key : WorkflowReview → K) (reviews : List WorkflowReview) where
  sum_over-grouped :
      (field : Cohort → ℕ) (test : WorkflowReview → Bool)
      → ((rows : List WorkflowReview) → field (cohort suite rows) ≡ count_of test rows)
      → sum_over (λ group. field group.1) (grouped before suite key reviews) ≡ count_of test reviews
  unfolding grouped sum_over
  sum_over-grouped field test h =
      let groups = group_rows key reviews [] in
      let sorted = sort_by (λ a b. before a.0 b.0) groups in
      sum_over-map (λ group. field group.1) (λ group. (group.0, cohort suite group.1)) sorted
      ∙ sum_over-same (λ group. field (cohort suite group.1)) (λ group. count_of test group.1)
          (λ group. h group.1) sorted
      ∙ sum_over-sort_by (λ group. count_of test group.1) (λ a b. before a.0 b.0) groups
      ∙ sum_over-group_rows test key reviews []
      ∙ zero-add (count_of test reviews)

  pub grouped-Partitions : Partitions suite reviews (grouped before suite key reviews)
  unfolding cohort
  grouped-Partitions = (
    sum_over-grouped (λ c. c.reviews) (λ _. true) (λ rows. sym (count_of-all rows))
        ∙ count_of-all reviews,
    sum_over-grouped (λ c. c.evaluable) (is_evaluable suite) (λ rows. refl),
    sum_over-grouped (λ c. c.successes) (is_success suite) (cohort-successes suite),
  )
