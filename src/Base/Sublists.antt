-- ===== src/Base/Sublists.antt =====
-- What tests and predicates say of the parts of a list.
use Prim.Native.Nat.{ℕ, zero, suc}
use mathlib.Core.Path.{◌≡◌, refl}
use mathlib.Core.Logic.{inl, inr}
use mathlib.Core.Bool.{Bool, true, false}
use mathlib.Core.List.{List, [], ◌∷◌, map}
use native.Mathlib.Omega.{arith}
use plk_memory.Base.Tests.{Bool-cases}
use plk_memory.Base.Lists.{All, keep, any_of, take, length, insert_sorted, sort_by}

module _ {ℓ} {A : Type ℓ} (f : A → Bool) where
  pub any_of-keep :
      (test : A → Bool) (xs : List A) → any_of f xs ≡ false → any_of f (keep test xs) ≡ false
  any_of-keep test [] h = refl
  any_of-keep test (x ∷ xs) h = ground (arith, any_of-keep test xs)

  pub any_of-take : (n : ℕ) (xs : List A) → any_of f xs ≡ false → any_of f (take n xs) ≡ false
  any_of-take zero xs h = refl
  any_of-take (suc n) [] h = refl
  any_of-take (suc n) (x ∷ xs) h = ground (arith, any_of-take n xs)

  any_of-insert_sorted :
      (before : A → A → Bool) (r : A) (xs : List A)
      → f r ≡ false
      → any_of f xs ≡ false
      → any_of f (insert_sorted before r xs) ≡ false
  unfolding insert_sorted
  any_of-insert_sorted before r [] h k = rw h refl
  any_of-insert_sorted before r (x ∷ xs) h k = ground (arith, any_of-insert_sorted before r xs)

  pub any_of-sort_by :
      (before : A → A → Bool) (xs : List A)
      → any_of f xs ≡ false
      → any_of f (sort_by before xs) ≡ false
  unfolding sort_by
  any_of-sort_by before [] h = refl
  any_of-sort_by before (x ∷ xs) h =
      any_of-insert_sorted before x (sort_by before xs) (ground arith)
        (any_of-sort_by before xs (ground arith))

  pub any_of-All : (xs : List A) → any_of f xs ≡ false → All (λ x. f x ≡ false) xs
  any_of-All [] h = tt
  any_of-All (x ∷ xs) h = (ground arith, any_of-All xs (ground arith))

module _ {ℓ κ} {A : Type ℓ} (P : A → Type κ) where
  pub All-take : (n : ℕ) (xs : List A) → All P xs → All P (take n xs)
  All-take zero xs h = tt
  All-take (suc n) [] h = tt
  All-take (suc n) (x ∷ xs) h = (h.0, All-take n xs h.1)

  All-insert_sorted :
      (before : A → A → Bool) (r : A) (xs : List A)
      → P r
      → All P xs
      → All P (insert_sorted before r xs)
  unfolding insert_sorted
  All-insert_sorted before r [] p h = (p, tt)
  All-insert_sorted before r (x ∷ xs) p h = elim (Bool-cases (before r x)) [
    | inl first ↦ rw first (p, h)
    | inr later ↦ rw later (h.0, All-insert_sorted before r xs p h.1)
  ]

  pub All-sort_by : (before : A → A → Bool) (xs : List A) → All P xs → All P (sort_by before xs)
  unfolding sort_by
  All-sort_by before [] h = tt
  All-sort_by before (x ∷ xs) h =
      All-insert_sorted before x (sort_by before xs) h.0 (All-sort_by before xs h.1)

  pub All-keep :
      (test : A → Bool) (xs : List A) → ((x : A) → test x ≡ true → P x) → All P (keep test xs)
  All-keep test [] h = tt
  All-keep test (x ∷ xs) h = elim (Bool-cases (test x)) [
    | inl kept ↦ rw kept (h x kept, All-keep test xs h)
    | inr left ↦ rw left (All-keep test xs h)
  ]

  -- `All P` of a list from `All Q` of it.
  pub All-from {μ} : (Q : A → Type μ) (xs : List A) → ((x : A) → Q x → P x) → All Q xs → All P xs
  All-from Q [] h q = tt
  All-from Q (x ∷ xs) h q = (h x q.0, All-from Q xs h q.1)

  pub All-both {μ} : (Q : A → Type μ) (xs : List A) → All P xs → All Q xs → All (λ x. P x × Q x) xs
  All-both Q [] h k = tt
  All-both Q (x ∷ xs) h k = ((h.0, k.0), All-both Q xs h.1 k.1)

pub All-map {ℓ κ μ} :
    {A : Type ℓ} {B : Type κ} (P : B → Type μ) (f : A → B) (xs : List A)
    → All (λ x. P (f x)) xs
    → All P (map f xs)
All-map P f [] h = tt
All-map P f (x ∷ xs) h = (h.0, All-map P f xs h.1)

pub length-map {ℓ κ} :
    {A : Type ℓ} {B : Type κ} (f : A → B) (xs : List A) → length (map f xs) ≡ length xs
length-map f [] = refl
length-map f (x ∷ xs) = omega (arith, length-map f xs)

pub All-swap {ℓ κ μ} :
    {A : Type ℓ} {B : Type κ} (R : B → A → Type μ) (xs : List A) (ys : List B)
    → All (λ y. All (R y) xs) ys
    → All (λ x. All (λ y. R y x) ys) xs
All-swap R [] ys h = tt
All-swap R (x ∷ xs) ys h =
    (All-from _ _ ys (λ y k. k.0) h, All-swap R xs ys (All-from _ _ ys (λ y k. k.1) h))

pub All-keep-kept {ℓ κ} :
    {A : Type ℓ} (P : A → Type κ) (test : A → Bool) (xs : List A) → All P xs → All P (keep test xs)
All-keep-kept P test [] h = tt
All-keep-kept P test (x ∷ xs) h = elim (Bool-cases (test x)) [
  | inl kept ↦ rw kept (h.0, All-keep-kept P test xs h.1)
  | inr left ↦ rw left (All-keep-kept P test xs h.1)
]
