-- ===== src/Dict/Counts.antt =====
-- How an update changes the number of values that pass a test.
use plk_memory.Base.{
  ◌≡◌, refl, ◌+◌, String, Bool, false, none, some, [], ◌∷◌, arith, string_eq, length, keep, any_of,
  ◌&&◌,
}
use plk_memory.Dict.{Dict, find, put, values, tally, bit}

module _ {ℓ} {V : Type ℓ} (test : V → Bool) where
  pub tally-put_new :
      (k : String) (v : V) (d : Dict V)
      → find k d ≡ none
      → tally test (put k v d) ≡ tally test d + bit (test v)
  unfolding find put tally
  tally-put_new k v [] h = omega arith
  tally-put_new k v ((k₁, v₁) ∷ rest) h = ground (arith, tally-put_new k v rest)

  pub tally-put_old :
      (k : String) (v old : V) (d : Dict V)
      → find k d ≡ some old
      → tally test (put k v d) + bit (test old) ≡ tally test d + bit (test v)
  unfolding find put tally
  tally-put_old k v old [] h = cc
  tally-put_old k v old ((k₁, v₁) ∷ rest) h = ground (arith, tally-put_old k v old rest)

  pub length-keep-values : (d : Dict V) → length (keep test (values d)) ≡ tally test d
  unfolding values tally
  length-keep-values [] = refl
  length-keep-values ((k, v) ∷ rest) = ground (arith, length-keep-values rest)

-- When no value that passes one test passes another, none passes both.
pub tally-both_none {ℓ} :
    {V : Type ℓ} (test other : V → Bool) (d : Dict V)
    → any_of other (keep test (values d)) ≡ false
    → tally (λ v. test v && other v) d ≡ 0
unfolding values tally
tally-both_none test other [] h = refl
tally-both_none test other ((k, v) ∷ rest) h = ground (arith, tally-both_none test other rest)
