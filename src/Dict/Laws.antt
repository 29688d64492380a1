-- ===== src/Dict/Laws.antt =====
-- What lookups see of a dictionary after an update.
use plk_memory.Base.{
  ◌≡◌, refl, ◌∙◌, String, some, [], ◌∷◌, arith, eq_iff, ◌==◌, string_eq, if◌then◌else◌, Bool-cases,
  inl, inr, false, none, subst,
}
use plk_memory.Dict.{Dict, find, put, UniqueKeys, remove}

module _ {ℓ} {V : Type ℓ} where
  pub find-put :
      (key k : String) (v : V) (d : Dict V)
      → find key (put k v d) ≡ (if k == key then some v else find key d)
  unfolding find put
  find-put key k v [] = refl
  find-put key k v ((k₁, v₁) ∷ rest) =
      ground (arith, find-put key k v rest, eq_iff k₁ k, eq_iff k₁ key, eq_iff k key)

  pub find-put_same : (key : String) (v : V) (d : Dict V) → find key (put key v d) ≡ some v
  find-put_same key v d = ground (arith, find-put key key v d, eq_iff key key)

  pub find-put_other :
      (key k : String) (v : V) (d : Dict V) → (k == key) ≡ false → find key (put k v d) ≡ find key d
  find-put_other key k v d other = ground (arith, find-put key k v d)

  pub put-UniqueKeys : (k : String) (v : V) (d : Dict V) → UniqueKeys d → UniqueKeys (put k v d)
  unfolding put find
  put-UniqueKeys k v [] u = (refl, tt)
  put-UniqueKeys k v ((k₁, v₁) ∷ rest) u = elim (Bool-cases (k₁ == k)) [
    | inl hit ↦ rw hit u
    | inr miss ↦
        let other : find k₁ (put k v rest) ≡ find k₁ rest =
          ground (arith, find-put k₁ k v rest, eq_iff k₁ k, eq_iff k k₁) in
        rw miss (other ∙ u.0, put-UniqueKeys k v rest u.1)
  ]

  -- From a dictionary with one entry for a key, `remove` takes the key that it is given, and no other.
  pub find-remove :
      (key gone : String) (d : Dict V)
      → UniqueKeys d
      → find key (remove gone d) ≡ (if gone == key then none else find key d)
  unfolding find remove
  find-remove key gone [] u = ground arith
  find-remove key gone ((k, v) ∷ rest) u = elim (Bool-cases (k == gone)) [
    | inl hit ↦
        let e : k ≡ gone = ground (arith, eq_iff k gone) in
        let free : find gone rest ≡ none = subst (λ z. find z rest ≡ none) e u.0 in
        elim (Bool-cases (gone == key)) [
          | inl same ↦
              let e' : gone ≡ key = ground (arith, eq_iff gone key) in
              rw (hit, same) (subst (λ z. find z rest ≡ none) e' free)
          | inr other ↦ ground (arith, hit, other, eq_iff k key, eq_iff gone key)
        ]
    | inr miss ↦
        ground
          (arith, miss, find-remove key gone rest u.1, eq_iff k key, eq_iff gone key, eq_iff k gone)
  ]

  pub remove-UniqueKeys : (k : String) (d : Dict V) → UniqueKeys d → UniqueKeys (remove k d)
  unfolding remove find
  remove-UniqueKeys k [] u = tt
  remove-UniqueKeys k ((k₁, v₁) ∷ rest) u = elim (Bool-cases (k₁ == k)) [
    | inl hit ↦ rw hit u.1
    | inr miss ↦
        let other : find k₁ (remove k rest) ≡ none =
          ground (arith, find-remove k₁ k rest u.1, u.0) in
        rw miss (other, remove-UniqueKeys k rest u.1)
  ]
