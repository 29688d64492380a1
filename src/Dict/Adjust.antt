-- ===== src/Dict/Adjust.antt =====
-- A function on every value of a dictionary.
use plk_memory.Base.{◌≡◌, refl, String, Bool, none, some, [], ◌∷◌, All, arith, eq_iff, string_eq}
use plk_memory.Dict.{Dict, find, tally, UniqueKeys}

module _ {ℓ} {V : Type ℓ} where
  unfoldable pub adjust : (V → V) → Dict V → Dict V
  adjust g [] = []
  adjust g ((k, v) ∷ rest) = (k, g v) ∷ adjust g rest

  pub find-adjust-some :
      (g : V → V) (key : String) (v : V) (d : Dict V)
      → find key d ≡ some v
      → find key (adjust g d) ≡ some (g v)
  unfolding find adjust
  find-adjust-some g key v [] h = cc
  find-adjust-some g key v ((k, w) ∷ rest) h = ground (arith, find-adjust-some g key v rest)

  pub find-adjust-none :
      (g : V → V) (key : String) (d : Dict V) → find key d ≡ none → find key (adjust g d) ≡ none
  unfolding find adjust
  find-adjust-none g key [] h = refl
  find-adjust-none g key ((k, w) ∷ rest) h = ground (arith, find-adjust-none g key rest)

  pub adjust-UniqueKeys : (g : V → V) (d : Dict V) → UniqueKeys d → UniqueKeys (adjust g d)
  unfolding adjust
  adjust-UniqueKeys g [] u = tt
  adjust-UniqueKeys g ((k, w) ∷ rest) u =
      (find-adjust-none g k rest u.0, adjust-UniqueKeys g rest u.1)

  pub tally-adjust :
      (test : V → Bool) (g : V → V) (d : Dict V)
      → ((v : V) → test (g v) ≡ test v)
      → tally test (adjust g d) ≡ tally test d
  unfolding adjust tally
  tally-adjust test g [] h = refl
  tally-adjust test g ((k, w) ∷ rest) h = ground (arith, tally-adjust test g rest h, h w)

  -- What a lookup finds holds of the entry that it stands in.
  pub All-find {κ} :
      (P : String → V → Type κ) (d : Dict V)
      → UniqueKeys d
      → ((key : String) (v : V) → find key d ≡ some v → P key v)
      → All (λ entry. P entry.0 entry.1) d
  unfolding find
  All-find P [] u h = tt
  All-find P ((k, w) ∷ rest) u h = (
    h k w (ground (arith, eq_iff k k)),
    All-find P rest u.1 (λ key v found. h key v (ground (arith, eq_iff k key, u.0, found))),
  )
