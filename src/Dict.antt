-- ===== src/Dict.antt =====
-- The dictionaries that the stores of the Git backend keep as JSON (promotions.py, feedback.py):
-- a list of entries in the order of their insertion, with one entry for a key.
pub mod Laws
pub mod Counts
pub mod Adjust
use plk_memory.Base.{
  ℕ, zero, suc, ◌+◌, Bool, true, false, Option, none, some, List, [], ◌∷◌, String, ◌==◌, string_eq,
  if◌then◌else◌, ◌≡◌,
}

abbrev pub Dict {ℓ} : Type ℓ → Type ℓ
Dict V = List (String × V)

abbrev pub bit : Bool → ℕ
bit true = 1
bit false = 0

module _ {ℓ} {V : Type ℓ} where
  -- `items.get(key)`
  unfoldable pub find : String → Dict V → Option V
  find key [] = none
  find key ((k, v) ∷ rest) = if k == key then some v else find key rest

  -- `items[key] = value`: an old entry keeps its place.
  unfoldable pub put : String → V → Dict V → Dict V
  put key value [] = (key, value) ∷ []
  put key value ((k, v) ∷ rest) =
      let others = put key value rest in if k == key then (k, value) ∷ rest else (k, v) ∷ others

  -- `items.pop(key, None)`
  unfoldable pub remove : String → Dict V → Dict V
  remove key [] = []
  remove key ((k, v) ∷ rest) =
      let others = remove key rest in if k == key then rest else (k, v) ∷ others

  -- `items.values()`
  unfoldable pub values : Dict V → List V
  values [] = []
  values ((k, v) ∷ rest) = v ∷ values rest

  -- A key has one entry.
  abbrev pub UniqueKeys : Dict V → Type ℓ
  UniqueKeys [] = Unit
  UniqueKeys ((k, v) ∷ rest) = (find k rest ≡ none) × UniqueKeys rest

  -- How many values pass a test.
  unfoldable pub tally : (V → Bool) → Dict V → ℕ
  tally test [] = 0
  tally test ((k, v) ∷ rest) = bit (test v) + tally test rest
