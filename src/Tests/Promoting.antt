-- ===== src/Tests/Promoting.antt =====
-- Requests for promotion at concrete states.
use plk_memory.Base.{◌≡◌, refl, String, [], ◌∷◌, none, string_eq}
use plk_memory.Dict.{find, put, remove, values}
use plk_memory.Ports.{ok}
use plk_memory.Promotions.{
  PromotionRequest, approved, applied, new_promotion, run, Store, upsert, delete, get, by_fact,
  by_state,
}
use plk_memory.Promotions.States.{IsLater, run-IsLater}

abbrev request : String → PromotionRequest
request id = record (new_promotion id "t0" "f1" "plk.domain.tax" "a.md" "b.md" "promote" none) {
  pr_url = none;
}

abbrev merged : PromotionRequest
merged = record (request "p1") { state = applied; updated_at = "t2" }

merged_twice : run (request "p1") (("t1", approved) ∷ ("t2", applied) ∷ []) ≡ ok merged
unfolding run new_promotion
merged_twice = refl

run-IsLater_example : IsLater (request "p1") merged 2
run-IsLater_example =
    run-IsLater (request "p1") merged (("t1", approved) ∷ ("t2", applied) ∷ []) merged_twice

abbrev one_stored : Store
one_stored = ("p2", request "p2") ∷ []

stored_then_deleted : get "p1" (delete "p2" (upsert (request "p1") one_stored)) ≡ ok (request "p1")
unfolding get delete upsert find put remove new_promotion
stored_then_deleted = refl

listed : (by_fact "f1" one_stored ≡ (request "p2" ∷ [])) × (by_state applied one_stored ≡ [])
unfolding by_fact by_state values new_promotion
listed = (refl, refl)
