-- ===== src/Promotions/Lookups.antt =====
-- promotions.py: the store answers with what was put last.
use plk_memory.Base.{◌≡◌, String, arith, if◌then◌else◌, ◌==◌, string_eq}
use plk_memory.Dict.{UniqueKeys}
use plk_memory.Dict.Laws.{find-put, find-remove}
use plk_memory.Ports.{ok, err, runtime_error}
use plk_memory.Promotions.{PromotionRequest, Store, upsert, delete, get}

-- After `upsert` the store answers the id of the request with it, and any other id as before.
pub get-upsert :
    (id : String) (pr : PromotionRequest) (items : Store)
    → get id (upsert pr items) ≡ (if pr.id == id then ok pr else get id items)
unfolding get upsert
get-upsert id pr items = ground (arith, find-put id pr.id pr items)

-- From a store with one entry for an id, `delete` takes the id that it is given, and no other.
pub get-delete :
    (id gone : String) (items : Store)
    → UniqueKeys items
    → get id (delete gone items)
      ≡ (if gone == id then err (runtime_error "KeyError") else get id items)
unfolding get delete
get-delete id gone items u = ground (arith, find-remove id gone items u)
