-- ===== src/Promotions.antt =====
-- promotions.py: the state machine of a promotion request in the Git backend, and the store of
-- requests. The file holds the dictionary of requests as JSON; here the store is that dictionary,
-- its entries in the order of their insertion. `now` is the text of the clock's reading.
pub mod States
pub mod Lookups
use plk_memory.Base.{
  ℕ, String, Bool, true, false, Option, none, some, List, [], ◌∷◌, ◌==◌, string_eq, if◌then◌else◌,
  keep,
}
use plk_memory.Dict.{Dict, find, put, remove, values}
use plk_memory.Ports.{or_raise, Result, ok, err, runtime_error, raise_if, ◌>>=◌, ◌>>◌}

pub data PromotionState : Type 0 where
  proposed approved rejected applied : PromotionState

pub record PromotionRequest : Type 0 where
  pub id : String
  pub fact_id : String
  pub from_namespace : String
  pub to_namespace : String
  pub old_path : String
  pub new_path : String
  pub branch : String
  pub state : PromotionState
  pub pr_number : Option ℕ
  pub pr_url : Option String
  pub reason : Option String
  pub created_at : String
  pub updated_at : String

-- `_ALLOWED`
unfoldable pub is_allowed : PromotionState → PromotionState → Bool
is_allowed proposed approved = true
is_allowed proposed applied = true
is_allowed proposed rejected = true
is_allowed approved applied = true
is_allowed approved rejected = true
is_allowed _ _ = false

-- `new_promotion`; `ulid` is the new ULID
unfoldable pub new_promotion :
    String → String → String → String → String → String → String → Option String → PromotionRequest
new_promotion ulid now fact_id from_namespace old_path new_path branch reason = record {
  id = ulid;
  fact_id = fact_id;
  from_namespace = from_namespace;
  to_namespace = "plk.shared";
  old_path = old_path;
  new_path = new_path;
  branch = branch;
  state = proposed;
  pr_number = none;
  pr_url = none;
  reason = reason;
  created_at = now;
  updated_at = now;
}

unfoldable pub transition : String → PromotionRequest → PromotionState → Result PromotionRequest
unfolding is_allowed
transition now pr new_state =
    if is_allowed pr.state new_state
    then ok (record pr { state = new_state; updated_at = now })
    else err (runtime_error "PromotionError")

-- Several transitions, one after another.
unfoldable pub run : PromotionRequest → List (String × PromotionState) → Result PromotionRequest
unfolding transition
run pr [] = ok pr
run pr ((now, s) ∷ rest) = transition now pr s >>= λ next. run next rest

abbrev pub Store : Type 0
Store = Dict PromotionRequest

-- `items[pr.id] = pr`
unfoldable pub upsert : PromotionRequest → Store → Store
upsert pr items = put pr.id pr items

unfoldable pub delete : String → Store → Store
delete promotion_id items = remove promotion_id items

unfoldable pub get : String → Store → Result PromotionRequest
get promotion_id items = or_raise (find promotion_id items) (runtime_error "KeyError")

abbrev pub is_in : PromotionState → PromotionState → Bool
is_in proposed proposed = true
is_in approved approved = true
is_in rejected rejected = true
is_in applied applied = true
is_in _ _ = false

unfoldable pub by_state : PromotionState → Store → List PromotionRequest
by_state state items = keep (λ p. is_in p.state state) (values items)

unfoldable pub by_fact : String → Store → List PromotionRequest
by_fact fact_id items = keep (λ p. p.fact_id == fact_id) (values items)
