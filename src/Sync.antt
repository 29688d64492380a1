-- ===== src/Sync.antt =====
-- sync.py, state.py: the engine that brings the search index up to the head of the repository, and
-- the state it keeps. `World` is what a run, under the lock of the store, reads of the clone and of
-- the index: no commit comes in between. Calls of the index that raise are outcomes.
pub mod Engine
pub mod Letters
pub mod Targets
pub mod Settling
use plk_memory.Base.{
  ℕ, zero, suc, ◌+◌, String, Bool, true, false, Option, none, some, List, [], ◌∷◌, elem, not,
  if◌then◌else◌, sort_by, string_eq, ◌==◌,
}
use plk_memory.Dict.{Dict, find, put, remove}

pub record FactIndexEntry : Type 0 where
  pub episode_uuids : List String
  pub content_hash : String
  pub group_id : String

pub record SyncState : Type 0 where
  pub last_ingested_commit : Option String
  pub facts : Dict FactIndexEntry
  pub dead_letters : Dict String

abbrev pub no_state : SyncState
no_state = record { last_ingested_commit = none; facts = []; dead_letters = [] }

-- A call that may raise; the text is `str(e)`.
pub data Attempt {ℓ} (A : Type ℓ) : Type ℓ where
  done : A → Attempt A
  raised : String → Attempt A

abbrev pub and_then {ℓ κ} : {A : Type ℓ} {B : Type κ} → Attempt A → (A → Attempt B) → Attempt B
and_then (done a) next = next a
and_then (raised e) next = raised e

-- A line of `git diff --name-status`, split
pub data DiffEntry : Type 0 where
  renamed : String → String → DiffEntry
  removed written : String → DiffEntry

pub record World : Type 0 where
  -- the order of `sorted`, as a test of "not after"
  pub before : String → String → Bool
  pub head : String
  pub list_posts : List String
  pub diff : String → Attempt (List DiffEntry)
  pub exists : String → Bool
  -- the id of the file's front matter; none without one
  pub id_of : String → Attempt (Option String)
  -- `_id_at`
  pub id_at : String → String → Option String
  pub ready : Bool
  pub upsert_fact : String → Option FactIndexEntry → Attempt FactIndexEntry
  pub delete_fact : FactIndexEntry → Attempt (Unit {0})

abbrev pub is_empty {ℓ} : {A : Type ℓ} → List A → Bool
is_empty [] = true
is_empty (_ ∷ _) = false

-- `targets[path] = None`
unfoldable pub add_target : String → List String → List String
add_target path targets = if elem path targets then targets else path ∷ targets

abbrev pub keys {ℓ} : {V : Type ℓ} → Dict V → List String
keys [] = []
keys ((k, v) ∷ rest) = k ∷ keys rest

unfoldable pub add_targets : List String → List String → List String
unfolding add_target
add_targets [] targets = targets
add_targets (path ∷ paths) targets = add_targets paths (add_target path targets)

module _ (world : World) where
  -- `_delete_by_id`; the test of the id is the answer.
  unfoldable pub delete_by_id : Option String → SyncState → Attempt (Bool × SyncState)
  delete_by_id none state = done (false, state)
  delete_by_id (some fact_id) state =
      if fact_id == "" then done (false, state) else elim (find fact_id state.facts) [
        | none ↦ done (false, state)
        | some entry ↦ elim (world.delete_fact entry) [
          | raised e ↦ raised e
          | done _ ↦ done (true, record state { facts = remove fact_id state.facts })
        ]
      ]

  -- What a diff leaves: the targets, the state and the number of the deleted.
  abbrev pub Plan : Type 0
  Plan = List String × SyncState × ℕ

  unfoldable pub plan_entry : String → DiffEntry → Plan → Attempt Plan
  unfolding delete_by_id add_target
  plan_entry last (renamed old new) (targets, state, deleted) =
      and_then (delete_by_id (world.id_at last old) state)
        (λ (_, next). done (add_target new targets, next, deleted))
  plan_entry last (removed path) (targets, state, deleted) =
      and_then (delete_by_id (world.id_at last path) state)
        (λ (was, next). done (targets, next, if was then suc deleted else deleted))
  plan_entry last (written path) (targets, state, deleted) =
      done (add_target path targets, state, deleted)

  unfoldable pub plan_diff : String → List DiffEntry → Plan → Attempt Plan
  unfolding plan_entry
  plan_diff last [] plan = done plan
  plan_diff last (entry ∷ entries) plan =
      and_then (plan_entry last entry plan) (plan_diff last entries)

  -- The paths of a run, before the dead letters: all files at first, and then those of the diff.
  unfoldable pub plan_from : Option String → SyncState → Attempt Plan
  unfolding plan_diff add_targets
  plan_from none state = done (add_targets world.list_posts [], state, 0)
  plan_from (some last) state =
      if last == world.head
      then done ([], state, 0)
      else and_then (world.diff last) (λ entries. plan_diff last entries ([], state, 0))

  unfoldable pub plan_targets : SyncState → Attempt Plan
  unfolding plan_from
  plan_targets state = plan_from state.last_ingested_commit state

  abbrev pub without_letter : String → SyncState → SyncState
  without_letter path state = record state { dead_letters = remove path state.dead_letters }

  abbrev pub with_letter : String → String → SyncState → SyncState
  with_letter path e state = record state { dead_letters = put path e state.dead_letters }

  -- `state.facts[fid] = entry`, or no entry for a fact that is invalidated
  abbrev pub index_fact : String → FactIndexEntry → SyncState → SyncState
  index_fact fid entry state = record state {
    facts =
        if is_empty entry.episode_uuids then remove fid state.facts else put fid entry state.facts;
  }

  -- The body of the loop over the targets
  unfoldable pub sync_path : String → SyncState × ℕ → SyncState × ℕ
  sync_path path (state, upserted) =
      if not (world.exists path)
      then (without_letter path state, upserted)
      else elim (world.id_of path) [
        | raised e ↦ (with_letter path e state, upserted)
        | done none ↦ (without_letter path state, upserted)
        | done (some fid) ↦ elim (world.upsert_fact path (find fid state.facts)) [
          | raised e ↦ (with_letter path e state, upserted)
          | done entry ↦ (without_letter path (index_fact fid entry state), suc upserted)
        ]
      ]

  unfoldable pub sync_paths : List String → SyncState × ℕ → SyncState × ℕ
  unfolding sync_path
  sync_paths [] run = run
  sync_paths (path ∷ paths) run = sync_paths paths (sync_path path run)

  -- `sorted(targets)`, with the dead letters
  unfoldable pub all_targets : List String → SyncState → List String
  unfolding add_targets
  all_targets targets state = sort_by world.before (add_targets (keys state.dead_letters) targets)
