-- ===== src/Sync/Engine.antt =====
-- sync.py: a sync and a reindex, with the flags of the engine and the stored state.
use plk_memory.Base.{
  ℕ, ◌+◌, String, Bool, true, false, Option, none, some, List, [], ◌∷◌, not, if◌then◌else◌, length,
  ◌==◌, string_eq, ◌&&◌, nat_eq,
}
use plk_memory.Dict.{Dict}
use plk_memory.Sync.{
  World, SyncState, no_state, Attempt, done, raised, plan_targets, all_targets, sync_paths,
  is_empty,
}

pub record Engine : Type 0 where
  pub maintenance : Bool
  pub degraded : Option String
  -- the file of the StateStore
  pub stored : SyncState

pub record SyncResult : Type 0 where
  pub upserted : ℕ
  pub deleted : ℕ
  pub dead_letters : Dict String
  pub head : String
  pub degraded : Option String

abbrev pub degraded_result : World → String → SyncResult
degraded_result world reason = record {
  upserted = 0;
  deleted = 0;
  dead_letters = [];
  head = world.head;
  degraded = some reason;
}

abbrev pub degrade : World → String → Engine → Attempt SyncResult × Engine
degrade world reason engine =
    (done (degraded_result world reason), record engine { degraded = some reason })

-- The state that a run saves, and its answer
abbrev pub finish : World → ℕ → SyncState × ℕ → Engine → Attempt SyncResult × Engine
finish world deleted (state, upserted) engine = (
  done (record {
    upserted = upserted;
    deleted = deleted;
    dead_letters = state.dead_letters;
    head = world.head;
    degraded = none;
  }),
  record engine { stored = record state { last_ingested_commit = some world.head } },
)

-- `_sync_store_locked`
unfoldable pub sync_store_locked : World → Engine → Attempt SyncResult × Engine
unfolding plan_targets all_targets sync_paths
sync_store_locked world engine =
    let clear = record engine { degraded = none } in
    if not world.ready
    then degrade world "graph index not ready" clear
    else elim (plan_targets world engine.stored) [
      | raised e ↦ (raised e, clear)
      | done (targets, state, deleted) ↦
          finish world deleted (sync_paths world (all_targets world targets state) (state, 0)) clear
    ]

-- `_sync_locked`; `rewritten` is the HistoryRewritten that the store raises, if it does.
unfoldable pub sync_locked : World → Option String → Engine → Attempt SyncResult × Engine
unfolding sync_store_locked
sync_locked world (some reason) engine = degrade world reason engine
sync_locked world none engine = sync_store_locked world engine

-- The engine after `begin_reindex`; none: it is in maintenance already.
unfoldable pub begin_reindex : Engine → Option Engine
begin_reindex engine =
    if engine.maintenance then none else some (record engine { maintenance = true })

unfoldable pub end_reindex : Engine → Engine
end_reindex engine = record engine { maintenance = false }

-- `_do_reindex`; `cleared` is what the index answers to `clear`.
unfoldable pub do_reindex :
    World → Option String → Attempt (Unit {0}) → Engine → Attempt SyncResult × Engine
unfolding sync_locked
do_reindex world rewritten (raised e) engine = (raised e, engine)
do_reindex world rewritten (done _) engine =
    sync_locked world rewritten (record engine { stored = no_state })

unfoldable pub reindex :
    World → Option String → Attempt (Unit {0}) → Engine → Attempt SyncResult × Engine
unfolding begin_reindex do_reindex end_reindex
reindex world rewritten cleared engine = elim (begin_reindex engine) [
  | none ↦ (raised "ReindexInProgress", engine)
  | some begun ↦
      let result = do_reindex world rewritten cleared begun in (result.0, end_reindex result.1)
]

pub record Status : Type 0 where
  pub head : String
  pub last_ingested_commit : Option String
  pub index_stale : Bool
  pub indexed_facts : ℕ
  pub dead_letters : Dict String
  pub unpushed_commits : ℕ
  pub maintenance : Bool
  pub degraded : Option String
  pub graph_count_error : Option String
  pub graph_edges : Option (List ℕ)
  pub graph_empty_mismatch : Option Bool

abbrev pub sum : List ℕ → ℕ
sum [] = 0
sum (n ∷ ns) = n + sum ns

abbrev pub counted : Attempt (List ℕ) → Option (List ℕ)
counted (done counts) = some counts
counted (raised e) = none

abbrev pub count_error : Attempt (List ℕ) → Option String
count_error (done counts) = none
count_error (raised e) = some e

abbrev pub mismatch : SyncState → Attempt (List ℕ) → Option Bool
mismatch state (done counts) = some (not (is_empty state.facts) && (sum counts == 0))
mismatch state (raised e) = none

abbrev pub is_at : String → Option String → Bool
is_at head none = false
is_at head (some commit) = commit == head

-- `status`; `counts` are the edges of the groups.
unfoldable pub status : World → ℕ → Attempt (List ℕ) → Engine → Status
status world unpushed counts engine = record {
  head = world.head;
  last_ingested_commit = engine.stored.last_ingested_commit;
  index_stale = not (is_at world.head engine.stored.last_ingested_commit);
  indexed_facts = length engine.stored.facts;
  dead_letters = engine.stored.dead_letters;
  unpushed_commits = unpushed;
  maintenance = engine.maintenance;
  degraded = engine.degraded;
  graph_count_error = if world.ready then count_error counts else none;
  graph_edges = if world.ready then counted counts else none;
  graph_empty_mismatch = if world.ready then mismatch engine.stored counts else none;
}
