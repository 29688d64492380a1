-- ===== src/Tests/Syncing.antt =====
-- A sync of two files, one of which the index refuses.
use plk_memory.Base.{
  ◌≡◌, refl, String, [], ◌∷◌, none, some, true, false, ◌==◌, string_eq, if◌then◌else◌, sort_by,
}
use plk_memory.Dict.{find, put, remove, UniqueKeys}
use plk_memory.Sync.{
  World, FactIndexEntry, done, raised, removed, written, no_state, sync_path, sync_paths,
  all_targets, plan_targets, plan_from, plan_diff, plan_entry, delete_by_id, add_target,
  add_targets,
}
use plk_memory.Sync.Engine.{Engine, SyncResult, sync_store_locked, begin_reindex, reindex}
use plk_memory.Sync.Settling.{Known, sync_store_locked-Settled}

abbrev entry : FactIndexEntry
entry = record { episode_uuids = "u1" ∷ []; content_hash = "h"; group_id = "g" }

abbrev world : World
world = record {
  before = λ x y. true;
  head = "c2";
  list_posts = "a.md" ∷ "b.md" ∷ [];
  diff = λ last. done (removed "b.md" ∷ written "c.md" ∷ []);
  exists = λ path. true;
  id_of = λ path. done (some path);
  id_at = λ last path. some path;
  ready = true;
  upsert_fact = λ path old. if path == "b.md" then raised "refused" else done entry;
  delete_fact = λ old. done tt;
}

abbrev engine : Engine
engine = record { maintenance = false; degraded = some "old"; stored = no_state }

abbrev answer : SyncResult
answer = record {
  upserted = 1;
  deleted = 0;
  dead_letters = ("b.md", "refused") ∷ [];
  head = "c2";
  degraded = none;
}

abbrev synced : Engine
synced = record {
  maintenance = false;
  degraded = none;
  stored = record {
    last_ingested_commit = some "c2";
    facts = ("a.md", entry) ∷ [];
    dead_letters = ("b.md", "refused") ∷ [];
  };
}

first_sync : sync_store_locked world engine ≡ (done answer, synced)
unfolding sync_store_locked plan_targets plan_from add_targets add_target all_targets sync_paths
    sync_path find put remove sort_by
first_sync = refl

sync_store_locked-Settled_example :
    (synced.stored.last_ingested_commit ≡ some world.head)
    × (answer.dead_letters ≡ synced.stored.dead_letters)
    × UniqueKeys synced.stored.dead_letters
    × ((path : String) → Known world no_state synced.stored.dead_letters path)
sync_store_locked-Settled_example =
    sync_store_locked-Settled world engine synced answer tt first_sync refl

-- The next sync removes a fact whose file is gone, and tries the dead letter again.
abbrev behind : Engine
behind = record synced {
  stored = record {
    last_ingested_commit = some "c1";
    facts = ("b.md", entry) ∷ [];
    dead_letters = [];
  };
}

fact_removed :
    (sync_store_locked world behind).0
    ≡ done (record { upserted = 1; deleted = 1; dead_letters = []; head = "c2"; degraded = none })
unfolding sync_store_locked plan_targets plan_from plan_diff plan_entry delete_by_id add_targets
    all_targets sync_paths sync_path find put remove sort_by
fact_removed = refl

no_second_reindex :
    (reindex world none (done tt) (record synced { maintenance = true })).0
    ≡ raised "ReindexInProgress"
unfolding reindex begin_reindex
no_second_reindex = refl
