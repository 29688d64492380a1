-- ===== src/Postgres/Repository.antt =====
-- postgres/repository.py: the writes of the fact repository. `fresh` gives the values that the call
-- draws from `uuid4()`, in order, and `now` is the clock's reading.
pub mod Validate
pub mod Locking
pub mod Queries
use Prim.Native.String.{◌++◌}
use plk_memory.Base.{
  ℕ, ◌+◌, String, Bool, not, ◌&&◌, ◌||◌, Option, none, some, true, false, List, [], ◌∷◌, map, ◌==◌,
  elem, nat_eq, string_eq, if◌then◌else◌,
}
use plk_memory.Domain.{
  ActorContext, CreateFact, InvalidateFact, WriteResult, active, FactStatus, created,
  ChangeOperation, status_eq,
}
use plk_memory.Ports.{
  fact_missing, fact_already_exists, revision_conflict, policy_violation, value_error,
  runtime_error,
}
use plk_memory.Postgres.Schema.{FactRow, Db}
use plk_memory.Postgres.Session.{Tx, pure, gets, or_raise, raise_if, lift, ◌>>=◌, ◌>>◌}
use plk_memory.Postgres.Tables.{
  first_where, fact_key, find_fact, insert_fact, insert_revision, insert_relation,
}
use plk_memory.Postgres.External.{External, Request}
use plk_memory.Postgres.Mappers.{payload_from_row, revision_values}
use plk_memory.Postgres.WriteOps.{begin_idempotent, finish_idempotent, emit_event, record_audit}
use Validate.{validate_create}
use Locking.{Head, lock_heads, head_for, update_heads}

-- `expected_superseded_revisions`
abbrev pub Expected : Type 0
Expected = List (String × ℕ)

unfoldable pub expected_for : String → Expected → Option ℕ
expected_for fact_id [] = none
expected_for fact_id ((k, v) ∷ rest) = if k == fact_id then some v else expected_for fact_id rest

all_in : List String → List String → Bool
all_in [] ys = true
all_in (x ∷ xs) ys = elem x ys && all_in xs ys

-- `set(xs) == set(ys)`
unfoldable pub same_set : List String → List String → Bool
unfolding all_in
same_set xs ys = all_in xs ys && all_in ys xs

-- Every superseded fact exists, is at the expected revision, and is active.
unfoldable pub check_superseded : Expected → List Head → List String → Tx (Unit {0})
unfolding head_for expected_for
check_superseded expected heads [] = pure tt
check_superseded expected heads (fact_id ∷ rest) = do
  head ← or_raise (head_for fact_id heads) (fact_missing fact_id)
  revision ← or_raise (expected_for fact_id expected) (runtime_error "KeyError")
  raise_if (not (head.fact.current_version == revision))
      (revision_conflict fact_id revision head.fact.current_version)
  raise_if (not (head.revision.status == active))
      (revision_conflict fact_id revision head.fact.current_version)
  check_superseded expected heads rest

module _ (ext : External) (actor : ActorContext) (fresh : ℕ → ℕ) (now : ℕ) where
  -- `_invalidate_locked`, which draws two ids, the first of them `fresh n`
  unfoldable pub invalidate_locked : ℕ → Head → String → Tx WriteResult
  unfolding update_heads
  invalidate_locked n head reason = do
    let fact_id = head.revision.fact_id
    let version = head.fact.current_version + 1
    insert_revision (
        revision_values ext actor
          (record {
            revision_id = fresh n;
            fact_id = fact_id;
            version = version;
            status = FactStatus.invalidated;
            invalidation_reason = some reason;
            change_reason = reason;
            created_at = now;
          })
          (payload_from_row head.revision))
    changed ←
        update_heads
          (λ r.
            fact_key actor.organization_id fact_id r
            && r.current_version == head.fact.current_version)
          (λ r. record r {
            status = FactStatus.invalidated;
            current_version = version;
            current_revision_id = fresh n;
            updated_by = actor.actor_id;
            updated_at = now;
          })
    raise_if (not (changed == 1)) (revision_conflict fact_id head.fact.current_version version)
    emit_event actor.organization_id (fresh (n + 1)) fact_id version ChangeOperation.invalidated now
    pure (record {
      fact_id = fact_id;
      revision = version;
      replayed = false;
      event_id = fresh (n + 1);
    })

  -- The loop over `command.supersedes`: three ids for each; it returns the count of ids drawn.
  unfoldable pub supersede_all : CreateFact → ℕ → List Head → List String → Tx ℕ
  unfolding head_for
  supersede_all command n heads [] = pure n
  supersede_all command n heads (fact_id ∷ rest) = do
    head ← or_raise (head_for fact_id heads) (runtime_error "KeyError")
    replaced ← invalidate_locked n head ("後継ファクト " ++ command.fact_id ++ " により置換")
    insert_relation (record {
      organization_id = actor.organization_id;
      relation_id = fresh (n + 2);
      from_fact_id = command.fact_id;
      to_fact_id = fact_id;
      created_revision_id = fresh 0;
      created_at = now;
    })
    supersede_all command (n + 3) heads rest

  -- The head, its first revision and the event of a new fact.
  unfoldable pub insert_created : CreateFact → Tx (Unit {0})
  insert_created command = do
    insert_fact (record {
      organization_id = actor.organization_id;
      fact_id = command.fact_id;
      kind = command.payload.kind;
      namespace = command.payload.namespace;
      status = active;
      current_version = 1;
      current_revision_id = fresh 0;
      created_by = actor.actor_id;
      created_at = now;
      updated_by = actor.actor_id;
      updated_at = now;
    })
    insert_revision (
        revision_values ext actor
          (record {
            revision_id = fresh 0;
            fact_id = command.fact_id;
            version = 1;
            status = active;
            invalidation_reason = none;
            change_reason = command.change_reason;
            created_at = now;
          })
          command.payload)
    emit_event actor.organization_id (fresh 1) command.fact_id 1 created now

  -- What `create` does when the key is new.
  unfoldable pub create_new : CreateFact → Expected → String → Tx WriteResult
  create_new command expected key = do
    raise_if (not (same_set command.supersedes (map (λ e. e.0) expected)))
        (value_error "every superseded fact requires an expected revision")
    existing ← gets (λ db. find_fact actor.organization_id command.fact_id db.facts)
    raise_if (elim existing [ none ↦ false | some _ ↦ true ]) (fact_already_exists command.fact_id)
    heads ← lock_heads actor.organization_id command.supersedes
    check_superseded expected heads command.supersedes
    insert_created command
    n ← supersede_all command 2 heads command.supersedes
    let result : WriteResult = record {
      fact_id = command.fact_id;
      revision = 1;
      replayed = false;
      event_id = fresh 1;
    }
    record_audit actor "fact.created" command.fact_id (fresh n) now
    finish_idempotent actor.organization_id key result
    pure result

  unfoldable pub create : CreateFact → Expected → String → Tx WriteResult
  create command expected key = do
    lift (validate_create ext actor command)
    replay ←
        begin_idempotent actor.organization_id key
          (ext.canonical_hash (Request.create actor.actor_id command)) "create"
    elim replay [
      | some result ↦ pure (record result { replayed = true })
      | none ↦ create_new command expected key
    ]

  -- What `invalidate` does when the key is new.
  unfoldable pub invalidate_new : InvalidateFact → ℕ → String → Tx WriteResult
  unfolding head_for
  invalidate_new command expected_revision key = do
    heads ← lock_heads actor.organization_id (command.fact_id ∷ [])
    head ← or_raise (head_for command.fact_id heads) (fact_missing command.fact_id)
    raise_if
        (not (head.fact.current_version == expected_revision)
          || not (head.revision.status == active))
        (revision_conflict command.fact_id expected_revision head.fact.current_version)
    result ← invalidate_locked 0 head command.reason
    record_audit actor "fact.invalidated" command.fact_id (fresh 2) now
    finish_idempotent actor.organization_id key result
    pure result

  unfoldable pub invalidate : InvalidateFact → ℕ → String → Tx WriteResult
  invalidate command expected_revision key = do
    raise_if (not (elem "writer" actor.roles))
        (policy_violation "fact invalidation requires writer role")
    replay ←
        begin_idempotent actor.organization_id key
          (ext.canonical_hash (Request.invalidate actor.actor_id command)) "invalidate"
    elim replay [
      | some result ↦ pure (record result { replayed = true })
      | none ↦ invalidate_new command expected_revision key
    ]
