-- ===== src/Postgres/Ledger/Repository.antt =====
-- `create` and `invalidate` keep the tables consistent.
use plk_memory.Base.{ℕ, ◌+◌, String, Option, none, some, List, [], ◌∷◌, refl}
use plk_memory.Domain.{ActorContext, CreateFact, InvalidateFact, WriteResult}
use plk_memory.Ports.{Result, ok, err}
use plk_memory.Postgres.Schema.{
  IdempotencyRow, RelationRow, Response, write_result, proposal, decision, Db,
}
use plk_memory.Postgres.Session.{modify, transaction}
use plk_memory.Postgres.Session.Keeps.{
  Keeps, After, After-if, Keeps-modify, Keeps-gets, Keeps-pure, Keeps-raise, Keeps-bind,
  Keeps-or_raise, Keeps-raise_if, Keeps-lift, keeps_rules, transaction-Keeps,
}
use plk_memory.Postgres.Tables.{insert_relation}
use plk_memory.Postgres.External.{External}
use plk_memory.Postgres.Mappers.{revision_values}
use plk_memory.Postgres.WriteOps.{
  add_key, replay_key, begin_key, as_write_result, begin_idempotent, store_response,
  finish_idempotent, emit_event, record_audit,
}
use plk_memory.Postgres.Repository.{
  Expected, check_superseded, invalidate_locked, supersede_all, insert_created, create_new, create,
  invalidate_new, invalidate,
}
use plk_memory.Postgres.Repository.Locking.{Head, lock_heads, with_heads}
use plk_memory.Postgres.Ledger.{IsConsistent}
use plk_memory.Postgres.Ledger.Writes.{advance-Keeps, created-Keeps}

insert_relation-Keeps : (r : RelationRow) → Keeps IsConsistent (insert_relation r)
unfolding insert_relation
insert_relation-Keeps r = record { at = λ db c. After-if IsConsistent _ _ _ c }

pub record_audit-Keeps :
    (actor : ActorContext) (action fact_id : String) (audit_id now : ℕ)
    → Keeps IsConsistent (record_audit actor action fact_id audit_id now)
unfolding record_audit
record_audit-Keeps actor action fact_id audit_id now = record {
  at = λ db c. After-if IsConsistent _ _ _ c;
}

pub begin_key-Keeps :
    (org : ℕ) (key hash operation : String) → Keeps IsConsistent (begin_key org key hash operation)
unfolding begin_key
begin_key-Keeps org key hash operation = Keeps-bind _ _ (Keeps-gets _) (λ found.
    replay
      (record {
        organization_id = org;
        idempotency_key = key;
        request_hash = hash;
        operation = operation;
        response_body = none;
      })
      found)
  where
    replay :
        (new : IdempotencyRow) (found : Option IdempotencyRow)
        → Keeps IsConsistent (replay_key new found)
    replay new none =
        Keeps-bind _ _ (Keeps-modify _ (λ db c. unfold add_key in c)) (λ _. Keeps-pure none)
    replay new (some row) = search keeps_rules

begin_idempotent-Keeps :
    (org : ℕ) (key hash operation : String)
    → Keeps IsConsistent (begin_idempotent org key hash operation)
unfolding begin_idempotent
begin_idempotent-Keeps org key hash operation =
    Keeps-bind _ _ (begin_key-Keeps org key hash operation) written
  where
    written : (found : Option Response) → Keeps IsConsistent (as_write_result found)
    written none = Keeps-pure none
    written (some (write_result r)) = Keeps-pure (some r)
    written (some (proposal r)) = Keeps-raise _
    written (some (decision r)) = Keeps-raise _

pub store_response-Keeps :
    (org : ℕ) (key : String) (body : Response)
    → Keeps IsConsistent (modify (store_response org key body))
unfolding store_response
store_response-Keeps org key body = Keeps-modify _ (λ db c. c)

finish_idempotent-Keeps :
    (org : ℕ) (key : String) (r : WriteResult) → Keeps IsConsistent (finish_idempotent org key r)
unfolding finish_idempotent
finish_idempotent-Keeps org key r = store_response-Keeps org key (write_result r)

lock_heads-Keeps : (org : ℕ) (ids : List String) → Keeps IsConsistent (lock_heads org ids)
unfolding lock_heads
lock_heads-Keeps org ids = record { at = λ db c. read db c _ }
  where
    read :
        (db : Db)
        → IsConsistent db
        → (r : Result (List Head)) → After IsConsistent (with_heads db r)
    read db c (ok heads) = c
    read db c (err e) = tt

check_superseded-Keeps :
    (expected : Expected) (heads : List Head) (ids : List String)
    → Keeps IsConsistent (check_superseded expected heads ids)
unfolding check_superseded
check_superseded-Keeps expected heads [] = Keeps-pure tt
check_superseded-Keeps expected heads (i ∷ is) = Keeps-bind _ _ (Keeps-or_raise _ _) λ head.
    Keeps-bind _ _ (Keeps-or_raise _ _) λ revision.
      Keeps-bind _ _ (Keeps-raise_if _ _)
        λ _. Keeps-bind _ _ (Keeps-raise_if _ _) λ _. check_superseded-Keeps expected heads is

module _ (ext : External) (actor : ActorContext) (fresh : ℕ → ℕ) (now : ℕ) where
  invalidate_locked-Keeps :
      (n : ℕ) (head : Head) (reason : String)
      → Keeps IsConsistent (invalidate_locked ext actor fresh now n head reason)
  unfolding invalidate_locked emit_event revision_values
  invalidate_locked-Keeps n head reason =
      advance-Keeps actor.organization_id head.revision.fact_id head.fact.current_version _ _
        (record {
          r_org = refl;
          r_fact = refl;
          r_version = refl;
          e_org = refl;
          e_fact = refl;
          e_version = refl;
        })
        _ (record { keeps_org = λ r. refl; keeps_fact = λ r. refl; sets_version = λ r. refl })
        (λ r. refl) (λ h. refl) _ _

  insert_created-Keeps :
      (command : CreateFact) → Keeps IsConsistent (insert_created ext actor fresh now command)
  unfolding insert_created emit_event revision_values
  insert_created-Keeps command =
      created-Keeps _ _ _
        (record {
          r_org = refl;
          r_fact = refl;
          r_version = refl;
          e_org = refl;
          e_fact = refl;
          e_version = refl;
        })
        refl refl refl

  supersede_all-Keeps :
      (command : CreateFact) (n : ℕ) (heads : List Head) (ids : List String)
      → Keeps IsConsistent (supersede_all ext actor fresh now command n heads ids)
  unfolding supersede_all
  supersede_all-Keeps command n heads [] = Keeps-pure n
  supersede_all-Keeps command n heads (i ∷ is) = Keeps-bind _ _ (Keeps-or_raise _ _) λ head.
      Keeps-bind _ _ (invalidate_locked-Keeps n head _) λ replaced.
        Keeps-bind _ _ (insert_relation-Keeps _) λ _. supersede_all-Keeps command (n + 3) heads is

  create_new-Keeps :
      (command : CreateFact) (expected : Expected) (key : String)
      → Keeps IsConsistent (create_new ext actor fresh now command expected key)
  unfolding create_new
  create_new-Keeps command expected key =
      search
        (
          keeps_rules, lock_heads-Keeps, check_superseded-Keeps, insert_created-Keeps,
          supersede_all-Keeps, record_audit-Keeps, finish_idempotent-Keeps,
        )
        depth 14

  create-Keeps :
      (command : CreateFact) (expected : Expected) (key : String)
      → Keeps IsConsistent (create ext actor fresh now command expected key)
  unfolding create
  create-Keeps command expected key = Keeps-bind _ _ (Keeps-lift _) (λ _.
      Keeps-bind _ _ (begin_idempotent-Keeps _ _ _ _)
        (elim [ some r ↦ Keeps-pure _ | none ↦ create_new-Keeps command expected key ]))

  invalidate_new-Keeps :
      (command : InvalidateFact) (expected : ℕ) (key : String)
      → Keeps IsConsistent (invalidate_new ext actor fresh now command expected key)
  unfolding invalidate_new
  invalidate_new-Keeps command expected key =
      search
        (
          keeps_rules, lock_heads-Keeps, invalidate_locked-Keeps, record_audit-Keeps,
          finish_idempotent-Keeps,
        )
        depth 12

  invalidate-Keeps :
      (command : InvalidateFact) (expected : ℕ) (key : String)
      → Keeps IsConsistent (invalidate ext actor fresh now command expected key)
  unfolding invalidate
  invalidate-Keeps command expected key = Keeps-bind _ _ (Keeps-raise_if _ _) (λ _.
      Keeps-bind _ _ (begin_idempotent-Keeps _ _ _ _)
        (elim [ some r ↦ Keeps-pure _ | none ↦ invalidate_new-Keeps command expected key ]))

  -- Whether `create` commits or rolls back, consistent tables stay consistent: each version of each
  -- fact is recorded by one revision and announced by one event, and heads lead to their revisions.
  pub create-IsConsistent :
      (command : CreateFact) (expected : Expected) (key : String) (db : Db)
      → IsConsistent db
      → IsConsistent (transaction (create ext actor fresh now command expected key) db).1
  create-IsConsistent command expected key db =
      transaction-Keeps _ db (create-Keeps command expected key)

  -- Whether `invalidate` commits or rolls back, consistent tables stay consistent.
  pub invalidate-IsConsistent :
      (command : InvalidateFact) (expected : ℕ) (key : String) (db : Db)
      → IsConsistent db
      → IsConsistent (transaction (invalidate ext actor fresh now command expected key) db).1
  invalidate-IsConsistent command expected key db =
      transaction-Keeps _ db (invalidate-Keeps command expected key)
