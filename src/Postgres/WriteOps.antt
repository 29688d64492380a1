-- ===== src/Postgres/WriteOps.antt =====
-- postgres/write_ops.py: idempotency bookkeeping, the transactional outbox, the audit log.
use plk_memory.Base.{ℕ, String, not, Option, none, some, ◌∷◌, ◌==◌, nat_eq, string_eq}
use plk_memory.Domain.{ActorContext, ChangeOperation, WriteResult}
use plk_memory.Ports.{idempotency_conflict, runtime_error, validation_error}
use plk_memory.Postgres.Schema.{IdempotencyRow, Response, write_result, Db}
use plk_memory.Postgres.Session.{Tx, pure, raise, gets, or_raise, modify, raise_if, ◌>>=◌, ◌>>◌}
use plk_memory.Postgres.Tables.{
  first_where, update_where, idempotency_key_of, insert_event, insert_audit,
}

unfoldable pub add_key : IdempotencyRow → Db → Db
add_key new db = record db { idempotency = new ∷ db.idempotency }

-- The key is taken (`none`), or an earlier request took it: then its response is replayed.
unfoldable pub replay_key : IdempotencyRow → Option IdempotencyRow → Tx (Option Response)
replay_key new none = do modify (add_key new); pure none
replay_key new (some row) = do
  raise_if (not (row.request_hash == new.request_hash)) (idempotency_conflict new.idempotency_key)
  body ← or_raise row.response_body (runtime_error "idempotency record without a response")
  pure (some body)

-- `insert ... on conflict do nothing`, and the stored response where there was a conflict.
unfoldable pub begin_key : ℕ → String → String → String → Tx (Option Response)
unfolding replay_key
begin_key org key request_hash operation = do
  found ← gets (λ db. first_where (idempotency_key_of org key) db.idempotency)
  replay_key
      (record {
        organization_id = org;
        idempotency_key = key;
        request_hash = request_hash;
        operation = operation;
        response_body = none;
      })
      found

-- `WriteResult.model_validate(row["response_body"])`
unfoldable pub as_write_result : Option Response → Tx (Option WriteResult)
as_write_result none = pure none
as_write_result (some (write_result r)) = pure (some r)
as_write_result (some _) = raise (validation_error "WriteResult")

unfoldable pub begin_idempotent : ℕ → String → String → String → Tx (Option WriteResult)
unfolding begin_key as_write_result
begin_idempotent org key request_hash operation = do
  found ← begin_key org key request_hash operation
  as_write_result found

unfoldable pub store_response : ℕ → String → Response → Db → Db
unfolding update_where
store_response org key body db = record db {
  idempotency =
      update_where (idempotency_key_of org key) (λ row. record row { response_body = some body })
        db.idempotency;
}

unfoldable pub finish_idempotent : ℕ → String → WriteResult → Tx (Unit {0})
unfolding store_response
finish_idempotent org key result = modify (store_response org key (write_result result))

unfoldable pub emit_event : ℕ → ℕ → String → ℕ → ChangeOperation → ℕ → Tx (Unit {0})
unfolding insert_event
emit_event org event_id fact_id version operation now = insert_event (record {
  organization_id = org;
  event_id = event_id;
  aggregate_id = fact_id;
  aggregate_version = version;
  operation = operation;
  occurred_at = now;
  available_at = now;
  attempts = 0;
  lease_owner = none;
  lease_token = none;
  lease_until = none;
  processed_at = none;
  dead_lettered_at = none;
  last_error = none;
})

-- The audit id is the next `uuid4()`.
unfoldable pub record_audit : ActorContext → String → String → ℕ → ℕ → Tx (Unit {0})
unfolding insert_audit
record_audit actor action fact_id audit_id now = insert_audit (record {
  organization_id = actor.organization_id;
  audit_id = audit_id;
  action = action;
  resource_id = fact_id;
  actor_id = actor.actor_id;
  actor_type = actor.actor_type;
  created_at = now;
})
