-- ===== src/Postgres/Replay/Reuse.antt =====
-- postgres/write_ops.py: an idempotency key that comes with another request.
use plk_memory.Base.{◌≡◌, refl, ℕ, false, ◌==◌, string_eq, nat_eq, String}
use plk_memory.Domain.{ActorContext, CreateFact, WriteResult}
use plk_memory.Ports.{ok, err, idempotency_conflict}
use plk_memory.Postgres.Schema.{Db}
use plk_memory.Postgres.Session.{◌>>=◌}
use plk_memory.Postgres.External.{External, Request}
use plk_memory.Postgres.WriteOps.{begin_idempotent}
use plk_memory.Postgres.Repository.{Expected, create}
use plk_memory.Postgres.Repository.Validate.{validate_create}
use plk_memory.Postgres.Replay.Repository.{create-IsReplayable}

-- Once `create` has returned, another valid command, whose request has another hash, is refused
-- under the same key as a conflict.
pub create-conflict :
    (ext : External) (actor : ActorContext) (fresh fresh' : ℕ → ℕ) (now now' : ℕ) (key : String)
    (r : WriteResult) (db db' : Db) (command other : CreateFact) (expected expected' : Expected)
    → create ext actor fresh now command expected key db ≡ ok (r, db')
    → validate_create ext actor other ≡ ok tt
    → (ext.canonical_hash (Request.create actor.actor_id command)
        == ext.canonical_hash (Request.create actor.actor_id other))
      ≡ false
    → create ext actor fresh' now' other expected' key db' ≡ err (idempotency_conflict key)
unfolding create begin_idempotent ◌>>=◌
create-conflict ext actor fresh fresh' now now' key r db db' command other expected expected' h
      valid differs =
    let (passed, q) =
      create-IsReplayable ext actor fresh fresh' now now' key r db db' command expected h in
    let e : (q.taken.row.request_hash == ext.canonical_hash (Request.create actor.actor_id other))
        ≡ false =
      rw q.taken.hashed differs in
    rw (valid, q.taken.found, e) refl
