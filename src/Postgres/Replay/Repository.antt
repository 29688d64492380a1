-- ===== src/Postgres/Replay/Repository.antt =====
-- postgres/repository.py: `create` and `invalidate` can be repeated under one idempotency key.
use plk_memory.Base.{
  ◌≡◌, refl, ℕ, String, Option, none, some, true, elem, Option-cases, string_eq, nat_eq, ==_refl,
  ◌==◌, inl, inr, Bool-cases, arith, eq_iff, ap, ◌⊎◌,
}
use plk_memory.Domain.{ActorContext, CreateFact, InvalidateFact, WriteResult}
use plk_memory.Ports.{Result, ok, err, Error}
use plk_memory.Postgres.Schema.{IdempotencyRow, Response, write_result, proposal, decision, Db}
use plk_memory.Postgres.Session.{◌>>=◌, Tx, pure}
use plk_memory.Postgres.Session.Keeps.{Keeps-gets, Keeps-raise_if, Keeps-or_raise}
use plk_memory.Postgres.Tables.{first_where, idempotency_key_of}
use plk_memory.Postgres.External.{External, Request}
use plk_memory.Postgres.WriteOps.{begin_idempotent, add_key}
use plk_memory.Postgres.Repository.{Expected, create, create_new, invalidate, invalidate_new}
use plk_memory.Postgres.Repository.Validate.{validate_create}
use plk_memory.Postgres.Replay.{
  IsTaken, IsReplayable, OnKeys, AfterResult, Yields, Yields-bind, Yields-result, finish-Yields,
}
use plk_memory.Postgres.Replay.Untouched.{
  record_audit-Keeps, lock_heads-Keeps, invalidate_locked-Keeps, insert_created-Keeps,
  supersede_all-Keeps, check_superseded-Keeps,
}

-- Where the key is taken and answered, `begin_idempotent` returns the answer and writes nothing.
begin-answered :
    (org : ℕ) (key hash operation : String) (r : WriteResult) (db : Db)
    → IsTaken org key hash (some (write_result r)) db.idempotency
    → begin_idempotent org key hash operation db ≡ ok (some r, db)
unfolding begin_idempotent ◌>>=◌
begin-answered org key hash operation r db t =
    let e : (t.row.request_hash == hash) ≡ true = rw t.hashed (==_refl hash) in
    rw (t.found, e, t.answered) refl

-- What follows `begin_idempotent`.
abbrev answer : Tx WriteResult → Option WriteResult → Tx WriteResult
answer new_work (some r) = pure (record r { replayed = true })
answer new_work none = new_work

-- What follows `begin_idempotent` for a new key, and what a repeated request is answered.
module _ (org : ℕ) (key hash operation : String) (new_work : Tx WriteResult)
    (y : Yields
      (OnKeys (IsTaken org key hash none))
      (λ r db. IsReplayable org key hash r db)
      new_work) where
  abbrev new_row : IdempotencyRow
  new_row = record {
    organization_id = org;
    idempotency_key = key;
    request_hash = hash;
    operation = operation;
    response_body = none;
  }

  key_taken : (db : Db) → IsTaken org key hash none (add_key new_row db).idempotency
  unfolding first_where add_key
  key_taken db = record {
    row = new_row;
    found = rw (==_refl org, ==_refl key) refl;
    hashed = refl;
    answered = refl;
  }

  answered :
      (db : Db) (row : IdempotencyRow) (body : Response)
      → first_where (idempotency_key_of org key) db.idempotency ≡ some row
      → row.response_body ≡ some body
      → (row.request_hash == hash) ≡ true
      → AfterResult
          (λ r db. IsReplayable org key hash r db)
          ((begin_idempotent org key hash operation >>= answer new_work) db)
  unfolding begin_idempotent ◌>>=◌
  answered db row (write_result r) there e h =
      rw (there, h, e)
        (record {
          stored = r;
          taken = record {
            row = row;
            found = there;
            hashed = ground (arith, eq_iff row.request_hash hash);
            answered = e;
          };
          same = refl;
        })
  answered db row (proposal r) there e h = rw (there, h, e) tt
  answered db row (decision r) there e h = rw (there, h, e) tt

  pub idempotent-Yields :
      Yields
        (λ db. Unit)
        (λ r db. IsReplayable org key hash r db)
        (begin_idempotent org key hash operation >>= answer new_work)
  unfolding begin_idempotent ◌>>=◌
  idempotent-Yields = record {
    at = λ db _. elim (Option-cases (first_where (idempotency_key_of org key) db.idempotency)) [
      | inl free ↦ rw free (y.at (add_key new_row db) (key_taken db))
      | inr (row, there) ↦ elim (Bool-cases (row.request_hash == hash)) [
        | inr other ↦ rw (there, other) tt
        | inl own ↦ elim (Option-cases row.response_body) [
          | inl unanswered ↦ rw (there, own, unanswered) tt
          | inr (body, e) ↦ answered db row body there e own
        ]
      ]
    ];
  }

module _ (ext : External) (actor : ActorContext) where
  create_new-Yields :
      (fresh : ℕ → ℕ) (now : ℕ) (command : CreateFact) (expected : Expected) (key hash : String)
      → Yields
          (OnKeys (IsTaken actor.organization_id key hash none))
          (λ r db. IsReplayable actor.organization_id key hash r db)
          (create_new ext actor fresh now command expected key)
  unfolding create_new
  create_new-Yields fresh now command expected key hash = Yields-bind _ _ (Keeps-raise_if _ _) λ _.
      Yields-bind _ _ (Keeps-gets _) λ existing. Yields-bind _ _ (Keeps-raise_if _ _) λ _.
        Yields-bind _ _ (lock_heads-Keeps _ _ _) λ heads.
          Yields-bind _ _ (check_superseded-Keeps _ _ _ _) λ _.
            Yields-bind _ _ (insert_created-Keeps _ ext actor fresh now command) λ _.
              Yields-bind _ _ (supersede_all-Keeps _ ext actor fresh now command _ _ _) λ n.
                Yields-bind _ _ (record_audit-Keeps _ _ _ _ _ _) λ _. finish-Yields _ key hash _

  invalidate_new-Yields :
      (fresh : ℕ → ℕ) (now : ℕ) (command : InvalidateFact) (expected : ℕ) (key hash : String)
      → Yields
          (OnKeys (IsTaken actor.organization_id key hash none))
          (λ r db. IsReplayable actor.organization_id key hash r db)
          (invalidate_new ext actor fresh now command expected key)
  unfolding invalidate_new
  invalidate_new-Yields fresh now command expected key hash =
      Yields-bind _ _ (lock_heads-Keeps _ _ _) λ heads. Yields-bind _ _ (Keeps-or_raise _ _) λ head.
        Yields-bind _ _ (Keeps-raise_if _ _) λ _.
          Yields-bind _ _ (invalidate_locked-Keeps _ ext actor fresh now _ _ _) λ result.
            Yields-bind _ _ (record_audit-Keeps _ _ _ _ _ _) λ _. finish-Yields _ key hash result

abbrev beside : Db → WriteResult → Result (WriteResult × Db)
beside db r = ok (r, db)

repeated :
    (org : ℕ) (key hash operation : String) (new_work : Tx WriteResult) (r : WriteResult) (db : Db)
    → IsReplayable org key hash r db
    → (begin_idempotent org key hash operation >>= answer new_work) db
      ≡ ok (record r { replayed = true }, db)
unfolding ◌>>=◌
repeated org key hash operation new_work r db q =
    rw (begin-answered org key hash operation q.stored db q.taken) (ap (beside db) q.same)

done-cases : (r : Result (Unit {0})) → (r ≡ ok tt) ⊎ ((e : Error) × (r ≡ err e))
done-cases (ok tt) = inl refl
done-cases (err e) = inr (e, refl)

module _ (ext : External) (actor : ActorContext) (fresh fresh' : ℕ → ℕ) (now now' : ℕ)
    (key : String) (r : WriteResult) (db db' : Db) where
  abbrev org : ℕ
  org = actor.organization_id

  -- The tables that a `create` leaves can replay it.
  pub create-IsReplayable :
      (command : CreateFact) (expected : Expected)
      → create ext actor fresh now command expected key db ≡ ok (r, db')
      → (validate_create ext actor command ≡ ok tt)
        × IsReplayable org key (ext.canonical_hash (Request.create actor.actor_id command)) r db'
  unfolding create ◌>>=◌
  create-IsReplayable command expected h = elim (done-cases (validate_create ext actor command)) [
    | inr (e, refused) ↦ absurd (cc (rw refused at h))
    | inl passed ↦
        let hash = ext.canonical_hash (Request.create actor.actor_id command) in
        let w = create_new ext actor fresh now command expected key in
        (
          passed,
          Yields-result (λ r db. IsReplayable org key hash r db) _ r db db'
              (idempotent-Yields org key hash "create" w
                (create_new-Yields ext actor fresh now command expected key hash))
              tt (rw passed at h),
        )
  ]

  -- Once `create` has returned, the same command under the same key returns the same result, marked
  -- as replayed, and writes nothing, whatever revisions it expects and whatever ids it draws.
  pub create-replayed :
      (command : CreateFact) (expected expected' : Expected)
      → create ext actor fresh now command expected key db ≡ ok (r, db')
      → create ext actor fresh' now' command expected' key db'
        ≡ ok (record r { replayed = true }, db')
  unfolding create ◌>>=◌
  create-replayed command expected expected' h =
      let (passed, q) = create-IsReplayable command expected h in
      rw passed (
        repeated org key (ext.canonical_hash (Request.create actor.actor_id command)) "create"
          (create_new ext actor fresh' now' command expected' key) r db' q)

  -- Once `invalidate` has returned, the same command under the same key returns the same result,
  -- marked as replayed, and writes nothing, whatever revision it expects and whatever ids it draws.
  pub invalidate-replayed :
      (command : InvalidateFact) (expected expected' : ℕ)
      → invalidate ext actor fresh now command expected key db ≡ ok (r, db')
      → invalidate ext actor fresh' now' command expected' key db'
        ≡ ok (record r { replayed = true }, db')
  unfolding invalidate ◌>>=◌
  invalidate-replayed command expected expected' h = elim (Bool-cases (elem "writer" actor.roles)) [
    | inr refused ↦ absurd (cc (rw refused at h))
    | inl passed ↦
        let hash = ext.canonical_hash (Request.invalidate actor.actor_id command) in
        let w = invalidate_new ext actor fresh now command expected key in
        let q : IsReplayable org key hash r db' =
          Yields-result (λ r db. IsReplayable org key hash r db) _ r db db'
            (idempotent-Yields org key hash "invalidate" w
              (invalidate_new-Yields ext actor fresh now command expected key hash))
            tt (rw passed at h) in
        rw passed (
          repeated org key hash "invalidate"
            (invalidate_new ext actor fresh' now' command expected' key) r db' q)
  ]
