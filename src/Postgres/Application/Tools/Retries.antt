-- ===== src/Postgres/Application/Tools/Retries.antt =====
-- postgres/application.py: a repeated `tool_add` writes nothing.
use plk_memory.Base.{
  ℕ, String, true, false, Option, none, some, ◌≡◌, refl, sym, ◌∙◌, ap, subst, arith, Bool-cases,
  inl, inr, string_eq,
}
use plk_memory.Domain.{ActorContext, FactPayload, WriteResult}
use plk_memory.Ports.{Result, ok, err, Result-cases}
use plk_memory.Postgres.Schema.{Db}
use plk_memory.Postgres.External.{External}
use plk_memory.Postgres.Repository.{Expected, create}
use plk_memory.Postgres.Replay.Repository.{create-replayed}
use plk_memory.Postgres.Application.Tools.{
  ToolSettings, ToolResponse, written, AddArguments, lacks_key, lacks_revisions, key_or, is_blank,
  answer_write, answer_error, payload_of, prepare_add, add_command, add_prepared, tool_add,
}

answer_write-written :
    (key key' : String) (result : Result WriteResult) (r : WriteResult)
    → answer_write key result ≡ ok (written r key')
    → (result ≡ ok r) × (key ≡ key')
unfolding answer_write answer_error
answer_write-written key key' (ok result) r h = (cc h, cc h)
answer_write-written key key' (err e) r h = ground arith

-- The payload does not depend on the tables.
prepare_add-payload :
    (actor : ActorContext) (args : AddArguments) (db : Db) {payload : FactPayload} {e : Expected}
    → prepare_add actor args db ≡ ok (payload, e)
    → payload_of args ≡ ok payload
unfolding prepare_add
prepare_add-payload actor args db h = ground arith

ok_inj : {A : Type 0} {a b : A} → ◌≡◌ {A = Result A} (ok a) (ok b) → a ≡ b
ok_inj e = cc e

key_or-given :
    (key : Option String) (generated generated' : String)
    → is_blank key ≡ false
    → key_or key generated ≡ key_or key generated'
unfolding key_or
key_or-given none generated generated' h = absurd (cc h)
key_or-given (some key) generated generated' h = rw h refl

module _ (ext : External) (actor : ActorContext) (settings : ToolSettings)
    (fact_id_of : ℕ → String → String) (args : AddArguments) where
  -- What a `tool_add` that has written has passed.
  record Added (fresh : ℕ → ℕ) (now : ℕ) (key : String) (between : Db → Db) (db : Db)
      (r : WriteResult) (db' : Db) : Type 0 where
    payload : FactPayload
    expected : Expected
    keyed : lacks_key settings args.idempotency_key ≡ false
    revised : lacks_revisions settings args ≡ false
    prepared : prepare_add actor args db ≡ ok (payload, expected)
    created :
        create ext actor fresh now
          (add_command actor fact_id_of args key payload)
          expected
          key
          (between db)
        ≡ ok (r, db')

  add_prepared-Added :
      (fresh : ℕ → ℕ) (now : ℕ) (generated key key' : String) (between : Db → Db) (db : Db)
      (r : WriteResult) (db' : Db) (payload : FactPayload) (expected : Expected)
      → add_prepared ext actor fresh now generated fact_id_of args key between db
          (ok (payload, expected))
        ≡ (ok (written r key'), db')
      → (create ext actor fresh now
            (add_command actor fact_id_of args key payload)
            expected
            key
            (between db)
          ≡ ok (r, db'))
        × (key ≡ key')
  unfolding add_prepared
  add_prepared-Added fresh now generated key key' between db r db' payload expected h =
      elim (Result-cases (
        create ext actor fresh now (add_command actor fact_id_of args key payload) expected key
          (between db))) [
            | inl ((r', db''), done) ↦
                let h' : ◌≡◌ {A = Result ToolResponse × Db} (answer_write key (ok r'), db'')
                    (ok (written r key'), db') =
                  rw done at h in
                let (same, key_same) = answer_write-written key key' (ok r') r (ap (λ z. z.0) h') in
                let r_same : r' ≡ r = cc same in
                let db_same : db'' ≡ db' = ap (λ z. z.1) h' in
                (done ∙ cc (r_same, db_same), key_same)
            | inr (e, failed) ↦
                let h' : ◌≡◌ {A = Result ToolResponse × Db} (answer_write key (err e), between db)
                    (ok (written r key'), db') =
                  rw failed at h in
                absurd (cc (answer_write-written key key' (err e) r (ap (λ z. z.0) h')).0)
          ]

  tool_add-Added :
      (fresh : ℕ → ℕ) (now : ℕ) (generated key : String) (between : Db → Db) (db : Db)
      (r : WriteResult) (db' : Db)
      → tool_add ext actor fresh now generated settings fact_id_of args between db
        ≡ (ok (written r key), db')
      → (key ≡ key_or args.idempotency_key generated) × Added fresh now key between db r db'
  unfolding tool_add add_prepared
  tool_add-Added fresh now generated key between db r db' h =
      elim (Bool-cases (lacks_key settings args.idempotency_key)) [
        | inl lacking ↦ absurd (cc (rw lacking at h))
        | inr keyed ↦ elim (Bool-cases (lacks_revisions settings args)) [
          | inl lacking ↦ absurd (cc (rw (keyed, lacking) at h))
          | inr revised ↦ elim (Result-cases (prepare_add actor args db)) [
            | inl ((payload, expected), prepared) ↦
                let k = key_or args.idempotency_key generated in
                let (created, same) =
                  add_prepared-Added fresh now generated k key between db r db' payload expected
                    (rw (keyed, revised, prepared) at h) in
                (
                  sym same,
                  subst (λ z. Added fresh now z between db r db') same
                      (record {
                        payload = payload;
                        expected = expected;
                        keyed = keyed;
                        revised = revised;
                        prepared = prepared;
                        created = created;
                      }),
                )
            | inr (e, failed) ↦
                let h' : ◌≡◌ {A = Result ToolResponse × Db}
                    (answer_write (key_or args.idempotency_key generated) (err e), db)
                    (ok (written r key), db') =
                  rw (keyed, revised, failed) at h in
                absurd (
                  cc
                    (answer_write-written (key_or args.idempotency_key generated) key (err e) r
                      (ap (λ z. z.0) h')).0)
          ]
        ]
      ]

  -- The same call once more, where the expected revisions can be had.
  again :
      (fresh fresh' : ℕ → ℕ) (now now' : ℕ) (generated' key : String) (between : Db → Db) (db : Db)
      (r : WriteResult) (db' : Db) (payload : FactPayload) (expected : Expected)
      → Added fresh now key between db r db'
      → key_or args.idempotency_key generated' ≡ key
      → prepare_add actor args db' ≡ ok (payload, expected)
      → tool_add ext actor fresh' now' generated' settings fact_id_of args (λ z. z) db'
        ≡ (ok (written (record r { replayed = true }) key), db')
  unfolding tool_add add_prepared answer_write
  again fresh fresh' now now' generated' key between db r db' payload expected a k prepared =
      let same : a.payload ≡ payload = ok_inj (
        sym (prepare_add-payload actor args db a.prepared)
        ∙ prepare_add-payload actor args db' prepared) in
      let command = add_command actor fact_id_of args key in
      let created =
        subst
          (λ z. create ext actor fresh now (command z) a.expected key (between db) ≡ ok (r, db'))
          same a.created in
      let replay =
        create-replayed ext actor fresh fresh' now now' key r (between db) db' (command payload)
          a.expected expected created in
      rw (a.keyed, a.revised, prepared, k, replay) refl

  -- After a `tool_add` with a key of the caller's has written, the same call never writes again,
  -- whatever ids and instants it draws; and if it can determine the revisions that it expects, it
  -- answers with the same result, marked as replayed, under the same key. Between the read and the
  -- write of the first call, other transactions may have done anything.
  pub tool_add-retried :
      (fresh fresh' : ℕ → ℕ) (now now' : ℕ) (generated generated' key : String) (between : Db → Db)
      (db : Db) (r : WriteResult) (db' : Db)
      → is_blank args.idempotency_key ≡ false
      → tool_add ext actor fresh now generated settings fact_id_of args between db
        ≡ (ok (written r key), db')
      → let retry =
          tool_add ext actor fresh' now' generated' settings fact_id_of args (λ z. z) db' in
        (retry.1 ≡ db')
        × ((payload : FactPayload) (expected : Expected)
            → prepare_add actor args db' ≡ ok (payload, expected)
            → retry.0 ≡ ok (written (record r { replayed = true }) key))
  unfolding tool_add add_prepared
  tool_add-retried fresh fresh' now now' generated generated' key between db r db' given h =
      let (key_is, added) = tool_add-Added fresh now generated key between db r db' h in
      let k : key_or args.idempotency_key generated' ≡ key =
        key_or-given args.idempotency_key generated' generated given ∙ sym key_is in
      elim (Result-cases (prepare_add actor args db')) [
        | inl ((payload, expected), prepared) ↦
            let it =
              again fresh fresh' now now' generated' key between db r db' payload expected added k
                prepared in
            (ap (λ z. z.1) it, λ payload' expected' _. ap (λ z. z.0) it)
        | inr (e, failed) ↦ (
          rw (added.keyed, added.revised, failed) refl,
          λ payload expected prepared. absurd (cc (failed, prepared)),
        )
      ]
