-- ===== src/Postgres/Replay.antt =====
-- postgres/write_ops.py: what an idempotency key promises to a caller that repeats a request.
pub mod Untouched
pub mod Repository
pub mod Reuse
use plk_memory.Base.{
  ◌≡◌, refl, ℕ, String, some, ◌==◌, nat_eq, string_eq, Option, subst, List, none, ◌∙◌, true,
}
use plk_memory.Postgres.Schema.{IdempotencyRow, Response, write_result, Db}
use plk_memory.Postgres.Session.{◌>>◌, pure, Tx, ◌>>=◌, lift, continue}
use plk_memory.Domain.{WriteResult}
use plk_memory.Postgres.Session.Keeps.{After, Keeps}
use plk_memory.Postgres.Tables.Laws.{first_where-update_where, first_where-holds}
use plk_memory.Postgres.WriteOps.{finish_idempotent}
use plk_memory.Postgres.Tables.{first_where, idempotency_key_of}
use plk_memory.Ports.{Result, ok, err}

-- The key was taken by a request with this hash, whose response is not known yet or is `body`.
pub record IsTaken (org : ℕ) (key hash : String) (body : Option Response)
    (rows : List IdempotencyRow) : Type 0 where
  pub row : IdempotencyRow
  pub found : first_where (idempotency_key_of org key) rows ≡ some row
  pub hashed : row.request_hash ≡ hash
  pub answered : row.response_body ≡ body

-- A repeated request would be answered by `r`, marked as replayed.
pub record IsReplayable (org : ℕ) (key hash : String) (r : WriteResult) (db : Db) : Type 0 where
  pub stored : WriteResult
  pub taken : IsTaken org key hash (some (write_result stored)) db.idempotency
  pub same : record stored { replayed = true } ≡ record r { replayed = true }

-- A predicate on the idempotency records, of the tables.
abbrev pub OnKeys : (List IdempotencyRow → Type 0) → Db → Type 0
OnKeys P db = P db.idempotency

abbrev pub AfterResult {ℓ} : {A : Type ℓ} → (A → Db → Type 0) → Result (A × Db) → Type 0
AfterResult Q (ok (a, db)) = Q a db
AfterResult Q (err e) = Unit

-- From tables with `P`, a result and the tables beside it satisfy `Q`, if `m` returns.
pub record Yields {ℓ} {A : Type ℓ} (P : Db → Type 0) (Q : A → Db → Type 0) (m : Tx A) : Type ℓ where
  pub at : (db : Db) → P db → AfterResult Q (m db)

module _ {ℓ κ} {A : Type ℓ} {B : Type κ} {P : Db → Type 0} {Q : B → Db → Type 0} where
  Yields-continue :
      (r : Result (A × Db)) (f : A → Tx B)
      → After P r
      → ((a : A) → Yields P Q (f a))
      → AfterResult Q (continue r f)
  Yields-continue (ok (a, db)) f h k = (k a).at db h
  Yields-continue (err e) f h k = tt

  pub Yields-bind :
      (m : Tx A) (f : A → Tx B) → Keeps P m → ((a : A) → Yields P Q (f a)) → Yields P Q (m >>= f)
  unfolding ◌>>=◌
  Yields-bind m f km kf = record { at = λ db h. Yields-continue (m db) f (km.at db h) kf }

  pub Yields-lift :
      (r : Result A) (f : A → Tx B)
      → ((a : A) → r ≡ ok a → Yields P Q (f a))
      → Yields P Q (lift r >>= f)
  unfolding ◌>>=◌
  Yields-lift (ok a) f k = record { at = λ db h. (k a refl).at db h }
  Yields-lift (err e) f k = record { at = λ db h. tt }

pub Yields-result {ℓ} :
    {A : Type ℓ} {P : Db → Type 0} (Q : A → Db → Type 0) (m : Tx A) (a : A) (db db' : Db)
    → Yields P Q m
    → P db
    → m db ≡ ok (a, db')
    → Q a db'
Yields-result Q m a db db' y h e = subst (AfterResult Q) e (y.at db h)

-- Storing the response answers the key.
pub finish-Yields :
    (org : ℕ) (key hash : String) (result : WriteResult)
    → Yields
        (OnKeys (IsTaken org key hash none))
        (λ r db. IsReplayable org key hash r db)
        (do finish_idempotent org key result; pure result)
unfolding finish_idempotent ◌>>=◌
finish-Yields org key hash result = record {
  at = λ db h. record {
    stored = result;
    taken = record {
      row = record h.row { response_body = some (write_result result) };
      found =
          first_where-update_where (idempotency_key_of org key) (idempotency_key_of org key) _
            (λ x. refl) db.idempotency
          ∙ rw
              (h.found, first_where-holds (idempotency_key_of org key) db.idempotency h.row h.found)
              refl;
      hashed = h.hashed;
      answered = refl;
    };
    same = refl;
  };
}
