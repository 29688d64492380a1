-- ===== src/Postgres/Session.antt =====
-- postgres/database.py: a unit of work. An exception that leaves the block rolls everything back,
-- so the tables come back only beside a result.
pub mod Keeps
use plk_memory.Base.{Bool, true, false, Option, none, some}
use plk_memory.Ports.{Error, Result, ok, err}
use plk_memory.Postgres.Schema.{Db}

abbrev pub Tx {ℓ} : Type ℓ → Type ℓ
Tx A = Db → Result (A × Db)

abbrev pub continue {ℓ κ} :
    {A : Type ℓ} {B : Type κ} → Result (A × Db) → (A → Tx B) → Result (B × Db)
continue (ok (a, db)) f = f a db
continue (err e) f = err e

module _ {ℓ} {A : Type ℓ} where
  pub pure : A → Tx A
  pure a db = ok (a, db)

  pub raise : Error → Tx A
  raise e db = err e

  pub gets : (Db → A) → Tx A
  gets f db = ok (f db, db)

  -- `if value is None: raise error`
  pub or_raise : Option A → Error → Tx A
  or_raise none e db = err e
  or_raise (some a) e db = ok (a, db)

  -- A computation outside the database.
  pub lift : Result A → Tx A
  lift (ok a) db = ok (a, db)
  lift (err e) db = err e

pub modify : (Db → Db) → Tx (Unit {0})
modify f db = ok (tt, f db)

-- `if test: raise error`
pub raise_if : Bool → Error → Tx (Unit {0})
raise_if true e db = err e
raise_if false e db = ok (tt, db)

module _ {ℓ κ} {A : Type ℓ} {B : Type κ} where
  infixl 5 ◌>>=◌
  -- Opening this opens the actions above too.
  unfoldable pub ◌>>=◌ : Tx A → (A → Tx B) → Tx B
  unfolding pure raise gets or_raise lift modify raise_if
  ◌>>=◌ m f db = continue (m db) f

infixl 5 ◌>>◌
abbrev pub ◌>>◌ {ℓ} : {B : Type ℓ} → Tx (Unit {0}) → Tx B → Tx B
m >> k = m >>= λ _. k

-- `async with database.transaction(...)`: commit what the block wrote, or nothing.
abbrev pub commit {ℓ} : {A : Type ℓ} → Db → Result (A × Db) → Result A × Db
commit db (ok (a, db')) = (ok a, db')
commit db (err e) = (err e, db)

abbrev pub transaction {ℓ} : {A : Type ℓ} → Tx A → Db → Result A × Db
transaction m db = commit db (m db)
