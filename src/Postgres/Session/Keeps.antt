-- ===== src/Postgres/Session/Keeps.antt =====
-- Invariants of units of work: one rule for each way to build one.
use plk_memory.Base.{
  ◌≡◌, refl, inl, inr, Option-cases, Bool, true, false, Option, none, some, if◌then◌else◌,
}
use plk_memory.Ports.{Error, Result, ok, err}
use plk_memory.Postgres.Schema.{Db}
use plk_memory.Postgres.Session.{
  Tx, continue, ◌>>=◌, pure, raise, gets, modify, raise_if, or_raise, lift, commit, transaction,
}

abbrev pub After {ℓ} : {A : Type ℓ} → (Db → Type 0) → Result (A × Db) → Type 0
After P (ok (a, db)) = P db
After P (err e) = Unit

pub After-if :
    (P : Db → Type 0) (b : Bool) (e : Error) (db : Db)
    → P db
    → After {A = Unit {0}} P (if b then err e else ok (tt, db))
After-if P true e db h = tt
After-if P false e db h = h

-- If `m` returns, the tables that it leaves satisfy `P` again.
pub record Keeps {ℓ} {A : Type ℓ} (P : Db → Type 0) (m : Tx A) : Type ℓ where
  pub at : (db : Db) → P db → After P (m db)

After-commit {ℓ} :
    {A : Type ℓ} (P : Db → Type 0) (db : Db) (r : Result (A × Db))
    → P db
    → After P r
    → P (commit db r).1
After-commit P db (ok (a, db')) h k = k
After-commit P db (err e) h k = h

module _ {ℓ} {A : Type ℓ} {P : Db → Type 0} where
  pub Keeps-pure : (a : A) → Keeps P (pure a)
  unfolding pure
  Keeps-pure a = record { at = λ db h. h }

  pub Keeps-raise : (e : Error) → Keeps P (raise {A = A} e)
  unfolding raise
  Keeps-raise e = record { at = λ db h. tt }

  pub Keeps-gets : (f : Db → A) → Keeps P (gets f)
  unfolding gets
  Keeps-gets f = record { at = λ db h. h }

  pub Keeps-or_raise : (o : Option A) (e : Error) → Keeps P (or_raise o e)
  unfolding or_raise
  Keeps-or_raise none e = record { at = λ db h. tt }
  Keeps-or_raise (some a) e = record { at = λ db h. h }

  pub Keeps-if : (b : Bool) (m n : Tx A) → Keeps P m → Keeps P n → Keeps P (if b then m else n)
  Keeps-if true m n km kn = km
  Keeps-if false m n km kn = kn

  pub Keeps-lift : (r : Result A) → Keeps P (lift r)
  unfolding lift
  Keeps-lift (ok a) = record { at = λ db h. h }
  Keeps-lift (err e) = record { at = λ db h. tt }

  -- What a unit of work keeps, its transaction keeps, whether it commits or rolls back.
  pub transaction-Keeps : (m : Tx A) (db : Db) → Keeps P m → P db → P (transaction m db).1
  transaction-Keeps m db k h = After-commit P db (m db) h (k.at db h)

module _ {P : Db → Type 0} where
  pub Keeps-raise_if : (b : Bool) (e : Error) → Keeps P (raise_if b e)
  unfolding raise_if
  Keeps-raise_if true e = record { at = λ db h. tt }
  Keeps-raise_if false e = record { at = λ db h. h }

  pub Keeps-modify : (f : Db → Db) → ((db : Db) → P db → P (f db)) → Keeps P (modify f)
  unfolding modify
  Keeps-modify f k = record { at = k }

module _ {ℓ κ} {A : Type ℓ} {B : Type κ} {P : Db → Type 0} where
  After-continue :
      (r : Result (A × Db)) (f : A → Tx B)
      → After P r
      → ((a : A) → Keeps P (f a))
      → After P (continue r f)
  After-continue (ok (a, db)) f h k = (k a).at db h
  After-continue (err e) f h k = tt

  pub Keeps-bind :
      (m : Tx A) (f : A → Tx B) → Keeps P m → ((a : A) → Keeps P (f a)) → Keeps P (m >>= f)
  unfolding ◌>>=◌
  Keeps-bind m f km kf = record { at = λ db h. After-continue (m db) f (km.at db h) kf }

-- From tables with `P`, `m` leaves tables with `Q` if it returns.
pub record Leads {ℓ} {A : Type ℓ} (P Q : Db → Type 0) (m : Tx A) : Type ℓ where
  pub at : (db : Db) → P db → After Q (m db)

module _ {ℓ} {A : Type ℓ} {P : Db → Type 0} where
  pub Keeps-Leads : (m : Tx A) → Keeps P m → Leads P P m
  Keeps-Leads m k = record { at = k.at }

  pub Leads-Keeps : (m : Tx A) → Leads P P m → Keeps P m
  Leads-Keeps m k = record { at = k.at }

Leads-continue {ℓ κ} :
    {A : Type ℓ} {B : Type κ} {Q R : Db → Type 0} (r : Result (A × Db)) (f : A → Tx B)
    → After Q r
    → ((a : A) → Leads Q R (f a))
    → After R (continue r f)
Leads-continue (ok (a, db)) f h k = (k a).at db h
Leads-continue (err e) f h k = tt

module _ {ℓ κ} {A : Type ℓ} {B : Type κ} {P Q R : Db → Type 0} where
  pub Leads-bind :
      (m : Tx A) (f : A → Tx B) → Leads P Q m → ((a : A) → Leads Q R (f a)) → Leads P R (m >>= f)
  unfolding ◌>>=◌
  Leads-bind m f km kf = record { at = λ db h. Leads-continue (m db) f (km.at db h) kf }

module _ {ℓ} {A : Type ℓ} {P Q : Db → Type 0} where
  pub Leads-from :
      {R : Db → Type 0} (m : Tx A) → Leads P Q m → ((db : Db) → R db → P db) → Leads R Q m
  Leads-from m l w = record { at = λ db r. l.at db (w db r) }

  -- What is read is known to be what the tables hold.
  pub Leads-read :
      {B : Type 0} (f : Db → Option B) (e : Error) (k : B → Tx A)
      → ((b : B) → Leads (λ db. P db × (f db ≡ some b)) Q (k b))
      → Leads P Q (gets f >>= λ o. or_raise o e >>= k)
  unfolding ◌>>=◌
  Leads-read f e k h = record {
    at = λ db p. elim (Option-cases (f db)) [
      | inl none_there ↦ rw none_there tt
      | inr (b, there) ↦ rw there ((h b).at db (p, there))
    ];
  }

  pub Leads-raise_if :
      (b : Bool) (e : Error) (k : Unit {0} → Tx A)
      → (b ≡ false → Leads P Q (k tt))
      → Leads P Q (raise_if b e >>= k)
  unfolding ◌>>=◌
  Leads-raise_if true e k h = record { at = λ db p. tt }
  Leads-raise_if false e k h = record { at = λ db p. (h refl).at db p }

  pub Leads-if :
      (b : Bool) (m n : Tx A)
      → (b ≡ true → Leads P Q m)
      → (b ≡ false → Leads P Q n)
      → Leads P Q (if b then m else n)
  Leads-if true m n km kn = km refl
  Leads-if false m n km kn = kn refl

pub ruleset keeps_rules = (
  Keeps-pure, Keeps-raise, Keeps-gets, Keeps-or_raise, Keeps-lift, Keeps-if, Keeps-raise_if,
  Keeps-bind,
)
