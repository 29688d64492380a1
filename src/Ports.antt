-- ===== src/Ports.antt =====
-- ports.py: the failures of the persistence ports, and computations that may raise them.
use plk_memory.Base.{refl, ℕ, String, Bool, true, false, Option, none, some, ◌≡◌, ◌⊎◌, inl, inr}

-- Messages that no caller reads are left out; a constructor stands for an exception class.
pub data Error : Type 0 where
  fact_missing fact_already_exists : String → Error
  revision_conflict : String → ℕ → ℕ → Error
  idempotency_conflict policy_violation : String → Error
  value_error validation_error runtime_error : String → Error
  -- a violated constraint of a table (sqlalchemy's IntegrityError)
  integrity_error : String → Error

pub data Result {ℓ} (A : Type ℓ) : Type ℓ where
  ok : A → Result A
  err : Error → Result A

infixl 5 ◌>>=◌ ◌>>◌
abbrev pub ◌>>=◌ {ℓ κ} : {A : Type ℓ} {B : Type κ} → Result A → (A → Result B) → Result B
ok result >>= next = next result
err error >>= next = err error

abbrev pub ◌>>◌ {ℓ} : {B : Type ℓ} → Result (Unit {0}) → Result B → Result B
first >> second = first >>= λ ignored. second

-- `if test: raise error`
abbrev pub raise_if : Bool → Error → Result (Unit {0})
raise_if true e = err e
raise_if false e = ok tt

-- `if value is None: raise error`
abbrev pub or_raise {ℓ} : {A : Type ℓ} → Option A → Error → Result A
or_raise none e = err e
or_raise (some a) e = ok a

-- PersistenceError and its subclasses
abbrev pub is_persistence_error : Error → Bool
is_persistence_error (fact_missing _) = true
is_persistence_error (fact_already_exists _) = true
is_persistence_error (revision_conflict _ _ _) = true
is_persistence_error (idempotency_conflict _) = true
is_persistence_error (policy_violation _) = true
is_persistence_error _ = false

pub Result-cases {ℓ} :
    {A : Type ℓ} (r : Result A) → ((a : A) × (r ≡ ok a)) ⊎ ((e : Error) × (r ≡ err e))
Result-cases (ok a) = inl (a, refl)
Result-cases (err e) = inr (e, refl)

-- What a computation that succeeds has passed.
pub bind_ok {ℓ κ} :
    {A : Type ℓ} {B : Type κ} (r : Result A) (f : A → Result B) (b : B)
    → (r >>= f) ≡ ok b
    → (a : A) × (r ≡ ok a) × (f a ≡ ok b)
bind_ok (ok a) f b h = (a, refl, h)
bind_ok (err e) f b h = absurd (cc h)
