-- ===== src/Postgres/Outbox/Retries.antt =====
-- What `fail` makes of an event: another attempt later, or a dead letter.
use plk_memory.Domain.{ClaimedChange}
use plk_memory.Base.{
  refl, [], ◌∷◌, string_eq, List, ℕ, ◌≡◌, nat_eq, Bool, true, false, arith, ltb, ◌≤◌, none, All,
  String, if◌then◌else◌,
}
use plk_memory.Postgres.Schema.{OutboxRow, Db}
use plk_memory.Ports.{ok}
use plk_memory.Postgres.Tables.{count_where, update_where}
use plk_memory.Postgres.Outbox.{is_none, names_event, holds, failed, fail}
use plk_memory.Postgres.Outbox.Settling.{fail-inv}

module _ (p q : OutboxRow → Bool) (within : (r : OutboxRow) → q r ≡ true → p r ≡ true) where
  count_where-within : (rows : List OutboxRow) → count_where q rows ≤ count_where p rows
  unfolding count_where
  count_where-within [] = omega arith
  count_where-within (r ∷ rs) = ground (arith, within r, count_where-within rs)

  All-covered :
      (rows : List OutboxRow)
      → count_where p rows ≤ count_where q rows
      → All (λ r. p r ≡ true → q r ≡ true) rows
  unfolding count_where
  All-covered [] h = tt
  All-covered (r ∷ rs) h = (
    λ e. ground (arith, within r, count_where-within rs),
    All-covered rs (ground (arith, within r, count_where-within rs)),
  )

-- What `fail` leaves of an event.
pub record IsRetried (max_attempts retry_at : ℕ) (r : OutboxRow) : Type 0 where
  pub waits : r.available_at ≡ retry_at
  pub free : r.lease_until ≡ none
  pub dead : is_none r.dead_lettered_at ≡ ltb r.attempts max_attempts

All-IsRetried :
    (c : ClaimedChange) (now max_attempts : ℕ) (error : String) (retry_at : ℕ)
    (rows : List OutboxRow)
    → All (λ r. names_event c r ≡ true → holds c r ≡ true) rows
    → All
        (λ r. names_event c r ≡ true → IsRetried max_attempts retry_at r)
        (update_where (holds c) (failed now max_attempts error retry_at) rows)
unfolding update_where
All-IsRetried c now max_attempts error retry_at [] h = tt
All-IsRetried c now max_attempts error retry_at (r ∷ rs) h =
    (one (holds c r) refl, All-IsRetried c now max_attempts error retry_at rs h.1)
  where
    failed_row : OutboxRow
    failed_row = failed now max_attempts error retry_at r

    one :
        (b : Bool)
        → holds c r ≡ b
        → names_event c (if b then failed_row else r) ≡ true
        → IsRetried max_attempts retry_at (if b then failed_row else r)
    one true e n = record { waits = refl; free = refl; dead = ground arith }
    one false e n = absurd (cc (e, h.0 n))

-- Where event ids are unique, an event whose failure is reported is free, waits for the time of
-- its retry, and is a dead letter just if it has had `max_attempts` attempts.
pub fail-IsRetried :
    (now : ℕ) (c : ClaimedChange) (db db' : Db) (max_attempts : ℕ) (error : String) (retry_at : ℕ)
    → count_where (names_event c) db.outbox ≤ 1
    → fail now max_attempts c error retry_at db ≡ ok (tt, db')
    → All (λ r. names_event c r ≡ true → IsRetried max_attempts retry_at r) db'.outbox
fail-IsRetried now c db db' max_attempts error retry_at unique h =
    let (one, o) = fail-inv now c db db' max_attempts error retry_at h in
    rw o (
      All-IsRetried c now max_attempts error retry_at db.outbox
        (All-covered (names_event c) (holds c) (λ r k. ground arith) db.outbox (ground arith)))
