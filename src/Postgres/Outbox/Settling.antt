-- ===== src/Postgres/Outbox/Settling.antt =====
-- Events are settled under a lease that is still held: by `ack`, or back to the queue by `fail`.
use plk_memory.Domain.{ClaimedChange}
use plk_memory.Base.{
  ap, refl, map, [], ◌∷◌, string_eq, List, ℕ, ◌≡◌, nat_eq, Bool, true, false, any_of, arith, ◌<◌,
  leb, none, String, ◌&&◌, not, ◌≢◌, sym, nat_beq,
}
use plk_memory.Postgres.Schema.{OutboxRow, Db}
use plk_memory.Ports.{ok, err, runtime_error, Error}
use plk_memory.Postgres.Session.{◌>>=◌, raise_if}
use plk_memory.Postgres.Tables.{count_where, update_where}
use plk_memory.Postgres.Outbox.{
  claimable_rows, is_among, lease, claimed, claim, is_open, names_event, holds, acked, ack, renew,
  failed, fail, update_events,
}
use plk_memory.Postgres.Outbox.Leases.{same_claim, claim-inv, outbox_of}

-- The claim can no longer settle or extend its lease.
pub record IsLost (c : ClaimedChange) (db : Db) : Type 0 where
  pub no_ack :
      (now : ℕ)
      → ack now (c ∷ []) db ≡ err (runtime_error "one or more outbox leases are no longer owned")
  pub no_renew :
      (now lease_until : ℕ)
      → now < lease_until
      → renew now c lease_until db ≡ err (runtime_error "outbox lease is no longer owned")
  pub no_fail :
      (now max_attempts : ℕ) (error : String) (retry_at : ℕ)
      → fail now max_attempts c error retry_at db
        ≡ err (runtime_error "outbox lease is no longer owned")

count_where-none :
    (p q : OutboxRow → Bool) (rows : List OutboxRow)
    → ((r : OutboxRow) → q r ≡ true → p r ≡ true)
    → count_where p rows ≡ 0
    → count_where q rows ≡ 0
unfolding count_where
count_where-none p q [] h k = refl
count_where-none p q (r ∷ rs) h k = ground (arith, h r, count_where-none p q rs h)

lost : (c : ClaimedChange) (db : Db) → count_where (holds c) db.outbox ≡ 0 → IsLost c db
unfolding ack renew fail update_events ◌>>=◌
lost c db none_held = record {
  no_ack = λ now.
      rw
        (count_where-none (holds c) (λ r. any_of (λ k. holds k r) (c ∷ [])) db.outbox
          (λ r h. ground arith) none_held)
        refl;
  no_renew = λ now until later.
      let p : leb until now ≡ false = ground arith in
      rw
        (
          p,
          count_where-none (holds c) (λ r. holds c r && is_open r) db.outbox (λ r h. ground arith)
              none_held,
        )
        refl;
  no_fail = λ now max_attempts error retry_at. rw none_held refl;
}

count_where-dropped :
    (p test : OutboxRow → Bool) (f : OutboxRow → OutboxRow) (rows : List OutboxRow)
    → ((r : OutboxRow) → p (f r) ≡ false)
    → ((r : OutboxRow) → p r ≡ true → test r ≡ true)
    → count_where p (update_where test f rows) ≡ 0
unfolding count_where update_where
count_where-dropped p test f [] drops covers = refl
count_where-dropped p test f (r ∷ rs) drops covers =
    ground (arith, drops r, covers r, count_where-dropped p test f rs drops covers)

released : (c : ClaimedChange) (r : OutboxRow) → r.lease_owner ≡ none → holds c r ≡ false
released c r e = ground arith

-- What an update that is checked by its row count has written.
checked-inv :
    (b : Bool) (e : Error) (db db' : Db)
    → raise_if b e db ≡ ok (tt, db')
    → (b ≡ false) × (db'.outbox ≡ db.outbox)
unfolding ◌>>=◌
checked-inv true e db db' h = absurd (cc h)
checked-inv false e db db' h = (refl, ap (outbox_of db) (sym h))

module _ (now : ℕ) (c : ClaimedChange) (db db' : Db) where
  ack-inv :
      ack now (c ∷ []) db ≡ ok (tt, db')
      → db'.outbox ≡ update_where (λ r. any_of (λ k. holds k r) (c ∷ [])) (acked now) db.outbox
  unfolding ack update_events ◌>>=◌
  ack-inv h = (checked-inv _ _ _ db' h).1

  -- A claim that has acknowledged its event has lost its lease.
  pub ack-IsLost : ack now (c ∷ []) db ≡ ok (tt, db') → IsLost c db'
  ack-IsLost h = lost c db' (
      rw (ack-inv h) (
        count_where-dropped (holds c) _ (acked now) db.outbox (λ r. released c (acked now r) refl)
          (λ r k. ground arith)))

  pub fail-inv :
      (max_attempts : ℕ) (error : String) (retry_at : ℕ)
      → fail now max_attempts c error retry_at db ≡ ok (tt, db')
      → (not (nat_beq (count_where (holds c) db.outbox) 1) ≡ false)
        × (db'.outbox ≡ update_where (holds c) (failed now max_attempts error retry_at) db.outbox)
  unfolding fail update_events ◌>>=◌
  fail-inv max_attempts error retry_at h = checked-inv _ _ _ db' h

  -- A claim that has reported a failure has lost its lease.
  pub fail-IsLost :
      (max_attempts : ℕ) (error : String) (retry_at : ℕ)
      → fail now max_attempts c error retry_at db ≡ ok (tt, db')
      → IsLost c db'
  fail-IsLost max_attempts error retry_at h = lost c db' (
      rw (fail-inv max_attempts error retry_at h).1 (
        count_where-dropped (holds c) _ (failed now max_attempts error retry_at) db.outbox
          (λ r. released c (failed now max_attempts error retry_at r) refl) (λ r k. k)))

names-is_among :
    (c : ClaimedChange) (r : OutboxRow) (consumer : String) (token : ℕ) (rows : List OutboxRow)
    → any_of (λ k. same_claim k c) (map (claimed consumer token) rows) ≡ true
    → names_event c r ≡ true
    → is_among rows r ≡ true
names-is_among c r consumer token [] h k = absurd (cc h)
names-is_among c r consumer token (x ∷ xs) h k =
    ground (arith, names-is_among c r consumer token xs)

other_token :
    (c : ClaimedChange) (r : OutboxRow) (consumer : String) (token lease_until : ℕ)
    → c.lease_token ≢ token
    → holds c (lease consumer token lease_until r) ≡ false
other_token c r consumer token lease_until h = ground (arith, h)

-- A claim has lost its lease once another claim, with another token, has taken its event over.
pub claim-IsLost :
    (now : ℕ) (unlocked : OutboxRow → Bool) (token : ℕ) (consumer : String) (limit : ℕ)
    (lease_until : ℕ) (db db' : Db) (claims : List ClaimedChange) (c : ClaimedChange)
    → claim now unlocked token consumer limit lease_until db ≡ ok (claims, db')
    → any_of (λ k. same_claim k c) claims ≡ true
    → c.lease_token ≢ token
    → IsLost c db'
claim-IsLost now unlocked token consumer limit lease_until db db' claims c h taken other =
    let (e, o) = claim-inv now unlocked token consumer limit lease_until db db' claims h in
    lost c db' (
      rw o (
        count_where-dropped (holds c) _ (lease consumer token lease_until) db.outbox
          (λ r. other_token c r consumer token lease_until other)
          (λ r k.
            names-is_among c r consumer token (claimable_rows unlocked limit now db.outbox)
              (rw e at taken) (ground arith))))
