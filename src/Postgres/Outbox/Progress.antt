-- ===== src/Postgres/Outbox/Progress.antt =====
-- The consumer never stalls: an open outbox whose events are due and free yields a claim.
use plk_memory.Domain.{ClaimedChange}
use plk_memory.Base.{
  zero, refl, [], ◌∷◌, string_eq, List, ℕ, ◌≡◌, nat_eq, Bool, true, false, arith, leb, eq_iff,
  any_of, Bool-cases, inl, inr, ◌≤◌, ◌&&◌, sort_by, insert_sorted, String, length, ◌<◌, not, take,
  keep, suc, map, length-map,
}
use plk_memory.Postgres.Schema.{OutboxRow, Db}
use plk_memory.Ports.{ok}
use plk_memory.Postgres.Outbox.{
  is_open, is_older, is_claimable, lease_free, claimable_rows, comes_first, claim, claimed,
}
use plk_memory.Postgres.Outbox.Claims.{claim-ok}

-- Whatever test `r` passes, some row of the list passes.
abbrev IsAmong : OutboxRow → List OutboxRow → Type 0
IsAmong r rows = (test : OutboxRow → Bool) → test r ≡ true → any_of test rows ≡ true

older_transitive :
    (r x y : OutboxRow) → is_older r x ≡ true → is_older x y ≡ true → is_older r y ≡ true
older_transitive r x y a b = ground (
  arith,
  eq_iff x.aggregate_id r.aggregate_id,
  eq_iff y.aggregate_id x.aggregate_id,
  eq_iff y.aggregate_id r.aggregate_id,
)

older_irreflexive : (r : OutboxRow) → is_older r r ≡ false
older_irreflexive r = ground arith

record Oldest (rows among : List OutboxRow) : Type 0 where
  row : OutboxRow
  opened : is_open row ≡ true
  is_there : IsAmong row among
  first : any_of (is_older row) rows ≡ false

none_older :
    (r x : OutboxRow) (rows : List OutboxRow)
    → is_older r x ≡ true
    → any_of (is_older r) rows ≡ false
    → any_of (is_older x) rows ≡ false
none_older r x [] o h = refl
none_older r x (y ∷ ys) o h = ground (arith, older_transitive r x y o, none_older r x ys o)

-- From an open row, walk to one that has none before it.
oldest :
    (rows among : List OutboxRow)
    → ((r : OutboxRow) → IsAmong r rows → IsAmong r among)
    → (start : OutboxRow) → is_open start ≡ true
    → IsAmong start among
    → Oldest rows among
oldest [] among sub start o there = record {
  row = start;
  opened = o;
  is_there = there;
  first = refl;
}
oldest (x ∷ xs) among sub start o there =
    let m = oldest xs among (λ r h. sub r (λ t k. ground (arith, h t k))) start o there in
    elim (Bool-cases (is_older m.row x)) [
      | inl before ↦ record {
        row = x;
        opened = ground arith;
        is_there = sub x (λ t k. ground arith);
        first = ground (arith, older_irreflexive x, none_older m.row x xs before m.first);
      }
      | inr after ↦ record {
        row = m.row;
        opened = m.opened;
        is_there = m.is_there;
        first = ground (arith, m.first);
      }
    ]

open_row :
    (rows : List OutboxRow)
    → any_of is_open rows ≡ true
    → (r : OutboxRow) × (is_open r ≡ true) × IsAmong r rows
open_row [] h = absurd (cc h)
open_row (x ∷ xs) h = elim (Bool-cases (is_open x)) [
  | inl o ↦ (x, o, λ t k. ground arith)
  | inr closed ↦
      let (r, o, there) = open_row xs (ground arith) in (r, o, λ t k. ground (arith, there t k))
]

-- Due, and under no lease that still runs.
abbrev pub is_ready : ℕ → OutboxRow → Bool
is_ready now r = leb r.available_at now && lease_free now r.lease_until

any_of-keep-length :
    (test : OutboxRow → Bool) (rows : List OutboxRow)
    → any_of test rows ≡ true
    → 1 ≤ length (keep test rows)
any_of-keep-length test [] h = absurd (cc h)
any_of-keep-length test (r ∷ rs) h = ground (arith, any_of-keep-length test rs)

length-insert_sorted :
    (r : OutboxRow) (rows : List OutboxRow)
    → length (insert_sorted comes_first r rows) ≡ suc (length rows)
unfolding insert_sorted
length-insert_sorted r [] = refl
length-insert_sorted r (x ∷ xs) = ground (arith, length-insert_sorted r xs)

length-sort_by : (rows : List OutboxRow) → length (sort_by comes_first rows) ≡ length rows
unfolding sort_by
length-sort_by [] = refl
length-sort_by (r ∷ rs) =
    omega (arith, length-insert_sorted r (sort_by comes_first rs), length-sort_by rs)

take-some : (n : ℕ) (rows : List OutboxRow) → 1 ≤ n → 1 ≤ length rows → 1 ≤ length (take n rows)
take-some zero rows h k = absurd (omega (arith, h))
take-some (suc n) [] h k = absurd (omega (arith, k))
take-some (suc n) (r ∷ rs) h k = omega arith

module _ (now : ℕ) (rows : List OutboxRow) where
  some_claimable :
      any_of is_open rows ≡ true
      → any_of (λ r. is_open r && not (is_ready now r)) rows ≡ false
      → any_of (is_claimable now rows) rows ≡ true
  unfolding is_claimable
  some_claimable opens ready =
      let (r, o, there) = open_row rows opens in
      let m = oldest rows rows (λ r h. h) r o there in
      m.is_there (is_claimable now rows) (elim (Bool-cases (is_ready now m.row)) [
        | inl yes_ready ↦ ground (arith, m.opened, m.first)
        | inr waits ↦ absurd (
            cc (
              m.is_there (λ r. is_open r && not (is_ready now r)) (ground (arith, m.opened)),
              ready,
            ))
      ])

  rows-some :
      (unlocked : OutboxRow → Bool) (limit : ℕ)
      → ((r : OutboxRow) → unlocked r ≡ true)
      → 1 ≤ limit
      → any_of is_open rows ≡ true
      → any_of (λ r. is_open r && not (is_ready now r)) rows ≡ false
      → 1 ≤ length (claimable_rows unlocked limit now rows)
  unfolding claimable_rows
  rows-some unlocked limit all_unlocked positive opens ready = take-some limit _ positive (
      rw (length-sort_by (keep (λ r. is_claimable now rows r && unlocked r) rows))
        (any_of-keep-length _ rows (any_of-unlocked rows (some_claimable opens ready))))
    where
      any_of-unlocked :
          (xs : List OutboxRow)
          → any_of (is_claimable now rows) xs ≡ true
          → any_of (λ r. is_claimable now rows r && unlocked r) xs ≡ true
      any_of-unlocked [] h = h
      any_of-unlocked (x ∷ xs) h = ground (arith, all_unlocked x, any_of-unlocked xs)

-- Where some event is open, every open event is due and free, and nobody else has locked a row,
-- `claim` hands out at least one event.
pub claim-progress :
    (now : ℕ) (unlocked : OutboxRow → Bool) (token : ℕ) (consumer : String) (limit lease_until : ℕ)
    (db : Db)
    → ((r : OutboxRow) → unlocked r ≡ true)
    → 1 ≤ limit
    → now < lease_until
    → any_of is_open db.outbox ≡ true
    → any_of (λ r. is_open r && not (is_ready now r)) db.outbox ≡ false
    → (claims : List ClaimedChange) × (db' : Db) × (claim now unlocked token consumer limit
          lease_until db
        ≡ ok (claims, db'))
      × (1 ≤ length claims)
claim-progress now unlocked token consumer limit lease_until db all_unlocked positive later opens
      ready =
    (
      map (claimed consumer token) (claimable_rows unlocked limit now db.outbox),
      _,
      claim-ok now unlocked token consumer limit lease_until db positive later,
      rw (length-map (claimed consumer token) (claimable_rows unlocked limit now db.outbox))
          (rows-some now db.outbox unlocked limit all_unlocked positive opens ready),
    )
