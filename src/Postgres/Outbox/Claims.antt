-- ===== src/Postgres/Outbox/Claims.antt =====
-- What `claim` hands out: the events of one fact in their order, one at a time.
use plk_memory.Postgres.Tables.{update_where}
use plk_memory.Postgres.Session.{◌>>=◌}
use plk_memory.Domain.{ClaimedChange, KnowledgeChanged}
use plk_memory.Base.{
  ap, refl, map, [], ◌∷◌, string_eq, List, ℕ, ◌≡◌, any_of, true, false, length, Bool, String,
  any_of-take, All, ◌≤◌, ◌==◌, arith, eq_iff, All-take, ◌&&◌, All-from, any_of-sort_by, All-sort_by,
  nat_eq, any_of-keep, ltb, All-keep, ◌<◌, any_of-All, length-take, All-both, length-map, leb,
  All-swap, All-map,
}
use plk_memory.Postgres.Schema.{OutboxRow, Db}
use plk_memory.Ports.{ok}
use plk_memory.Postgres.Outbox.{
  is_older, is_claimable, claimable_rows, comes_first, is_among, lease, claimed, lease_rows, claim,
  is_open, same_aggregate, change_of,
}

-- An open event of the same fact with a smaller version.
abbrev pub is_earlier : KnowledgeChanged → OutboxRow → Bool
is_earlier c o =
    o.organization_id == c.organization_id
    && o.aggregate_id == c.fact_id
    && is_open o
    && ltb o.aggregate_version c.revision

abbrev pub same_fact : ClaimedChange → ClaimedChange → Bool
same_fact c d =
    c.change.organization_id == d.change.organization_id && c.change.fact_id == d.change.fact_id

-- No claim overtakes an open event of its fact, and no two claims are for one fact.
pub record IsOrdered (rows : List OutboxRow) (limit : ℕ) (claims : List ClaimedChange)
    : Type 0 where
  pub bounded : length claims ≤ limit
  pub heads : All (λ c. any_of (is_earlier c.change) rows ≡ false) claims
  pub single :
      All
        (λ c. All (λ d. same_fact c d ≡ true → c.change.event_id ≡ d.change.event_id) claims)
        claims

update_where-none : {A : Type 0} (f : A → A) (xs : List A) → update_where (λ x. false) f xs ≡ xs
unfolding update_where
update_where-none f [] = refl
update_where-none f (x ∷ xs) = ap (λ ys. x ∷ ys) (update_where-none f xs)

pub lease_rows-ok :
    (consumer : String) (token lease_until : ℕ) (rows : List OutboxRow) (db : Db)
    → lease_rows consumer token lease_until rows db
      ≡ ok (
        map (claimed consumer token) rows,
        record db {
          outbox = update_where (is_among rows) (lease consumer token lease_until) db.outbox;
        },
      )
unfolding ◌>>=◌
lease_rows-ok consumer token lease_until [] db =
    rw (update_where-none (lease consumer token lease_until) db.outbox) refl
lease_rows-ok consumer token lease_until (r ∷ rs) db = refl

any_of-earlier :
    (r : OutboxRow) (rows : List OutboxRow)
    → any_of (is_older r) rows ≡ false
    → any_of (is_earlier (change_of r)) rows ≡ false
any_of-earlier r [] h = refl
any_of-earlier r (o ∷ os) h = ground (arith, any_of-earlier r os)

-- Of two events of one fact one is older, unless they are the same.
older_or_same :
    (r x : OutboxRow)
    → is_open r ≡ true
    → is_open x ≡ true
    → is_older r x ≡ false
    → is_older x r ≡ false
    → same_aggregate r x ≡ true
    → r.event_id ≡ x.event_id
older_or_same r x or ox a b s =
    ground (arith, eq_iff r.aggregate_id x.aggregate_id, eq_iff x.aggregate_id r.aggregate_id)

module _ (now : ℕ) (unlocked : OutboxRow → Bool) (limit : ℕ) (rows : List OutboxRow) where
  abbrev taken : List OutboxRow
  taken = claimable_rows unlocked limit now rows

  taken-claimable : All (λ r. is_claimable now rows r ≡ true) taken
  unfolding claimable_rows
  taken-claimable =
      All-take _ limit _ (All-sort_by _ comes_first _ (All-keep _ _ rows (λ r h. ground arith)))

  any_of-taken : (f : OutboxRow → Bool) → any_of f rows ≡ false → any_of f taken ≡ false
  unfolding claimable_rows
  any_of-taken f h = any_of-take f limit _ (any_of-sort_by f comes_first _ (any_of-keep f _ rows h))

  taken-heads : All (λ r. any_of (is_older r) rows ≡ false) taken
  unfolding is_claimable
  taken-heads = All-from _ _ taken (λ r h. ground arith) taken-claimable

  pub taken-bounded : length taken ≤ limit
  unfolding claimable_rows
  taken-bounded = length-take limit _

  taken-open : All (λ r. is_open r ≡ true) taken
  unfolding is_claimable
  taken-open = All-from _ _ taken (λ r h. ground arith) taken-claimable

-- Rows that are open, with no older row among them, are of different facts.
All-single :
    (xs : List OutboxRow)
    → All (λ r. any_of (is_older r) xs ≡ false) xs
    → All (λ r. is_open r ≡ true) xs
    → All (λ r. All (λ x. same_aggregate r x ≡ true → r.event_id ≡ x.event_id) xs) xs
All-single xs heads opens =
    All-from _ _ xs
      (λ r h.
        All-from _ _ xs (λ x k s. older_or_same r x h.0 k.0 k.1.0 k.1.1 s)
          (All-both _ _ xs opens (All-both _ _ xs h.1.0 h.1.1)))
      (All-both _ _ xs opens (All-both _ _ xs none_older (All-swap _ xs xs none_older)))
  where
    none_older : All (λ r. All (λ x. is_older r x ≡ false) xs) xs
    none_older = All-from _ _ xs (λ r h. any_of-All (is_older r) xs h) heads

module _ (now : ℕ) (unlocked : OutboxRow → Bool) (token : ℕ) (consumer : String) (limit : ℕ)
    (lease_until : ℕ) (db : Db) where
  abbrev rows : List OutboxRow
  rows = claimable_rows unlocked limit now db.outbox

  pub claim-ok :
      1 ≤ limit
      → now < lease_until
      → claim now unlocked token consumer limit lease_until db
        ≡ ok (
          map (claimed consumer token) rows,
          record db {
            outbox = update_where (is_among rows) (lease consumer token lease_until) db.outbox;
          },
        )
  unfolding claim ◌>>=◌
  claim-ok positive later =
      let p : ltb limit 1 ≡ false = ground arith in
      let q : leb lease_until now ≡ false = ground arith in
      rw (p, q) (lease_rows-ok consumer token lease_until rows db)

  -- With a positive limit and a lease that ends in the future, `claim` returns; what it returns
  -- is at most `limit` claims, each of an event whose fact has no open event of a smaller version,
  -- and two claims for one fact are for one event.
  pub claim-IsOrdered :
      1 ≤ limit
      → now < lease_until
      → (claims : List ClaimedChange) × (db' : Db) × (claim now unlocked token consumer limit
            lease_until db
          ≡ ok (claims, db'))
        × IsOrdered db.outbox limit claims
  claim-IsOrdered positive later = (
    map (claimed consumer token) rows,
    _,
    claim-ok positive later,
    record {
      bounded =
          rw (length-map (claimed consumer token) rows)
            (taken-bounded now unlocked limit db.outbox);
      heads = All-map _ _ rows (
          All-from _ _ rows (λ r h. any_of-earlier r db.outbox h)
            (taken-heads now unlocked limit db.outbox));
      single = All-map _ _ rows (
          All-from _ _ rows (λ r h. All-map _ _ rows h)
            (All-single rows
              (All-from _ _ rows (λ r h. any_of-taken now unlocked limit db.outbox (is_older r) h)
                (taken-heads now unlocked limit db.outbox))
              (taken-open now unlocked limit db.outbox)));
    },
  )
