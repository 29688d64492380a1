-- ===== src/Postgres/Outbox/Leases.antt =====
-- A lease is the only right to settle an event, and it is lost once it is used or taken over.
use plk_memory.Domain.{ClaimedChange}
use plk_memory.Base.{
  ap, refl, map, [], ◌∷◌, string_eq, List, ℕ, ◌≡◌, nat_eq, Bool, String, ◌==◌, Bool-cases, ◌&&◌,
  ltb, inl, ◌≤◌, All, some, inr, true, arith, All-take, leb, All-sort_by, All-both, All-keep-kept,
  All-keep, false, sym, subst, All-map, All-from, any_of-All,
}
use plk_memory.Postgres.Schema.{OutboxRow, Db}
use plk_memory.Ports.{ok, err, Result}
use plk_memory.Postgres.Session.{◌>>=◌}
use plk_memory.Postgres.Tables.{update_where}
use plk_memory.Postgres.Outbox.{
  is_claimable, claimable_rows, comes_first, is_among, lease, claimed, lease_rows, claim,
}
use plk_memory.Postgres.Outbox.Claims.{lease_rows-ok}

-- Of two claims: they are for one event.
abbrev pub same_claim : ClaimedChange → ClaimedChange → Bool
same_claim c d =
    d.change.organization_id == c.change.organization_id && d.change.event_id == c.change.event_id

abbrev pub outbox_of {ℓ} : {A : Type ℓ} → Db → Result (A × Db) → List OutboxRow
outbox_of db (ok (a, db')) = db'.outbox
outbox_of db (err e) = db.outbox

module _ (now : ℕ) (unlocked : OutboxRow → Bool) (token : ℕ) (consumer : String) (limit : ℕ)
    (lease_until : ℕ) (db db' : Db) (claims : List ClaimedChange) where
  abbrev selected : List OutboxRow
  selected = claimable_rows unlocked limit now db.outbox

  -- What a claim that returns has returned and written.
  pub claim-inv :
      claim now unlocked token consumer limit lease_until db ≡ ok (claims, db')
      → (claims ≡ map (claimed consumer token) selected)
        × (db'.outbox
            ≡ update_where (is_among selected) (lease consumer token lease_until) db.outbox)
  unfolding claim ◌>>=◌
  claim-inv e = elim (Bool-cases (ltb limit 1)) [
    | inl bad ↦ absurd (cc (rw bad at e))
    | inr positive ↦ elim (Bool-cases (leb lease_until now)) [
      | inl bad ↦ absurd (cc (rw (positive, bad) at e))
      | inr later ↦
          let q : lease_rows consumer token lease_until selected db ≡ ok (claims, db') =
            rw (positive, later) at e in
          let w : ok (
            map (claimed consumer token) selected,
            record db {
              outbox =
                  update_where (is_among selected) (lease consumer token lease_until) db.outbox;
            },
          )
              ≡ ok (claims, db') =
            rw (lease_rows-ok consumer token lease_until selected db) at q in
          let v : db'.outbox
              ≡ update_where (is_among selected) (lease consumer token lease_until) db.outbox =
            ap (outbox_of db) (sym w) in
          (cc w, v)
    ]
  ]

-- The rows that a lease was written to carry it.
leased :
    (consumer : String) (token lease_until : ℕ) (rows xs : List OutboxRow)
    → All
        (λ r.
          is_among rows r ≡ true
          → (r.lease_token ≡ some token) × (r.lease_until ≡ some lease_until))
        (update_where (is_among rows) (lease consumer token lease_until) xs)
unfolding update_where
leased consumer token lease_until rows [] = tt
leased consumer token lease_until rows (x ∷ xs) = elim (Bool-cases (is_among rows x)) [
  | inl taken ↦ rw taken ((λ h. (refl, refl)), leased consumer token lease_until rows xs)
  | inr left ↦ rw left ((λ h. absurd (cc (left, h))), leased consumer token lease_until rows xs)
]

module _ (now : ℕ) (unlocked : OutboxRow → Bool) (limit : ℕ) (rows : List OutboxRow) where
  abbrev taken : List OutboxRow
  taken = claimable_rows unlocked limit now rows

  -- A row that is selected has what all rows have, and is claimable.
  taken-All :
      (P : OutboxRow → Type 0)
      → All P rows
      → All (λ r. P r × (is_claimable now rows r ≡ true)) taken
  unfolding claimable_rows
  taken-All P h = All-take _ limit _ (
      All-sort_by _ comes_first _
        (All-both _ _ _ (All-keep-kept P _ rows h) (All-keep _ _ rows (λ r k. ground arith))))

  still_leased :
      (lease_until : ℕ) (r : OutboxRow)
      → now ≤ lease_until
      → r.lease_until ≡ some lease_until
      → is_claimable now rows r ≡ true
      → ⊥
  unfolding is_claimable
  still_leased until r early e h = ground (arith, e)

module _ (now now' : ℕ) (unlocked unlocked' : OutboxRow → Bool) (token token' : ℕ)
    (consumer consumer' : String) (limit limit' lease_until lease_until' : ℕ) (db db' db'' : Db)
    (claims others : List ClaimedChange) where
  -- While the leases of one claim run, another claim gets none of its events.
  pub claim-excludes :
      claim now unlocked token consumer limit lease_until db ≡ ok (claims, db')
      → claim now' unlocked' token' consumer' limit' lease_until' db' ≡ ok (others, db'')
      → now' ≤ lease_until
      → All (λ d. All (λ c. same_claim c d ≡ false) claims) others
  claim-excludes first second early =
      let (c1, o1) = claim-inv now unlocked token consumer limit lease_until db db' claims first in
      let (c2, o2) =
        claim-inv now' unlocked' token' consumer' limit' lease_until' db' db'' others second in
      subst (λ ds. All (λ d. All (λ c. same_claim c d ≡ false) claims) ds) (sym c2)
        (subst
          (λ cs.
            All (λ d. All (λ c. same_claim c d ≡ false) cs)
              (map (claimed consumer' token') (claimable_rows unlocked' limit' now' db'.outbox)))
          (sym c1)
          (All-map _ _ _ (
            All-from _ _ _ (λ r h. All-map _ _ _ (any_of-All _ _ (free r h.0 h.1)))
              (taken-All now' unlocked' limit' db'.outbox _ (
                subst
                  (λ xs.
                    All
                      (λ r.
                        is_among rows r ≡ true
                        → (r.lease_token ≡ some token) × (r.lease_until ≡ some lease_until))
                      xs)
                  (sym o1) (leased consumer token lease_until rows db.outbox))))))
    where
      rows : List OutboxRow
      rows = claimable_rows unlocked limit now db.outbox

      free :
          (r : OutboxRow)
          → (is_among rows r ≡ true
              → (r.lease_token ≡ some token) × (r.lease_until ≡ some lease_until))
          → is_claimable now' db'.outbox r ≡ true
          → is_among rows r ≡ false
      free r h k = elim (Bool-cases (is_among rows r)) [
        | inl among ↦
            absurd (still_leased now' unlocked' limit' db'.outbox lease_until r early (h among).1 k)
        | inr apart ↦ apart
      ]
