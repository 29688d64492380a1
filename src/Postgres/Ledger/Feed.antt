-- ===== src/Postgres/Ledger/Feed.antt =====
-- postgres/outbox.py: the change feed and the checkpoints keep the tables consistent.
use plk_memory.Base.{
  refl, [], ◌∷◌, string_eq, List, ℕ, ◌≡◌, nat_eq, Bool, true, false, arith, some, none, String,
}
use plk_memory.Domain.{IndexEntry, ClaimedChange}
use plk_memory.Postgres.Schema.{OutboxRow, Db}
use plk_memory.Postgres.Session.Keeps.{
  Keeps, Keeps-modify, Keeps-gets, Keeps-pure, Keeps-bind, Keeps-or_raise, Keeps-raise_if, Keeps-if,
}
use plk_memory.Postgres.Tables.{count_where, update_where}
use plk_memory.Postgres.Outbox.{
  is_among, lease, lease_rows, claim, acked, ack, renew, failed, fail, update_events,
}
use plk_memory.Postgres.IndexState.{put_if_newer, upsert_row, overwrite}
use plk_memory.Postgres.Ledger.{IsConsistent, is_event}

count_where-update_where :
    (p test : OutboxRow → Bool) (f : OutboxRow → OutboxRow) (rows : List OutboxRow)
    → ((r : OutboxRow) → p (f r) ≡ p r)
    → count_where p (update_where test f rows) ≡ count_where p rows
unfolding count_where update_where
count_where-update_where p test f [] same = refl
count_where-update_where p test f (r ∷ rs) same =
    ground (arith, same r, count_where-update_where p test f rs same)

-- The columns that say which change an event announces are not written again.
abbrev KeepsEvent : (OutboxRow → OutboxRow) → Type 0
KeepsEvent f =
    (org : ℕ) (fact_id : String) (v : ℕ) (r : OutboxRow)
    → is_event org fact_id v (f r) ≡ is_event org fact_id v r

outbox-IsConsistent :
    (test : OutboxRow → Bool) (f : OutboxRow → OutboxRow)
    → KeepsEvent f
    → (db : Db) → IsConsistent db
    → IsConsistent (record db { outbox = update_where test f db.outbox })
outbox-IsConsistent test f same db c = record {
  unique = c.unique;
  recorded = c.recorded;
  announced = λ org fact_id v.
      rw (count_where-update_where (is_event org fact_id v) test f db.outbox (same org fact_id v))
        (c.announced org fact_id v);
  pinned = c.pinned;
  requests = c.requests;
}

update_events-Keeps :
    (test : OutboxRow → Bool) (f : OutboxRow → OutboxRow)
    → KeepsEvent f
    → Keeps IsConsistent (update_events test f)
unfolding update_events
update_events-Keeps test f same = record { at = outbox-IsConsistent test f same }

pub claim-Keeps :
    (now : ℕ) (unlocked : OutboxRow → Bool) (token : ℕ) (consumer : String) (limit lease_until : ℕ)
    → Keeps IsConsistent (claim now unlocked token consumer limit lease_until)
unfolding claim
claim-Keeps now unlocked token consumer limit lease_until =
    Keeps-bind _ _ (Keeps-raise_if _ _)
      λ _. Keeps-bind _ _ (Keeps-raise_if _ _) λ _. Keeps-bind _ _ (Keeps-gets _) leased
  where
    leased :
        (rows : List OutboxRow) → Keeps IsConsistent (lease_rows consumer token lease_until rows)
    leased [] = Keeps-pure []
    leased (r ∷ rs) =
        Keeps-bind _ _
          (Keeps-modify _ (
            outbox-IsConsistent (is_among (r ∷ rs)) (lease consumer token lease_until)
              (λ org fact_id v x. refl)))
          λ _. Keeps-pure _

pub ack-Keeps : (now : ℕ) (cs : List ClaimedChange) → Keeps IsConsistent (ack now cs)
unfolding ack
ack-Keeps now [] = Keeps-pure tt
ack-Keeps now (c ∷ cs) =
    Keeps-bind _ _ (update_events-Keeps _ (acked now) (λ org fact_id v x. refl))
      λ _. Keeps-raise_if _ _

pub renew-Keeps : (now : ℕ) (c : ClaimedChange) (until : ℕ) → Keeps IsConsistent (renew now c until)
unfolding renew
renew-Keeps now c until =
    Keeps-bind _ _ (Keeps-raise_if _ _) λ _.
      Keeps-bind _ _ (update_events-Keeps _ _ (λ org fact_id v x. refl)) λ _. Keeps-raise_if _ _

pub fail-Keeps :
    (now max_attempts : ℕ) (c : ClaimedChange) (error : String) (retry_at : ℕ)
    → Keeps IsConsistent (fail now max_attempts c error retry_at)
unfolding fail
fail-Keeps now max_attempts c error retry_at =
    Keeps-bind _ _
      (update_events-Keeps _ (failed now max_attempts error retry_at) (λ org fact_id v x. refl))
      λ _. Keeps-raise_if _ _

pub put_if_newer-Keeps :
    (backend : String) (e : IndexEntry) → Keeps IsConsistent (put_if_newer backend e)
unfolding put_if_newer
put_if_newer-Keeps backend e = Keeps-bind _ _ (Keeps-or_raise _ _) λ ev.
    Keeps-bind _ _ (Keeps-gets _) (elim [
      | none ↦ unfold upsert_row in Keeps-bind _ _ (Keeps-modify _ (λ db c. c)) λ _. Keeps-pure true
      | some old ↦
          unfold upsert_row overwrite in
          Keeps-if _ _ _ (Keeps-bind _ _ (Keeps-modify _ (λ db c. c)) λ _. Keeps-pure true)
            (Keeps-pure false)
    ])
