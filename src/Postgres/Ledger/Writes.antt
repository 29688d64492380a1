-- ===== src/Postgres/Ledger/Writes.antt =====
-- The writes of the fact repository keep the tables consistent.
use plk_memory.Base.{
  ℕ, String, true, false, not, ◌||◌, List, [], ◌∷◌, ◌≡◌, ◌==◌, any_of, ltb, inl, inr, nat_eq,
  string_eq, arith, eq_iff, Bool-cases, All,
}
use plk_memory.Domain.{WriteResult}
use plk_memory.Ports.{Error}
use plk_memory.Postgres.Schema.{FactRow, RevisionRow, OutboxRow, Db}
use plk_memory.Postgres.Session.{pure, raise_if, ◌>>=◌, ◌>>◌}
use plk_memory.Postgres.Session.Keeps.{Keeps, Leads}
use plk_memory.Postgres.Tables.{
  find_fact, count_where, update_where, find_revision, fact_clash, revision_clash, event_clash,
  insert_fact, insert_revision, insert_event,
}
use plk_memory.Postgres.Tables.Laws.{fact_clash-find_fact, revision_clash-find_revision}
use plk_memory.Postgres.Repository.Locking.{update_heads}
use plk_memory.Postgres.Ledger.{Pinned, IsConsistent}
use plk_memory.Postgres.Ledger.Steps.{
  Announces, step-IsConsistent, All-Pinned-grow, All-Pinned-update,
}
use plk_memory.Postgres.Ledger.Versions.{head_version-none, head_version-insert}
use plk_memory.Postgres.Ledger.Heads.{
  at_version, Advances, UniqueFacts-update, head_version-before, head_version-after, find_fact-kept,
}

-- A head goes to its next version, with the revision and the event.
module _ (org : ℕ) (fact_id : String) (n : ℕ) (new : RevisionRow) (ev : OutboxRow)
    (adds : Announces org fact_id n new ev) (set : FactRow → FactRow) (adv : Advances n set)
    (set_revision : (r : FactRow) → (set r).current_revision_id ≡ new.revision_id) where
  set-Pinned :
      (revisions : List RevisionRow) (h : FactRow)
      → (at_version org fact_id n h ≡ true → (set h).status ≡ new.status)
      → at_version org fact_id n h ≡ true
      → Pinned (new ∷ revisions) (set h)
  unfolding find_revision
  set-Pinned revisions h set_status at = ground (
    arith,
    eq_iff h.fact_id fact_id,
    adv.keeps_org h,
    adv.keeps_fact h,
    adv.sets_version h,
    set_revision h,
    set_status at,
    adds.r_org,
    adds.r_fact,
    adds.r_version,
  )

  -- The head that moves takes the status of its new revision.
  abbrev pub SetsStatus : FactRow → Type 0
  SetsStatus h = at_version org fact_id n h ≡ true → (set h).status ≡ new.status

  sets-Pinned :
      (revisions : List RevisionRow) (facts : List FactRow)
      → All SetsStatus facts
      → All (λ h. at_version org fact_id n h ≡ true → Pinned (new ∷ revisions) (set h)) facts
  sets-Pinned revisions [] s = tt
  sets-Pinned revisions (h ∷ hs) s = (set-Pinned revisions h s.0, sets-Pinned revisions hs s.1)

  advanced-IsConsistent :
      (db : Db)
      → IsConsistent db
      → All SetsStatus db.facts
      → any_of (revision_clash new) db.revisions ≡ false
      → count_where (at_version org fact_id n) db.facts ≡ 1
      → IsConsistent (record db {
        facts = update_where (at_version org fact_id n) set db.facts;
        revisions = new ∷ db.revisions;
        outbox = ev ∷ db.outbox;
      })
  advanced-IsConsistent db c s fresh one =
      step-IsConsistent org fact_id n new ev adds db c _
        (head_version-before org fact_id n set adv db.facts c.unique one)
        (head_version-after org fact_id n set adv db.facts c.unique one)
        (find_fact-kept org fact_id n set adv db.facts c.unique one)
        (UniqueFacts-update org fact_id n set adv db.facts c.unique)
        (All-Pinned-update (new ∷ db.revisions) _ set db.facts (sets-Pinned db.revisions db.facts s)
          (All-Pinned-grow new db.revisions db.facts
            (revision_clash-find_revision new db.revisions fresh) c.pinned))

  -- As above, with no look at the row count: the caller has seen the row.
  pub promote-Leads {ℓ} :
      {A : Type ℓ} (w : A)
      → Leads
          (λ db.
            IsConsistent db
            × All SetsStatus db.facts
            × (count_where (at_version org fact_id n) db.facts ≡ 1))
          IsConsistent
          (do
            insert_revision new
            changed ← update_heads (at_version org fact_id n) set
            insert_event ev
            pure w)
  unfolding ◌>>=◌ insert_revision update_heads insert_event
  promote-Leads w = record {
    at = λ db (c, s, one).
        elim (Bool-cases (ltb new.version 1 || any_of (revision_clash new) db.revisions)) [
          | inl bad ↦ rw bad tt
          | inr fresh ↦
              elim (Bool-cases (ltb ev.aggregate_version 1 || any_of (event_clash ev) db.outbox)) [
                | inl bad ↦ rw (fresh, bad) tt
                | inr new_event ↦
                    rw (fresh, new_event) (advanced-IsConsistent db c s (ground arith) one)
              ]
        ];
  }

  all_set :
      ((h : FactRow) → (set h).status ≡ new.status) → (facts : List FactRow) → All SetsStatus facts
  all_set every [] = tt
  all_set every (h ∷ hs) = (λ at. every h, all_set every hs)

  pub advance-Keeps :
      (every : (h : FactRow) → (set h).status ≡ new.status) (e : Error) (w : WriteResult)
      → Keeps IsConsistent (do
        insert_revision new
        changed ← update_heads (at_version org fact_id n) set
        raise_if (not (changed == 1)) e
        insert_event ev
        pure w)
  unfolding ◌>>=◌ insert_revision update_heads insert_event
  advance-Keeps every e w = record {
    at = λ db c. elim (Bool-cases (ltb new.version 1 || any_of (revision_clash new) db.revisions)) [
      | inl bad ↦ rw bad tt
      | inr fresh ↦ elim (Bool-cases (count_where (at_version org fact_id n) db.facts == 1)) [
        | inr none_or_more ↦ rw (fresh, none_or_more) tt
        | inl one ↦
            elim (Bool-cases (ltb ev.aggregate_version 1 || any_of (event_clash ev) db.outbox)) [
              | inl bad ↦ rw (fresh, one, bad) tt
              | inr new_event ↦
                  rw (fresh, one, new_event)
                    (advanced-IsConsistent db c (all_set every db.facts) (ground arith)
                      (ground arith))
            ]
      ]
    ];
  }

-- A new fact is created at version 1.
module _ (h : FactRow) (new : RevisionRow) (ev : OutboxRow)
    (adds : Announces h.organization_id h.fact_id 0 new ev) (first : h.current_version ≡ 1)
    (points : h.current_revision_id ≡ new.revision_id) (status : h.status ≡ new.status) where
  created-Pinned : (revisions : List RevisionRow) → Pinned (new ∷ revisions) h
  unfolding find_revision
  created-Pinned revisions =
      ground (arith, first, points, status, adds.r_org, adds.r_fact, adds.r_version)

  created-IsConsistent :
      (db : Db)
      → IsConsistent db
      → any_of (fact_clash h) db.facts ≡ false
      → any_of (revision_clash new) db.revisions ≡ false
      → IsConsistent (record db {
        facts = h ∷ db.facts;
        revisions = new ∷ db.revisions;
        outbox = ev ∷ db.outbox;
      })
  created-IsConsistent db c absent fresh =
      let gone = fact_clash-find_fact h db.facts absent in
      step-IsConsistent h.organization_id h.fact_id 0 new ev adds db c (h ∷ db.facts)
        (head_version-none _ _ db.facts gone)
        (λ o f. rw (head_version-insert h db.facts o f, first))
        (λ o f miss. unfold find_fact in rw miss) (gone, c.unique)
        (
          created-Pinned db.revisions,
          All-Pinned-grow new db.revisions db.facts
              (revision_clash-find_revision new db.revisions fresh) c.pinned,
        )

  pub created-Keeps : Keeps IsConsistent (do insert_fact h; insert_revision new; insert_event ev)
  unfolding ◌>>=◌ insert_fact insert_revision insert_event
  created-Keeps = record {
    at = λ db c. elim (Bool-cases (ltb h.current_version 1 || any_of (fact_clash h) db.facts)) [
      | inl bad ↦ rw bad tt
      | inr absent ↦
          elim (Bool-cases (ltb new.version 1 || any_of (revision_clash new) db.revisions)) [
            | inl bad ↦ rw (absent, bad) tt
            | inr fresh ↦
                elim (Bool-cases
                  (ltb ev.aggregate_version 1 || any_of (event_clash ev) db.outbox)) [
                    | inl bad ↦ rw (absent, fresh, bad) tt
                    | inr new_event ↦
                        rw (absent, fresh, new_event)
                          (created-IsConsistent db c (ground arith) (ground arith))
                  ]
          ]
    ];
  }
