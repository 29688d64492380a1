-- ===== src/Postgres/Worker/Projection.antt =====
-- The projection catches up: after a claim is projected, the index has the current version.
use plk_memory.Base.{
  refl, [], ◌∷◌, string_eq, List, ℕ, ◌≡◌, nat_eq, arith, some, none, Option, Option-cases, leb,
  String, Bool-cases, inr, inl, subst, ◌≤◌, ◌∙◌, ◌+◌, ap, ==_refl,
}
use plk_memory.Domain.{FactRecord, IndexEntry, ClaimedChange}
use plk_memory.Ports.{Result-cases, Error, Result, ok, err}
use plk_memory.Postgres.Schema.{ProjectionRow, Db}
use plk_memory.Postgres.Session.{transaction, ◌>>=◌}
use plk_memory.Postgres.Session.Keeps.{Keeps, Keeps-bind, Keeps-raise_if, transaction-Keeps}
use plk_memory.Postgres.Tables.{first_where}
use plk_memory.Postgres.Tables.Laws.{UniqueFacts}
use plk_memory.Postgres.Outbox.{renew, update_events}
use plk_memory.Postgres.IndexState.{projection_key, get as index_get}
use plk_memory.Postgres.IndexState.Monotone.{indexed, put_if_newer-IsPut}
use plk_memory.Postgres.Repository.Queries.{get, current, record_by_id}
use plk_memory.Postgres.Ledger.{head_version}
use plk_memory.Postgres.Worker.{
  WorkerSettings, then_do, plan, plan_entry, put_entry, heartbeat, project, then_do-leaves,
}
use plk_memory.Postgres.Ledger.Reading.{record_by_id-head_version}

returned :
    {A : Type 0} (Q : A → Type 0) (a p : A) (db db' : Db)
    → Q a
    → ◌≡◌ {A = Result (A × Db)} (ok (a, db)) (ok (p, db'))
    → (db' ≡ db) × Q p
returned Q a p db db' q h = (cc h, subst Q (cc h) q)

renew-projections :
    (ps : List ProjectionRow) (t : ℕ) (c : ClaimedChange) (until : ℕ)
    → Keeps (λ d. d.projections ≡ ps) (renew t c until)
unfolding renew update_events
renew-projections ps t c until =
    Keeps-bind _ _ (Keeps-raise_if _ _)
      λ _. Keeps-bind _ _ (record { at = λ d k. k }) λ _. Keeps-raise_if _ _

module _ (settings : WorkerSettings) (backend : String)
    (upsert : FactRecord → Option IndexEntry → Result IndexEntry) (describe : Error → String)
    (jitter : ℕ → ℕ)
    (names : (fact : FactRecord) (old : Option IndexEntry) (e : IndexEntry)
      → upsert fact old ≡ ok e
      → (e.organization_id ≡ fact.organization_id) × (e.fact_id ≡ fact.id)) where
  -- What the plan for a claim promises: the index is up to date, or will be by the entry.
  record IsPlan (c : ClaimedChange) (db : Db) (e : IndexEntry) : Type 0 where
    org : e.organization_id ≡ c.change.organization_id
    fact : e.fact_id ≡ c.change.fact_id
    version : e.indexed_revision ≡ head_version c.change.organization_id c.change.fact_id db.facts
    event : e.last_event_id ≡ some c.change.event_id

  abbrev Planned : ClaimedChange → Db → Option IndexEntry → Type 0
  Planned c db none =
      head_version c.change.organization_id c.change.fact_id db.facts
      ≤ indexed backend c.change.organization_id c.change.fact_id db
  Planned c db (some e) = IsPlan c db e

  plan_entry-inv :
      (c : ClaimedChange) (fact : FactRecord) (old : Option IndexEntry) (db db' : Db)
      (p : Option IndexEntry)
      → (fact.organization_id ≡ c.change.organization_id)
        × (fact.id ≡ c.change.fact_id)
        × (fact.revision ≡ head_version c.change.organization_id c.change.fact_id db.facts)
      → plan_entry settings backend upsert describe jitter c fact old db ≡ ok (p, db')
      → (db' ≡ db) × Planned c db p
  unfolding plan_entry ◌>>=◌
  plan_entry-inv c fact old db db' p f h = elim (Result-cases (upsert fact old)) [
    | inr (e, failed) ↦ absurd (cc (rw failed at h))
    | inl (e, made) ↦
        let (eo, ef) = names fact old e made in
        returned (Planned c db) _ p db db'
          (record { org = eo ∙ f.0; fact = ef ∙ f.1; version = f.2; event = refl }) (rw made at h)
  ]

  plan-inv :
      (c : ClaimedChange) (db db' : Db) (p : Option IndexEntry)
      → UniqueFacts db.facts
      → plan settings backend upsert describe jitter c db ≡ ok (p, db')
      → (db' ≡ db) × Planned c db p
  unfolding plan get index_get indexed ◌>>=◌
  plan-inv c db db' p u h =
      elim (Option-cases
        (record_by_id c.change.fact_id (current c.change.organization_id db.revisions db.facts))) [
          | inl none_there ↦ absurd (cc (rw none_there at h))
          | inr (fact, there) ↦
              let f = record_by_id-head_version _ _ db.revisions db.facts fact u there in
              elim (Option-cases (
                first_where (projection_key backend c.change.organization_id c.change.fact_id)
                  db.projections)) [
                    | inl unindexed ↦
                        plan_entry-inv c fact none db db' p f (rw (there, unindexed) at h)
                    | inr (old, has) ↦ elim (Bool-cases (leb fact.revision old.indexed_version)) [
                      | inr behind ↦
                          plan_entry-inv c fact _ db db' p f (rw (there, has, behind) at h)
                      | inl up_to_date ↦
                          returned (Planned c db) none p db db' (rw has (ground (arith, f.2)))
                            (rw (there, has, up_to_date) at h)
                    ]
                  ]
        ]

  heartbeat-projections :
      (ps : List ProjectionRow) (c : ClaimedChange) (beats : List ℕ) (db : Db)
      → db.projections ≡ ps
      → (heartbeat settings backend upsert describe jitter c beats db).1.projections ≡ ps
  unfolding heartbeat
  heartbeat-projections ps c [] db h = h
  heartbeat-projections ps c (t ∷ ts) db h =
      then_do-leaves (λ d. d.projections ≡ ps)
        (transaction (renew t c (t + settings.outbox_lease_seconds)) db)
        (λ _. heartbeat settings backend upsert describe jitter c ts)
        (transaction-Keeps _ db (renew-projections ps t c (t + settings.outbox_lease_seconds)) h)
        (λ _ db1 h1. heartbeat-projections ps c ts db1 h1)

  indexed-projections :
      (org : ℕ) (fact_id : String) (db db' : Db)
      → db'.projections ≡ db.projections
      → indexed backend org fact_id db' ≡ indexed backend org fact_id db
  unfolding indexed
  indexed-projections org fact_id db db' h = rw h refl

  put_entry-indexed :
      (c : ClaimedChange) (db db1 db' : Db) (p : Option IndexEntry)
      → Planned c db p
      → db1.projections ≡ db.projections
      → transaction (put_entry settings backend upsert describe jitter p) db1 ≡ (ok tt, db')
      → head_version c.change.organization_id c.change.fact_id db.facts
        ≤ indexed backend c.change.organization_id c.change.fact_id db'
  unfolding put_entry ◌>>=◌
  put_entry-indexed c db db1 db' none planned same h =
      let e : db1 ≡ db' = ap (λ (r : Result (Unit {0}) × Db). r.1) h in
      rw (← e, indexed-projections c.change.organization_id c.change.fact_id db db1 same) planned
  put_entry-indexed c db db1 db' (some e) planned same h =
      elim (Bool-cases (leb 1 e.indexed_revision)) [
        | inr zero_version ↦ ground (arith, planned.version)
        | inl positive ↦
            let (written, db2, w, put) =
              put_if_newer-IsPut backend e c.change.event_id db1 (ground arith) planned.event in
            let ed : db2 ≡ db' = ap (λ (r : Result (Unit {0}) × Db). r.1) (rw w at h) in
            rw
              (
                ← ed,
                put.newer c.change.organization_id c.change.fact_id,
                planned.org,
                planned.fact,
                ==_refl c.change.organization_id,
                ==_refl c.change.fact_id,
              )
              (ground (arith, planned.version))
      ]

  beat_and_put-indexed :
      (c : ClaimedChange) (db db' : Db) (p : Option IndexEntry)
      → Planned c db p
      → (r : Result (Unit {0}) × Db) → r.1.projections ≡ db.projections
      → then_do r (λ _. transaction (put_entry settings backend upsert describe jitter p))
        ≡ (ok tt, db')
      → head_version c.change.organization_id c.change.fact_id db.facts
        ≤ indexed backend c.change.organization_id c.change.fact_id db'
  beat_and_put-indexed c db db' p planned (ok _, db1) same h =
      put_entry-indexed c db db1 db' p planned same h
  beat_and_put-indexed c db db' p planned (err e, db1) same h =
      absurd (cc (ap (λ (r : Result (Unit {0}) × Db). r.0) h))

  -- If the index names an entry by the fact that it is made of, a projection that succeeds leaves
  -- the index with at least the version that was the fact's current one, whatever renewals of the
  -- lease come between.
  pub project-indexed :
      (c : ClaimedChange) (beats : List ℕ) (db db' : Db)
      → UniqueFacts db.facts
      → project settings backend upsert describe jitter c beats db ≡ (ok tt, db')
      → head_version c.change.organization_id c.change.fact_id db.facts
        ≤ indexed backend c.change.organization_id c.change.fact_id db'
  unfolding project
  project-indexed c beats db db' u h =
      elim (Result-cases (plan settings backend upsert describe jitter c db)) [
        | inr (e, failed) ↦ absurd (cc (ap (λ (r : Result (Unit {0}) × Db). r.0) (rw failed at h)))
        | inl ((p, db1), planned) ↦
            let (same, good) = plan-inv c db db1 p u planned in
            beat_and_put-indexed c db db' p good
              (heartbeat settings backend upsert describe jitter c beats db1)
              (heartbeat-projections db.projections c beats db1
                (ap (λ (d : Db). d.projections) same))
              (rw planned at h)
      ]
