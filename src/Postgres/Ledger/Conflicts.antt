-- ===== src/Postgres/Ledger/Conflicts.antt =====
-- postgres/repository.py: optimistic concurrency. A writer that has read an older revision, or a
-- fact that is no longer active, gets a conflict that names the current revision.
use plk_memory.Base.{
  ◌≡◌, refl, ℕ, String, Bool, true, false, not, ◌&&◌, ◌||◌, ◌==◌, Option, none, some, List, [], ◌∷◌,
  inl, inr, arith, eq_iff, nat_eq, string_eq, elem, keep, All, Bool-cases, subst,
}
use plk_memory.Domain.{ActorContext, InvalidateFact, active, status_eq}
use plk_memory.Ports.{ok, err, revision_conflict}
use plk_memory.Postgres.Schema.{FactRow, RevisionRow, Db}
use plk_memory.Postgres.Session.{◌>>=◌}
use plk_memory.Postgres.Tables.{first_where, find_fact, find_revision, fact_key, idempotency_key_of}
use plk_memory.Postgres.Tables.Laws.{UniqueFacts, fact_key-eq, first_where-holds}
use plk_memory.Postgres.External.{External}
use plk_memory.Postgres.WriteOps.{begin_idempotent, add_key}
use plk_memory.Postgres.Repository.{invalidate, invalidate_new}
use plk_memory.Postgres.Repository.Locking.{lock_heads}
use plk_memory.Postgres.Ledger.{IsConsistent, Pins, Pinned}

abbrev is_asked : ℕ → String → FactRow → Bool
is_asked org fact_id r = r.organization_id == org && elem r.fact_id (fact_id ∷ [])

keep-none :
    (org : ℕ) (fact_id : String) (rows : List FactRow)
    → find_fact org fact_id rows ≡ none
    → keep (is_asked org fact_id) rows ≡ []
unfolding find_fact
keep-none org fact_id [] h = refl
keep-none org fact_id (x ∷ xs) h =
    ground (arith, keep-none org fact_id xs, eq_iff x.fact_id fact_id, eq_iff fact_id x.fact_id)

keep-one :
    (org : ℕ) (fact_id : String) (rows : List FactRow) (h : FactRow)
    → UniqueFacts rows
    → find_fact org fact_id rows ≡ some h
    → keep (is_asked org fact_id) rows ≡ h ∷ []
unfolding find_fact
keep-one org fact_id [] h u e = absurd (cc e)
keep-one org fact_id (x ∷ xs) h u e = elim (Bool-cases (is_asked org fact_id x)) [
  | inl hit ↦
      let o : x.organization_id ≡ org = ground arith in
      let f : x.fact_id ≡ fact_id = ground (arith, eq_iff x.fact_id fact_id) in
      let gone : find_fact org fact_id xs ≡ none = rw (o, f) at u.0 in
      ground (arith, keep-none org fact_id xs gone, eq_iff x.fact_id fact_id)
  | inr miss ↦ ground (arith, keep-one org fact_id xs h u.1, eq_iff x.fact_id fact_id)
]

All-found :
    (P : FactRow → Type 0) (test : FactRow → Bool) (rows : List FactRow) (h : FactRow)
    → All P rows
    → first_where test rows ≡ some h
    → P h
unfolding first_where
All-found P test [] h all e = absurd (cc e)
All-found P test (x ∷ xs) h all e = elim (Bool-cases (test x)) [
  | inl hit ↦ let same : x ≡ h = ground arith in subst P same all.0
  | inr miss ↦ All-found P test xs h all.1 (ground arith)
]

pinned_revision :
    (h : FactRow) (o : Option RevisionRow)
    → Pins h o
    → (row : RevisionRow) × (o ≡ some row) × (row.status ≡ h.status)
pinned_revision h none p = absurd p
pinned_revision h (some row) p = (row, refl, p.2)

-- In consistent tables the head of a fact is locked with its current revision.
lock_heads-one :
    (org : ℕ) (fact_id : String) (db : Db) (h : FactRow)
    → IsConsistent db
    → find_fact org fact_id db.facts ≡ some h
    → (row : RevisionRow) × (lock_heads org (fact_id ∷ []) db
        ≡ ok (record { fact = h; revision = row } ∷ [], db))
      × (row.status ≡ h.status)
unfolding lock_heads
lock_heads-one org fact_id db h c e =
    let k : fact_key org fact_id h ≡ true =
      first_where-holds (fact_key org fact_id) db.facts h (unfold find_fact in e) in
    let (o, f) = fact_key-eq org fact_id h k in
    let (row, there, s) = pinned_revision h _ (
      All-found (Pinned db.revisions) (fact_key org fact_id) db.facts h c.pinned
        (unfold find_fact in e)) in
    let found : find_revision org h.current_revision_id db.revisions ≡ some row =
      subst (λ z. find_revision z h.current_revision_id db.revisions ≡ some row) o there in
    (row, rw (keep-one org fact_id db.facts h c.unique e, found) refl, s)

module _ (ext : External) (actor : ActorContext) (fresh : ℕ → ℕ) (now : ℕ) where
  -- A fact that is at another revision or not active is a conflict.
  invalidate_new-conflict :
      (command : InvalidateFact) (expected : ℕ) (key : String) (db : Db) (h : FactRow)
      → IsConsistent db
      → find_fact actor.organization_id command.fact_id db.facts ≡ some h
      → h.current_version == expected && h.status == active ≡ false
      → invalidate_new ext actor fresh now command expected key db
        ≡ err (revision_conflict command.fact_id expected h.current_version)
  unfolding invalidate_new first_where ◌>>=◌
  invalidate_new-conflict command expected key db h c e differs =
      let (row, locked, s) = lock_heads-one actor.organization_id command.fact_id db h c e in
      let k : fact_key actor.organization_id command.fact_id h ≡ true =
        first_where-holds (fact_key actor.organization_id command.fact_id) db.facts h
          (unfold find_fact in e) in
      let f : (h.fact_id == command.fact_id) ≡ true = ground arith in
      let test : not (h.current_version == expected) || not (row.status == active) ≡ true =
        rw s (ground arith) in
      rw (locked, f, test) refl

  -- In consistent tables, with a key that is new, `invalidate` by a writer raises a conflict naming
  -- the current revision where the fact is at another revision than the expected one or is not
  -- active.
  pub invalidate-conflict :
      (command : InvalidateFact) (expected : ℕ) (key : String) (db : Db) (h : FactRow)
      → IsConsistent db
      → elem "writer" actor.roles ≡ true
      → first_where (idempotency_key_of actor.organization_id key) db.idempotency ≡ none
      → find_fact actor.organization_id command.fact_id db.facts ≡ some h
      → h.current_version == expected && h.status == active ≡ false
      → invalidate ext actor fresh now command expected key db
        ≡ err (revision_conflict command.fact_id expected h.current_version)
  unfolding invalidate begin_idempotent add_key ◌>>=◌
  invalidate-conflict command expected key db h c role free e differs =
      rw (role, free) (invalidate_new-conflict command expected key _ h c e differs)
