-- ===== src/Postgres/Replay/Untouched.antt =====
-- The work between the two halves of an idempotent request leaves the record of its key alone.
use plk_memory.Base.{ℕ, String, List, [], ◌∷◌, Bool, ◌+◌}
use plk_memory.Domain.{ActorContext, CreateFact, ChangeOperation}
use plk_memory.Ports.{Result, ok, err}
use plk_memory.Postgres.Schema.{FactRow, RevisionRow, RelationRow, IdempotencyRow, Db}
use plk_memory.Postgres.Session.Keeps.{
  Keeps, After, After-if, Keeps-pure, Keeps-bind, Keeps-or_raise, Keeps-raise_if, keeps_rules,
}
use plk_memory.Postgres.Replay.{OnKeys}
use plk_memory.Postgres.Tables.{insert_fact, insert_revision, insert_relation}
use plk_memory.Postgres.External.{External}
use plk_memory.Postgres.WriteOps.{emit_event, record_audit}
use plk_memory.Postgres.Repository.{
  Expected, check_superseded, invalidate_locked, supersede_all, insert_created,
}
use plk_memory.Postgres.Repository.Locking.{Head, lock_heads, with_heads, update_heads}

module _ (P : List IdempotencyRow → Type 0) where
  insert_fact-Keeps : (r : FactRow) → Keeps (OnKeys P) (insert_fact r)
  unfolding insert_fact
  insert_fact-Keeps r = record { at = λ db h. After-if (OnKeys P) _ _ _ h }

  insert_revision-Keeps : (r : RevisionRow) → Keeps (OnKeys P) (insert_revision r)
  unfolding insert_revision
  insert_revision-Keeps r = record { at = λ db h. After-if (OnKeys P) _ _ _ h }

  insert_relation-Keeps : (r : RelationRow) → Keeps (OnKeys P) (insert_relation r)
  unfolding insert_relation
  insert_relation-Keeps r = record { at = λ db h. After-if (OnKeys P) _ _ _ h }

  emit_event-Keeps :
      (org event_id : ℕ) (fact_id : String) (version : ℕ) (operation : ChangeOperation) (now : ℕ)
      → Keeps (OnKeys P) (emit_event org event_id fact_id version operation now)
  unfolding emit_event
  emit_event-Keeps org event_id fact_id version operation now = record {
    at = λ db h. After-if (OnKeys P) _ _ _ h;
  }

  pub record_audit-Keeps :
      (actor : ActorContext) (action fact_id : String) (audit_id now : ℕ)
      → Keeps (OnKeys P) (record_audit actor action fact_id audit_id now)
  unfolding record_audit
  record_audit-Keeps actor action fact_id audit_id now = record {
    at = λ db h. After-if (OnKeys P) _ _ _ h;
  }

  update_heads-Keeps :
      (test : FactRow → Bool) (f : FactRow → FactRow) → Keeps (OnKeys P) (update_heads test f)
  unfolding update_heads
  update_heads-Keeps test f = record { at = λ db h. h }

  heads-After :
      (r : Result (List Head)) (db : Db) → OnKeys P db → After (OnKeys P) (with_heads db r)
  heads-After (ok heads) db h = h
  heads-After (err e) db h = tt

  pub lock_heads-Keeps : (org : ℕ) (ids : List String) → Keeps (OnKeys P) (lock_heads org ids)
  unfolding lock_heads
  lock_heads-Keeps org ids = record { at = λ db h. heads-After _ db h }

  module _ (ext : External) (actor : ActorContext) (fresh : ℕ → ℕ) (now : ℕ) where
    pub invalidate_locked-Keeps :
        (n : ℕ) (head : Head) (reason : String)
        → Keeps (OnKeys P) (invalidate_locked ext actor fresh now n head reason)
    unfolding invalidate_locked
    invalidate_locked-Keeps n head reason =
        search (keeps_rules, insert_revision-Keeps, update_heads-Keeps, emit_event-Keeps) depth 12

    pub insert_created-Keeps :
        (command : CreateFact) → Keeps (OnKeys P) (insert_created ext actor fresh now command)
    unfolding insert_created
    insert_created-Keeps command =
        search (keeps_rules, insert_fact-Keeps, insert_revision-Keeps, emit_event-Keeps) depth 8

    pub supersede_all-Keeps :
        (command : CreateFact) (n : ℕ) (heads : List Head) (ids : List String)
        → Keeps (OnKeys P) (supersede_all ext actor fresh now command n heads ids)
    unfolding supersede_all
    supersede_all-Keeps command n heads [] = Keeps-pure n
    supersede_all-Keeps command n heads (i ∷ is) = Keeps-bind _ _ (Keeps-or_raise _ _) λ head.
        Keeps-bind _ _ (invalidate_locked-Keeps n head _) λ _.
          Keeps-bind _ _ (insert_relation-Keeps _) λ _. supersede_all-Keeps command (n + 3) heads is

  pub check_superseded-Keeps :
      (expected : Expected) (heads : List Head) (ids : List String)
      → Keeps (OnKeys P) (check_superseded expected heads ids)
  unfolding check_superseded
  check_superseded-Keeps expected heads [] = Keeps-pure tt
  check_superseded-Keeps expected heads (i ∷ is) = Keeps-bind _ _ (Keeps-or_raise _ _) λ head.
      Keeps-bind _ _ (Keeps-or_raise _ _) λ revision.
        Keeps-bind _ _ (Keeps-raise_if _ _)
          λ _. Keeps-bind _ _ (Keeps-raise_if _ _) λ _. check_superseded-Keeps expected heads is
