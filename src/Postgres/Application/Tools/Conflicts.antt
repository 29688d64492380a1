-- ===== src/Postgres/Application/Tools/Conflicts.antt =====
-- postgres/application.py: `tool_invalidate` on a fact that changed after it was read.
use plk_memory.Base.{
  ℕ, String, true, false, Option, none, some, ◌≡◌, refl, ◌&&◌, ◌==◌, string_eq, nat_eq, elem,
}
use plk_memory.Domain.{ActorContext, InvalidateFact, active, status_eq}
use plk_memory.Ports.{ok}
use plk_memory.Postgres.Schema.{Db, FactRow}
use plk_memory.Postgres.Tables.{find_fact, first_where, idempotency_key_of}
use plk_memory.Postgres.External.{External}
use plk_memory.Postgres.Ledger.{IsConsistent}
use plk_memory.Postgres.Ledger.Conflicts.{invalidate-conflict}
use plk_memory.Postgres.Application.Tools.{
  ToolSettings, conflict, lacks_key, is_none, key_or, answer_write, prepare_invalidate,
  invalidate_prepared, tool_invalidate,
}

-- The tool is called by a writer, with a key that is new to the tables that its write sees, and it
-- expects a revision that the caller gave or that the fact had in the tables it was read from. If by
-- the time of the write the fact is at another revision, or not active, the tool answers with a
-- conflict that names both revisions, and leaves the tables as it found them: no update is lost.
pub tool_invalidate-conflict :
    (ext : External) (actor : ActorContext) (fresh : ℕ → ℕ) (now : ℕ) (generated : String)
    (settings : ToolSettings) (fact_id reason : String) (key : Option String) (wanted : Option ℕ)
    (between : Db → Db) (old : Db) (command : InvalidateFact) (revision : ℕ) (h : FactRow)
    → lacks_key settings key ≡ false
    → settings.require_expected_revision && is_none wanted ≡ false
    → prepare_invalidate actor fact_id reason wanted old ≡ ok (command, revision)
    → IsConsistent (between old)
    → elem "writer" actor.roles ≡ true
    → first_where
        (idempotency_key_of actor.organization_id (key_or key generated))
        (between old).idempotency
      ≡ none
    → find_fact actor.organization_id command.fact_id (between old).facts ≡ some h
    → h.current_version == revision && h.status == active ≡ false
    → tool_invalidate ext actor fresh now generated settings fact_id reason key wanted between old
      ≡ (ok (conflict command.fact_id revision h.current_version), between old)
unfolding tool_invalidate invalidate_prepared answer_write
tool_invalidate-conflict ext actor fresh now generated settings fact_id reason key wanted between
      old command revision h keyed revised prepared c role free found differs =
    let raised =
      invalidate-conflict ext actor fresh now command revision (key_or key generated) (between old)
        h c role free found differs in
    rw (keyed, revised, prepared, raised) refl
