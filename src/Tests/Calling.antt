-- ===== src/Tests/Calling.antt =====
-- postgres/application.py: tools called on the sample tables.
use plk_memory.Base.{ℕ, String, true, false, none, some, [], ◌≡◌, refl}
use plk_memory.Domain.{FactPayload, WriteResult, InvalidateFact}
use plk_memory.Ports.{ok}
use plk_memory.Postgres.Schema.{Db}
use plk_memory.Postgres.Repository.{Expected}
use plk_memory.Postgres.Ledger.{IsConsistent}
use plk_memory.Postgres.Application.Tools.{
  parse_source_type, revision_for, invalidate_command, ToolSettings, AddArguments, written,
  conflict, prepare_add, prepare_invalidate, tool_add, tool_invalidate, lacks_revisions, key_or,
  add_prepared, payload_of, expected_superseded_revisions, add_command, answer_write,
}
use plk_memory.Postgres.Application.{parse_kind, distinct}
use plk_memory.Postgres.Application.Tools.Retries.{tool_add-retried}
use plk_memory.Postgres.Application.Tools.Conflicts.{tool_invalidate-conflict}
use plk_memory.Postgres.System.{Reach, adds, starts, steps, no_rows, Reach-IsConsistent}
use plk_memory.Postgres.Session.{◌>>=◌}
use plk_memory.Postgres.Repository.{create}
use plk_memory.Postgres.Tables.{
  first_where, find_fact, insert_fact, insert_revision, insert_event, insert_audit, update_where,
  event_clash, fact_clash, revision_clash,
}
use plk_memory.Postgres.Mappers.{revision_values}
use plk_memory.Postgres.WriteOps.{
  begin_idempotent, begin_key, as_write_result, replay_key, add_key, emit_event, record_audit,
  finish_idempotent, store_response,
}
use plk_memory.Postgres.Repository.Validate.{validate_create, secret_findings}
use plk_memory.Postgres.Repository.Locking.{lock_heads, merge_heads}
use plk_memory.Postgres.Repository.{
  create_new, same_set, check_superseded, insert_created, supersede_all,
}
use plk_memory.Tests.Repeats.{stored_head, head_found, key_free}
use plk_memory.Postgres.Ledger.Repository.{create-IsConsistent}
use plk_memory.Base.Text.{char_count}
use plk_memory.Tests.Samples.{
  first_fact, empty-IsConsistent, ext, writer, payload, ids_from, stored, empty,
}

abbrev settings : ToolSettings
settings = record { require_idempotency_key = true; require_expected_revision = true }

abbrev args : AddArguments
args = record {
  namespace = "plk.domain.tax";
  kind = "logic";
  statement = "s";
  why = "w";
  how_to_apply = "h";
  source = "src";
  tags = [];
  body = "";
  source_type = "agent";
  supersedes = [];
  idempotency_key = some "k1";
  expected_revision = none;
  expected_superseded_revisions = none;
}

abbrev name_fact : ℕ → String → String
name_fact org key = "f1"

prepared : (db : Db) → prepare_add writer args db ≡ ok (payload, [])
unfolding prepare_add payload_of expected_superseded_revisions
prepared db = refl

abbrev added : Db
added = (tool_add ext writer (ids_from 10) 1000 "g" settings name_fact args (λ db. db) empty).1

abbrev added_result : WriteResult
added_result = record { fact_id = "f1"; revision = 1; replayed = false; event_id = 11 }

adds_first :
    tool_add ext writer (ids_from 10) 1000 "g" settings name_fact args (λ db. db) empty
    ≡ (ok (written added_result "k1"), added)
unfolding tool_add lacks_revisions prepare_add payload_of parse_kind parse_source_type
    expected_superseded_revisions add_prepared add_command answer_write key_or distinct create ◌>>=◌
    validate_create char_count secret_findings begin_idempotent first_where create_new same_set
    find_fact add_key lock_heads check_superseded insert_created insert_fact insert_revision
    revision_values emit_event supersede_all insert_event record_audit insert_audit
    finish_idempotent store_response update_where merge_heads begin_key as_write_result replay_key
    event_clash fact_clash revision_clash
adds_first = refl

tool_add-retried_example :
    let retry =
      tool_add ext writer (ids_from 50) 9000 "g2" settings name_fact args (λ z. z) added in
    (retry.1 ≡ added)
    × ((p : FactPayload) (expected : Expected)
        → prepare_add writer args added ≡ ok (p, expected)
        → retry.0 ≡ ok (written (record added_result { replayed = true }) "k1"))
tool_add-retried_example =
    tool_add-retried ext writer settings name_fact args (ids_from 10) (ids_from 50) 1000 9000 "g"
      "g2" "k1" (λ db. db) empty added_result added refl adds_first

abbrev reached_one : Db
reached_one =
    (add_prepared ext writer (ids_from 10) 1000 "g" name_fact args "k1" (λ _. no_rows) empty
      (ok (payload, []))).1

path_one : Reach ext reached_one
path_one =
    steps starts
      (adds writer (ids_from 10) 1000 "g" "k1" name_fact args empty payload [] (prepared empty))

Reach-IsConsistent_example : IsConsistent reached_one
Reach-IsConsistent_example = Reach-IsConsistent ext reached_one path_one

abbrev drop : InvalidateFact
drop = record { fact_id = "f1"; reason = "it is wrong" }

drop_prepared : prepare_invalidate writer "f1" "it is wrong" (some 3) empty ≡ ok (drop, 3)
unfolding revision_for invalidate_command char_count
drop_prepared = refl

tool_invalidate-conflict_example :
    tool_invalidate ext writer
      (ids_from 50)
      2500
      "g"
      settings
      "f1"
      "it is wrong"
      (some "k9")
      (some 3)
      (λ _. stored)
      empty
    ≡ (ok (conflict "f1" 3 1), stored)
unfolding key_or
tool_invalidate-conflict_example =
    tool_invalidate-conflict ext writer (ids_from 50) 2500 "g" settings "f1" "it is wrong"
      (some "k9") (some 3) (λ _. stored) empty drop 3 stored_head refl refl drop_prepared
      (create-IsConsistent ext writer (ids_from 10) 1000 first_fact [] "k1" empty
        empty-IsConsistent)
      refl key_free head_found refl
