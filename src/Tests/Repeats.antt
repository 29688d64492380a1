-- ===== src/Tests/Repeats.antt =====
-- Repeated, late and conflicting requests at concrete tables.
use plk_memory.Base.{◌≡◌, refl, true, false, [], ◌∷◌, none, some, arith, ◌≤◌, ◌↔◌}
use plk_memory.Domain.{WriteResult, PromotionDecisionResult, logic, active, pending, approved}
use plk_memory.Ports.{ok, err, revision_conflict, idempotency_conflict}
use plk_memory.Postgres.Schema.{Db, FactRow, ApprovalRow}
use plk_memory.Postgres.Session.{◌>>=◌, transaction}
use plk_memory.Postgres.Repository.{create, invalidate}
use plk_memory.Postgres.Approvals.{decide, decision_of, request_key}
use plk_memory.Postgres.Replay.Repository.{create-replayed, invalidate-replayed}
use plk_memory.Postgres.Ledger.Repository.{create-IsConsistent}
use plk_memory.Postgres.Ledger.Conflicts.{invalidate-conflict}
use plk_memory.Postgres.Ledger.Staleness.{IsStale, decide-IsStale}
use plk_memory.Base.Text.{char_count, strip}
use plk_memory.Postgres.Tables.{
  first_where, find_fact, idempotency_key_of, find_revision, insert_fact, insert_revision,
  insert_event, insert_audit, update_where, count_where, event_clash, fact_clash, revision_clash,
}
use plk_memory.Postgres.Mappers.{revision_values, payload_from_row}
use plk_memory.Postgres.WriteOps.{
  begin_idempotent, begin_key, as_write_result, replay_key, add_key, emit_event, record_audit,
  finish_idempotent, store_response,
}
use plk_memory.Postgres.Repository.Validate.{validate_create, secret_findings}
use plk_memory.Postgres.Repository.Locking.{lock_heads, merge_heads, update_heads, head_for}
use plk_memory.Postgres.Repository.{
  create_new, same_set, check_superseded, insert_created, supersede_all, invalidate_new,
  invalidate_locked,
}
use plk_memory.Postgres.Repository.Validate.Policy.{IsAllowed, validate_create-IsAllowed}
use plk_memory.Postgres.Replay.Reuse.{create-conflict}
use plk_memory.Domain.{CreateFact}
use plk_memory.Tests.Samples.{
  ext, writer, reviewer, first_fact, drop_first, ids_from, empty, empty-IsConsistent, stored,
}

abbrev first_result : WriteResult
first_result = record { fact_id = "f1"; revision = 1; replayed = false; event_id = 11 }

created_once :
    create ext writer (ids_from 10) 1000 first_fact [] "k1" empty ≡ ok (first_result, stored)
unfolding create ◌>>=◌ validate_create char_count secret_findings begin_idempotent first_where
    create_new same_set find_fact add_key lock_heads check_superseded insert_created insert_fact
    insert_revision revision_values emit_event supersede_all insert_event record_audit insert_audit
    finish_idempotent store_response update_where merge_heads begin_key as_write_result replay_key
    event_clash fact_clash revision_clash
created_once = refl

create-replayed_example :
    create ext writer (ids_from 50) 1500 first_fact [] "k1" stored
    ≡ ok (record first_result { replayed = true }, stored)
create-replayed_example =
    create-replayed ext writer (ids_from 10) (ids_from 50) 1000 1500 "k1" first_result empty stored
      first_fact [] [] created_once

abbrev dropped : Db
dropped = (transaction (invalidate ext writer (ids_from 20) 2000 drop_first 1 "k2") stored).1

abbrev drop_result : WriteResult
drop_result = record { fact_id = "f1"; revision = 2; replayed = false; event_id = 21 }

dropped_once :
    invalidate ext writer (ids_from 20) 2000 drop_first 1 "k2" stored ≡ ok (drop_result, dropped)
unfolding create ◌>>=◌ validate_create char_count secret_findings begin_idempotent first_where
    create_new same_set find_fact add_key lock_heads check_superseded insert_created insert_fact
    insert_revision revision_values emit_event supersede_all insert_event record_audit insert_audit
    finish_idempotent store_response update_where merge_heads begin_key as_write_result replay_key
    event_clash fact_clash revision_clash invalidate invalidate_new invalidate_locked find_revision
    head_for update_heads count_where payload_from_row
dropped_once = refl

invalidate-replayed_example :
    invalidate ext writer (ids_from 50) 2500 drop_first 1 "k2" dropped
    ≡ ok (record drop_result { replayed = true }, dropped)
invalidate-replayed_example =
    invalidate-replayed ext writer (ids_from 20) (ids_from 50) 2000 2500 "k2" drop_result stored
      dropped drop_first 1 1 dropped_once

abbrev pub stored_head : FactRow
stored_head = record {
  organization_id = 7;
  fact_id = "f1";
  kind = logic;
  namespace = "plk.domain.tax";
  status = active;
  current_version = 1;
  current_revision_id = 10;
  created_by = "claude";
  created_at = 1000;
  updated_by = "claude";
  updated_at = 1000;
}

pub head_found : find_fact 7 "f1" stored.facts ≡ some stored_head
unfolding create ◌>>=◌ validate_create char_count secret_findings begin_idempotent first_where
    create_new same_set find_fact add_key lock_heads check_superseded insert_created insert_fact
    insert_revision revision_values emit_event supersede_all insert_event record_audit insert_audit
    finish_idempotent store_response update_where merge_heads begin_key as_write_result replay_key
    event_clash fact_clash revision_clash
head_found = refl

pub key_free : first_where (idempotency_key_of 7 "k9") stored.idempotency ≡ none
unfolding create ◌>>=◌ validate_create char_count secret_findings begin_idempotent first_where
    create_new same_set find_fact add_key lock_heads check_superseded insert_created insert_fact
    insert_revision revision_values emit_event supersede_all insert_event record_audit insert_audit
    finish_idempotent store_response update_where merge_heads begin_key as_write_result replay_key
    event_clash fact_clash revision_clash
key_free = refl

invalidate-conflict_example :
    invalidate ext writer (ids_from 50) 2500 drop_first 3 "k9" stored
    ≡ err (revision_conflict "f1" 3 1)
invalidate-conflict_example =
    invalidate-conflict ext writer (ids_from 50) 2500 drop_first 3 "k9" stored stored_head
      (create-IsConsistent ext writer (ids_from 10) 1000 first_fact [] "k1" empty
        empty-IsConsistent)
      refl key_free head_found refl

-- A proposal of version 1, when the fact is at version 2.
abbrev late_row : ApprovalRow
late_row = record {
  organization_id = 7;
  request_id = 100;
  fact_id = "f1";
  source_version = 1;
  status = pending;
  requested_by = "claude";
  request_reason = "shared";
  created_at = 2000;
  updated_at = 2000;
}

abbrev moved_head : FactRow
moved_head = record stored_head { current_version = 2 }

abbrev moved : Db
moved = record empty { facts = moved_head ∷ []; approvals = late_row ∷ [] }

verdict_read : decision_of "approved" ≡ some approved
unfolding decision_of
verdict_read = refl

long_rationale : 5 ≤ char_count (strip "correct")
unfolding char_count strip
long_rationale = omega arith

moved_head_found : find_fact 7 "f1" moved.facts ≡ some moved_head
unfolding find_fact
moved_head_found = refl

request_found : first_where (request_key 7 100) moved.approvals ≡ some late_row
unfolding first_where
request_found = refl

no_key : first_where (idempotency_key_of 7 "k4") moved.idempotency ≡ none
unfolding first_where
no_key = refl

decide-IsStale_example :
    (r : PromotionDecisionResult) × (db' : Db) × (decide ext reviewer
        (ids_from 200)
        3000
        "r"
        "approved"
        "correct"
        1
        "k4"
        moved
      ≡ ok (r, db'))
    × IsStale reviewer.organization_id 100 3000 late_row moved r db'
decide-IsStale_example =
    decide-IsStale ext reviewer (ids_from 200) 3000 "r" "approved" "correct" 1 "k4" moved 100
      approved late_row moved_head refl verdict_read long_rationale refl no_key request_found refl
      moved_head_found refl refl

validate_create-IsAllowed_example :
    (validate_create ext writer first_fact ≡ ok tt) ↔ IsAllowed ext writer first_fact
validate_create-IsAllowed_example = validate_create-IsAllowed ext writer first_fact

abbrev other_fact : CreateFact
other_fact = record first_fact { fact_id = "f2" }

other_valid : validate_create ext writer other_fact ≡ ok tt
unfolding validate_create char_count secret_findings
other_valid = refl

create-conflict_example :
    create ext writer (ids_from 50) 1500 other_fact [] "k1" stored ≡ err (idempotency_conflict "k1")
create-conflict_example =
    create-conflict ext writer (ids_from 10) (ids_from 50) 1000 1500 "k1" first_result empty stored
      first_fact other_fact [] [] created_once other_valid refl
