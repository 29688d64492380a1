-- ===== src/Postgres/Telemetry/Decided.antt =====
-- What an answer of `record_decision` comes from.
use plk_memory.Base.{
  String, true, false, none, some, List, ◌≡◌, arith, inl, inr, string_eq, ◌⊎◌, ◌∙◌,
}
use plk_memory.Ports.{◌>>=◌, ok, bind_ok}
use plk_memory.Telemetry.{DecisionCommand, FactReference}
use plk_memory.Postgres.Telemetry.Answers.{answered, replay_if_matching_ok}
use plk_memory.Dict.{Dict, find, put}
use plk_memory.Postgres.Telemetry.{External, Log, Recorded, insert_row}
use plk_memory.Postgres.Telemetry.Decisions.{
  record_decision, insert_links, insert_decision_report, replay_decision_report, decision_row,
  check_decision, stamp_of,
}

pub insert_row_ok {ℓ} :
    {V : Type ℓ} (key : String) (row : V) (table table' : Dict V)
    → insert_row key row table ≡ ok table'
    → (find key table ≡ none) × (table' ≡ put key row table)
unfolding insert_row
insert_row_ok key row table table' h = ground arith

module _ (ext : External) (client : String) (c : DecisionCommand) where
  pub insert_decision_report_lem :
      (refs : List FactReference) (db db' : Log) (answer : Recorded)
      → insert_decision_report ext client c refs db ≡ ok (answer, db')
      → (insert_links c.search_ids c.decision_id db.links ≡ ok db'.links)
        × (find c.decision_id db.decisions ≡ none)
        × (db'.decisions ≡ put c.decision_id (decision_row ext client c refs) db.decisions)
        × (answer ≡ record { replayed = false; identifier = c.decision_id })
  unfolding insert_decision_report
  insert_decision_report_lem refs db db' answer h =
      let r = insert_row c.decision_id (decision_row ext client c refs) db.decisions in
      let (rows, first, rest) =
        bind_ok r
          (λ rows. insert_links c.search_ids c.decision_id db.links >>= λ links. ok (
            record { replayed = false; identifier = c.decision_id },
            record db { decisions = rows; links = links },
          ))
          (answer, db') h in
      let (links, second, last) = bind_ok _ _ (answer, db') rest in
      let (free, made) =
        insert_row_ok c.decision_id (decision_row ext client c refs) db.decisions rows first in
      (second ∙ ground arith, free, ground arith, ground arith)

  pub replay_decision_report_ok :
      (seen : Log) (answer : Recorded)
      → replay_decision_report ext client c seen ≡ ok (some answer)
      → (stamp_of (find c.decision_id seen.decisions)
          ≡ some (ext.sha256 (ext.decision_json c), client))
        × (answer ≡ record { replayed = true; identifier = c.decision_id })
  unfolding replay_decision_report
  replay_decision_report_ok seen answer h =
      replay_if_matching_ok (stamp_of (find c.decision_id seen.decisions)) c.decision_id client
        (ext.sha256 (ext.decision_json c)) answer h

  pub record_decision_cases :
      (seen db db' : Log) (answer : Recorded)
      → record_decision ext client c seen db ≡ ok (answer, db')
      → (((replay_decision_report ext client c seen ≡ ok (some answer))
            ⊎ (replay_decision_report ext client c db ≡ ok (some answer)))
          × (db' ≡ db))
        ⊎ ((refs : List FactReference) × (check_decision ext client c seen ≡ ok refs)
            × (insert_decision_report ext client c refs db ≡ ok (answer, db')))
  unfolding record_decision
  record_decision_cases seen db db' answer h =
      elim (answered db db' (replay_decision_report ext client c seen)
        (replay_decision_report ext client c db)
        (do refs ← check_decision ext client c seen; insert_decision_report ext client c refs db)
        answer h) [
          | inl old ↦ inl old
          | inr (_, fresh) ↦ inr (bind_ok (check_decision ext client c seen) _ (answer, db') fresh)
        ]
