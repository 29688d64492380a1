-- ===== src/Postgres/Telemetry/Retries.antt =====
-- A report that is sent again.
use plk_memory.Base.{
  sym, ◌∙◌, refl, Option, none, String, true, false, some, ◌≡◌, ap, subst, arith, inl, inr, ◌==◌,
  ◌&&◌, string_eq,
}
use plk_memory.Ports.{ok, err}
use plk_memory.Telemetry.{DecisionCommand}
use plk_memory.Dict.{find}
use plk_memory.Dict.Laws.{find-put_same}
use plk_memory.Postgres.Telemetry.{
  External, Log, Recorded, DecisionEvent, telemetry_conflict, replay_if_matching,
}
use plk_memory.Postgres.Telemetry.Answers.{replay_if_matching_same}
use plk_memory.Postgres.Telemetry.Decisions.{
  record_decision, decision_row, stamp_of, replay_decision_report,
}
use plk_memory.Postgres.Telemetry.Decided.{
  insert_decision_report_lem, replay_decision_report_ok, record_decision_cases,
}

-- A row with another hash or another client is a conflict.
replay_if_matching_other :
    (identifier hash owner client request_hash : String)
    → (hash == request_hash) && (owner == client) ≡ false
    → replay_if_matching (some (hash, owner)) identifier client request_hash
      ≡ err telemetry_conflict
unfolding replay_if_matching
replay_if_matching_other identifier hash owner client request_hash other = ground arith

stamp_kept :
    (old new : Option DecisionEvent) (stamp : String × String)
    → ((d : DecisionEvent) → old ≡ some d → new ≡ some d)
    → stamp_of old ≡ some stamp
    → stamp_of new ≡ some stamp
stamp_kept none new stamp keeps h = absurd (cc h)
stamp_kept (some d) new stamp keeps h = rw (keeps d refl) h

module _ (ext : External) (client : String) (c : DecisionCommand) (seen : Log) where
  replay_same :
      stamp_of (find c.decision_id seen.decisions) ≡ some (ext.sha256 (ext.decision_json c), client)
      → replay_decision_report ext client c seen
        ≡ ok (some (record { replayed = true; identifier = c.decision_id }))
  unfolding replay_decision_report
  replay_same s =
      rw s (replay_if_matching_same c.decision_id client (ext.sha256 (ext.decision_json c)))

  replay_other :
      (hash owner : String)
      → stamp_of (find c.decision_id seen.decisions) ≡ some (hash, owner)
      → (hash == ext.sha256 (ext.decision_json c)) && (owner == client) ≡ false
      → replay_decision_report ext client c seen ≡ err telemetry_conflict
  unfolding replay_decision_report
  replay_other hash owner s other = rw s (
      replay_if_matching_other c.decision_id hash owner client (ext.sha256 (ext.decision_json c))
        other)

  at_once :
      (db : Log) (answer : Recorded)
      → replay_decision_report ext client c seen ≡ ok (some answer)
      → record_decision ext client c seen db ≡ ok (answer, db)
  unfolding record_decision
  at_once db answer h = rw h refl

  refused :
      (db : Log)
      → replay_decision_report ext client c seen ≡ err telemetry_conflict
      → record_decision ext client c seen db ≡ err telemetry_conflict
  unfolding record_decision
  refused db h = rw h refl

module _ (ext : External) (client : String) (c : DecisionCommand) where
  -- The row that an answer leaves.
  recorded_stamp :
      (seen db db' : Log) (answer : Recorded)
      → ((d : DecisionEvent)
          → find c.decision_id seen.decisions ≡ some d
          → find c.decision_id db.decisions ≡ some d)
      → record_decision ext client c seen db ≡ ok (answer, db')
      → stamp_of (find c.decision_id db'.decisions)
        ≡ some (ext.sha256 (ext.decision_json c), client)
  recorded_stamp seen db db' answer keeps h =
      elim (record_decision_cases ext client c seen db db' answer h) [
        | inl (inl now, e) ↦
            let s = (replay_decision_report_ok ext client c seen answer now).0 in
            subst
              (λ z.
                stamp_of (find c.decision_id z.decisions)
                ≡ some (ext.sha256 (ext.decision_json c), client))
              (sym e)
              (stamp_kept (find c.decision_id seen.decisions) (find c.decision_id db.decisions) _
                keeps s)
        | inl (inr now, e) ↦
            let s = (replay_decision_report_ok ext client c db answer now).0 in
            subst
              (λ z.
                stamp_of (find c.decision_id z.decisions)
                ≡ some (ext.sha256 (ext.decision_json c), client))
              (sym e) s
        | inr (refs, _, inserted) ↦
            let (_, _, made, _) =
              insert_decision_report_lem ext client c refs db db' answer inserted in
            rw (made, find-put_same c.decision_id (decision_row ext client c refs) db.decisions)
              refl
      ]

  -- Sent again to a transaction that reads its row, a decision that was answered is answered as
  -- replayed and changes nothing; another decision, or another client, with the same decision_id
  -- is refused. The rows that the first transaction read must not have been deleted.
  pub record_decision-retried :
      (seen db db' later : Log) (answer : Recorded)
      → ((d : DecisionEvent)
          → find c.decision_id seen.decisions ≡ some d
          → find c.decision_id db.decisions ≡ some d)
      → record_decision ext client c seen db ≡ ok (answer, db')
      → (record_decision ext client c db' later
          ≡ ok (record { replayed = true; identifier = c.decision_id }, later))
        × ((client' : String) (c' : DecisionCommand)
            → c'.decision_id ≡ c.decision_id
            → (ext.sha256 (ext.decision_json c) == ext.sha256 (ext.decision_json c'))
                && (client == client')
              ≡ false
            → record_decision ext client' c' db' later ≡ err telemetry_conflict)
  record_decision-retried seen db db' later answer keeps h =
      let s = recorded_stamp seen db db' answer keeps h in
      (
        at_once ext client c db' later (record { replayed = true; identifier = c.decision_id })
            (replay_same ext client c db' s),
        λ client' c' same other. refused ext client' c' db' later (
            replay_other ext client' c' db' (ext.sha256 (ext.decision_json c)) client
              (ap (λ z. stamp_of (find z db'.decisions)) same ∙ s) other),
      )
