-- ===== src/Postgres/Telemetry/Actions.antt =====
-- postgres/telemetry.py: the report of an action.
use plk_memory.Base.{
  String, Bool, true, false, Option, none, some, not, ◌==◌, ◌&&◌, string_eq, any_of,
}
use plk_memory.Ports.{Result, ok, raise_if, ◌>>=◌, ◌>>◌, or_raise}
use plk_memory.Telemetry.{
  ActionCommand, ActionPhase, SideEffect, attempted, completed, read, local_write, external_write,
  destructive,
}
use plk_memory.Dict.{find, values}
use plk_memory.Postgres.Telemetry.{
  External, Log, Recorded, DecisionEvent, ActionEvent, telemetry_error, replay_if_matching,
  unless_replayed, on_integrity_error, insert_row, unless_empty, intent_of, stamp_of_action,
}

abbrev pub same_effect : SideEffect → SideEffect → Bool
same_effect read read = true
same_effect local_write local_write = true
same_effect external_write external_write = true
same_effect destructive destructive = true
same_effect _ _ = false

abbrev pub is_attempted : ActionPhase → Bool
is_attempted attempted = true
is_attempted completed = false

-- The decision of the client with this id, if it has the trace.
abbrev pub decides : String → String → Option DecisionEvent → Bool
decides client trace_id none = false
decides client trace_id (some row) =
    (row.client == client) && elim row.trace_id [ none ↦ false | some t ↦ t == trace_id ]

abbrev pub attempts : String → String → ActionEvent → Bool
attempts action_id trace_id row =
    (row.action_id == action_id) && ((row.trace_id == trace_id) && is_attempted row.phase)

module _ (ext : External) (client : String) where
  unfoldable pub replay_action : ActionCommand → Log → Result (Option Recorded)
  unfolding replay_if_matching
  replay_action c seen =
      replay_if_matching (stamp_of_action (find c.event_id seen.actions)) c.event_id client
        (ext.sha256 (ext.action_json c))

  unfoldable pub check_linked : ActionCommand → Log → Result (Unit {0})
  check_linked c seen = elim c.decision_id [
    | none ↦ ok tt
    | some decision_id ↦
        raise_if (not (decides client c.trace_id (find decision_id seen.decisions))) telemetry_error
  ]

  unfoldable pub check_attempted : ActionCommand → Log → Result (Unit {0})
  check_attempted c seen =
      raise_if
        (not (is_attempted c.phase)
          && not (any_of (attempts c.action_id c.trace_id) (values seen.actions)))
        telemetry_error

  -- The checks of an action that is new.
  unfoldable pub check_action : ActionCommand → Log → Result (Unit {0})
  unfolding intent_of check_linked check_attempted
  check_action c seen = do
    intent ← or_raise (intent_of client c.trace_id seen) telemetry_error
    agrees ← raise_if (not (same_effect intent.side_effect c.side_effect)) telemetry_error
    linked ← check_linked c seen
    check_attempted c seen

  abbrev pub action_row : ActionCommand → ActionEvent
  action_row c = record {
    action_id = c.action_id;
    trace_id = c.trace_id;
    client = client;
    phase = c.phase;
    action_type = c.action_type;
    tool_name = c.tool_name;
    target_hash = unless_empty ext.sha256 c.target;
    side_effect = c.side_effect;
    outcome = c.outcome;
    decision_id = c.decision_id;
    error_category = c.error_category;
    request_hash = ext.sha256 (ext.action_json c);
  }

  unfoldable pub insert_action : ActionCommand → Log → Result (Recorded × Log)
  unfolding insert_row
  insert_action c db = do
    rows ← insert_row c.event_id (action_row c) db.actions
    ok (record { replayed = false; identifier = c.event_id }, record db { actions = rows })

  unfoldable pub record_action : ActionCommand → Log → Log → Result (Recorded × Log)
  unfolding replay_action check_action insert_action
  record_action c seen db =
      on_integrity_error db (replay_action c db)
        (unless_replayed db (replay_action c seen) (check_action c seen >> insert_action c db))
