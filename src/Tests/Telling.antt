-- ===== src/Tests/Telling.antt =====
-- Reports of one agent at concrete states.
use plk_memory.Base.{
  ◌≡◌, refl, String, [], ◌∷◌, none, some, true, false, ◌==◌, ◌⊎◌, ◌&&◌, map, All, string_eq,
}
use plk_memory.Dict.{find, put, values}
use plk_memory.Ports.{ok, err, Result}
use plk_memory.Telemetry.{
  FactReference, IntentCommand, DecisionCommand, ActionCommand, external_write, required, confirmed,
  attempted, completed, pending, succeeded,
}
use plk_memory.Postgres.Telemetry.{
  External, Log, Recorded, insert_row, intent_of, check_trace, replay_if_matching, DecisionEvent,
  telemetry_conflict, telemetry_error,
}
use plk_memory.Postgres.Telemetry.Recording.{
  record_search, record_intent, replay_intent, insert_intent,
}
use plk_memory.Postgres.Telemetry.Decisions.{
  record_decision, replay_decision_report, check_decision, insert_decision_report, insert_links,
  rows_of, refs_by_id, used_refs, check_traces,
}
use plk_memory.Postgres.Telemetry.Actions.{
  action_row, record_action, replay_action, check_action, check_linked, check_attempted,
  insert_action,
}
use plk_memory.Postgres.Telemetry.Resolving.{record_decision-resolves, Resolves}
use plk_memory.Postgres.Telemetry.Retries.{record_decision-retried}
use plk_memory.Postgres.Telemetry.Grounded.{record_decision-IsReturned, IsReturned}
use plk_memory.Postgres.Telemetry.Following.{Follows, record_action-Follows}

abbrev hashes : External
hashes = record {
  sha256 = λ s. s;
  first_64 = λ s. s;
  intent_json = λ c. c.intent;
  decision_json = λ c. c.decision_id;
  action_json = λ c. c.event_id;
}

abbrev intent : IntentCommand
intent = record {
  trace_id = "t1";
  operation_type = "deploy";
  intent = "ship";
  target = none;
  side_effect = external_write;
  plk_requirement = required;
  no_search_reason = none;
}

abbrev decision : DecisionCommand
decision = record {
  decision_id = "d1";
  search_ids = "s1" ∷ [];
  used_fact_ids = "f1" ∷ [];
  effect = confirmed;
  no_use_reason = none;
  trace_id = some "t1";
}

abbrev attempt : ActionCommand
attempt = record {
  event_id = "e1";
  action_id = "a1";
  trace_id = "t1";
  phase = attempted;
  action_type = "deploy";
  tool_name = none;
  target = some "";
  side_effect = external_write;
  outcome = pending;
  decision_id = some "d1";
  error_category = none;
}

abbrev completion : ActionCommand
completion = record attempt { event_id = "e2"; phase = completed; outcome = succeeded }

abbrev empty : Log
empty = record { searches = []; intents = []; decisions = []; links = []; actions = [] }

abbrev fact : FactReference
fact = record { fact_id = "f1"; revision = some 1; content_hash = none }

abbrev log_of {ℓ} : {A : Type ℓ} → Result (A × Log) → Log
log_of (ok (a, db)) = db
log_of (err e) = empty

abbrev only_log : Result Log → Log
only_log (ok db) = db
only_log (err e) = empty

abbrev intended : Log
intended = log_of (record_intent hashes "ann" intent empty empty)

abbrev searched : Log
searched =
    only_log (
      record_search hashes "ann" "s1" "how" 1 5 none (fact ∷ []) "ok" (some "t1") intended intended)

abbrev decided : Log
decided = log_of (record_decision hashes "ann" decision searched searched)

abbrev acted : Log
acted = log_of (record_action hashes "ann" attempt decided decided)

abbrev new_decision : Recorded
new_decision = record { replayed = false; identifier = "d1" }

decided_once : record_decision hashes "ann" decision searched searched ≡ ok (new_decision, decided)
unfolding record_intent record_search record_decision record_action replay_intent insert_intent
    replay_decision_report check_decision insert_decision_report insert_links rows_of refs_by_id
    used_refs check_traces check_trace replay_action check_action check_linked check_attempted
    insert_action insert_row intent_of replay_if_matching find put values
decided_once = refl

acted_once :
    record_action hashes "ann" attempt decided decided
    ≡ ok (record { replayed = false; identifier = "e1" }, acted)
unfolding record_intent record_search record_decision record_action replay_intent insert_intent
    replay_decision_report check_decision insert_decision_report insert_links rows_of refs_by_id
    used_refs check_traces check_trace replay_action check_action check_linked check_attempted
    insert_action insert_row intent_of replay_if_matching find put values
acted_once = refl

abbrev completed_log : Log
completed_log = log_of (record_action hashes "ann" completion acted acted)

abbrev new_completion : Recorded
new_completion = record { replayed = false; identifier = "e2" }

completed_once :
    record_action hashes "ann" completion acted acted ≡ ok (new_completion, completed_log)
unfolding record_intent record_search record_decision record_action replay_intent insert_intent
    replay_decision_report check_decision insert_decision_report insert_links rows_of refs_by_id
    used_refs check_traces check_trace replay_action check_action check_linked check_attempted
    insert_action insert_row intent_of replay_if_matching find put values
completed_once = refl

-- A completion that nothing has attempted is refused, and so is the decision of another client.
unattempted : record_action hashes "ann" completion decided decided ≡ err telemetry_error
unfolding record_intent record_search record_decision record_action replay_intent insert_intent
    replay_decision_report check_decision insert_decision_report insert_links rows_of refs_by_id
    used_refs check_traces check_trace replay_action check_action check_linked check_attempted
    insert_action insert_row intent_of replay_if_matching find put values
unattempted = refl

foreign_decision : record_decision hashes "bob" decision searched searched ≡ err telemetry_error
unfolding record_intent record_search record_decision record_action replay_intent insert_intent
    replay_decision_report check_decision insert_decision_report insert_links rows_of refs_by_id
    used_refs check_traces check_trace replay_action check_action check_linked check_attempted
    insert_action insert_row intent_of replay_if_matching find put values
foreign_decision = refl

-- Two decisions for one search: the second has read the log before the first was written.
resolved_meanwhile :
    record_decision hashes "ann" (record decision { decision_id = "d2" }) searched decided
    ≡ err telemetry_conflict
unfolding record_intent record_search record_decision record_action replay_intent insert_intent
    replay_decision_report check_decision insert_decision_report insert_links rows_of refs_by_id
    used_refs check_traces check_trace replay_action check_action check_linked check_attempted
    insert_action insert_row intent_of replay_if_matching find put values
resolved_meanwhile = refl

record_decision-resolves_example :
    (new_decision.identifier ≡ "d1")
    × (((new_decision.replayed ≡ true) × (decided ≡ searched))
        ⊎ ((new_decision.replayed ≡ false)
            × Resolves ("s1" ∷ []) "d1" searched.links decided.links))
record_decision-resolves_example =
    record_decision-resolves hashes "ann" decision searched searched decided new_decision
      decided_once

record_decision-retried_example :
    (record_decision hashes "ann" decision decided acted
      ≡ ok (record { replayed = true; identifier = "d1" }, acted))
    × ((client' : String) (c' : DecisionCommand)
        → c'.decision_id ≡ "d1"
        → ("d1" == c'.decision_id) && ("ann" == client') ≡ false
        → record_decision hashes client' c' decided acted ≡ err telemetry_conflict)
record_decision-retried_example =
    record_decision-retried hashes "ann" decision searched searched decided acted new_decision
      (λ d h. h) decided_once

record_decision-IsReturned_example :
    (row : DecisionEvent) × (find "d1" decided.decisions ≡ some row)
    × (map (λ ref. ref.fact_id) row.used_fact_refs ≡ ("f1" ∷ []))
    × All (IsReturned "ann" ("s1" ∷ []) searched.searches) row.used_fact_refs
record_decision-IsReturned_example =
    record_decision-IsReturned hashes "ann" decision searched searched decided new_decision
      decided_once refl

record_action-Follows_example :
    ((new_completion.replayed ≡ true) × (completed_log ≡ acted))
    ⊎ (Follows "ann" completion acted
        × (find "e2" acted.actions ≡ none)
        × (find "e2" completed_log.actions ≡ some (action_row hashes "ann" completion)))
record_action-Follows_example =
    record_action-Follows hashes "ann" completion acted acted completed_log new_completion
      completed_once
