-- ===== src/Postgres/Application/Reporting.antt =====
-- postgres/application.py: the tools that record telemetry, and the search tool's report. None of
-- them raises: measuring must not stop the work. `connected`: the application has a store.
use plk_memory.Base.{
  ℕ, String, Bool, true, false, Option, none, some, List, map, not, if◌then◌else◌, length, ◌==◌,
  ◌||◌, string_eq,
}
use plk_memory.Ports.{Result, ok, err, raise_if, ◌>>◌, runtime_error, validation_error, Error}
use plk_memory.Telemetry.{
  FactReference, IntentCommand, DecisionCommand, ActionCommand, validate_requirement,
  validate_phase, validate_decision,
}
use plk_memory.Postgres.Telemetry.{External, Log, Recorded}
use plk_memory.Postgres.Telemetry.Recording.{record_search, record_intent}
use plk_memory.Postgres.Telemetry.Decisions.{record_decision}
use plk_memory.Postgres.Telemetry.Actions.{record_action}
use plk_memory.Postgres.Application.{SearchHit}

-- `refused` is `{"error": …, "recorded": False}`; `unavailable` is that with "non_blocking".
pub data Report : Type 0 where
  recorded : Recorded → Report
  refused unavailable : Report

-- `except (ValidationError, TelemetryError)`
abbrev pub is_refusal : Error → Bool
is_refusal (validation_error _) = true
is_refusal (runtime_error name) = (name == "TelemetryError") || (name == "TelemetryConflict")
is_refusal _ = false

abbrev pub answer_report : Log → Result (Recorded × Log) → Report × Log
answer_report db (ok (r, db')) = (recorded r, db')
answer_report db (err e) = (if is_refusal e then refused else unavailable, db)

abbrev pub check_connected : Bool → Result (Unit {0})
check_connected connected = raise_if (not connected) (runtime_error "RuntimeError")

module _ (ext : External) (connected : Bool) (client : String) where
  unfoldable pub tool_record_decision : DecisionCommand → Log → Log → Report × Log
  tool_record_decision c seen db =
      answer_report db
        (validate_decision c >> (check_connected connected >> record_decision ext client c seen db))

  unfoldable pub tool_record_intent : IntentCommand → Log → Log → Report × Log
  tool_record_intent c seen db =
      answer_report db (
        check_connected connected >> (validate_requirement c >> record_intent ext client c seen db))

  unfoldable pub tool_record_action : ActionCommand → Log → Log → Report × Log
  tool_record_action c seen db =
      answer_report db
        (check_connected connected >> (validate_phase c >> record_action ext client c seen db))

  abbrev pub ref_of_hit : {Score : Type 0} → SearchHit Score → FactReference
  ref_of_hit hit = record {
    fact_id = hit.fact_id;
    revision = some hit.revision;
    content_hash = none;
  }

  abbrev pub or_unchanged : Log → Result Log → Log
  or_unchanged db (ok db') = db'
  or_unchanged db (err e) = db

  -- `_record_search`
  unfoldable pub report_search :
      {Score : Type 0}
      → String
      → String
      → List (SearchHit Score)
      → ℕ
      → Option String
      → String
      → Option String
      → Log
      → Log
      → Log
  report_search search_id query hits latency_ms reason outcome trace_id seen db =
      if connected
      then or_unchanged db (
          record_search ext client search_id query (length hits) latency_ms reason
            (map ref_of_hit hits) outcome trace_id seen db)
      else db
