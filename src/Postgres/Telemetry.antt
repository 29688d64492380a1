-- ===== src/Postgres/Telemetry.antt =====
-- postgres/telemetry.py: the store of reports, with the rows of one organization: each query and
-- each key of the source names it. A table is a dictionary by the rest of its primary key.
-- An operation gets the rows that its transaction has read (`seen`) and those that stand when it
-- writes (`db`): another client may have written in between, which the primary keys notice. The
-- foreign keys hold, since the rows they name have been read and nothing deletes rows.
pub mod Recording
pub mod Decisions
pub mod Actions
pub mod Answers
pub mod Decided
pub mod Resolving
pub mod Retries
pub mod Grounded
pub mod Following
use plk_memory.Base.{
  ℕ, String, Bool, true, false, Option, none, some, List, [], ◌∷◌, if◌then◌else◌, not, ◌==◌, ◌||◌,
  string_eq,
}
use plk_memory.Dict.{Dict, find, put, values}
use plk_memory.Telemetry.{
  FactReference, IntentCommand, SideEffect, DecisionEffect, ActionPhase, ActionOutcome,
  PlkRequirement, NoSearchReason, NoUseReason, DecisionCommand, ActionCommand, has_some,
}
use plk_memory.Ports.{
  Result, ok, err, raise_if, or_raise, ◌>>=◌, ◌>>◌, runtime_error, integrity_error, Error,
}

pub record SearchEvent : Type 0 where
  pub client : String
  pub trace_id : Option String
  pub query_hash : String
  pub reason : Option String
  pub outcome : String
  pub hits : ℕ
  pub latency_ms : ℕ
  pub fact_refs : List FactReference

pub record IntentEvent : Type 0 where
  pub client : String
  pub operation_type : String
  pub intent_hash : String
  pub target_hash : Option String
  pub side_effect : SideEffect
  pub plk_requirement : PlkRequirement
  pub no_search_reason : Option NoSearchReason
  pub request_hash : String

pub record DecisionEvent : Type 0 where
  pub client : String
  pub trace_id : Option String
  pub effect : DecisionEffect
  pub no_use_reason : Option NoUseReason
  pub search_ids : List String
  pub used_fact_refs : List FactReference
  pub request_hash : String

pub record ActionEvent : Type 0 where
  pub action_id : String
  pub trace_id : String
  pub client : String
  pub phase : ActionPhase
  pub action_type : String
  pub tool_name : Option String
  pub target_hash : Option String
  pub side_effect : SideEffect
  pub outcome : ActionOutcome
  pub decision_id : Option String
  pub error_category : Option String
  pub request_hash : String

-- `links` are the decision_search_links: the decision of a search that is resolved.
pub record Log : Type 0 where
  pub searches : Dict SearchEvent
  pub intents : Dict IntentEvent
  pub decisions : Dict DecisionEvent
  pub links : Dict String
  pub actions : Dict ActionEvent

-- sha256, the first 64 characters of a text, and a command as canonical JSON
pub record External : Type 0 where
  pub sha256 : String → String
  pub first_64 : String → String
  pub intent_json : IntentCommand → String
  pub decision_json : DecisionCommand → String
  pub action_json : ActionCommand → String

-- The answer: `replayed`, and the identifier of the command.
pub record Recorded : Type 0 where
  pub replayed : Bool
  pub identifier : String

abbrev pub telemetry_error : Error
telemetry_error = runtime_error "TelemetryError"

abbrev pub telemetry_conflict : Error
telemetry_conflict = runtime_error "TelemetryConflict"

-- `_replay_if_matching`; `existing` is the hash and the client of the row, if there is one.
unfoldable pub replay_if_matching :
    Option (String × String) → String → String → String → Result (Option Recorded)
replay_if_matching none identifier client request_hash = ok none
replay_if_matching (some (hash, owner)) identifier client request_hash =
    raise_if (not (hash == request_hash) || not (owner == client)) telemetry_conflict
    >> ok (some (record { replayed = true; identifier = identifier }))

-- `if replay is not None: return replay`
abbrev pub unless_replayed :
    Log → Result (Option Recorded) → Result (Recorded × Log) → Result (Recorded × Log)
unless_replayed db (err e) rest = err e
unless_replayed db (ok (some answer)) rest = ok (answer, db)
unless_replayed db (ok none) rest = rest

-- `except IntegrityError`: the second transaction looks for the row of the other client.
abbrev pub on_integrity_error :
    Log → Result (Option Recorded) → Result (Recorded × Log) → Result (Recorded × Log)
on_integrity_error db replay (err (integrity_error _)) =
    unless_replayed db replay (err telemetry_conflict)
on_integrity_error db replay r = r

-- `insert`: the primary key admits one row.
unfoldable pub insert_row {ℓ} : {V : Type ℓ} → String → V → Dict V → Result (Dict V)
insert_row key row table =
    raise_if (has_some (find key table)) (integrity_error "") >> ok (put key row table)

-- `f(text) if text else None`
abbrev pub unless_empty : (String → String) → Option String → Option String
unless_empty f none = none
unless_empty f (some s) = if s == "" then none else some (f s)

-- The intent of a client with a trace_id
abbrev pub owned_by : String → Option IntentEvent → Option IntentEvent
owned_by client none = none
owned_by client (some intent) = if intent.client == client then some intent else none

unfoldable pub intent_of : String → String → Log → Option IntentEvent
intent_of client trace_id seen = owned_by client (find trace_id seen.intents)

abbrev pub stamp_of_intent : Option IntentEvent → Option (String × String)
stamp_of_intent none = none
stamp_of_intent (some row) = some (row.request_hash, row.client)

abbrev pub stamp_of_action : Option ActionEvent → Option (String × String)
stamp_of_action none = none
stamp_of_action (some row) = some (row.request_hash, row.client)

-- `if trace_id is not None`
unfoldable pub check_trace : String → Option String → Log → Result (Unit {0})
unfolding intent_of
check_trace client none seen = ok tt
check_trace client (some trace_id) seen =
    raise_if (not (has_some (intent_of client trace_id seen))) telemetry_error
