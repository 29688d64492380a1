-- ===== src/Postgres/Telemetry/Recording.antt =====
-- postgres/telemetry.py: the reports of searches and intents.
use plk_memory.Base.{ℕ, String, Option, List, false}
use plk_memory.Ports.{Result, ok, ◌>>=◌}
use plk_memory.Telemetry.{FactReference, IntentCommand}
use plk_memory.Dict.{find}
use plk_memory.Postgres.Telemetry.{
  External, Log, Recorded, IntentEvent, replay_if_matching, unless_replayed, on_integrity_error,
  insert_row, unless_empty, stamp_of_intent, check_trace,
}

module _ (ext : External) (client : String) where
  unfoldable pub record_search :
      String
      → String
      → ℕ
      → ℕ
      → Option String
      → List FactReference
      → String
      → Option String
      → Log
      → Log
      → Result Log
  unfolding check_trace insert_row
  record_search search_id query hits latency_ms reason fact_refs outcome trace_id seen db = do
    checked ← check_trace client trace_id seen
    rows ←
        insert_row search_id
          (record {
            client = client;
            trace_id = trace_id;
            query_hash = ext.sha256 query;
            reason = unless_empty ext.first_64 reason;
            outcome = outcome;
            hits = hits;
            latency_ms = latency_ms;
            fact_refs = fact_refs;
          })
          db.searches
    ok (record db { searches = rows })

  abbrev pub intent_row : IntentCommand → IntentEvent
  intent_row c = record {
    client = client;
    operation_type = c.operation_type;
    intent_hash = ext.sha256 c.intent;
    target_hash = unless_empty ext.sha256 c.target;
    side_effect = c.side_effect;
    plk_requirement = c.plk_requirement;
    no_search_reason = c.no_search_reason;
    request_hash = ext.sha256 (ext.intent_json c);
  }

  unfoldable pub replay_intent : IntentCommand → Log → Result (Option Recorded)
  unfolding replay_if_matching
  replay_intent c seen =
      replay_if_matching (stamp_of_intent (find c.trace_id seen.intents)) c.trace_id client
        (ext.sha256 (ext.intent_json c))

  unfoldable pub insert_intent : IntentCommand → Log → Result (Recorded × Log)
  unfolding insert_row
  insert_intent c db = do
    rows ← insert_row c.trace_id (intent_row c) db.intents
    ok (record { replayed = false; identifier = c.trace_id }, record db { intents = rows })

  unfoldable pub record_intent : IntentCommand → Log → Log → Result (Recorded × Log)
  unfolding replay_intent insert_intent
  record_intent c seen db =
      on_integrity_error db (replay_intent c db)
        (unless_replayed db (replay_intent c seen) (insert_intent c db))
