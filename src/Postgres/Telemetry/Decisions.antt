-- ===== src/Postgres/Telemetry/Decisions.antt =====
-- postgres/telemetry.py: the report of a decision, which resolves the searches it rests on.
use plk_memory.Base.{
  String, Bool, true, false, Option, none, some, List, [], ◌∷◌, any_of, not, ◌==◌, ◌||◌, string_eq,
  leb,
}
use plk_memory.Ports.{Result, ok, raise_if, ◌>>=◌, ◌>>◌, or_raise}
use plk_memory.Telemetry.{FactReference, DecisionCommand, has_some}
use plk_memory.Dict.{Dict, find, put}
use plk_memory.Postgres.Telemetry.{
  External, Log, Recorded, SearchEvent, DecisionEvent, telemetry_error, telemetry_conflict,
  replay_if_matching, unless_replayed, on_integrity_error, insert_row, check_trace,
}

-- The rows of the searches, in the order of their ids (the query names none); an error when one is
-- unknown.
unfoldable pub rows_of : List String → Dict SearchEvent → Result (List SearchEvent)
rows_of [] searches = ok []
rows_of (id ∷ ids) searches = do
  row ← or_raise (find id searches) telemetry_error
  rows ← rows_of ids searches
  ok (row ∷ rows)

abbrev pub is_foreign : String → SearchEvent → Bool
is_foreign client row = not (row.client == client)

-- `searches[item].trace_id != command.trace_id`
abbrev pub is_untraced : String → SearchEvent → Bool
is_untraced trace_id row = elim row.trace_id [ none ↦ true | some t ↦ not (t == trace_id) ]

abbrev pub has_no_hits : SearchEvent → Bool
has_no_hits row = not (row.outcome == "ok") || leb row.hits 0

-- A search with a trace needs a decision with that trace.
unfoldable pub check_traces : String → Option String → List SearchEvent → Log → Result (Unit {0})
unfolding check_trace
check_traces client none rows seen =
    raise_if (any_of (λ row. has_some row.trace_id) rows) telemetry_error
check_traces client (some trace_id) rows seen =
    check_trace client (some trace_id) seen
    >> raise_if (any_of (is_untraced trace_id) rows) telemetry_error

-- `refs_by_id`, the references by their fact; a later one replaces an earlier one.
abbrev pub index_refs : List FactReference → Dict FactReference → Dict FactReference
index_refs [] index = index
index_refs (ref ∷ refs) index = index_refs refs (put ref.fact_id ref index)

unfoldable pub refs_by_id : List SearchEvent → Dict FactReference → Dict FactReference
refs_by_id [] index = index
refs_by_id (row ∷ rows) index = refs_by_id rows (index_refs row.fact_refs index)

-- `[refs_by_id[fact_id] for fact_id in used_fact_ids]`; an error when one is missing
unfoldable pub used_refs : List String → Dict FactReference → Result (List FactReference)
used_refs [] index = ok []
used_refs (fact_id ∷ ids) index = do
  ref ← or_raise (find fact_id index) telemetry_error
  refs ← used_refs ids index
  ok (ref ∷ refs)

unfoldable pub insert_links : List String → String → Dict String → Result (Dict String)
unfolding insert_row
insert_links [] decision_id links = ok links
insert_links (search_id ∷ ids) decision_id links = do
  more ← insert_row search_id decision_id links
  insert_links ids decision_id more

abbrev pub stamp_of : Option DecisionEvent → Option (String × String)
stamp_of none = none
stamp_of (some row) = some (row.request_hash, row.client)

module _ (ext : External) (client : String) where
  unfoldable pub replay_decision_report : DecisionCommand → Log → Result (Option Recorded)
  unfolding replay_if_matching
  replay_decision_report c seen =
      replay_if_matching (stamp_of (find c.decision_id seen.decisions)) c.decision_id client
        (ext.sha256 (ext.decision_json c))

  -- The checks of a decision that is new, and the references of the facts it used.
  unfoldable pub check_decision : DecisionCommand → Log → Result (List FactReference)
  unfolding rows_of check_traces used_refs refs_by_id
  check_decision c seen = do
    rows ← rows_of c.search_ids seen.searches
    own ← raise_if (any_of (is_foreign client) rows) telemetry_error
    traced ← check_traces client c.trace_id rows seen
    fruitful ← raise_if (any_of has_no_hits rows) telemetry_error
    unresolved ←
        raise_if (any_of (λ id. has_some (find id seen.links)) c.search_ids) telemetry_conflict
    used_refs c.used_fact_ids (refs_by_id rows [])

  abbrev pub decision_row : DecisionCommand → List FactReference → DecisionEvent
  decision_row c refs = record {
    client = client;
    trace_id = c.trace_id;
    effect = c.effect;
    no_use_reason = c.no_use_reason;
    search_ids = c.search_ids;
    used_fact_refs = refs;
    request_hash = ext.sha256 (ext.decision_json c);
  }

  unfoldable pub insert_decision_report :
      DecisionCommand → List FactReference → Log → Result (Recorded × Log)
  unfolding insert_row insert_links
  insert_decision_report c refs db = do
    rows ← insert_row c.decision_id (decision_row c refs) db.decisions
    links ← insert_links c.search_ids c.decision_id db.links
    ok (
      record { replayed = false; identifier = c.decision_id },
      record db { decisions = rows; links = links },
    )

  unfoldable pub record_decision : DecisionCommand → Log → Log → Result (Recorded × Log)
  unfolding replay_decision_report check_decision insert_decision_report
  record_decision c seen db = on_integrity_error db (replay_decision_report c db) (
      unless_replayed db (replay_decision_report c seen)
        (do refs ← check_decision c seen; insert_decision_report c refs db))
