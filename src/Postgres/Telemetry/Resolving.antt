-- ===== src/Postgres/Telemetry/Resolving.antt =====
-- A decision resolves its searches, each of which no decision has resolved before.
use plk_memory.Base.{
  String, Bool, true, false, none, some, List, [], ◌∷◌, ◌≡◌, if◌then◌else◌, arith, eq_iff,
  Bool-cases, inl, inr, elem, string_eq, subst, ◌==◌, ◌||◌, ◌⊎◌, ap,
}
use plk_memory.Ports.{ok, bind_ok}
use plk_memory.Telemetry.{DecisionCommand}
use plk_memory.Dict.{Dict, find, put}
use plk_memory.Dict.Laws.{find-put}
use plk_memory.Postgres.Telemetry.{External, Log, Recorded, insert_row}
use plk_memory.Postgres.Telemetry.Decisions.{record_decision, insert_links}
use plk_memory.Postgres.Telemetry.Decided.{
  insert_row_ok, insert_decision_report_lem, replay_decision_report_ok, record_decision_cases,
}

-- The searches `ids` have no decision in `links`; `links'` gives them this one, and others theirs.
abbrev pub Resolves : List String → String → Dict String → Dict String → Type 0
Resolves ids decision_id links links' =
    (x : String)
    → (find x links' ≡ (if elem x ids then some decision_id else find x links))
      × (elem x ids ≡ true → find x links ≡ none)

link_step :
    (id d x : String) (links links' : Dict String) (later : Bool)
    → find id links ≡ none
    → find x links' ≡ (if later then some d else find x (put id d links))
    → (later ≡ true → find x (put id d links) ≡ none)
    → (find x links' ≡ (if (x == id) || later then some d else find x links))
      × ((x == id) || later ≡ true → find x links ≡ none)
link_step id d x links links' later free now before = elim (Bool-cases (id == x)) [
  | inl hit ↦
      let e : id ≡ x = ground (arith, eq_iff id x) in
      let free' : find x links ≡ none = subst (λ z. find z links ≡ none) e free in
      (ground (arith, find-put x id d links, eq_iff x id), λ _. free')
  | inr miss ↦ (
    ground (arith, find-put x id d links, eq_iff x id, eq_iff id x),
    ground (arith, find-put x id d links, eq_iff x id, eq_iff id x),
  )
]

-- What the links are once the searches are resolved.
insert_links_lem :
    (ids : List String) (decision_id : String) (links links' : Dict String) (x : String)
    → insert_links ids decision_id links ≡ ok links'
    → (find x links' ≡ (if elem x ids then some decision_id else find x links))
      × (elem x ids ≡ true → find x links ≡ none)
unfolding insert_links find
insert_links_lem [] d links links' x h = ground arith
insert_links_lem (id ∷ ids) d links links' x h =
    let (more, first, rest) = bind_ok (insert_row id d links) (insert_links ids d) links' h in
    let (free, made) = insert_row_ok id d links more first in
    let (now, before) =
      insert_links_lem ids d (put id d links) links' x
        (subst (λ z. insert_links ids d z ≡ ok links') made rest) in
    link_step id d x links links' (elem x ids) free now before

module _ (ext : External) (client : String) (c : DecisionCommand) where
  replayed :
      (db db' : Log) (answer : Recorded)
      → answer ≡ record { replayed = true; identifier = c.decision_id }
      → db' ≡ db
      → (answer.identifier ≡ c.decision_id)
        × (((answer.replayed ≡ true) × (db' ≡ db))
            ⊎ ((answer.replayed ≡ false) × Resolves c.search_ids c.decision_id db.links db'.links))
  replayed db db' answer made e = (ap (λ z. z.identifier) made, inl (ap (λ z. z.replayed) made, e))

  -- An answer of `record_decision` names the decision. Either it is a replay and nothing has
  -- changed, or the searches of the decision, none of them resolved before, now have this decision
  -- and every other search has the decision it had.
  pub record_decision-resolves :
      (seen db db' : Log) (answer : Recorded)
      → record_decision ext client c seen db ≡ ok (answer, db')
      → (answer.identifier ≡ c.decision_id)
        × (((answer.replayed ≡ true) × (db' ≡ db))
            ⊎ ((answer.replayed ≡ false) × Resolves c.search_ids c.decision_id db.links db'.links))
  record_decision-resolves seen db db' answer h =
      elim (record_decision_cases ext client c seen db db' answer h) [
        | inl (inl now, e) ↦
            replayed db db' answer (replay_decision_report_ok ext client c seen answer now).1 e
        | inl (inr now, e) ↦
            replayed db db' answer (replay_decision_report_ok ext client c db answer now).1 e
        | inr (refs, _, inserted) ↦
            let (linked, _, _, made) =
              insert_decision_report_lem ext client c refs db db' answer inserted in
            (
              ap (λ z. z.identifier) made,
              inr (
                ap (λ z. z.replayed) made,
                λ x. insert_links_lem c.search_ids c.decision_id db.links db'.links x linked,
              ),
            )
      ]
