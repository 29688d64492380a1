-- ===== src/Postgres/Telemetry/Following.antt =====
-- The actions of a trace.
use plk_memory.Base.{
  String, Bool, true, some, none, List, [], ◌∷◌, ◌≡◌, refl, ap, subst, ◌∙◌, Bool-cases, arith,
  eq_iff, inl, inr, ◌==◌, string_eq, ◌⊎◌, any_of, not, Option,
}
use plk_memory.Ports.{ok, bind_ok, or_raise, raise_if, ◌>>◌}
use plk_memory.Telemetry.{SideEffect, ActionCommand, attempted, completed}
use plk_memory.Dict.{find, values}
use plk_memory.Dict.Laws.{find-put_same}
use mathlib.Core.List.{Memᴰ}
use plk_memory.Postgres.Telemetry.{
  insert_row, owned_by, External, Log, Recorded, IntentEvent, ActionEvent, telemetry_error,
  intent_of, stamp_of_action,
}
use plk_memory.Postgres.Telemetry.Answers.{answered, replay_if_matching_ok}
use plk_memory.Postgres.Telemetry.Decided.{insert_row_ok}
use plk_memory.Postgres.Telemetry.Actions.{
  record_action, replay_action, check_action, insert_action, action_row, check_linked,
  check_attempted, same_effect, attempts,
}

-- The client has an intent for the trace, with the side effect of the action, and an action that
-- is completed has been attempted.
abbrev pub Follows : String → ActionCommand → Log → Type 0
Follows client c seen =
    ((intent : IntentEvent) × (find c.trace_id seen.intents ≡ some intent)
      × (intent.client ≡ client)
      × (intent.side_effect ≡ c.side_effect))
    × (c.phase ≡ completed
        → (row : ActionEvent) × Memᴰ row (values seen.actions)
          × (row.action_id ≡ c.action_id)
          × (row.trace_id ≡ c.trace_id)
          × (row.phase ≡ attempted))

any_of-Mem :
    {A : Type 0} (test : A → Bool) (rows : List A)
    → any_of test rows ≡ true
    → (row : A) × Memᴰ row rows × (test row ≡ true)
any_of-Mem test [] h = absurd (cc h)
any_of-Mem test (x ∷ rows) h = elim (Bool-cases (test x)) [
  | inl passes ↦ (x, Memᴰ.head refl, passes)
  | inr fails ↦
      let (row, m, t) = any_of-Mem test rows (ground (arith, fails)) in (row, Memᴰ.tail m, t)
]

owned_by_lem :
    (client : String) (row : Option IntentEvent) (intent : IntentEvent)
    → or_raise (owned_by client row) telemetry_error ≡ ok intent
    → (row ≡ some intent) × (intent.client ≡ client)
owned_by_lem client none intent h = absurd (cc h)
owned_by_lem client (some i) intent h = elim (Bool-cases (i.client == client)) [
  | inl mine ↦
      let e : i ≡ intent = ground (arith, mine) in
      (ap some e, subst (λ z. z.client ≡ client) e (ground (arith, eq_iff i.client client)))
  | inr other ↦ absurd (cc (rw other at h))
]

intent_of_lem :
    (client trace_id : String) (seen : Log) (intent : IntentEvent)
    → or_raise (intent_of client trace_id seen) telemetry_error ≡ ok intent
    → (find trace_id seen.intents ≡ some intent) × (intent.client ≡ client)
unfolding intent_of
intent_of_lem client trace_id seen intent h =
    owned_by_lem client (find trace_id seen.intents) intent h

same_effect_lem : (a b : SideEffect) → same_effect a b ≡ true → a ≡ b
same_effect_lem a b h = ground arith

attempts_lem :
    (action_id trace_id : String) (row : ActionEvent)
    → attempts action_id trace_id row ≡ true
    → (row.action_id ≡ action_id) × (row.trace_id ≡ trace_id) × (row.phase ≡ attempted)
attempts_lem action_id trace_id row h = (
  ground (arith, eq_iff row.action_id action_id),
  ground (arith, eq_iff row.trace_id trace_id),
  ground arith,
)

module _ (ext : External) (client : String) (c : ActionCommand) where
  check_attempted-Mem :
      (seen : Log) {done : Unit {0}}
      → check_attempted ext client c seen ≡ ok done
      → c.phase ≡ completed
      → (row : ActionEvent) × Memᴰ row (values seen.actions)
        × (row.action_id ≡ c.action_id)
        × (row.trace_id ≡ c.trace_id)
        × (row.phase ≡ attempted)
  unfolding check_attempted
  check_attempted-Mem seen h phase =
      let found : any_of (attempts c.action_id c.trace_id) (values seen.actions) ≡ true =
        ground (arith, phase) in
      let (row, m, t) = any_of-Mem (attempts c.action_id c.trace_id) (values seen.actions) found in
      let (same, traced, first) = attempts_lem c.action_id c.trace_id row t in
      (row, m, same, traced, first)

  check_action-Follows :
      (seen : Log) {done : Unit {0}}
      → check_action ext client c seen ≡ ok done
      → Follows client c seen
  unfolding check_action
  check_action-Follows seen {done} h =
      let (intent, first, h₁) =
        bind_ok (or_raise (intent_of client c.trace_id seen) telemetry_error) _ done h in
      let (_, agrees, h₂) =
        bind_ok (raise_if (not (same_effect intent.side_effect c.side_effect)) telemetry_error) _
          done h₁ in
      let (_, linked, h₃) =
        bind_ok (check_linked ext client c seen) (λ _. check_attempted ext client c seen) done h₂ in
      let (found, mine) = intent_of_lem client c.trace_id seen intent first in
      (
        (intent, found, mine, same_effect_lem intent.side_effect c.side_effect (ground arith)),
        check_attempted-Mem seen h₃,
      )

  -- An action that is new follows the records its transaction has read, and its row, with the
  -- client, the trace and the phase of the command, has been added under its event_id; any other
  -- answer of `record_action` changes nothing.
  pub record_action-Follows :
      (seen db db' : Log) (answer : Recorded)
      → record_action ext client c seen db ≡ ok (answer, db')
      → ((answer.replayed ≡ true) × (db' ≡ db))
        ⊎ (Follows client c seen
            × (find c.event_id db.actions ≡ none)
            × (find c.event_id db'.actions ≡ some (action_row ext client c)))
  unfolding record_action replay_action insert_action
  record_action-Follows seen db db' answer h =
      elim (answered db db' (replay_action ext client c seen) (replay_action ext client c db)
        (check_action ext client c seen >> insert_action ext client c db) answer h) [
          | inl (inl now, e) ↦ inl (
            ap (λ z. z.replayed)
                (replay_if_matching_ok (stamp_of_action (find c.event_id seen.actions)) c.event_id
                  client (ext.sha256 (ext.action_json c)) answer now).1,
            e,
          )
          | inl (inr now, e) ↦ inl (
            ap (λ z. z.replayed)
                (replay_if_matching_ok (stamp_of_action (find c.event_id db.actions)) c.event_id
                  client (ext.sha256 (ext.action_json c)) answer now).1,
            e,
          )
          | inr (_, fresh) ↦
              let (done, checked, inserted) =
                bind_ok (check_action ext client c seen) (λ _. insert_action ext client c db)
                  (answer, db') fresh in
              let (rows, first, last) =
                bind_ok (insert_row c.event_id (action_row ext client c) db.actions) _ (answer, db')
                  inserted in
              let (free, made) =
                insert_row_ok c.event_id (action_row ext client c) db.actions rows first in
              let e : db'.actions ≡ rows = ground arith in
              inr (
                check_action-Follows seen checked,
                free,
                ap (find c.event_id) (e ∙ made)
                    ∙ find-put_same c.event_id (action_row ext client c) db.actions,
              )
        ]
