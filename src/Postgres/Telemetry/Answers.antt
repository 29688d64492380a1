-- ===== src/Postgres/Telemetry/Answers.antt =====
-- The two ways to an answer: a row that matches the report, or a new row.
use plk_memory.Base.{String, true, Option, none, some, ◌≡◌, refl, arith, eq_iff, inl, inr, ◌⊎◌}
use plk_memory.Ports.{Result, ok, err, Error, integrity_error}
use plk_memory.Postgres.Telemetry.{
  Log, Recorded, unless_replayed, on_integrity_error, replay_if_matching, telemetry_conflict,
}

answered_second :
    (db db' : Log) (second : Result (Option Recorded)) (e : Error) (answer : Recorded)
    → unless_replayed db second (err e) ≡ ok (answer, db')
    → (second ≡ ok (some answer)) × (db' ≡ db)
answered_second db db' (ok (some a)) e answer h = ground arith
answered_second db db' (ok none) e answer h = absurd (cc h)
answered_second db db' (err e') e answer h = absurd (cc h)

on_error :
    (db db' : Log) (second : Result (Option Recorded)) (rest : Result (Recorded × Log))
    (answer : Recorded)
    → on_integrity_error db second rest ≡ ok (answer, db')
    → ((second ≡ ok (some answer)) × (db' ≡ db)) ⊎ (rest ≡ ok (answer, db'))
on_error db db' second (ok r) answer h = inr h
on_error db db' second (err (integrity_error m)) answer h =
    inl (answered_second db db' second telemetry_conflict answer h)
on_error db db' second (err e) answer h = ground arith

pub answered :
    (db db' : Log) (first second : Result (Option Recorded)) (rest : Result (Recorded × Log))
    (answer : Recorded)
    → on_integrity_error db second (unless_replayed db first rest) ≡ ok (answer, db')
    → (((first ≡ ok (some answer)) ⊎ (second ≡ ok (some answer))) × (db' ≡ db))
      ⊎ ((first ≡ ok none) × (rest ≡ ok (answer, db')))
answered db db' (ok (some a)) second rest answer h = inl (inl (ground arith), ground arith)
answered db db' (ok none) second rest answer h = elim (on_error db db' second rest answer h) [
  | inl (s, e) ↦ inl (inr s, e)
  | inr r ↦ inr (refl, r)
]
answered db db' (err e) second rest answer h = elim (on_error db db' second (err e) answer h) [
  | inl (s, e') ↦ inl (inr s, e')
  | inr r ↦ absurd (cc r)
]

-- What an answer from a row says of it.
pub replay_if_matching_ok :
    (existing : Option (String × String)) (identifier client request_hash : String)
    (answer : Recorded)
    → replay_if_matching existing identifier client request_hash ≡ ok (some answer)
    → (existing ≡ some (request_hash, client))
      × (answer ≡ record { replayed = true; identifier = identifier })
unfolding replay_if_matching
replay_if_matching_ok none identifier client request_hash answer h = absurd (cc h)
replay_if_matching_ok (some (hash, owner)) identifier client request_hash answer h =
    ground (arith, eq_iff hash request_hash, eq_iff owner client)

pub replay_if_matching_same :
    (identifier client request_hash : String)
    → replay_if_matching (some (request_hash, client)) identifier client request_hash
      ≡ ok (some (record { replayed = true; identifier = identifier }))
unfolding replay_if_matching
replay_if_matching_same identifier client request_hash =
    ground (arith, eq_iff request_hash request_hash, eq_iff client client)
