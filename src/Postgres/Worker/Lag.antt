-- ===== src/Postgres/Worker/Lag.antt =====
-- postgres/worker.py: the lag that `PostgresProjectionStatus` reports.
use plk_memory.Base.{
  ◌≡◌, refl, ℕ, ◌≤◌, ◌↔◌, String, List, [], ◌∷◌, All, Option-cases, Bool-cases, inl, inr, arith,
  ◌&&◌, ◌==◌, nat_eq, Bool, false,
}
use plk_memory.Postgres.Schema.{FactRow, Db}
use plk_memory.Postgres.Tables.{first_where, count_where}
use plk_memory.Postgres.IndexState.{projection_key}
use plk_memory.Postgres.IndexState.Monotone.{indexed}
use plk_memory.Postgres.Worker.{lags, snapshot}

-- Of the organization's facts, the index has the current versions.
abbrev pub IsIndexed : String → ℕ → Db → FactRow → Type 0
IsIndexed backend org db h =
    h.organization_id ≡ org → h.current_version ≤ indexed backend h.organization_id h.fact_id db

abbrev is_behind : String → ℕ → Db → FactRow → Bool
is_behind backend org db h = h.organization_id == org && lags backend db.projections h

behind :
    (backend : String) (org : ℕ) (db : Db) (h : FactRow)
    → 1 ≤ h.current_version
    → (is_behind backend org db h ≡ false) ↔ IsIndexed backend org db h
unfolding indexed
behind backend org db h positive =
    elim (Option-cases
      (first_where (projection_key backend h.organization_id h.fact_id) db.projections)) [
        | inl unindexed ↦
            (λ e o. absurd (ground (arith, unindexed)), λ k. ground (arith, unindexed, k))
        | inr (row, there) ↦ (λ e o. ground (arith, there), λ k. ground (arith, there, k))
      ]

none_behind :
    (backend : String) (org : ℕ) (db : Db) (facts : List FactRow)
    → All (λ h. 1 ≤ h.current_version) facts
    → (count_where (is_behind backend org db) facts ≡ 0) ↔ All (IsIndexed backend org db) facts
unfolding count_where
none_behind backend org db [] positive = (λ _. tt, λ _. refl)
none_behind backend org db (h ∷ hs) positive =
    let one = behind backend org db h positive.0 in
    let rest = none_behind backend org db hs positive.1 in
    elim (Bool-cases (is_behind backend org db h)) [
      | inl late ↦ (λ e. absurd (ground (arith, late)), λ k. absurd (cc (late, one.1 k.0)))
      | inr level ↦ (
        λ e. (one.0 level, rest.0 (ground (arith, level))),
        λ k. ground (arith, level, rest.1 k.1),
      )
    ]

-- Where versions are positive, the reported lag of an organization is 0 just if the index has the
-- current version of each of its facts.
pub snapshot-IsIndexed :
    (backend : String) (now org : ℕ) (db : Db)
    → All (λ h. 1 ≤ h.current_version) db.facts
    → ((snapshot backend now org db).projection_lag_facts ≡ 0)
      ↔ All (IsIndexed backend org db) db.facts
unfolding snapshot
snapshot-IsIndexed backend now org db positive = none_behind backend org db db.facts positive
