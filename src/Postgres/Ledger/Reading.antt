-- ===== src/Postgres/Ledger/Reading.antt =====
-- postgres/repository.py: the record that is read of a fact is that of its head.
use plk_memory.Base.{
  refl, [], ◌∷◌, string_eq, List, ℕ, ◌≡◌, nat_eq, arith, eq_iff, some, none, Option-cases, String,
  Bool-cases, ◌==◌, inr, inl, subst,
}
use plk_memory.Domain.{FactRecord}
use plk_memory.Postgres.Schema.{FactRow, RevisionRow}
use plk_memory.Postgres.Tables.{find_fact, find_revision}
use plk_memory.Postgres.Tables.Laws.{UniqueFacts}
use plk_memory.Postgres.Mappers.{record_from_row}
use plk_memory.Postgres.Repository.Queries.{current, record_by_id}
use plk_memory.Postgres.Ledger.{head_version}

current-none :
    (org : ℕ) (fact_id : String) (revisions : List RevisionRow) (facts : List FactRow)
    → find_fact org fact_id facts ≡ none
    → record_by_id fact_id (current org revisions facts) ≡ none
unfolding find_fact current record_by_id record_from_row
current-none org fact_id revisions [] h = refl
current-none org fact_id revisions (x ∷ xs) h =
    ground (arith, current-none org fact_id revisions xs)

-- The record that is read is the head's.
pub record_by_id-head_version :
    (org : ℕ) (fact_id : String) (revisions : List RevisionRow) (facts : List FactRow)
    (r : FactRecord)
    → UniqueFacts facts
    → record_by_id fact_id (current org revisions facts) ≡ some r
    → (r.organization_id ≡ org) × (r.id ≡ fact_id) × (r.revision ≡ head_version org fact_id facts)
unfolding head_version current record_by_id record_from_row
record_by_id-head_version org fact_id revisions [] r u h = absurd (cc h)
record_by_id-head_version org fact_id revisions (x ∷ xs) r u h =
    elim (Bool-cases (x.organization_id == org)) [
      | inr other ↦ ground (arith, record_by_id-head_version org fact_id revisions xs r u.1)
      | inl own ↦ elim (Bool-cases (x.fact_id == fact_id)) [
        | inr other ↦ elim (Option-cases (find_revision org x.current_revision_id revisions)) [
          | inl lacks ↦
              ground (arith, lacks, record_by_id-head_version org fact_id revisions xs r u.1)
          | inr (row, there) ↦
              ground (arith, there, record_by_id-head_version org fact_id revisions xs r u.1)
        ]
        | inl same ↦
            let o : x.organization_id ≡ org = ground arith in
            let f : x.fact_id ≡ fact_id = ground (arith, eq_iff x.fact_id fact_id) in
            elim (Option-cases (find_revision org x.current_revision_id revisions)) [
              | inl lacks ↦
                  let gone : find_fact org fact_id xs ≡ none = rw (o, f) at u.0 in
                  let none_read : record_by_id fact_id (current org revisions xs) ≡ none =
                    current-none org fact_id revisions xs gone in
                  absurd (ground (arith, lacks, none_read))
              | inr (row, there) ↦
                  let e : record_from_row x row ≡ r = ground (arith, there) in
                  subst
                    (λ (z : FactRecord).
                      (z.organization_id ≡ org)
                      × (z.id ≡ fact_id)
                      × (z.revision ≡ head_version org fact_id (x ∷ xs)))
                    e (o, f, ground arith)
            ]
      ]
    ]
