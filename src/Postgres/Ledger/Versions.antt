-- ===== src/Postgres/Ledger/Versions.antt =====
-- The current version of a fact, by what the key finds.
use plk_memory.Base.{
  ℕ, String, ◌&&◌, none, some, List, ◌∷◌, ◌≡◌, ◌==◌, nat_eq, string_eq, if◌then◌else◌, arith,
}
use plk_memory.Postgres.Schema.{FactRow}
use plk_memory.Postgres.Tables.{find_fact}
use plk_memory.Postgres.Ledger.{head_version}

pub head_version-none :
    (org : ℕ) (fact_id : String) (facts : List FactRow)
    → find_fact org fact_id facts ≡ none
    → head_version org fact_id facts ≡ 0
unfolding head_version
head_version-none org fact_id facts h = rw (h, head_version)

pub head_version-some :
    (org : ℕ) (fact_id : String) (facts : List FactRow) (r : FactRow)
    → find_fact org fact_id facts ≡ some r
    → head_version org fact_id facts ≡ r.current_version
unfolding head_version
head_version-some org fact_id facts r h = rw (h, head_version)

pub head_version-insert :
    (new : FactRow) (facts : List FactRow) (o : ℕ) (f : String)
    → head_version o f (new ∷ facts) ≡ (
        if new.organization_id == o && new.fact_id == f
        then new.current_version
        else head_version o f facts)
unfolding head_version
head_version-insert new facts o f = ground arith
