-- ===== src/Postgres/Repository/Locking.antt =====
-- postgres/repository.py: `_lock_heads`, and the UPDATE of heads with its row count.
use plk_memory.Base.{
  ℕ, String, Bool, ◌&&◌, Option, List, [], ◌∷◌, ◌==◌, elem, keep, nat_eq, string_eq,
}
use plk_memory.Ports.{Result, ok, err, or_raise, runtime_error, ◌>>=◌}
use plk_memory.Postgres.Schema.{FactRow, RevisionRow, Db}
use plk_memory.Postgres.Session.{Tx}
use plk_memory.Postgres.Tables.{first_where, count_where, update_where, find_revision}

-- A head merged with its current revision; of the columns that both have, the revision's is read.
pub record Head : Type 0 where
  pub fact : FactRow
  pub revision : RevisionRow

unfoldable pub merge_heads : ℕ → List RevisionRow → List FactRow → Result (List Head)
merge_heads org revisions [] = ok []
merge_heads org revisions (h ∷ hs) = do
  row ← or_raise (find_revision org h.current_revision_id revisions) (runtime_error "KeyError")
  rest ← merge_heads org revisions hs
  ok (record { fact = h; revision = row } ∷ rest)

abbrev pub with_heads : Db → Result (List Head) → Result (List Head × Db)
with_heads db (ok heads) = ok (heads, db)
with_heads db (err e) = err e

-- The locked heads, by the ids that were asked for.
unfoldable pub lock_heads : ℕ → List String → Tx (List Head)
unfolding merge_heads
lock_heads org fact_ids db = with_heads db (
    merge_heads org db.revisions
      (keep (λ (r : FactRow). r.organization_id == org && elem r.fact_id fact_ids) db.facts))

-- `heads.get(fact_id)`
unfoldable pub head_for : String → List Head → Option Head
unfolding first_where
head_for fact_id = first_where (λ head. head.fact.fact_id == fact_id)

-- `UPDATE knowledge_facts SET ... WHERE ...`, with `rowcount`
unfoldable pub update_heads : (FactRow → Bool) → (FactRow → FactRow) → Tx ℕ
update_heads test f db =
    ok (count_where test db.facts, record db { facts = update_where test f db.facts })
