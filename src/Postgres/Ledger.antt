-- ===== src/Postgres/Ledger.antt =====
-- What the fact tables promise together: the heads, the revisions behind them, and the events in
-- the outbox that tell the index worker of them (postgres/repository.py, postgres/approvals.py).
pub mod Versions
pub mod Steps
pub mod Heads
pub mod Writes
pub mod Repository
pub mod Approvals
pub mod Decide
pub mod Conflicts
pub mod Staleness
pub mod Reading
pub mod Feed
use plk_memory.Base.{
  ℕ, ◌≤◌, String, Bool, ◌&&◌, Option, none, some, List, ◌≡◌, ◌==◌, All, leb, nat_eq, string_eq,
  if◌then◌else◌,
}
use plk_memory.Domain.{active}
use plk_memory.Postgres.Schema.{FactRow, RevisionRow, OutboxRow, ApprovalRow, Db}
use plk_memory.Postgres.Tables.{count_where, find_fact, find_revision}
use plk_memory.Postgres.Tables.Laws.{UniqueFacts}

-- The current version of a fact; 0 where there is none.
unfoldable pub head_version : ℕ → String → List FactRow → ℕ
unfolding find_fact
head_version org fact_id facts = elim (find_fact org fact_id facts) [
  | none ↦ 0
  | some r ↦ r.current_version
]

-- One for the versions from 1 to `n`.
abbrev pub in_range : ℕ → ℕ → ℕ
in_range v n = if leb 1 v && leb v n then 1 else 0

abbrev pub is_revision : ℕ → String → ℕ → RevisionRow → Bool
is_revision org fact_id v r = r.organization_id == org && r.fact_id == fact_id && r.version == v

abbrev pub is_event : ℕ → String → ℕ → OutboxRow → Bool
is_event org fact_id v e =
    e.organization_id == org && e.aggregate_id == fact_id && e.aggregate_version == v

-- The current revision id of a head leads to the revision of its fact, version and status.
abbrev pub Pins : FactRow → Option RevisionRow → Type 0
Pins h none = ⊥
Pins h (some r) = (r.fact_id ≡ h.fact_id) × (r.version ≡ h.current_version) × (r.status ≡ h.status)

abbrev pub Pinned : List RevisionRow → FactRow → Type 0
Pinned revisions h = Pins h (find_revision h.organization_id h.current_revision_id revisions)

-- A request names a version that was reached, and which was active if it is still the current one.
pub record IsPinnedRequest (facts : List FactRow) (a : ApprovalRow) : Type 0 where
  pub reached : a.source_version ≤ head_version a.organization_id a.fact_id facts
  pub was_active :
      (h : FactRow)
      → find_fact a.organization_id a.fact_id facts ≡ some h
      → h.current_version ≡ a.source_version
      → h.status ≡ active

pub record IsLedger (facts : List FactRow) (revisions : List RevisionRow) (outbox : List OutboxRow)
    (approvals : List ApprovalRow) : Type 0 where
  -- a fact has one head
  pub unique : UniqueFacts facts
  -- each version of a fact from 1 to the current one is recorded once, and no other
  pub recorded :
      (org : ℕ) (fact_id : String) (v : ℕ)
      → count_where (is_revision org fact_id v) revisions
        ≡ in_range v (head_version org fact_id facts)
  -- and so is the event that announces it
  pub announced :
      (org : ℕ) (fact_id : String) (v : ℕ)
      → count_where (is_event org fact_id v) outbox ≡ in_range v (head_version org fact_id facts)
  pub pinned : All (Pinned revisions) facts
  pub requests : All (IsPinnedRequest facts) approvals

abbrev pub IsConsistent : Db → Type 0
IsConsistent db = IsLedger db.facts db.revisions db.outbox db.approvals
