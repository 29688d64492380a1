-- ===== src/Postgres/Ledger/Staleness.antt =====
-- postgres/approvals.py: a decision on a proposal whose fact has changed publishes nothing.
use plk_memory.Base.{
  List, ◌∙◌, ◌&&◌, Option-cases, inl, inr, ◌≡◌, refl, ℕ, String, true, false, ◌||◌, ◌==◌, none,
  some, arith, nat_eq, string_eq, elem, ltb, ◌≤◌,
}
use plk_memory.Base.Text.{char_count, strip}
use plk_memory.Domain.{
  ActorContext, ApprovalStatus, PromotionDecisionResult, pending, stale, approval_eq,
}
use plk_memory.Ports.{ok}
use plk_memory.Postgres.Schema.{FactRow, ApprovalRow, Db}
use plk_memory.Postgres.Session.{◌>>=◌}
use plk_memory.Postgres.Tables.{first_where, update_where, find_fact, idempotency_key_of}
use plk_memory.Postgres.Tables.Laws.{first_where-holds, first_where-update_where}
use plk_memory.Postgres.External.{External}
use plk_memory.Postgres.WriteOps.{begin_key, add_key}
use plk_memory.Postgres.Approvals.{
  request_key, request_record, decision_of, decide_stale, decide_new, decide,
}

-- The request of the organization with this id is stale from now on, and any other is as it was; no
-- revision comes of it, and facts, revisions and events stay.
pub record IsStale (org uuid now : ℕ) (row : ApprovalRow) (db : Db) (r : PromotionDecisionResult)
    (db' : Db) : Type 0 where
  pub stored :
      first_where (request_key org uuid) db'.approvals
      ≡ some (record row { status = stale; updated_at = now })
  pub others :
      (org' uuid' : ℕ)
      → (org' == org) && (uuid' == uuid) ≡ false
      → first_where (request_key org' uuid') db'.approvals
        ≡ first_where (request_key org' uuid') db.approvals
  pub marked : r.request.status ≡ stale
  pub about : r.request.request_id ≡ uuid
  pub no_revision : r.fact_revision ≡ none
  pub no_event : r.event_id ≡ none
  pub facts : db'.facts ≡ db.facts
  pub revisions : db'.revisions ≡ db.revisions
  pub outbox : db'.outbox ≡ db.outbox

module _ (org uuid : ℕ) (f : ApprovalRow → ApprovalRow)
    (keeps_org : (r : ApprovalRow) → (f r).organization_id ≡ r.organization_id)
    (keeps_id : (r : ApprovalRow) → (f r).request_id ≡ r.request_id) (rows : List ApprovalRow)
    (row : ApprovalRow) (requested : first_where (request_key org uuid) rows ≡ some row) where
  is_requested : (row.organization_id ≡ org) × (row.request_id ≡ uuid)
  is_requested =
      let h = first_where-holds (request_key org uuid) rows row requested in
      (ground (arith, h), ground (arith, h))

  request_updated :
      first_where (request_key org uuid) (update_where (request_key org row.request_id) f rows)
      ≡ some (f row)
  request_updated =
      let (own, same) = is_requested in
      let h =
        first_where-update_where (request_key org uuid) (request_key org row.request_id) f
          (λ r. rw (keeps_org r, keeps_id r) refl) rows in
      h ∙ ground (arith, requested, own, same)

  updated_other :
      (org' uuid' : ℕ) (x : ApprovalRow)
      → (org' == org) && (uuid' == uuid) ≡ false
      → request_key org' uuid' x ≡ true
      → request_key org row.request_id x ≡ false
  updated_other org' uuid' x other holds =
      let (own, same) = is_requested in ground (arith, same, other, holds)

  request_kept :
      (org' uuid' : ℕ)
      → (org' == org) && (uuid' == uuid) ≡ false
      → first_where (request_key org' uuid') (update_where (request_key org row.request_id) f rows)
        ≡ first_where (request_key org' uuid') rows
  request_kept org' uuid' other =
      let h =
        first_where-update_where (request_key org' uuid') (request_key org row.request_id) f
          (λ r. rw (keeps_org r, keeps_id r) refl) rows in
      elim (Option-cases (first_where (request_key org' uuid') rows)) [
        | inl absent ↦ h ∙ rw absent refl
        | inr (x, found) ↦
            let miss =
              updated_other org' uuid' x other
                (first_where-holds (request_key org' uuid') rows x found) in
            h ∙ rw found (rw miss refl)
      ]

module _ (ext : External) (actor : ActorContext) (fresh : ℕ → ℕ) (now : ℕ) where
  abbrev mark : ApprovalRow → ApprovalRow
  mark r = record r { status = stale; updated_at = now }

  decide_new-IsStale :
      (request_id : String) (uuid : ℕ) (verdict : ApprovalStatus) (rationale : String)
      (expected : ℕ) (key : String) (db : Db) (row : ApprovalRow) (head : FactRow)
      → first_where (request_key actor.organization_id uuid) db.approvals ≡ some row
      → row.status ≡ pending
      → find_fact actor.organization_id row.fact_id db.facts ≡ some head
      → (row.source_version == expected) ≡ true
      → (head.current_version == row.source_version) ≡ false
      → (r : PromotionDecisionResult) × (db' : Db) × (decide_new ext actor fresh now request_id uuid
            verdict rationale expected key db
          ≡ ok (r, db'))
        × IsStale actor.organization_id uuid now row db r db'
  unfolding decide_new decide_stale request_record ◌>>=◌
  decide_new-IsStale request_id uuid verdict rationale expected key db row head requested waits
        found expects moved =
      rw (requested, waits, found, expects, moved)
        (
          _,
          _,
          refl,
          record {
            stored =
                request_updated actor.organization_id uuid mark (λ r. refl) (λ r. refl) db.approvals
                  row requested;
            others =
                request_kept actor.organization_id uuid mark (λ r. refl) (λ r. refl) db.approvals
                  row requested;
            marked = refl;
            about =
                (is_requested actor.organization_id uuid mark (λ r. refl) (λ r. refl) db.approvals
                  row requested).1;
            no_revision = refl;
            no_event = refl;
            facts = refl;
            revisions = refl;
            outbox = refl;
          },
        )

  -- A reviewer's well-formed decision, under a new key, on a pending request whose fact is no longer
  -- at the version that was proposed, returns: the request is stale in the answer and in the
  -- tables, where other requests stay as they were, and nothing is published.
  pub decide-IsStale :
      (request_id verdict_text rationale : String) (expected : ℕ) (key : String) (db : Db)
      (uuid : ℕ) (verdict : ApprovalStatus) (row : ApprovalRow) (head : FactRow)
      → elem "reviewer" actor.roles || elem "admin" actor.roles ≡ true
      → decision_of verdict_text ≡ some verdict
      → 5 ≤ char_count (strip rationale)
      → ext.parse_uuid request_id ≡ some uuid
      → first_where (idempotency_key_of actor.organization_id key) db.idempotency ≡ none
      → first_where (request_key actor.organization_id uuid) db.approvals ≡ some row
      → row.status ≡ pending
      → find_fact actor.organization_id row.fact_id db.facts ≡ some head
      → (row.source_version == expected) ≡ true
      → (head.current_version == row.source_version) ≡ false
      → (r : PromotionDecisionResult) × (db' : Db) × (decide ext actor fresh now request_id
            verdict_text rationale expected key db
          ≡ ok (r, db'))
        × IsStale actor.organization_id uuid now row db r db'
  unfolding decide begin_key add_key ◌>>=◌
  decide-IsStale request_id verdict_text rationale expected key db uuid verdict row head role chosen
        long parsed free requested waits found expects moved =
      let enough : ltb (char_count (strip rationale)) 5 ≡ false = ground arith in
      let (r, db', e, s) =
        decide_new-IsStale request_id uuid verdict rationale expected key _ row head requested waits
          found expects moved in
      rw (role, chosen, enough, parsed, free)
        (
          r,
          db',
          e,
          record {
            stored = s.stored;
            others = s.others;
            marked = s.marked;
            about = s.about;
            no_revision = s.no_revision;
            no_event = s.no_event;
            facts = s.facts;
            revisions = s.revisions;
            outbox = s.outbox;
          },
        )
