-- ===== src/Postgres/Tables.antt =====
-- postgres/schema.py: the keys and unique constraints of the tables, as the inserts meet them, and
-- the lookups by key. A violated constraint raises; the transaction then rolls back.
pub mod Laws
use plk_memory.Base.{
  ℕ, ◌+◌, String, Bool, ◌&&◌, ◌||◌, Option, none, some, List, [], ◌∷◌, ◌==◌, ltb, any_of,
  if◌then◌else◌, nat_eq, string_eq,
}
use plk_memory.Domain.{pending, operation_eq, approval_eq}
use plk_memory.Ports.{ok, err, integrity_error}
use plk_memory.Postgres.Schema.{
  FactRow, RevisionRow, RelationRow, IdempotencyRow, OutboxRow, ApprovalRow, DecisionRow, AuditRow,
}
use plk_memory.Postgres.Session.{Tx}

-- `WHERE test` as the first row, as a count, and as an UPDATE.
module _ {ℓ} {A : Type ℓ} (test : A → Bool) where
  unfoldable pub first_where : List A → Option A
  first_where [] = none
  first_where (x ∷ xs) = if test x then some x else first_where xs

  unfoldable pub count_where : List A → ℕ
  count_where [] = 0
  count_where (x ∷ xs) = (if test x then 1 else 0) + count_where xs

  unfoldable pub update_where : (A → A) → List A → List A
  update_where f [] = []
  update_where f (x ∷ xs) = (if test x then f x else x) ∷ update_where f xs

abbrev pub fact_key : ℕ → String → FactRow → Bool
fact_key org fact_id r = r.organization_id == org && r.fact_id == fact_id

abbrev pub revision_key : ℕ → ℕ → RevisionRow → Bool
revision_key org revision_id r = r.organization_id == org && r.revision_id == revision_id

abbrev pub idempotency_key_of : ℕ → String → IdempotencyRow → Bool
idempotency_key_of org key r = r.organization_id == org && r.idempotency_key == key

unfoldable pub find_fact : ℕ → String → List FactRow → Option FactRow
unfolding first_where
find_fact org fact_id = first_where (fact_key org fact_id)

unfoldable pub find_revision : ℕ → ℕ → List RevisionRow → Option RevisionRow
unfolding first_where
find_revision org revision_id = first_where (revision_key org revision_id)

-- The primary key (organization_id, fact_id), the unique current revision, and positive_version.
unfoldable pub fact_clash : FactRow → FactRow → Bool
fact_clash new r =
    fact_key new.organization_id new.fact_id r
    || (r.organization_id == new.organization_id
        && r.current_revision_id == new.current_revision_id)

unfoldable pub insert_fact : FactRow → Tx (Unit {0})
unfolding fact_clash
insert_fact new db =
    if ltb new.current_version 1 || any_of (fact_clash new) db.facts
    then err (integrity_error "knowledge_facts")
    else ok (tt, record db { facts = new ∷ db.facts })

-- The primary key (organization_id, revision_id), and one row for each version of a fact.
unfoldable pub revision_clash : RevisionRow → RevisionRow → Bool
revision_clash new r =
    revision_key new.organization_id new.revision_id r
    || (r.organization_id == new.organization_id
        && r.fact_id == new.fact_id
        && r.version == new.version)

unfoldable pub insert_revision : RevisionRow → Tx (Unit {0})
unfolding revision_clash
insert_revision new db =
    if ltb new.version 1 || any_of (revision_clash new) db.revisions
    then err (integrity_error "knowledge_fact_revisions")
    else ok (tt, record db { revisions = new ∷ db.revisions })

-- The primary key, one row for a pair of facts, and one active superseder for a fact.
unfoldable pub relation_clash : RelationRow → RelationRow → Bool
relation_clash new r =
    r.organization_id == new.organization_id
    && (r.relation_id == new.relation_id || r.to_fact_id == new.to_fact_id)

unfoldable pub insert_relation : RelationRow → Tx (Unit {0})
unfolding relation_clash
insert_relation new db =
    if new.from_fact_id == new.to_fact_id || any_of (relation_clash new) db.relations
    then err (integrity_error "knowledge_relations")
    else ok (tt, record db { relations = new ∷ db.relations })

-- The primary key (organization_id, event_id), and one event of a type for each version.
unfoldable pub event_clash : OutboxRow → OutboxRow → Bool
event_clash new r =
    r.organization_id == new.organization_id
    && (r.event_id == new.event_id
        || (r.aggregate_id == new.aggregate_id
            && r.aggregate_version == new.aggregate_version
            && r.operation == new.operation))

unfoldable pub insert_event : OutboxRow → Tx (Unit {0})
unfolding event_clash
insert_event new db =
    if ltb new.aggregate_version 1 || any_of (event_clash new) db.outbox
    then err (integrity_error "outbox_events")
    else ok (tt, record db { outbox = new ∷ db.outbox })

unfoldable pub insert_audit : AuditRow → Tx (Unit {0})
insert_audit new db =
    if any_of
      (λ (r : AuditRow). r.organization_id == new.organization_id && r.audit_id == new.audit_id)
      db.audit
    then err (integrity_error "audit_events")
    else ok (tt, record db { audit = new ∷ db.audit })

-- The primary key, and one pending request for a fact.
unfoldable pub approval_clash : ApprovalRow → ApprovalRow → Bool
approval_clash new r =
    r.organization_id == new.organization_id
    && (r.request_id == new.request_id
        || (r.status == pending && new.status == pending && r.fact_id == new.fact_id))

unfoldable pub insert_approval : ApprovalRow → Tx (Unit {0})
unfolding approval_clash
insert_approval new db =
    if any_of (approval_clash new) db.approvals
    then err (integrity_error "approval_requests")
    else ok (tt, record db { approvals = new ∷ db.approvals })

-- The primary key, and one decision on a request.
unfoldable pub decision_clash : DecisionRow → DecisionRow → Bool
decision_clash new r =
    r.organization_id == new.organization_id
    && (r.decision_id == new.decision_id || r.request_id == new.request_id)

unfoldable pub insert_decision : DecisionRow → Tx (Unit {0})
unfolding decision_clash
insert_decision new db =
    if any_of (decision_clash new) db.decisions
    then err (integrity_error "approval_decisions")
    else ok (tt, record db { decisions = new ∷ db.decisions })
