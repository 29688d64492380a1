-- ===== src/Postgres/Approvals.antt =====
-- postgres/approvals.py: promotion to shared knowledge, pinned to the revision that was proposed.
-- `fresh` gives the values drawn from `uuid4()`, in order, and `now` is the clock's reading.
mod Requests
pub use Requests.{request_key}
unfoldable pub use Requests.{
  request_record, set_request_status, replay_proposal, replay_decision, decision_of,
}
use text.Mathlib.Text.{starts_with}
use Prim.Native.String.{◌++◌}
use plk_memory.Base.{
  ℕ, ◌+◌, String, Bool, not, ◌&&◌, ◌||◌, Option, none, some, true, false, List, [], ◌∷◌, ◌==◌, elem,
  ltb, nat_eq, string_eq, if◌then◌else◌,
}
use plk_memory.Base.Text.{char_count, strip}
use plk_memory.Domain.{
  ActorContext, FactPayload, PromotionRequestRecord, PromotionDecisionResult, active,
  ApprovalStatus, pending, approved, rejected, stale, promoted, status_eq, approval_eq,
}
use plk_memory.Ports.{
  fact_missing, revision_conflict, policy_violation, value_error, validation_error, runtime_error,
}
use plk_memory.Postgres.Schema.{FactRow, ApprovalRow, Response, proposal, decision, Db}
use plk_memory.Postgres.Session.{Tx, pure, raise, gets, or_raise, raise_if, modify, ◌>>=◌, ◌>>◌}
use plk_memory.Postgres.Tables.{
  first_where, update_where, fact_key, find_fact, find_revision, insert_revision, insert_approval,
  insert_decision,
}
use plk_memory.Postgres.External.{External, Request}
use plk_memory.Postgres.Mappers.{revision_values}
use plk_memory.Postgres.WriteOps.{begin_key, store_response, emit_event, record_audit}
use plk_memory.Postgres.Repository.Locking.{update_heads}

abbrev is_some {ℓ} : {A : Type ℓ} → Option A → Bool
is_some none = false
is_some (some _) = true

abbrev head? : List String → Option String
head? [] = none
head? (x ∷ _) = some x

module _ (ext : External) (actor : ActorContext) (fresh : ℕ → ℕ) (now : ℕ) where
  -- What `propose` does when the key is new.
  unfoldable pub propose_new : String → String → String → Tx PromotionRequestRecord
  unfolding store_response
  propose_new fact_id reason key = do
    let org = actor.organization_id
    found ← gets (λ db. find_fact org fact_id db.facts)
    head ← or_raise found (fact_missing fact_id)
    raise_if (not (head.status == active)) (policy_violation "only active facts can be promoted")
    raise_if (not (starts_with head.namespace "plk.domain."))
        (policy_violation "only plk.domain.* facts can be promoted")
    waiting ← gets (λ db.
        first_where
          (λ (r : ApprovalRow).
            r.organization_id == org && r.fact_id == fact_id && r.status == pending)
          db.approvals)
    raise_if (is_some waiting) (policy_violation "pending promotion already exists")
    let row : ApprovalRow = record {
      organization_id = org;
      request_id = fresh 0;
      fact_id = fact_id;
      source_version = head.current_version;
      status = pending;
      requested_by = actor.actor_id;
      request_reason = reason;
      created_at = now;
      updated_at = now;
    }
    insert_approval row
    record_audit actor "promotion.proposed" fact_id (fresh 1) now
    modify (store_response org key (proposal (request_record row pending now)))
    pure (request_record row pending now)

  unfoldable pub propose : String → String → String → Tx PromotionRequestRecord
  unfolding strip char_count
  propose fact_id reason key = do
    raise_if (ltb (char_count (strip reason)) 5)
        (value_error "promotion reason must be at least 5 characters")
    replay ←
        begin_key actor.organization_id key
          (ext.canonical_hash (Request.propose actor.actor_id fact_id reason)) "promotion.propose"
    elim replay [ some body ↦ replay_proposal body | none ↦ propose_new fact_id reason key ]

  -- The approved branch: the pinned revision is copied to plk.shared as the next version.
  unfoldable pub promote : FactRow → String → ℕ → Tx (Option ℕ × Option ℕ)
  promote head rationale expected_revision = do
    let org = actor.organization_id
    found ← gets (λ db. find_revision org head.current_revision_id db.revisions)
    revision ← or_raise found (runtime_error "NoResultFound")
    source ← or_raise (head? revision.sources) (runtime_error "IndexError")
    let payload : FactPayload = record {
      kind = revision.kind;
      statement = revision.statement;
      why = revision.why;
      how_to_apply = revision.how_to_apply;
      source = source;
      source_type = revision.source_type;
      namespace = "plk.shared";
      tags = revision.tags;
      body = revision.body;
    }
    let version = head.current_version + 1
    insert_revision (
        revision_values ext actor
          (record {
            revision_id = fresh 1;
            fact_id = head.fact_id;
            version = version;
            status = active;
            invalidation_reason = none;
            change_reason = "promotion approved: " ++ rationale;
            created_at = now;
          })
          payload)
    changed ←
        update_heads (λ r. fact_key org head.fact_id r && r.current_version == expected_revision)
          (λ r. record r {
            namespace = "plk.shared";
            current_version = version;
            current_revision_id = fresh 1;
            updated_by = actor.actor_id;
            updated_at = now;
          })
    emit_event org (fresh 2) head.fact_id version promoted now
    pure (some version, some (fresh 2))

  -- The decision on a request that is still pinned to the current revision.
  unfoldable pub decide_current :
      ApprovalRow → FactRow → ApprovalStatus → String → ℕ → String → Tx PromotionDecisionResult
  unfolding store_response set_request_status
  decide_current row head verdict rationale expected_revision key = do
    let org = actor.organization_id
    let is_approval = verdict == approved
    insert_decision (record {
      organization_id = org;
      decision_id = fresh 0;
      request_id = row.request_id;
      decision = verdict;
      rationale = rationale;
      actor_id = actor.actor_id;
      actor_type = actor.actor_type;
      created_at = now;
    })
    made ← (if is_approval then promote head rationale expected_revision else pure (none, none))
    modify (set_request_status org row.request_id verdict now)
    record_audit actor (if is_approval then "promotion.approved" else "promotion.rejected")
        head.fact_id (fresh (if is_approval then 3 else 1)) now
    let result : PromotionDecisionResult = record {
      request = request_record row verdict now;
      fact_revision = made.0;
      event_id = made.1;
      replayed = false;
    }
    modify (store_response org key (decision result))
    pure result

  -- The fact changed after the proposal.
  unfoldable pub decide_stale : ApprovalRow → String → Tx PromotionDecisionResult
  unfolding store_response set_request_status
  decide_stale row key = do
    let org = actor.organization_id
    modify (set_request_status org row.request_id stale now)
    let result : PromotionDecisionResult = record {
      request = request_record row stale now;
      fact_revision = none;
      event_id = none;
      replayed = false;
    }
    modify (store_response org key (decision result))
    pure result

  -- What `decide` does when the key is new.
  unfoldable pub decide_new :
      String → ℕ → ApprovalStatus → String → ℕ → String → Tx PromotionDecisionResult
  decide_new request_id request_uuid verdict rationale expected_revision key = do
    let org = actor.organization_id
    requested ← gets (λ db. first_where (request_key org request_uuid) db.approvals)
    row ← or_raise requested (fact_missing request_id)
    raise_if (not (row.status == pending)) (policy_violation "promotion request is already decided")
    found ← gets (λ db. find_fact org row.fact_id db.facts)
    head ← or_raise found (runtime_error "NoResultFound")
    raise_if (not (row.source_version == expected_revision))
        (revision_conflict row.fact_id expected_revision row.source_version)
    if head.current_version == row.source_version
        then decide_current row head verdict rationale expected_revision key
        else decide_stale row key

  unfoldable pub decide : String → String → String → ℕ → String → Tx PromotionDecisionResult
  unfolding strip char_count decision_of
  decide request_id verdict_text rationale expected_revision key = do
    raise_if (not (elem "reviewer" actor.roles || elem "admin" actor.roles))
        (policy_violation "promotion decision requires reviewer or admin role")
    verdict ←
        or_raise (decision_of verdict_text) (value_error "decision must be approved or rejected")
    raise_if (ltb (char_count (strip rationale)) 5)
        (value_error "rationale must be at least 5 characters")
    request_uuid ← or_raise (ext.parse_uuid request_id) (value_error "badly formed UUID")
    replay ←
        begin_key actor.organization_id key
          (ext.canonical_hash
            (Request.decide actor.actor_id request_id verdict_text rationale expected_revision))
          "promotion.decide"
    elim replay [
      | some body ↦ replay_decision body
      | none ↦ decide_new request_id request_uuid verdict rationale expected_revision key
    ]
