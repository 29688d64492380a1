-- ===== src/Postgres/Approvals/Requests.antt =====
-- postgres/approvals.py: the rows of requests as records, and the texts of decisions.
use plk_memory.Base.{
  ℕ, String, Bool, ◌&&◌, Option, none, some, true, ◌==◌, nat_eq, string_eq, if◌then◌else◌,
}
use plk_memory.Domain.{
  PromotionRequestRecord, PromotionDecisionResult, ApprovalStatus, approved, rejected, status_eq,
  approval_eq,
}
use plk_memory.Ports.{validation_error}
use plk_memory.Postgres.Schema.{ApprovalRow, Response, proposal, decision, Db}
use plk_memory.Postgres.Session.{Tx, pure, raise}
use plk_memory.Postgres.Tables.{update_where}

abbrev pub request_key : ℕ → ℕ → ApprovalRow → Bool
request_key org request_id r = r.organization_id == org && r.request_id == request_id

-- `_request`
unfoldable pub request_record : ApprovalRow → ApprovalStatus → ℕ → PromotionRequestRecord
request_record row status updated_at = record {
  request_id = row.request_id;
  organization_id = row.organization_id;
  fact_id = row.fact_id;
  source_revision = row.source_version;
  status = status;
  requested_by = row.requested_by;
  reason = row.request_reason;
  created_at = row.created_at;
  updated_at = updated_at;
}

-- `UPDATE approval_requests SET status, updated_at`
unfoldable pub set_request_status : ℕ → ℕ → ApprovalStatus → ℕ → Db → Db
unfolding update_where
set_request_status org request_id status now db = record db {
  approvals =
      update_where (request_key org request_id)
        (λ r. record r { status = status; updated_at = now }) db.approvals;
}

-- `PromotionRequestRecord.model_validate(replay["request"])`
unfoldable pub replay_proposal : Response → Tx PromotionRequestRecord
replay_proposal (proposal r) = pure r
replay_proposal _ = raise (validation_error "PromotionRequestRecord")

unfoldable pub replay_decision : Response → Tx PromotionDecisionResult
replay_decision (decision r) = pure (record r { replayed = true })
replay_decision _ = raise (validation_error "PromotionDecisionResult")

unfoldable pub decision_of : String → Option ApprovalStatus
decision_of text =
    if text == "approved" then some approved else if text == "rejected" then some rejected else none
