-- ===== src/Postgres/Ledger/Approvals.antt =====
-- `propose` and `decide` keep the tables consistent.
use plk_memory.Base.{
  true, false, not, All, ℕ, String, Bool, none, some, List, [], ◌∷◌, ◌≡◌, ◌==◌, nat_eq, string_eq,
  arith, if◌then◌else◌,
}
use plk_memory.Domain.{ActorContext, ApprovalStatus, pending, approval_eq, active, status_eq}
use plk_memory.Postgres.Schema.{
  FactRow, ApprovalRow, DecisionRow, Response, proposal, decision, write_result, Db,
}
use plk_memory.Postgres.Session.{modify, transaction}
use plk_memory.Postgres.Session.Keeps.{
  Keeps, After-if, Keeps-modify, Keeps-gets, Keeps-pure, Keeps-raise, Keeps-bind, Keeps-raise_if,
  keeps_rules, transaction-Keeps, Leads, Leads-bind, Keeps-Leads, Leads-Keeps, Leads-read,
  Leads-raise_if,
}
use plk_memory.Postgres.Tables.{update_where, find_fact, insert_approval, insert_decision}
use plk_memory.Postgres.External.{External}
use plk_memory.Postgres.Approvals.{
  propose_new, propose, decide_stale, replay_proposal, replay_decision, set_request_status,
}
use plk_memory.Postgres.Ledger.{IsConsistent, IsPinnedRequest}
use plk_memory.Postgres.Ledger.Versions.{head_version-some}
use plk_memory.Postgres.Ledger.Repository.{
  record_audit-Keeps, begin_key-Keeps, store_response-Keeps,
}

-- A new request that is pinned to a head as it stands.
insert_approval-Leads :
    (r : ApprovalRow)
    → Leads (λ db. IsConsistent db × IsPinnedRequest db.facts r) IsConsistent (insert_approval r)
unfolding insert_approval
insert_approval-Leads r = record {
  at = λ db (c, p). After-if IsConsistent _ _ _ (record {
    unique = c.unique;
    recorded = c.recorded;
    announced = c.announced;
    pinned = c.pinned;
    requests = (p, c.requests);
  });
}

pub insert_decision-Keeps :
    (P : Db → Type 0) (r : DecisionRow)
    → ((db : Db) → P db → P (record db { decisions = r ∷ db.decisions }))
    → Keeps P (insert_decision r)
unfolding insert_decision
insert_decision-Keeps P r keeps = record { at = λ db p. After-if P _ _ _ (keeps db p) }

requests-update :
    (facts : List FactRow) (test : ApprovalRow → Bool) (status : ApprovalStatus) (now : ℕ)
    (rows : List ApprovalRow)
    → All (IsPinnedRequest facts) rows
    → All
        (IsPinnedRequest facts)
        (update_where test (λ r. record r { status = status; updated_at = now }) rows)
unfolding update_where
requests-update facts test status now [] h = tt
requests-update facts test status now (a ∷ rest) h =
    (one (test a), requests-update facts test status now rest h.1)
  where
    one :
        (b : Bool)
        → IsPinnedRequest facts (if b then record a { status = status; updated_at = now } else a)
    one true = record { reached = h.0.reached; was_active = h.0.was_active }
    one false = h.0

pub set_request_status-Keeps :
    (org id : ℕ) (status : ApprovalStatus) (now : ℕ)
    → Keeps IsConsistent (modify (set_request_status org id status now))
unfolding set_request_status
set_request_status-Keeps org id status now = Keeps-modify _ λ db c. record {
  unique = c.unique;
  recorded = c.recorded;
  announced = c.announced;
  pinned = c.pinned;
  requests = requests-update db.facts _ status now db.approvals c.requests;
}

replay_proposal-Keeps : (body : Response) → Keeps IsConsistent (replay_proposal body)
unfolding replay_proposal
replay_proposal-Keeps (proposal r) = Keeps-pure _
replay_proposal-Keeps (decision r) = Keeps-raise _
replay_proposal-Keeps (write_result r) = Keeps-raise _

pub replay_decision-Keeps : (body : Response) → Keeps IsConsistent (replay_decision body)
unfolding replay_decision
replay_decision-Keeps (decision r) = Keeps-pure _
replay_decision-Keeps (proposal r) = Keeps-raise _
replay_decision-Keeps (write_result r) = Keeps-raise _

-- The head that was read, while nothing has touched the heads since.
abbrev pub Holding : ℕ → String → FactRow → Db → Type 0
Holding org fact_id head db = IsConsistent db × (find_fact org fact_id db.facts ≡ some head)

module _ (ext : External) (actor : ActorContext) (fresh : ℕ → ℕ) (now : ℕ) where
  propose_new-Keeps :
      (fact_id reason key : String)
      → Keeps IsConsistent (propose_new ext actor fresh now fact_id reason key)
  unfolding propose_new
  propose_new-Keeps fact_id reason key = Leads-Keeps _ (
      Leads-read _ _ _ λ head. Leads-raise_if _ _ _ λ live. Leads-raise_if _ _ _ λ domain.
        Leads-bind _ _ (Keeps-Leads _ (Keeps-gets _)) λ waiting. Leads-raise_if _ _ _ λ free.
          Leads-bind _ _
            (record { at = λ db h. (insert_approval-Leads _).at db (h.0, pinned head db live h) })
            λ _. Keeps-Leads _ (search (keeps_rules, record_audit-Keeps, store_response-Keeps)))
    where
      pinned :
          (head : FactRow) (db : Db)
          → not (head.status == active) ≡ false
          → IsConsistent db × (find_fact actor.organization_id fact_id db.facts ≡ some head)
          → IsPinnedRequest db.facts (record {
            organization_id = actor.organization_id;
            request_id = fresh 0;
            fact_id = fact_id;
            source_version = head.current_version;
            status = pending;
            requested_by = actor.actor_id;
            request_reason = reason;
            created_at = now;
            updated_at = now;
          })
      pinned head db live h = record {
        reached = omega (arith, head_version-some _ _ db.facts head h.1);
        was_active = λ x e v. let same : x ≡ head = cc (e, h.1) in rw same (ground arith);
      }

  propose-Keeps :
      (fact_id reason key : String)
      → Keeps IsConsistent (propose ext actor fresh now fact_id reason key)
  unfolding propose
  propose-Keeps fact_id reason key = Keeps-bind _ _ (Keeps-raise_if _ _) λ _.
      Keeps-bind _ _ (begin_key-Keeps _ _ _ _) (elim [
        | some body ↦ replay_proposal-Keeps body
        | none ↦ propose_new-Keeps fact_id reason key
      ])

  pub decide_stale-Keeps :
      (row : ApprovalRow) (key : String)
      → Keeps IsConsistent (decide_stale ext actor fresh now row key)
  unfolding decide_stale
  decide_stale-Keeps row key =
      search (keeps_rules, set_request_status-Keeps, store_response-Keeps) depth 8

  -- Whether `propose` commits or rolls back, consistent tables stay consistent.
  pub propose-IsConsistent :
      (fact_id reason key : String) (db : Db)
      → IsConsistent db
      → IsConsistent (transaction (propose ext actor fresh now fact_id reason key) db).1
  propose-IsConsistent fact_id reason key db =
      transaction-Keeps _ db (propose-Keeps fact_id reason key)
