-- ===== src/Postgres/Ledger/Decide.antt =====
-- `decide` keeps the tables consistent: what it promotes is the active head that was proposed.
use plk_memory.Base.{
  inl, inr, Bool-cases, ap, ◌&&◌, true, false, not, All, sym, ℕ, ◌+◌, String, Bool, none, some,
  List, [], ◌∷◌, ◌≡◌, refl, ◌==◌, nat_eq, string_eq, arith, subst,
}
use plk_memory.Domain.{ActorContext, ApprovalStatus, approved, approval_eq, active, status_eq}
use plk_memory.Postgres.Schema.{FactRow, ApprovalRow, Db}
use plk_memory.Postgres.Session.{pure, transaction}
use plk_memory.Postgres.Session.Keeps.{
  Keeps, After, Keeps-pure, Keeps-bind, Keeps-or_raise, Keeps-raise_if, keeps_rules,
  transaction-Keeps, Leads, Leads-bind, Keeps-Leads, Leads-Keeps, Leads-from, Leads-read,
  Leads-raise_if, Leads-if,
}
use plk_memory.Postgres.Tables.{first_where, fact_key, find_fact}
use plk_memory.Postgres.Tables.Laws.{
  find_fact-count_where, find_fact-All, fact_key-eq, first_where-holds,
}
use plk_memory.Postgres.External.{External}
use plk_memory.Postgres.Mappers.{revision_values}
use plk_memory.Postgres.WriteOps.{emit_event}
use plk_memory.Postgres.Approvals.{request_key, promote, decide_current, decide_new, decide}
use plk_memory.Postgres.Ledger.{IsConsistent, IsPinnedRequest}
use plk_memory.Postgres.Ledger.Writes.{promote-Leads}
use plk_memory.Postgres.Ledger.Repository.{
  record_audit-Keeps, begin_key-Keeps, store_response-Keeps,
}
use plk_memory.Postgres.Ledger.Approvals.{
  Holding, set_request_status-Keeps, replay_decision-Keeps, insert_decision-Keeps,
  decide_stale-Keeps,
}

All-found :
    (facts : List FactRow) (test : ApprovalRow → Bool) (rows : List ApprovalRow) (row : ApprovalRow)
    → All (IsPinnedRequest facts) rows
    → first_where test rows ≡ some row
    → IsPinnedRequest facts row
unfolding first_where
All-found facts test [] row h e = absurd (cc e)
All-found facts test (a ∷ rest) row h e = elim (Bool-cases (test a)) [
  | inl hit ↦ let same : row ≡ a = ground arith in rw same h.0
  | inr miss ↦ All-found facts test rest row h.1 (ground arith)
]

module _ (ext : External) (actor : ActorContext) (fresh : ℕ → ℕ) (now : ℕ) where
  promote-Keeps :
      (head : FactRow) (rationale : String) (expected : ℕ)
      → head.current_version ≡ expected
      → head.status ≡ active
      → Leads
          (Holding actor.organization_id head.fact_id head)
          IsConsistent
          (promote ext actor fresh now head rationale expected)
  unfolding promote emit_event revision_values
  promote-Keeps head rationale expected v live = Leads-read _ _ _ λ revision.
      Leads-bind _ _ (Keeps-Leads _ (Keeps-or_raise _ _)) λ source.
        Leads-from _
          (promote-Leads actor.organization_id head.fact_id expected _ _
            (record {
              r_org = refl;
              r_fact = refl;
              r_version = ap (λ (n : ℕ). n + 1) v;
              e_org = refl;
              e_fact = refl;
              e_version = ap (λ (n : ℕ). n + 1) v;
            })
            _
            (record {
              keeps_org = λ r. refl;
              keeps_fact = λ r. refl;
              sets_version = λ r. ap (λ (n : ℕ). n + 1) v;
            })
            (λ r. refl) _)
          (λ db h. (
            h.0.0,
            sets_active db h.0,
            find_fact-count_where _ _ _ db.facts head h.0.0.unique h.0.1 (==_true v),
          ))
    where
      ==_true : head.current_version ≡ expected → head.current_version == expected ≡ true
      ==_true e = ground arith

      weaker :
          (rows : List FactRow)
          → All (λ r. fact_key actor.organization_id head.fact_id r ≡ true → r.status ≡ active) rows
          → All
              (λ r.
                fact_key actor.organization_id head.fact_id r && r.current_version == expected
                  ≡ true
                → r.status ≡ active)
              rows
      weaker [] h = tt
      weaker (r ∷ rs) h = (λ both. h.0 (ground arith), weaker rs h.1)

      sets_active :
          (db : Db)
          → Holding actor.organization_id head.fact_id head db
          → All
              (λ r.
                fact_key actor.organization_id head.fact_id r && r.current_version == expected
                  ≡ true
                → r.status ≡ active)
              db.facts
      sets_active db h =
          weaker db.facts
            (find_fact-All _ _ (λ r. r.status ≡ active) db.facts head h.0.unique h.1 live)

  decide_current-Keeps :
      (row : ApprovalRow) (head : FactRow) (verdict : ApprovalStatus) (rationale : String)
      (expected : ℕ) (key : String)
      → head.current_version ≡ expected
      → head.status ≡ active
      → Leads
          (Holding actor.organization_id head.fact_id head)
          IsConsistent
          (decide_current ext actor fresh now row head verdict rationale expected key)
  unfolding decide_current
  decide_current-Keeps row head verdict rationale expected key v live =
      Leads-bind _ _ (Keeps-Leads _ (insert_decision-Keeps _ _ (λ db h. h))) λ _.
        Leads-bind _ _
          (Leads-if (verdict == approved) _ (pure (none, none))
            (λ _. promote-Keeps head rationale expected v live)
            (λ _. Leads-from _ (Keeps-Leads _ (Keeps-pure (none, none))) (λ db h. h.0)))
          λ made. Keeps-Leads _ (
            search
              (keeps_rules, set_request_status-Keeps, record_audit-Keeps, store_response-Keeps))

  decide_new-Keeps :
      (request_id : String) (request_uuid : ℕ) (verdict : ApprovalStatus) (rationale : String)
      (expected : ℕ) (key : String)
      → Keeps IsConsistent
          (decide_new ext actor fresh now request_id request_uuid verdict rationale expected key)
  unfolding decide_new
  decide_new-Keeps request_id request_uuid verdict rationale expected key = Leads-Keeps _ (
      Leads-read _ _ _ λ row. Leads-raise_if _ _ _ λ waiting. Leads-read _ _ _ λ head.
        Leads-raise_if _ _ _ λ expects.
          Leads-if _ _ _ (λ same. record { at = λ db h. current row head expects same db h })
            (λ other.
              Leads-from _ (Keeps-Leads _ (decide_stale-Keeps ext actor fresh now row key))
                (λ db h. h.0.0)))
    where
      org : ℕ
      org = actor.organization_id

      current :
          (row : ApprovalRow) (head : FactRow)
          → not (row.source_version == expected) ≡ false
          → head.current_version == row.source_version ≡ true
          → (db : Db)
          → (IsConsistent db × (first_where (request_key org request_uuid) db.approvals ≡ some row))
            × (find_fact org row.fact_id db.facts ≡ some head)
          → After IsConsistent
              (decide_current ext actor fresh now row head verdict rationale expected key db)
      current row head expects same db h =
          let p : IsPinnedRequest db.facts row =
            All-found db.facts _ db.approvals row h.0.0.requests h.0.1 in
          let k : fact_key org row.fact_id head ≡ true =
            first_where-holds (fact_key org row.fact_id) db.facts head (unfold find_fact in h.1) in
          let (eo, ef) = fact_key-eq org row.fact_id head k in
          let r : request_key org request_uuid row ≡ true =
            first_where-holds (request_key org request_uuid) db.approvals row h.0.1 in
          let ro : row.organization_id ≡ org = ground arith in
          let v : head.current_version ≡ row.source_version = ground arith in
          let live : head.status ≡ active = p.was_active head (rw ro h.1) v in
          (decide_current-Keeps row head verdict rationale expected key (ground arith) live).at db
            (h.0.0, subst (λ f. find_fact org f db.facts ≡ some head) (sym ef) h.1)

  decide-Keeps :
      (request_id verdict rationale : String) (expected : ℕ) (key : String)
      → Keeps IsConsistent (decide ext actor fresh now request_id verdict rationale expected key)
  unfolding decide
  decide-Keeps request_id verdict rationale expected key = Keeps-bind _ _ (Keeps-raise_if _ _) λ _.
      Keeps-bind _ _ (Keeps-or_raise _ _) λ chosen. Keeps-bind _ _ (Keeps-raise_if _ _) λ _.
        Keeps-bind _ _ (Keeps-or_raise _ _) λ uuid. Keeps-bind _ _ (begin_key-Keeps _ _ _ _) (elim [
          | some body ↦ replay_decision-Keeps body
          | none ↦ decide_new-Keeps request_id uuid chosen rationale expected key
        ])

  -- Whether `decide` commits or rolls back, consistent tables stay consistent.
  pub decide-IsConsistent :
      (request_id verdict rationale : String) (expected : ℕ) (key : String) (db : Db)
      → IsConsistent db
      → IsConsistent
          (transaction (decide ext actor fresh now request_id verdict rationale expected key) db).1
  decide-IsConsistent request_id verdict rationale expected key db =
      transaction-Keeps _ db (decide-Keeps request_id verdict rationale expected key)
