-- ===== src/Postgres/Application/Tools.antt =====
-- postgres/application.py: the tools that write. A tool may read in one transaction what it needs
-- for its write in another; `between` is what other transactions have done in the meantime.
pub mod Retries
pub mod Conflicts
use plk_memory.Base.{
  ℕ, String, Bool, true, false, not, ◌&&◌, ◌||◌, Option, none, some, List, [], ◌∷◌, map, length,
  elem, ltb, ◌==◌, nat_eq, string_eq, if◌then◌else◌,
}
use plk_memory.Base.Text.{char_count}
use plk_memory.Domain.{
  ActorContext, QueryScope, FactPayload, FactRecord, FactKind, SourceType, CreateFact,
  InvalidateFact, WriteResult, PromotionRequestRecord, PromotionDecisionResult, user, agent,
  external_untrusted,
}
use plk_memory.Ports.{
  Error, Result, ok, err, fact_missing, revision_conflict, value_error, validation_error,
  is_persistence_error, raise_if, ◌>>=◌, ◌>>◌,
}
use plk_memory.Postgres.Schema.{Db}
use plk_memory.Postgres.Session.{Tx, transaction}
use plk_memory.Postgres.External.{External}
use plk_memory.Postgres.Repository.{Expected, same_set, create, invalidate}
use plk_memory.Postgres.Repository.Queries.{get, get_many}
use plk_memory.Postgres.Approvals.{propose, decide}
use plk_memory.Postgres.Application.{parse_kind, distinct}

pub record ToolSettings : Type 0 where
  pub require_idempotency_key : Bool
  pub require_expected_revision : Bool

-- The dictionaries that the tools return: an error, a conflict of revisions (`_revision_error`), or
-- the result with its idempotency key.
pub data ToolResponse : Type 0 where
  required : String → ToolResponse
  refused : Error → ToolResponse
  conflict : String → ℕ → ℕ → ToolResponse
  written : WriteResult → String → ToolResponse
  proposed : PromotionRequestRecord → String → ToolResponse
  decided : PromotionDecisionResult → String → ToolResponse

abbrev pub is_blank : Option String → Bool
is_blank none = true
is_blank (some text) = text == ""

-- `idempotency_key or f"generated:{uuid4()}"`
unfoldable pub key_or : Option String → String → String
key_or none generated = generated
key_or (some text) generated = if text == "" then generated else text

abbrev pub is_none {ℓ} : {A : Type ℓ} → Option A → Bool
is_none none = true
is_none (some _) = false

-- The errors that the tools turn into a response (pydantic's ValidationError is a ValueError).
unfoldable pub is_answered : Error → Bool
is_answered (value_error _) = true
is_answered (validation_error _) = true
is_answered e = is_persistence_error e

-- The `except` clauses; another exception leaves the tool.
unfoldable pub answer_error : Error → Result ToolResponse
unfolding is_answered
answer_error e = if is_answered e then ok (refused e) else err e

unfoldable pub answer_write : String → Result WriteResult → Result ToolResponse
unfolding answer_error
answer_write key (ok result) = ok (written result key)
answer_write key (err (revision_conflict fact_id expected actual)) =
    ok (conflict fact_id expected actual)
answer_write key (err e) = answer_error e

abbrev pub scope_of : ActorContext → QueryScope
scope_of actor = record {
  organization_id = actor.organization_id;
  actor_id = actor.actor_id;
  roles = actor.roles;
}

abbrev missing_from : List FactRecord → List String → Option String
missing_from records [] = none
missing_from records (i ∷ is) =
    if elem i (map (λ r. r.id) records) then missing_from records is else some i

abbrev revisions_of : List String → List FactRecord → Result Expected
revisions_of fact_ids records = elim (missing_from records fact_ids) [
  | some fact_id ↦ err (fact_missing fact_id)
  | none ↦ ok (map (λ r. (r.id, r.revision)) records)
]

abbrev single : List String → ℕ → Result Expected
single (fact_id ∷ []) revision = ok ((fact_id, revision) ∷ [])
single _ revision = err (value_error "expected_revision needs one superseded fact")

-- `_expected_superseded_revisions`, in tables that it only reads
unfoldable pub expected_superseded_revisions :
    ActorContext → List String → Option ℕ → Option Expected → Db → Result Expected
unfolding same_set
expected_superseded_revisions actor fact_ids expected_revision (some explicit) db =
    raise_if (not (same_set (map (λ e. e.0) explicit) fact_ids)) (value_error "explicit revisions")
    >> ok explicit
expected_superseded_revisions actor fact_ids (some revision) none db = single fact_ids revision
expected_superseded_revisions actor [] none none db = ok []
expected_superseded_revisions actor (i ∷ is) none none db =
    (transaction (get_many (scope_of actor) (i ∷ is)) db).0 >>= revisions_of (i ∷ is)

pub record AddArguments : Type 0 where
  pub namespace : String
  pub kind : String
  pub statement : String
  pub why : String
  pub how_to_apply : String
  pub source : String
  pub tags : List String
  pub body : String
  pub source_type : String
  pub supersedes : List String
  pub idempotency_key : Option String
  pub expected_revision : Option ℕ
  pub expected_superseded_revisions : Option Expected

unfoldable pub parse_source_type : String → Result SourceType
parse_source_type text =
    if text == "user"
    then ok user
    else if text == "agent"
    then ok agent
    else if text == "external-untrusted"
    then ok external_untrusted
    else err (validation_error "source_type")

abbrev required_kind : Option FactKind → Result FactKind
required_kind none = err (validation_error "kind")
required_kind (some kind) = ok kind

-- `FactPayload.model_validate`
unfoldable pub payload_of : AddArguments → Result FactPayload
unfolding parse_kind parse_source_type
payload_of args = do
  parsed ← parse_kind (some args.kind)
  kind ← required_kind parsed
  source_type ← parse_source_type args.source_type
  ok (record {
    kind = kind;
    statement = args.statement;
    why = args.why;
    how_to_apply = args.how_to_apply;
    source = args.source;
    source_type = source_type;
    namespace = args.namespace;
    tags = args.tags;
    body = args.body;
  })

-- `not idempotency_key` and the check of expected revisions, before a tool does anything.
abbrev pub lacks_key : ToolSettings → Option String → Bool
lacks_key settings key = settings.require_idempotency_key && is_blank key

abbrev is_empty {ℓ} : {A : Type ℓ} → List A → Bool
is_empty [] = true
is_empty (_ ∷ _) = false

unfoldable pub lacks_revisions : ToolSettings → AddArguments → Bool
lacks_revisions settings args =
    settings.require_expected_revision
    && not (is_empty args.supersedes)
    && is_none args.expected_revision
    && is_none args.expected_superseded_revisions

-- What the tools have read and checked before they write.
module _ (actor : ActorContext) where
  -- The payload and the revisions of `tool_add`, as far as they can be had.
  unfoldable pub prepare_add : AddArguments → Db → Result (FactPayload × Expected)
  unfolding payload_of expected_superseded_revisions distinct
  prepare_add args db = do
    payload ← payload_of args
    expected ←
        expected_superseded_revisions actor (distinct [] args.supersedes) args.expected_revision
          args.expected_superseded_revisions db
    ok (payload, expected)

  -- `fact_id_of` is `_fact_id`: a ULID of the SHA-256 of the organization and the key.
  unfoldable pub add_command :
      (ℕ → String → String) → AddArguments → String → FactPayload → CreateFact
  unfolding distinct
  add_command fact_id_of args key payload = record {
    fact_id = fact_id_of actor.organization_id key;
    payload = payload;
    change_reason = "MCP/APIからfactを追加";
    supersedes = distinct [] args.supersedes;
  }

  -- `expected_revision`, or the revision that the fact has.
  unfoldable pub revision_for : String → Option ℕ → Db → Result ℕ
  revision_for fact_id (some revision) db = ok revision
  revision_for fact_id none db =
      (transaction (get (scope_of actor) fact_id) db).0 >>= λ r. ok r.revision

  -- `InvalidateFact(...)`
  unfoldable pub invalidate_command : String → String → Result InvalidateFact
  unfolding char_count
  invalidate_command fact_id reason =
      raise_if (ltb (char_count fact_id) 1 || ltb 64 (char_count fact_id))
        (validation_error "fact_id")
      >> raise_if (ltb (char_count reason) 5) (validation_error "reason")
      >> ok (record { fact_id = fact_id; reason = reason })

  abbrev pub prepare_invalidate : String → String → Option ℕ → Db → Result (InvalidateFact × ℕ)
  prepare_invalidate fact_id reason expected_revision db =
      revision_for fact_id expected_revision db >>= λ revision.
      invalidate_command fact_id reason >>= λ command. ok (command, revision)

-- The response to what a transaction gave, beside the tables that it left.
abbrev settle :
    {A : Type 0} → (Result A → Result ToolResponse) → Result A × Db → Result ToolResponse × Db
settle answer (result, db) = (answer result, db)

module _ (ext : External) (actor : ActorContext) (fresh : ℕ → ℕ) (now : ℕ)
    (generated : String) where
  unfoldable pub add_prepared :
      (ℕ → String → String)
      → AddArguments
      → String
      → (Db → Db)
      → Db
      → Result (FactPayload × Expected)
      → Result ToolResponse × Db
  unfolding add_command answer_write
  add_prepared fact_id_of args key between db (err e) = (answer_write key (err e), db)
  add_prepared fact_id_of args key between db (ok (payload, expected)) = settle (answer_write key) (
      transaction
        (create ext actor fresh now (add_command actor fact_id_of args key payload) expected key)
        (between db))

  unfoldable pub tool_add :
      ToolSettings
      → (ℕ → String → String)
      → AddArguments
      → (Db → Db)
      → Db
      → Result ToolResponse × Db
  unfolding lacks_revisions key_or prepare_add add_prepared
  tool_add settings fact_id_of args between db =
      if lacks_key settings args.idempotency_key
      then (ok (required "idempotency_key"), db)
      else if lacks_revisions settings args
      then (ok (required "expected revision"), db)
      else add_prepared fact_id_of args (key_or args.idempotency_key generated) between db
          (prepare_add actor args db)

  unfoldable pub invalidate_prepared :
      String → (Db → Db) → Db → Result (InvalidateFact × ℕ) → Result ToolResponse × Db
  unfolding answer_write
  invalidate_prepared key between db (err e) = (answer_write key (err e), db)
  invalidate_prepared key between db (ok (command, revision)) =
      settle (answer_write key)
        (transaction (invalidate ext actor fresh now command revision key) (between db))

  unfoldable pub tool_invalidate :
      ToolSettings
      → String
      → String
      → Option String
      → Option ℕ
      → (Db → Db)
      → Db
      → Result ToolResponse × Db
  unfolding key_or revision_for invalidate_command invalidate_prepared
  tool_invalidate settings fact_id reason idempotency_key expected_revision between db =
      if lacks_key settings idempotency_key
      then (ok (required "idempotency_key"), db)
      else if settings.require_expected_revision && is_none expected_revision
      then (ok (required "expected_revision"), db)
      else invalidate_prepared (key_or idempotency_key generated) between db
          (prepare_invalidate actor fact_id reason expected_revision db)

abbrev answer_proposal : String → Result PromotionRequestRecord → Result ToolResponse
answer_proposal key (ok request) = ok (proposed request key)
answer_proposal key (err e) = answer_error e

abbrev answer_decision : String → Result PromotionDecisionResult → Result ToolResponse
answer_decision key (ok result) = ok (decided result key)
answer_decision key (err e) = answer_error e

-- `reason or "..."`
abbrev pub reason_or : Option String → String
reason_or none = "shared knowledge promotion requested"
reason_or (some reason) = if reason == "" then "shared knowledge promotion requested" else reason

-- `has_approvals`: the service was given an approval repository.
module _ (ext : External) (actor : ActorContext) (fresh : ℕ → ℕ) (now : ℕ) (generated : String)
    (has_approvals : Bool) where
  unfoldable pub tool_propose_promotion :
      ToolSettings → String → Option String → Option String → Db → Result ToolResponse × Db
  unfolding key_or answer_error
  tool_propose_promotion settings fact_id reason idempotency_key db =
      if not has_approvals
      then (ok (required "approval repository"), db)
      else if lacks_key settings idempotency_key
      then (ok (required "idempotency_key"), db)
      else settle (answer_proposal (key_or idempotency_key generated)) (
          transaction
            (propose ext actor fresh now fact_id (reason_or reason)
              (key_or idempotency_key generated))
            db)

  unfoldable pub tool_decide_promotion :
      ToolSettings → String → String → String → ℕ → Option String → Db → Result ToolResponse × Db
  unfolding key_or answer_error
  tool_decide_promotion settings request_id verdict rationale expected_revision idempotency_key db =
      if not has_approvals
      then (ok (required "approval repository"), db)
      else if lacks_key settings idempotency_key
      then (ok (required "idempotency_key"), db)
      else settle (answer_decision (key_or idempotency_key generated)) (
          transaction
            (decide ext actor fresh now request_id verdict rationale expected_revision
              (key_or idempotency_key generated))
            db)
