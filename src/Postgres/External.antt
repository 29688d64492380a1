-- ===== src/Postgres/External.antt =====
-- What the repositories take from outside src/: the validator package's schema and the secret
-- scanners (policy.py's parts), and the SHA-256 of canonical JSON.
use plk_memory.Base.{ℕ, String, Bool, Option, List}
use plk_memory.Domain.{ActorContext, FactPayload, CreateFact, InvalidateFact}

-- The dictionaries that are hashed into `request_hash`, with the actor that sends them.
pub data Request : Type 0 where
  create : String → CreateFact → Request
  invalidate : String → InvalidateFact → Request
  propose : String → String → String → Request
  -- actor_id, request_id, decision, rationale, expected_revision
  decide : String → String → String → String → ℕ → Request

pub record External : Type 0 where
  -- `canonical_hash(request)` and `payload_hash(payload)`
  pub canonical_hash : Request → String
  pub payload_hash : FactPayload → String
  -- `plk_validator.schema.Fact(...)` accepts the fields
  pub valid_fact : ActorContext → CreateFact → Bool
  -- `payload.model_dump_json()`
  pub payload_json : FactPayload → String
  -- the findings of `scan_text(text, entropy=...)`
  pub scan_text : String → Bool → List String
  -- `UUID(text)`; `none` for the ValueError
  pub parse_uuid : String → Option ℕ
