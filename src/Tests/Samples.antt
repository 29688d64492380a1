-- ===== src/Tests/Samples.antt =====
-- Sample actors, facts and tables.
use Prim.Native.String.{◌++◌}
use plk_memory.Base.{ℕ, ◌+◌, String, some, true, [], ◌∷◌, arith}
use plk_memory.Domain.{
  ActorContext, FactPayload, CreateFact, InvalidateFact, ActorType, SourceType, logic, human,
}
use plk_memory.Postgres.Schema.{Db}
use plk_memory.Postgres.Session.{transaction}
use plk_memory.Postgres.Tables.{count_where}
use plk_memory.Postgres.External.{External, Request}
use plk_memory.Postgres.Repository.{create}
use plk_memory.Postgres.Approvals.{propose}
use plk_memory.Postgres.Ledger.{IsConsistent, head_version}

abbrev pub sample_hash : Request → String
sample_hash (Request.create a c) = a ++ " creates " ++ c.fact_id
sample_hash (Request.invalidate a c) = a ++ " invalidates " ++ c.fact_id
sample_hash (Request.propose a f r) = a ++ " proposes " ++ f
sample_hash (Request.decide a i v r e) = a ++ " decides " ++ v

abbrev pub ext : External
ext = record {
  canonical_hash = sample_hash;
  payload_hash = λ p. p.statement;
  valid_fact = λ actor command. true;
  payload_json = λ p. p.statement;
  scan_text = λ text entropy. [];
  parse_uuid = λ text. some 100;
}

abbrev pub writer : ActorContext
writer = record {
  organization_id = 7;
  actor_id = "claude";
  actor_type = ActorType.agent;
  roles = "writer" ∷ [];
}

abbrev pub reviewer : ActorContext
reviewer = record {
  organization_id = 7;
  actor_id = "hana";
  actor_type = human;
  roles = "reviewer" ∷ [];
}

abbrev pub payload : FactPayload
payload = record {
  kind = logic;
  statement = "s";
  why = "w";
  how_to_apply = "h";
  source = "src";
  source_type = SourceType.agent;
  namespace = "plk.domain.tax";
  tags = [];
  body = "";
}

abbrev pub first_fact : CreateFact
first_fact = record { fact_id = "f1"; payload = payload; change_reason = "added"; supersedes = [] }

abbrev pub drop_first : InvalidateFact
drop_first = record { fact_id = "f1"; reason = "wrong" }

-- The ids that a call draws, from `base` on.
abbrev pub ids_from : ℕ → ℕ → ℕ
ids_from base n = base + n

abbrev pub empty : Db
empty = record {
  facts = [];
  revisions = [];
  relations = [];
  idempotency = [];
  outbox = [];
  approvals = [];
  decisions = [];
  audit = [];
  projections = [];
}

pub empty-IsConsistent : IsConsistent empty
unfolding count_where head_version
empty-IsConsistent = record {
  unique = tt;
  recorded = λ org fact_id v. ground arith;
  announced = λ org fact_id v. ground arith;
  pinned = tt;
  requests = tt;
}

-- One fact, "f1" at version 1.
abbrev pub stored : Db
stored = (transaction (create ext writer (ids_from 10) 1000 first_fact [] "k1") empty).1

-- The fact proposed for promotion, under the request id 100.
abbrev pub proposed : Db
proposed = (transaction (propose ext writer (ids_from 100) 2000 "f1" "shared" "k3") stored).1
