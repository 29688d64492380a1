-- ===== src/Postgres/Outbox.antt =====
-- postgres/outbox.py: the change feed, an at-least-once consumer of the outbox under short leases.
-- `now` is the clock's reading and `token` the value drawn from `uuid4()`; `unlocked` tells the
-- rows that no other open transaction has locked (`FOR UPDATE SKIP LOCKED`).
pub mod Claims
pub mod Leases
pub mod Settling
pub mod Retries
pub mod Progress
use plk_memory.Base.{
  ℕ, ◌+◌, String, Bool, true, false, not, ◌&&◌, ◌||◌, Option, none, some, List, [], ◌∷◌, map, ◌==◌,
  any_of, keep, take, length, sort_by, ltb, leb, nat_eq, string_eq, if◌then◌else◌,
}
use plk_memory.Base.Text.{first_chars}
use plk_memory.Domain.{KnowledgeChanged, ClaimedChange}
use plk_memory.Ports.{ok, value_error, runtime_error}
use plk_memory.Postgres.Schema.{OutboxRow, Db}
use plk_memory.Postgres.Session.{Tx, pure, gets, modify, raise_if, ◌>>=◌, ◌>>◌}
use plk_memory.Postgres.Tables.{count_where, update_where}

abbrev pub is_none {ℓ} : {A : Type ℓ} → Option A → Bool
is_none none = true
is_none (some _) = false

-- Neither processed nor given up.
abbrev pub is_open : OutboxRow → Bool
is_open r = is_none r.processed_at && is_none r.dead_lettered_at

abbrev pub lease_free : ℕ → Option ℕ → Bool
lease_free now none = true
lease_free now (some t) = ltb t now

-- Every event has the aggregate type `fact`, which the rows leave out.
abbrev pub same_aggregate : OutboxRow → OutboxRow → Bool
same_aggregate o r = o.organization_id == r.organization_id && o.aggregate_id == r.aggregate_id

-- `o` is open and comes before `r` among the events of one fact.
abbrev pub is_older : OutboxRow → OutboxRow → Bool
is_older r o =
    same_aggregate o r
    && is_open o
    && (ltb o.aggregate_version r.aggregate_version
        || (o.aggregate_version == r.aggregate_version
            && (ltb o.occurred_at r.occurred_at
                || (o.occurred_at == r.occurred_at && ltb o.event_id r.event_id))))

unfoldable pub is_claimable : ℕ → List OutboxRow → OutboxRow → Bool
is_claimable now rows r =
    is_open r
    && leb r.available_at now
    && lease_free now r.lease_until
    && not (any_of (is_older r) rows)

abbrev pub comes_first : OutboxRow → OutboxRow → Bool
comes_first r x =
    ltb r.occurred_at x.occurred_at || (r.occurred_at == x.occurred_at && leb r.event_id x.event_id)

-- The SELECT of `claim`.
unfoldable pub claimable_rows : (OutboxRow → Bool) → ℕ → ℕ → List OutboxRow → List OutboxRow
unfolding sort_by
claimable_rows unlocked limit now rows =
    take limit (sort_by comes_first (keep (λ r. is_claimable now rows r && unlocked r) rows))

abbrev pub same_event : OutboxRow → OutboxRow → Bool
same_event r x = x.organization_id == r.organization_id && x.event_id == r.event_id

abbrev pub is_among : List OutboxRow → OutboxRow → Bool
is_among rows x = any_of (λ r. same_event r x) rows

abbrev pub lease : String → ℕ → ℕ → OutboxRow → OutboxRow
lease consumer token lease_until r = record r {
  lease_owner = some consumer;
  lease_token = some token;
  lease_until = some lease_until;
  attempts = r.attempts + 1;
}

-- `KnowledgeChanged.model_validate(row["payload"])`, whose keys repeat the columns
abbrev pub change_of : OutboxRow → KnowledgeChanged
change_of r = record {
  event_id = r.event_id;
  organization_id = r.organization_id;
  fact_id = r.aggregate_id;
  revision = r.aggregate_version;
  operation = r.operation;
  occurred_at = r.occurred_at;
}

abbrev pub claimed : String → ℕ → OutboxRow → ClaimedChange
claimed consumer token r = record {
  change = change_of r;
  consumer = consumer;
  lease_token = token;
  attempts = r.attempts + 1;
}

-- Lease the rows that were selected; nothing is written where there is none.
abbrev pub lease_rows : String → ℕ → ℕ → List OutboxRow → Tx (List ClaimedChange)
lease_rows consumer token lease_until [] = pure []
lease_rows consumer token lease_until (r ∷ rs) = do
  modify (λ db. record db {
    outbox = update_where (is_among (r ∷ rs)) (lease consumer token lease_until) db.outbox;
  })
  pure (map (claimed consumer token) (r ∷ rs))

-- `UPDATE outbox_events SET ... WHERE ...`, with `rowcount`
unfoldable pub update_events : (OutboxRow → Bool) → (OutboxRow → OutboxRow) → Tx ℕ
unfolding update_where
update_events test f db =
    ok (count_where test db.outbox, record db { outbox = update_where test f db.outbox })

abbrev pub names_event : ClaimedChange → OutboxRow → Bool
names_event c r = r.organization_id == c.change.organization_id && r.event_id == c.change.event_id

abbrev pub is_held : String → ℕ → Option String → Option ℕ → Bool
is_held consumer token (some o) (some t) = o == consumer && t == token
is_held consumer token _ _ = false

-- The row of the claim, while its lease is still the claim's own.
abbrev pub holds : ClaimedChange → OutboxRow → Bool
holds c r = names_event c r && is_held c.consumer c.lease_token r.lease_owner r.lease_token

module _ (now : ℕ) where
  unfoldable pub claim : (OutboxRow → Bool) → ℕ → String → ℕ → ℕ → Tx (List ClaimedChange)
  unfolding claimable_rows update_where
  claim unlocked token consumer limit lease_until = do
    raise_if (ltb limit 1) (value_error "limit must be positive")
    raise_if (leb lease_until now) (value_error "lease_until must be in the future")
    rows ← gets (λ db. claimable_rows unlocked limit now db.outbox)
    lease_rows consumer token lease_until rows

  abbrev pub acked : OutboxRow → OutboxRow
  acked r = record r {
    processed_at = some now;
    lease_owner = none;
    lease_token = none;
    lease_until = none;
    last_error = none;
  }

  unfoldable pub ack : List ClaimedChange → Tx (Unit {0})
  unfolding update_events
  ack [] = pure tt
  ack (c ∷ cs) = do
    changed ← update_events (λ r. any_of (λ k. holds k r) (c ∷ cs)) acked
    raise_if (not (changed == length (c ∷ cs)))
        (runtime_error "one or more outbox leases are no longer owned")

  unfoldable pub renew : ClaimedChange → ℕ → Tx (Unit {0})
  unfolding update_events
  renew c lease_until = do
    raise_if (leb lease_until now) (value_error "lease_until must be in the future")
    changed ←
        update_events (λ r. holds c r && is_open r)
          (λ r. record r { lease_until = some lease_until })
    raise_if (not (changed == 1)) (runtime_error "outbox lease is no longer owned")

  abbrev pub failed : ℕ → String → ℕ → OutboxRow → OutboxRow
  failed max_attempts error retry_at r = record r {
    available_at = retry_at;
    lease_owner = none;
    lease_token = none;
    lease_until = none;
    last_error = some (first_chars 4000 error);
    dead_lettered_at = if leb max_attempts r.attempts then some now else none;
  }

  unfoldable pub fail : ℕ → ClaimedChange → String → ℕ → Tx (Unit {0})
  unfolding update_events first_chars
  fail max_attempts c error retry_at = do
    changed ← update_events (holds c) (failed max_attempts error retry_at)
    raise_if (not (changed == 1)) (runtime_error "outbox lease is no longer owned")
