-- ===== src/Tests/Feed.antt =====
-- The change feed at a concrete outbox.
use plk_memory.Base.{
  ℕ, Bool, true, false, [], ◌∷◌, none, some, ◌≡◌, refl, All, length, List, ◌≤◌, arith,
}
use plk_memory.Domain.{ClaimedChange, created}
use plk_memory.Ports.{ok}
use plk_memory.Postgres.Schema.{OutboxRow, Db}
use plk_memory.Postgres.Session.{◌>>=◌}
use plk_memory.Postgres.Tables.{count_where}
use plk_memory.Postgres.Outbox.{is_claimable, claim, claimed, ack, fail, names_event}
use plk_memory.Postgres.Outbox.Claims.{IsOrdered, claim-IsOrdered}
use plk_memory.Postgres.Outbox.Leases.{same_claim, claim-excludes}
use plk_memory.Postgres.Outbox.Settling.{IsLost, claim-IsLost}
use plk_memory.Postgres.Outbox.Retries.{IsRetried, fail-IsRetried}
use plk_memory.Postgres.Outbox.Progress.{claim-progress}
use plk_memory.Tests.Samples.{empty}

abbrev event : ℕ → ℕ → OutboxRow
event id version = record {
  organization_id = 7;
  event_id = id;
  aggregate_id = "f1";
  aggregate_version = version;
  operation = created;
  occurred_at = 1000;
  available_at = 1000;
  attempts = 0;
  lease_owner = none;
  lease_token = none;
  lease_until = none;
  processed_at = none;
  dead_lettered_at = none;
  last_error = none;
}

abbrev leased_event : ℕ → ℕ → OutboxRow
leased_event token until = record (event 11 1) {
  lease_owner = some "w";
  lease_token = some token;
  lease_until = some until;
  attempts = 1;
}

abbrev unlocked : OutboxRow → Bool
unlocked r = true

-- Two versions of one fact wait.
abbrev waiting : Db
waiting = record empty { outbox = event 12 2 ∷ event 11 1 ∷ [] }

-- The first of them is leased until 2100.
abbrev leased : Db
leased = record empty { outbox = event 12 2 ∷ leased_event 50 2100 ∷ [] }

abbrev first_claim : ClaimedChange
first_claim = claimed "w" 50 (event 11 1)

first_claimed : claim 2000 unlocked 50 "w" 10 2100 waiting ≡ ok (first_claim ∷ [], leased)
unfolding claim ◌>>=◌ is_claimable
first_claimed = refl

-- An event of another fact waits too; it is claimed while the first lease runs.
abbrev other_event : OutboxRow
other_event = record (event 21 1) { aggregate_id = "f2" }

abbrev two_facts : Db
two_facts = record empty { outbox = event 12 2 ∷ event 11 1 ∷ other_event ∷ [] }

abbrev one_leased : Db
one_leased = record empty { outbox = event 12 2 ∷ leased_event 50 2100 ∷ other_event ∷ [] }

abbrev both_leased : Db
both_leased = record empty {
  outbox =
      event 12 2
      ∷ leased_event 50 2100
      ∷ record other_event {
        lease_owner = some "v";
        lease_token = some 51;
        lease_until = some 2150;
        attempts = 1;
      }
      ∷ [];
}

first_of_two : claim 2000 unlocked 50 "w" 1 2100 two_facts ≡ ok (first_claim ∷ [], one_leased)
unfolding claim ◌>>=◌ is_claimable
first_of_two = refl

second_of_two :
    claim 2050 unlocked 51 "v" 10 2150 one_leased
    ≡ ok (claimed "v" 51 other_event ∷ [], both_leased)
unfolding claim ◌>>=◌ is_claimable
second_of_two = refl

claim-IsOrdered_example :
    (claims : List ClaimedChange) × (db' : Db) × (claim 2000 unlocked 50 "w" 10 2100 waiting
      ≡ ok (claims, db'))
    × IsOrdered waiting.outbox 10 claims
claim-IsOrdered_example =
    claim-IsOrdered 2000 unlocked 50 "w" 10 2100 waiting (omega arith) (omega arith)

claim-excludes_example :
    All
      (λ d. All (λ c. same_claim c d ≡ false) (first_claim ∷ []))
      (claimed "v" 51 other_event ∷ [])
claim-excludes_example =
    claim-excludes 2000 2050 unlocked unlocked 50 51 "w" "v" 1 10 2100 2150 two_facts one_leased
      both_leased (first_claim ∷ []) (claimed "v" 51 other_event ∷ []) first_of_two second_of_two
      (omega arith)

abbrev done : Db
done = record empty {
  outbox = event 12 2 ∷ record (event 11 1) { attempts = 1; processed_at = some 2010 } ∷ [];
}

acked_once : ack 2010 (first_claim ∷ []) leased ≡ ok (tt, done)
unfolding ack ◌>>=◌ count_where
acked_once = refl

-- After ten attempts the event is given up.
abbrev given_up : Db
given_up = record empty {
  outbox =
      event 12 2
      ∷ record (event 11 1) {
        attempts = 1;
        available_at = 3000;
        last_error = some "down";
        dead_lettered_at = some 2010;
      }
      ∷ [];
}

failed_once : fail 2010 1 first_claim "down" 3000 leased ≡ ok (tt, given_up)
unfolding fail ◌>>=◌ count_where
failed_once = refl

one_named : count_where (names_event first_claim) leased.outbox ≤ 1
unfolding count_where
one_named = omega arith

fail-IsRetried_example :
    All (λ r. names_event first_claim r ≡ true → IsRetried 1 3000 r) given_up.outbox
fail-IsRetried_example =
    fail-IsRetried 2010 first_claim leased given_up 1 "down" 3000 one_named failed_once

-- The lease has run out, and another worker takes the event over.
abbrev taken_over : Db
taken_over = record empty {
  outbox = event 12 2 ∷ record (leased_event 60 2300) { lease_owner = some "v"; attempts = 2 } ∷ [];
}

second_claimed :
    claim 2200 unlocked 60 "v" 10 2300 leased
    ≡ ok (claimed "v" 60 (leased_event 50 2100) ∷ [], taken_over)
unfolding claim ◌>>=◌ is_claimable
second_claimed = refl

claim-IsLost_example : IsLost first_claim taken_over
claim-IsLost_example =
    claim-IsLost 2200 unlocked 60 "v" 10 2300 leased taken_over
      (claimed "v" 60 (leased_event 50 2100) ∷ []) first_claim second_claimed refl
      (λ e. omega (arith, e))

claim-progress_example :
    (claims : List ClaimedChange) × (db' : Db) × (claim 2000 unlocked 50 "w" 1 2100 waiting
      ≡ ok (claims, db'))
    × (1 ≤ length claims)
claim-progress_example =
    claim-progress 2000 unlocked 50 "w" 1 2100 waiting (λ r. refl) (omega arith) (omega arith) refl
      refl
