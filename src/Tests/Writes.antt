-- ===== src/Tests/Writes.antt =====
-- The writes of the repositories at concrete inputs.
use plk_memory.Base.{[]}
use plk_memory.Postgres.Session.{transaction}
use plk_memory.Postgres.Repository.{invalidate}
use plk_memory.Postgres.Approvals.{decide}
use plk_memory.Postgres.Ledger.{IsConsistent}
use plk_memory.Postgres.Ledger.Repository.{create-IsConsistent, invalidate-IsConsistent}
use plk_memory.Postgres.Ledger.Approvals.{propose-IsConsistent}
use plk_memory.Postgres.Ledger.Decide.{decide-IsConsistent}
use plk_memory.Tests.Samples.{
  ext, writer, reviewer, first_fact, drop_first, ids_from, empty, empty-IsConsistent, stored,
  proposed,
}

create-IsConsistent_example : IsConsistent stored
create-IsConsistent_example =
    create-IsConsistent ext writer (ids_from 10) 1000 first_fact [] "k1" empty empty-IsConsistent

invalidate-IsConsistent_example :
    IsConsistent (transaction (invalidate ext writer (ids_from 20) 2000 drop_first 1 "k2") stored).1
invalidate-IsConsistent_example =
    invalidate-IsConsistent ext writer (ids_from 20) 2000 drop_first 1 "k2" stored (
      create-IsConsistent ext writer (ids_from 10) 1000 first_fact [] "k1" empty empty-IsConsistent)

propose-IsConsistent_example : IsConsistent proposed
propose-IsConsistent_example =
    propose-IsConsistent ext writer (ids_from 100) 2000 "f1" "shared" "k3" stored (
      create-IsConsistent ext writer (ids_from 10) 1000 first_fact [] "k1" empty empty-IsConsistent)

decide-IsConsistent_example :
    IsConsistent
      (transaction
        (decide ext reviewer (ids_from 200) 3000 "r" "approved" "correct" 1 "k4")
        proposed).1
decide-IsConsistent_example =
    decide-IsConsistent ext reviewer (ids_from 200) 3000 "r" "approved" "correct" 1 "k4" proposed (
      propose-IsConsistent ext writer (ids_from 100) 2000 "f1" "shared" "k3" stored (
        create-IsConsistent ext writer (ids_from 10) 1000 first_fact [] "k1" empty
          empty-IsConsistent))
