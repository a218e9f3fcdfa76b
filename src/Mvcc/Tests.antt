-- ===== src/Mvcc/Tests.antt =====
-- pkg/mvcc: runs of the transaction manager at concrete inputs.
use laura_db.Prelude.{ℕ, ◌≡◌, refl, List, [], ◌∷◌, some, arith, true, ℕ_discrete}
use laura_db.Mvcc.VersionStore.{VersionedValue, get_version, missing}
use laura_db.Mvcc.Manager.{
  Transaction, TransactionManager, ok, err, conflict, active, new_transaction_manager, find_txn,
  maybe_garbage_collect,
}
use laura_db.Mvcc.Access
use laura_db.Mvcc.Commit.{commit}
use laura_db.Mvcc.VersionStore.Snapshots.{visible_version}
use laura_db.Mvcc.Trace.Invariant.{Inv}
use laura_db.Mvcc.Trace.Preservation.{HasRoom, run-new-Inv}
use laura_db.Mvcc.Trace.Isolation.{read-run}
use laura_db.Mvcc.Trace.Atomicity.{get_version-commit}
use laura_db.Mvcc.Trace.Collection.{get_version-maybe_garbage_collect}
use laura_db.Mvcc.Trace.{Call, begins, writes, commits, run}

program : Unit {0}
unfolding run commit find_txn new_transaction_manager get_version maybe_garbage_collect Access.read
    ℕ_discrete
program = tt

-- Two transactions, at 3 and 4, have written the key 7 over the version 2.
abbrev contended_calls : List (Call ℕ ℕ)
contended_calls =
    begins 0
    ∷ writes 2 7 (some 70)
    ∷ commits 2 1
    ∷ begins 2
    ∷ begins 3
    ∷ writes 3 7 (some 71)
    ∷ writes 4 7 (some 72)
    ∷ []

abbrev contended : TransactionManager ℕ ℕ
unfolding run new_transaction_manager
contended = run ℕ_discrete new_transaction_manager contended_calls

abbrev entry : ℕ → ℕ → VersionedValue ℕ
entry value id = record {
  value = some value;
  version = 0;
  created_by = id;
  deleted_by = 0;
  commit_time = 0;
}

abbrev writer : ℕ → ℕ → ℕ → Transaction ℕ ℕ
writer id start value = record {
  id = id;
  start_time = start;
  commit_time = 0;
  state = active;
  read_version = 2;
  write_set = (7, entry value id) ∷ [];
  read_set = [];
}

second_fails : (commit ℕ_discrete (commit ℕ_discrete contended 3 9).0 4 10).1 ≡ err conflict
unfolding program
second_fails = refl

contended-Inv : Inv ℕ_discrete contended
unfolding program
contended-Inv = run-new-Inv ℕ_discrete contended_calls (omega arith)

first_writer : find_txn contended 3 ≡ some (writer 3 2 71)
unfolding program
first_writer = refl

second_writer : find_txn contended 4 ≡ some (writer 4 3 72)
unfolding program
second_writer = refl

contended_room : HasRoom 2 contended
unfolding program
contended_room = omega arith

-- The second transaction writes the key again after the first one has committed.
abbrev afterwards : List (Call ℕ ℕ)
afterwards = begins 5 ∷ writes 4 7 (some 73) ∷ []

get_version-commit_example :
    get_version ℕ_discrete (commit ℕ_discrete contended 3 9).0.version_store 7 3 ≡ (some 71, true)
unfolding program
get_version-commit_example =
    get_version-commit ℕ_discrete contended 3 9 (writer 3 2 71) 7 3 (omega (arith, contended_room))
      contended-Inv first_writer refl refl

read-run_example :
    (Access.read ℕ_discrete (run ℕ_discrete contended (commits 3 9 ∷ [])) 4 7).1
    ≡ (Access.read ℕ_discrete contended 4 7).1
unfolding program
read-run_example =
    read-run ℕ_discrete contended 4 (writer 4 3 72) (commits 3 9 ∷ []) 7
      (omega (arith, contended_room)) contended-Inv second_writer refl (refl, tt)

-- The key 7 has a version 2, which the snapshot 3 of the transaction at 4 sees, and then gets a
-- version 4. The collection behind that commit takes the version 2 away.
abbrev lost_calls : List (Call ℕ ℕ)
lost_calls =
    begins 0
    ∷ writes 2 7 (some 70)
    ∷ commits 2 1
    ∷ begins 2
    ∷ writes 3 8 (some 80)
    ∷ commits 3 3
    ∷ begins 4
    ∷ begins 5
    ∷ writes 5 7 (some 71)
    ∷ commits 5 6
    ∷ []

abbrev collected : TransactionManager ℕ ℕ
unfolding run new_transaction_manager
collected = run ℕ_discrete new_transaction_manager lost_calls

seen_before : (Access.read ℕ_discrete collected 4 7).1 ≡ ok (some 70, true)
unfolding program
seen_before = refl

lost_after : (Access.read ℕ_discrete (maybe_garbage_collect collected) 4 7).1 ≡ ok missing
unfolding program
lost_after = refl

get_version-maybe_garbage_collect_example :
    get_version ℕ_discrete (maybe_garbage_collect collected).version_store 7 3 ≡ missing
unfolding program visible_version
get_version-maybe_garbage_collect_example =
    get_version-maybe_garbage_collect ℕ_discrete collected 7 3
      (run-new-Inv ℕ_discrete lost_calls (omega arith))
