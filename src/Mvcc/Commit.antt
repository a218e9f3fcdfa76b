-- ===== src/Mvcc/Commit.antt =====
-- pkg/mvcc/transaction.go: `Commit`, with its two loops for write conflicts.
pub mod Conflict
pub mod Effect
use laura_db.Prelude.{
  ℕ, ◌+◌, Bool, true, false, not, ◌&&◌, List, [], ◌∷◌, Option, none, some, ltb, if◌then◌else◌, any,
  ℕ_discrete,
}
use laura_db.Prelude.Assoc.{Assoc, get, put, delete, has, map_values}
use laura_db.Mvcc.VersionStore.{VersionedValue, VersionStore, put_version, get_latest_version}
use laura_db.Mvcc.Manager.{
  Transaction, TransactionManager, Result, ok, err, conflict, committed, with_active, set_txn,
  add_uint64,
}

-- What `Commit` sets in each entry of the write set.
unfoldable pub stamp {ℓ} : {V : Type ℓ} → ℕ → ℕ → VersionedValue V → VersionedValue V
stamp commit_version now v = record v { version = commit_version; commit_time = now }

module _ {ℓ} {K V : Type ℓ} (dec : Discrete K) where
  -- The test of the loop over the read set.
  unfoldable pub read_conflicts : VersionStore K V → Transaction K V → K × ℕ → Bool
  unfolding has get_latest_version
  read_conflicts vs txn (key, read_version) =
      let current = get_latest_version dec vs key in
      has dec key txn.write_set && (ltb read_version current && ltb txn.read_version current)

  -- The test of the loop over the write set.
  unfoldable pub write_conflicts : VersionStore K V → Transaction K V → K × VersionedValue V → Bool
  unfolding has get_latest_version
  write_conflicts vs txn (key, _) =
      not (has dec key txn.read_set) && ltb txn.read_version (get_latest_version dec vs key)

  unfoldable pub has_conflict : VersionStore K V → Transaction K V → Bool
  unfolding read_conflicts write_conflicts
  has_conflict vs txn =
      if any (read_conflicts vs txn) txn.read_set
      then true
      else any (write_conflicts vs txn) txn.write_set

  -- The loop that applies the write set to the version store.
  unfoldable pub apply_writes : Assoc K (VersionedValue V) → VersionStore K V → VersionStore K V
  unfolding put_version
  apply_writes [] vs = vs
  apply_writes ((key, v) ∷ rest) vs = apply_writes rest (put_version dec vs key v)

  -- The transaction passes the checks: its writes get the next version.
  unfoldable pub install : TransactionManager K V → ℕ → ℕ → Transaction K V → TransactionManager K V
  unfolding apply_writes stamp map_values add_uint64 set_txn delete put ℕ_discrete
  install tm addr now txn =
      let commit_version = add_uint64 tm.next_version in
      let stamped = map_values (stamp commit_version now) txn.write_set in
      let txn' : Transaction K V = record txn {
        write_set = stamped;
        commit_time = now;
        state = committed;
      } in
      record tm {
        next_version = commit_version;
        version_store = apply_writes stamped tm.version_store;
        active_txns = delete ℕ_discrete txn.id tm.active_txns;
        committed_txns = put ℕ_discrete txn.id addr tm.committed_txns;
        txns = put ℕ_discrete addr txn' tm.txns;
      }

  unfoldable pub commit_txn :
      TransactionManager K V → ℕ → ℕ → Transaction K V → TransactionManager K V × Result (Unit {ℓ})
  unfolding has_conflict install
  commit_txn tm addr now txn =
      if has_conflict tm.version_store txn
      then (tm, err conflict)
      else (install tm addr now txn, ok tt)

  unfoldable pub commit :
      TransactionManager K V → ℕ → ℕ → TransactionManager K V × Result (Unit {ℓ})
  unfolding with_active commit_txn
  commit tm addr now = with_active tm addr (commit_txn tm addr now)
