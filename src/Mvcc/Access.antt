-- ===== src/Mvcc/Access.antt =====
-- pkg/mvcc/transaction.go: `Read`, `Write` and `Delete`, and the copies of the write and read sets
-- that savepoints use.
use laura_db.Prelude.{ℕ, Bool, true, false, Option, none, some, leb, if◌then◌else◌}
use laura_db.Prelude.Assoc.{Assoc, get, put}
use laura_db.Mvcc.VersionStore.{
  VersionedValue, VersionStore, Found, content, get_version, get_latest_version,
}
use laura_db.Mvcc.Manager.{Transaction, TransactionManager, Result, ok, with_active, set_txn}

module _ {ℓ} {K V : Type ℓ} (dec : Discrete K) where
  -- The version number that `Read` records for conflict detection.
  unfoldable pub recorded_version : VersionStore K V → K → ℕ → Bool → ℕ
  unfolding get_latest_version
  recorded_version vs key read_version true =
      let latest = get_latest_version dec vs key in
      if leb latest read_version then latest else read_version
  recorded_version vs key read_version false = 0

  unfoldable pub record_read : Transaction K V → VersionStore K V → K → Bool → Transaction K V
  unfolding recorded_version put
  record_read txn vs key exists =
      let v = recorded_version vs key txn.read_version exists in
      record txn { read_set = put dec key v txn.read_set }

  -- A read that the write set does not answer.
  unfoldable pub read_store :
      TransactionManager K V → ℕ → K → Transaction K V → TransactionManager K V × Result (Found V)
  unfolding get_version record_read set_txn
  read_store tm addr key txn =
      let found = get_version dec tm.version_store key txn.read_version in
      (set_txn tm addr (record_read txn tm.version_store key found.1), ok found)

  unfoldable pub read_txn :
      TransactionManager K V → ℕ → K → Transaction K V → TransactionManager K V × Result (Found V)
  unfolding read_store content get
  read_txn tm addr key txn = elim (get dec key txn.write_set) [
    | some v ↦ (tm, ok (content v))
    | none ↦ read_store tm addr key txn
  ]

  unfoldable pub read : TransactionManager K V → ℕ → K → TransactionManager K V × Result (Found V)
  unfolding with_active read_txn
  read tm addr key = with_active tm addr (read_txn tm addr key)

  -- Stores an entry of the write set.
  unfoldable pub write_entry :
      TransactionManager K V
      → ℕ
      → K
      → VersionedValue V
      → Transaction K V
      → TransactionManager K V × Result (Unit {ℓ})
  unfolding put set_txn
  write_entry tm addr key v txn =
      (set_txn tm addr (record txn { write_set = put dec key v txn.write_set }), ok tt)

  abbrev written : Option V → ℕ → VersionedValue V
  written value id = record {
    value = value;
    version = 0;
    created_by = id;
    deleted_by = 0;
    commit_time = 0;
  }

  abbrev deleted : ℕ → VersionedValue V
  deleted id = record {
    value = none;
    version = 0;
    created_by = id;
    deleted_by = id;
    commit_time = 0;
  }

  unfoldable pub write :
      TransactionManager K V → ℕ → K → Option V → TransactionManager K V × Result (Unit {ℓ})
  unfolding with_active write_entry
  write tm addr key value =
      with_active tm addr (λ txn. write_entry tm addr key (written value txn.id) txn)

  unfoldable pub delete :
      TransactionManager K V → ℕ → K → TransactionManager K V × Result (Unit {ℓ})
  unfolding with_active write_entry
  delete tm addr key = with_active tm addr (λ txn. write_entry tm addr key (deleted txn.id) txn)

-- `GetWriteSet` and `GetReadSet` copy; the values of the model are copies already.
module _ {ℓ} {K V : Type ℓ} where
  pub get_write_set : Transaction K V → Assoc K (VersionedValue V)
  get_write_set txn = txn.write_set

  pub get_read_set : Transaction K V → Assoc K ℕ
  get_read_set txn = txn.read_set

  pub set_write_set : Transaction K V → Assoc K (VersionedValue V) → Transaction K V
  set_write_set txn write_set = record txn { write_set = write_set }

  pub set_read_set : Transaction K V → Assoc K ℕ → Transaction K V
  set_read_set txn read_set = record txn { read_set = read_set }
