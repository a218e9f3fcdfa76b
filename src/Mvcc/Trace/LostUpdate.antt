-- ===== src/Mvcc/Trace/LostUpdate.antt =====
-- pkg/mvcc: of two transactions that write one key, the second to commit fails.
use laura_db.Prelude.{ℕ, ◌≤◌, ◌≡◌, Bool, false, Option, none, some, true}
use laura_db.Mvcc.VersionStore.{get_latest_version}
use laura_db.Mvcc.Manager.{Transaction, TransactionManager, find_txn}
use laura_db.Mvcc.Trace.{Call, begins, reads, writes, deletes, commits, aborts, collects}

-- The call is no collection.
abbrev pub no_collection {ℓ} : {K V : Type ℓ} → Call K V → Bool
no_collection (begins now) = true
no_collection (reads a key) = true
no_collection (writes a key value) = true
no_collection (deletes a key) = true
no_collection (commits a now) = true
no_collection (aborts a) = true
no_collection collects = false

module _ {ℓ} {K V : Type ℓ} (dec : Discrete K) where
  abbrev Newer : TransactionManager K V → K → TransactionManager K V → Type 0
  Newer tm k tm' =
      get_latest_version dec tm.version_store k ≤ get_latest_version dec tm'.version_store k

  -- The transaction at the address has the read version.
  abbrev ReadsAt : ℕ → ℕ → TransactionManager K V → Type ℓ
  ReadsAt b r tm = (u : Transaction K V) × (find_txn tm b ≡ some u) × (u.read_version ≡ r)

  read_version_of : Option (Transaction K V) → ℕ
  read_version_of none = 0
  read_version_of (some t) = t.read_version
