-- ===== src/Mvcc/Manager.antt =====
-- pkg/mvcc/transaction.go: `Transaction` and `TransactionManager`. A `*Transaction` is an address
-- in the heap `txns`; a method takes the manager and returns the new one with the method's result.
-- Every method holds the manager's or the transaction's lock throughout, so a method is one step;
-- the collection that `Commit` starts with `go` is a step of its own.
use laura_db.Prelude.{
  ℕ, ◌+◌, ◌%◌, ◌^◌, Bool, true, false, [], ◌∷◌, Option, none, some, ltb, if◌then◌else◌, length,
  ℕ_discrete,
}
use laura_db.Prelude.Assoc.{Assoc, get, put, delete}
use laura_db.Mvcc.VersionStore.{VersionedValue, VersionStore, garbage_collect}

pub data TxnState : Type 0 where
  active committed aborted : TxnState

pub data Error : Type 0 where
  transaction_not_active conflict nil_pointer : Error

pub data Result {ℓ} (A : Type ℓ) : Type ℓ where
  ok : A → Result A
  err : Error → Result A

pub record Transaction {ℓ} (K V : Type ℓ) : Type ℓ where
  pub id : ℕ
  pub start_time : ℕ
  pub commit_time : ℕ
  pub state : TxnState
  pub read_version : ℕ
  pub write_set : Assoc K (VersionedValue V)
  pub read_set : Assoc K ℕ

-- Transactions by address; `active_txns` and `committed_txns` map an identifier to an address.
pub record TransactionManager {ℓ} (K V : Type ℓ) : Type ℓ where
  pub next_txn_id : ℕ
  pub next_version : ℕ
  pub active_txns : Assoc ℕ ℕ
  pub committed_txns : Assoc ℕ ℕ
  pub version_store : VersionStore K V
  pub txns : Assoc ℕ (Transaction K V)

-- `atomic.AddUint64(&n, 1)`
unfoldable pub add_uint64 : ℕ → ℕ
add_uint64 n = (n + 1) % 2 ^ 64

unfoldable pub is_active : TxnState → Bool
is_active active = true
is_active committed = false
is_active aborted = false

unfoldable pub new_transaction_manager {ℓ} : {K V : Type ℓ} → TransactionManager K V
new_transaction_manager = record {
  next_txn_id = 1;
  next_version = 1;
  active_txns = [];
  committed_txns = [];
  version_store = [];
  txns = [];
}

module _ {ℓ} {K V : Type ℓ} where
  unfoldable pub find_txn : TransactionManager K V → ℕ → Option (Transaction K V)
  unfolding get ℕ_discrete
  find_txn tm addr = get ℕ_discrete addr tm.txns

  unfoldable pub set_txn : TransactionManager K V → ℕ → Transaction K V → TransactionManager K V
  unfolding put ℕ_discrete
  set_txn tm addr txn = record tm { txns = put ℕ_discrete addr txn tm.txns }

  -- The new transaction, at the address that is its identifier.
  unfoldable pub begin : TransactionManager K V → ℕ → TransactionManager K V × ℕ
  unfolding add_uint64 put ℕ_discrete
  begin tm now =
      let txn_id = add_uint64 tm.next_txn_id in
      let txn : Transaction K V = record {
        id = txn_id;
        start_time = now;
        commit_time = 0;
        state = active;
        read_version = tm.next_version;
        write_set = [];
        read_set = [];
      } in
      (
        record tm {
          next_txn_id = txn_id;
          active_txns = put ℕ_discrete txn_id txn_id tm.active_txns;
          txns = put ℕ_discrete txn_id txn tm.txns;
        },
        txn_id,
      )

  -- Runs a method on the transaction at an address.
  unfoldable pub with_active :
      {A : Type ℓ}
      → TransactionManager K V
      → ℕ
      → (Transaction K V → TransactionManager K V × Result A)
      → TransactionManager K V × Result A
  unfolding find_txn is_active
  with_active tm addr body = elim (find_txn tm addr) [
    | none ↦ (tm, err nil_pointer)
    | some txn ↦ if is_active txn.state then body txn else (tm, err transaction_not_active)
  ]

  abort_txn :
      TransactionManager K V → ℕ → Transaction K V → TransactionManager K V × Result (Unit {ℓ})
  unfolding set_txn delete ℕ_discrete
  abort_txn tm addr txn =
      let tm' = set_txn tm addr (record txn { write_set = []; state = aborted }) in
      (record tm' { active_txns = delete ℕ_discrete txn.id tm.active_txns }, ok tt)

  unfoldable pub abort : TransactionManager K V → ℕ → TransactionManager K V × Result (Unit {ℓ})
  unfolding with_active abort_txn
  abort tm addr = with_active tm addr (abort_txn tm addr)

  -- The smaller of a bound and the read version of a transaction.
  unfoldable pub lower_bound : ℕ → Option (Transaction K V) → ℕ
  lower_bound bound none = bound
  lower_bound bound (some txn) = if ltb txn.read_version bound then txn.read_version else bound

  unfoldable pub min_read_version : TransactionManager K V → ℕ → Assoc ℕ ℕ → ℕ
  unfolding lower_bound find_txn
  min_read_version tm bound [] = bound
  min_read_version tm bound ((id, addr) ∷ rest) =
      min_read_version tm (lower_bound bound (find_txn tm addr)) rest

  unfoldable pub maybe_garbage_collect : TransactionManager K V → TransactionManager K V
  unfolding min_read_version garbage_collect
  maybe_garbage_collect tm =
      let min_version = min_read_version tm tm.next_version tm.active_txns in
      record tm { version_store = garbage_collect tm.version_store min_version }

  pub get_active_transactions : TransactionManager K V → ℕ
  get_active_transactions tm = length tm.active_txns
