-- ===== src/Mvcc/Trace/Preservation.antt =====
-- pkg/mvcc: every call keeps the invariant of the transaction manager.
use laura_db.Prelude.{
  ℕ, suc, ◌+◌, ◌^◌, ◌≤◌, ◌<◌, ◌≡◌, List, [], ◌∷◌, some, arith, false, Bool-cases, inl, inr, length,
}
use laura_db.Mvcc.VersionStore.{chain_of}
use laura_db.Mvcc.Manager.{
  Transaction, TransactionManager, active, find_txn, new_transaction_manager, set_txn,
}
use laura_db.Mvcc.Access.{read_txn, read_store, write_entry}
use laura_db.Mvcc.Commit.{install, commit, commit_txn, has_conflict}
use laura_db.Mvcc.Commit.Effect.{add_uint64_lem}
use laura_db.Mvcc.Trace.{Call, begins, reads, writes, deletes, commits, aborts, collects, step, run}
use laura_db.Mvcc.Trace.Invariant.{
  Inv, with_active_keeps, begin-Inv, read-Inv, write_entry-Inv, abort-Inv, collect-Inv, install-Inv,
}

-- The counters stay clear of 2^64 for the next calls.
abbrev pub HasRoom {ℓ} : {K V : Type ℓ} → ℕ → TransactionManager K V → Type 0
HasRoom n tm = (tm.next_version + n < 2 ^ 64) × (tm.next_txn_id + n < 2 ^ 64)

module _ {ℓ} {K V : Type ℓ} (dec : Discrete K) where
  pub commit_keeps {κ} :
      (P : TransactionManager K V → Type κ) (tm : TransactionManager K V) (addr now : ℕ)
      → P tm
      → ((t : Transaction K V)
          → find_txn tm addr ≡ some t
          → t.state ≡ active
          → has_conflict dec tm.version_store t ≡ false
          → P (install dec tm addr now t))
      → P (commit dec tm addr now).0
  unfolding commit
  commit_keeps P tm addr now h k = with_active_keeps dec P tm addr _ h λ t e a.
      elim (Bool-cases (has_conflict dec tm.version_store t)) [
        | inl c ↦ rw (c, commit_txn) h
        | inr c ↦ rw (c, commit_txn) (k t e a c)
      ]

  pub step-Inv :
      (tm : TransactionManager K V) (c : Call K V)
      → HasRoom 1 tm
      → Inv dec tm
      → Inv dec (step dec tm c)
  unfolding step
  step-Inv tm (begins now) room v = begin-Inv dec tm now room.1 v
  step-Inv tm (reads addr key) room v = read-Inv dec tm addr key v
  step-Inv tm (writes addr key value) room v =
      with_active_keeps dec (Inv dec) tm addr _ v (λ t e _. write_entry-Inv dec tm addr key _ t e v)
  step-Inv tm (deletes addr key) room v =
      with_active_keeps dec (Inv dec) tm addr _ v (λ t e _. write_entry-Inv dec tm addr key _ t e v)
  step-Inv tm (commits addr now) room v =
      commit_keeps (Inv dec) tm addr now v (λ t e _ _. install-Inv dec tm addr now t e room.0 v)
  step-Inv tm (aborts addr) room v = abort-Inv dec tm addr v
  step-Inv tm collects room v = collect-Inv dec tm v

  -- How far one call moves the counters.
  abbrev pub Advances : TransactionManager K V → TransactionManager K V → Type 0
  Advances tm tm' =
      (tm.next_version ≤ tm'.next_version)
      × (tm'.next_version ≤ suc tm.next_version)
      × (tm.next_txn_id ≤ tm'.next_txn_id)
      × (tm'.next_txn_id ≤ suc tm.next_txn_id)

  pub step-Advances :
      (tm : TransactionManager K V) (c : Call K V) → HasRoom 1 tm → Advances tm (step dec tm c)
  unfolding step install write_entry read_txn read_store set_txn
  step-Advances tm (begins now) room = omega (arith, add_uint64_lem tm.next_txn_id room.1)
  step-Advances tm (reads addr key) room =
      with_active_keeps dec (Advances tm) tm addr _ (omega arith) (λ t e _. ground arith)
  step-Advances tm (writes addr key value) room =
      with_active_keeps dec (Advances tm) tm addr _ (omega arith) (λ t e _. omega arith)
  step-Advances tm (deletes addr key) room =
      with_active_keeps dec (Advances tm) tm addr _ (omega arith) (λ t e _. omega arith)
  step-Advances tm (commits addr now) room =
      commit_keeps (Advances tm) tm addr now (omega arith)
        (λ t e _ _. omega (arith, add_uint64_lem tm.next_version room.0))
  step-Advances tm (aborts addr) room =
      with_active_keeps dec (Advances tm) tm addr _ (omega arith) (λ t e _. omega arith)
  step-Advances tm collects room = omega arith

  new-Inv : Inv dec (new_transaction_manager {K = K} {V = V})
  unfolding new_transaction_manager find_txn chain_of
  new-Inv = record { ordered = λ k. tt; sound = λ a t e. ground arith }

  -- Every sequence of calls keeps the invariant, as long as the counters have room for it.
  pub run-Inv :
      (tm : TransactionManager K V) (cs : List (Call K V))
      → HasRoom (length cs) tm
      → Inv dec tm
      → Inv dec (run dec tm cs)
  unfolding run
  run-Inv tm [] room v = v
  run-Inv tm (c ∷ cs) room v =
      let one : HasRoom 1 tm = omega arith in
      run-Inv (step dec tm c) cs (omega (arith, step-Advances tm c one)) (step-Inv tm c one v)

  -- After any sequence of calls on a new manager, fewer than 2^64 - 1 of them, the versions of
  -- every key fall strictly from the head of its chain, none above the version counter, and every
  -- transaction's snapshot, address and recorded reads are from the past.
  pub run-new-Inv :
      (cs : List (Call K V)) → length cs + 1 < 2 ^ 64 → Inv dec (run dec new_transaction_manager cs)
  unfolding new_transaction_manager
  run-new-Inv cs room = run-Inv new_transaction_manager cs (omega arith) new-Inv
