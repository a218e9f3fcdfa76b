-- ===== src/Mvcc/Trace/Invariant.antt =====
-- pkg/mvcc: the invariant of the transaction manager.
use laura_db.Prelude.{
  ℕ, suc, ◌+◌, ◌^◌, ◌≤◌, ◌<◌, ◌≡◌, refl, sym, subst, [], some, arith, Bool, true, false,
  if◌then◌else◌, Option-cases, inl, inr, ℕ_discrete,
}
use laura_db.Prelude.Assoc.{get, put-every, put-Distinct, map_values-Distinct}
use laura_db.Mvcc.VersionStore.{VersionedValue, VersionStore, chain_of}
use laura_db.Mvcc.VersionStore.Order.{Below, collect_chain-Below, chain_of-garbage_collect}
use laura_db.Mvcc.Manager.{
  Transaction, TransactionManager, Result, err, transaction_not_active, active, committed, aborted,
  begin, find_txn, set_txn, with_active, abort, is_active, maybe_garbage_collect, TxnState,
  add_uint64,
}
use laura_db.Mvcc.Access.{recorded_version, record_read, read_store, read_txn, write_entry}
use laura_db.Mvcc.Access
use laura_db.Mvcc.Commit.{install}
use laura_db.Mvcc.Commit.Conflict.{IsSnapshot}
use laura_db.Mvcc.Commit.Effect.{add_uint64_lem, install-Below}

module _ {ℓ} {K V : Type ℓ} (dec : Discrete K) where
  -- A transaction on the heap: its snapshot and its address are from the past.
  pub record IsSound (versions ids addr : ℕ) (t : Transaction K V) : Type ℓ where
    pub begun : t.read_version ≤ versions
    pub allocated : addr ≤ ids
    pub snapshot : IsSnapshot dec t

  pub record Inv (tm : TransactionManager K V) : Type ℓ where
    pub ordered : (k : K) → Below (suc tm.next_version) (chain_of dec tm.version_store k)
    pub sound :
        (addr : ℕ) (t : Transaction K V)
        → find_txn tm addr ≡ some t
        → IsSound tm.next_version tm.next_txn_id addr t

  IsSound-mono :
      {m n i j a : ℕ} {t : Transaction K V} → m ≤ n → i ≤ j → IsSound m i a t → IsSound n j a t
  IsSound-mono h k s = record {
    begun = omega arith;
    allocated = omega arith;
    snapshot = s.snapshot;
  }

  set_txn-Inv :
      (tm : TransactionManager K V) (addr : ℕ) (t : Transaction K V)
      → Inv tm
      → IsSound tm.next_version tm.next_txn_id addr t
      → Inv (set_txn tm addr t)
  unfolding set_txn find_txn
  set_txn-Inv tm addr t v s = record {
    ordered = v.ordered;
    sound = put-every ℕ_discrete (IsSound tm.next_version tm.next_txn_id) addr t tm.txns s v.sound;
  }

  -- A method keeps what it keeps where it runs on an active transaction.
  pub with_active_keeps {κ} :
      {A : Type ℓ} (P : TransactionManager K V → Type κ) (tm : TransactionManager K V) (addr : ℕ)
      (body : Transaction K V → TransactionManager K V × Result A)
      → P tm
      → ((t : Transaction K V) → find_txn tm addr ≡ some t → t.state ≡ active → P (body t).0)
      → P (with_active tm addr body).0
  unfolding with_active is_active
  with_active_keeps {A = A} P tm addr body h k = elim (Option-cases (find_txn tm addr)) [
    | inl e ↦ rw (e, with_active) h
    | inr (t, e) ↦ rw (e, with_active) (by_state t e t.state refl)
  ]
    where
      guarded : TxnState → Transaction K V → TransactionManager K V × Result A
      guarded s t = if is_active s then body t else (tm, err transaction_not_active)

      by_state :
          (t : Transaction K V)
          → find_txn tm addr ≡ some t
          → (s : TxnState) → t.state ≡ s
          → P (guarded t.state t).0
      by_state t e active q = subst (λ (x : TxnState). P (guarded x t).0) (sym q) (k t e q)
      by_state t e committed q = subst (λ (x : TxnState). P (guarded x t).0) (sym q) h
      by_state t e aborted q = subst (λ (x : TxnState). P (guarded x t).0) (sym q) h

  pub begin-Inv :
      (tm : TransactionManager K V) (now : ℕ)
      → tm.next_txn_id + 1 < 2 ^ 64
      → Inv tm
      → Inv (begin tm now).0
  unfolding begin find_txn
  begin-Inv tm now room v =
      let grown = add_uint64_lem tm.next_txn_id room in
      record {
        ordered = v.ordered;
        sound =
            put-every ℕ_discrete (IsSound tm.next_version (add_uint64 tm.next_txn_id)) _ _ tm.txns
              (record {
                begun = omega arith;
                allocated = omega arith;
                snapshot = record {
                  writes_distinct = tt;
                  reads_distinct = tt;
                  reads_old = λ k r e. ground arith;
                };
              })
              (λ j w e. IsSound-mono (omega arith) (omega (arith, grown)) (v.sound j w e));
      }

  recorded_version-le :
      (vs : VersionStore K V) (k : K) (n : ℕ) (exists : Bool)
      → recorded_version dec vs k n exists ≤ n
  unfolding recorded_version
  recorded_version-le vs k n true = ground arith
  recorded_version-le vs k n false = omega arith

  record_read-IsSnapshot :
      (t : Transaction K V) (vs : VersionStore K V) (k : K) (exists : Bool)
      → IsSnapshot dec t
      → IsSnapshot dec (record_read dec t vs k exists)
  unfolding record_read
  record_read-IsSnapshot t vs k exists s = record {
    writes_distinct = s.writes_distinct;
    reads_distinct = put-Distinct dec k _ t.read_set s.reads_distinct;
    reads_old =
        put-every dec (λ _ r. r ≤ t.read_version) k _ t.read_set
          (recorded_version-le vs k t.read_version exists) s.reads_old;
  }

  pub read-Inv :
      (tm : TransactionManager K V) (addr : ℕ) (k : K) → Inv tm → Inv (Access.read dec tm addr k).0
  unfolding Access.read read_store
  read-Inv tm addr k v = with_active_keeps Inv tm addr _ v λ t e _.
      let s = v.sound addr t e in
      elim (Option-cases (get dec k t.write_set)) [
        | inl none_written ↦
            rw (none_written, read_txn)
              (set_txn-Inv tm addr _ v (record {
                begun = s.begun;
                allocated = s.allocated;
                snapshot = record_read-IsSnapshot t tm.version_store k _ s.snapshot;
              }))
        | inr (w, found) ↦ rw (found, read_txn) v
      ]

  pub write_entry-Inv :
      (tm : TransactionManager K V) (addr : ℕ) (k : K) (w : VersionedValue V) (t : Transaction K V)
      → find_txn tm addr ≡ some t
      → Inv tm
      → Inv (write_entry dec tm addr k w t).0
  unfolding write_entry
  write_entry-Inv tm addr k w t e v =
      let s = v.sound addr t e in
      set_txn-Inv tm addr _ v (record {
        begun = s.begun;
        allocated = s.allocated;
        snapshot = record {
          writes_distinct = put-Distinct dec k w t.write_set s.snapshot.writes_distinct;
          reads_distinct = s.snapshot.reads_distinct;
          reads_old = s.snapshot.reads_old;
        };
      })

  pub abort-Inv : (tm : TransactionManager K V) (addr : ℕ) → Inv tm → Inv (abort tm addr).0
  unfolding abort
  abort-Inv tm addr v = with_active_keeps Inv tm addr _ v λ t e _.
      let s = v.sound addr t e in
      let w =
        set_txn-Inv tm addr (record t { write_set = []; state = aborted }) v
          (record {
            begun = s.begun;
            allocated = s.allocated;
            snapshot = record {
              writes_distinct = tt;
              reads_distinct = s.snapshot.reads_distinct;
              reads_old = s.snapshot.reads_old;
            };
          }) in
      record { ordered = w.ordered; sound = w.sound }

  pub collect-Inv : (tm : TransactionManager K V) → Inv tm → Inv (maybe_garbage_collect tm)
  unfolding maybe_garbage_collect
  collect-Inv tm v = record {
    ordered = λ k.
        rw (chain_of-garbage_collect dec tm.version_store _ k)
          (collect_chain-Below _ _ (chain_of dec tm.version_store k) (v.ordered k));
    sound = v.sound;
  }

  pub install-Inv :
      (tm : TransactionManager K V) (addr now : ℕ) (t : Transaction K V)
      → find_txn tm addr ≡ some t
      → tm.next_version + 1 < 2 ^ 64
      → Inv tm
      → Inv (install dec tm addr now t)
  unfolding install find_txn
  install-Inv tm addr now t e room v =
      let s = v.sound addr t e in
      let grown = add_uint64_lem tm.next_version room in
      let distinct = s.snapshot.writes_distinct in
      record {
        ordered = λ k.
            subst
              (λ (n : ℕ). Below (suc n) (chain_of dec (install dec tm addr now t).version_store k))
              (sym grown) (install-Below dec tm addr now t room distinct k (v.ordered k));
        sound =
            put-every ℕ_discrete (IsSound (add_uint64 tm.next_version) tm.next_txn_id) addr _
              tm.txns
              (record {
                begun = omega (arith, grown, s.begun);
                allocated = s.allocated;
                snapshot = record {
                  writes_distinct = map_values-Distinct dec _ t.write_set distinct;
                  reads_distinct = s.snapshot.reads_distinct;
                  reads_old = s.snapshot.reads_old;
                };
              })
              (λ j w q. IsSound-mono (omega (arith, grown)) (omega arith) (v.sound j w q));
      }
