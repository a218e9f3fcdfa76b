-- ===== src/Mvcc/Trace/Isolation.antt =====
-- pkg/mvcc: snapshot isolation. What a transaction reads does not depend on what others do.
use laura_db.Prelude.{
  ℕ, ◌≤◌, ◌≡◌, ◌≢◌, refl, sym, subst, ◌∙◌, List, [], ◌∷◌, some, arith, Bool, true, false, not, ◌==◌,
  if◌then◌else◌, Option-cases, inl, inr, length, All, if_neg, ℕ_discrete,
}
use laura_db.Prelude.Assoc.{Assoc, get, put, get-put}
use laura_db.Mvcc.VersionStore.{get_version}
use laura_db.Mvcc.Manager.{
  Transaction, TransactionManager, Result, ok, err, transaction_not_active, active, TxnState, begin,
  find_txn, set_txn, with_active, is_active,
}
use laura_db.Mvcc.Access
use laura_db.Mvcc.Access.{read_txn, read_store, write_entry}
use laura_db.Mvcc.Commit.{install}
use laura_db.Mvcc.Commit.Effect.{answer, add_uint64_lem, get_version-install}
use laura_db.Mvcc.Trace.{Call, begins, reads, writes, deletes, commits, aborts, collects, step, run}
use laura_db.Mvcc.Trace.Invariant.{Inv, with_active_keeps}
use laura_db.Mvcc.Trace.Preservation.{HasRoom, commit_keeps, step-Inv, step-Advances}

-- A call that is no collection and is not made on the transaction at the address.
abbrev pub is_foreign {ℓ} : {K V : Type ℓ} → ℕ → Call K V → Bool
is_foreign addr (begins now) = true
is_foreign addr (reads a key) = not (a == addr)
is_foreign addr (writes a key value) = not (a == addr)
is_foreign addr (deletes a key) = not (a == addr)
is_foreign addr (commits a now) = not (a == addr)
is_foreign addr (aborts a) = not (a == addr)
is_foreign addr collects = false

ne_of_foreign : (a addr : ℕ) → not (a == addr) ≡ true → a ≢ addr
ne_of_foreign a addr h e = ground arith

module _ {ℓ} {K V : Type ℓ} (dec : Discrete K) where
  -- The key reads at the version as it did in the other manager.
  abbrev SameRead : TransactionManager K V → K → ℕ → TransactionManager K V → Type ℓ
  SameRead tm key s tm' =
      get_version dec tm'.version_store key s ≡ get_version dec tm.version_store key s

  step-SameRead :
      (tm : TransactionManager K V) (addr : ℕ) (c : Call K V) (key : K) (s : ℕ)
      → HasRoom 1 tm
      → Inv dec tm
      → is_foreign addr c ≡ true
      → s ≤ tm.next_version
      → SameRead tm key s (step dec tm c)
  unfolding step write_entry read_store set_txn
  step-SameRead tm addr (begins now) key s room v f h = refl
  step-SameRead tm addr (reads a k) key s room v f h =
      with_active_keeps dec (SameRead tm key s) tm a _ refl (λ t e _.
        elim (Option-cases (get dec k t.write_set)) [
          | inl q ↦ rw (q, read_txn)
          | inr (w, q) ↦ rw (q, read_txn)
        ])
  step-SameRead tm addr (writes a k value) key s room v f h =
      with_active_keeps dec (SameRead tm key s) tm a _ refl (λ t e _. refl)
  step-SameRead tm addr (deletes a k) key s room v f h =
      with_active_keeps dec (SameRead tm key s) tm a _ refl (λ t e _. refl)
  step-SameRead tm addr (commits a now) key s room v f h =
      commit_keeps dec (SameRead tm key s) tm a now refl (λ t e _ _.
        let distinct = (v.sound a t e).snapshot.writes_distinct in
        ground (arith, get_version-install dec tm a now t room.0 distinct key s))
  step-SameRead tm addr (aborts a) key s room v f h =
      with_active_keeps dec (SameRead tm key s) tm a _ refl (λ t e _. refl)
  step-SameRead tm addr collects key s room v f h = cc

  -- The transaction at the address is the one of the other manager.
  abbrev SameTxn : TransactionManager K V → ℕ → TransactionManager K V → Type ℓ
  SameTxn tm addr tm' = find_txn tm' addr ≡ find_txn tm addr

  get-put_foreign :
      (m : Assoc ℕ (Transaction K V)) (a addr : ℕ) (u : Transaction K V)
      → a ≢ addr
      → get ℕ_discrete addr (put ℕ_discrete a u m) ≡ get ℕ_discrete addr m
  get-put_foreign m a addr u h =
      rw (get-put ℕ_discrete a addr u m) (if_neg (ℕ_discrete a addr) h (some u) _)

  pub step-SameTxn :
      (tm : TransactionManager K V) (addr : ℕ) (t : Transaction K V) (c : Call K V)
      → HasRoom 1 tm
      → Inv dec tm
      → is_foreign addr c ≡ true
      → find_txn tm addr ≡ some t
      → SameTxn tm addr (step dec tm c)
  unfolding step write_entry read_store set_txn find_txn begin install
  step-SameTxn tm addr t (begins now) room v f h =
      get-put_foreign tm.txns _ addr _
        (omega (arith, add_uint64_lem tm.next_txn_id room.1, (v.sound addr t h).allocated))
  step-SameTxn tm addr t (reads a k) room v f h =
      with_active_keeps dec (SameTxn tm addr) tm a _ refl (λ u e _.
        elim (Option-cases (get dec k u.write_set)) [
          | inl q ↦ rw (q, read_txn) (get-put_foreign tm.txns a addr _ (ne_of_foreign a addr f))
          | inr (w, q) ↦ rw (q, read_txn)
        ])
  step-SameTxn tm addr t (writes a k value) room v f h =
      with_active_keeps dec (SameTxn tm addr) tm a _ refl
        (λ u e _. get-put_foreign tm.txns a addr _ (ne_of_foreign a addr f))
  step-SameTxn tm addr t (deletes a k) room v f h =
      with_active_keeps dec (SameTxn tm addr) tm a _ refl
        (λ u e _. get-put_foreign tm.txns a addr _ (ne_of_foreign a addr f))
  step-SameTxn tm addr t (commits a now) room v f h =
      commit_keeps dec (SameTxn tm addr) tm a now refl
        (λ u e _ _. get-put_foreign tm.txns a addr _ (ne_of_foreign a addr f))
  step-SameTxn tm addr t (aborts a) room v f h =
      with_active_keeps dec (SameTxn tm addr) tm a _ refl
        (λ u e _. get-put_foreign tm.txns a addr _ (ne_of_foreign a addr f))
  step-SameTxn tm addr t collects room v f h = cc

  pub run-SameTxn :
      (tm : TransactionManager K V) (addr : ℕ) (t : Transaction K V) (cs : List (Call K V))
      → HasRoom (length cs) tm
      → Inv dec tm
      → All (λ c. is_foreign addr c ≡ true) cs
      → find_txn tm addr ≡ some t
      → find_txn (run dec tm cs) addr ≡ some t
  unfolding run
  run-SameTxn tm addr t [] room v f h = h
  run-SameTxn tm addr t (c ∷ cs) room v f h =
      let one : HasRoom 1 tm = omega arith in
      run-SameTxn (step dec tm c) addr t cs (omega (arith, step-Advances dec tm c one))
        (step-Inv dec tm c one v) f.1 (step-SameTxn tm addr t c one v f.0 h ∙ h)

  -- A snapshot reads the same before and after any calls but collections.
  pub run-SameRead :
      (tm : TransactionManager K V) (addr : ℕ) (cs : List (Call K V)) (key : K) (s : ℕ)
      → HasRoom (length cs) tm
      → Inv dec tm
      → All (λ c. is_foreign addr c ≡ true) cs
      → s ≤ tm.next_version
      → SameRead tm key s (run dec tm cs)
  unfolding run
  run-SameRead tm addr [] key s room v f h = refl
  run-SameRead tm addr (c ∷ cs) key s room v f h =
      let one : HasRoom 1 tm = omega arith in
      run-SameRead (step dec tm c) addr cs key s (omega (arith, step-Advances dec tm c one))
        (step-Inv dec tm c one v) f.1 (omega (arith, step-Advances dec tm c one))
      ∙ step-SameRead tm addr c key s one v f.0 h

  pub with_active_lem :
      {A : Type ℓ} (tm : TransactionManager K V) (addr : ℕ) (t : Transaction K V)
      (body : Transaction K V → TransactionManager K V × Result A)
      → find_txn tm addr ≡ some t
      → t.state ≡ active
      → with_active tm addr body ≡ body t
  unfolding with_active is_active
  with_active_lem {A = A} tm addr t body h a = rw (h, with_active) (subst Runs (sym a) refl)
    where
      Runs : TxnState → Type ℓ
      Runs s =
          ◌≡◌ {A = TransactionManager K V × Result A}
            (if is_active s then body t else (tm, err transaction_not_active)) (body t)

  -- What `Read` answers in an active transaction.
  pub read-result :
      (tm : TransactionManager K V) (addr : ℕ) (t : Transaction K V) (key : K)
      → find_txn tm addr ≡ some t
      → t.state ≡ active
      → (Access.read dec tm addr key).1
        ≡ ok
            (answer (get dec key t.write_set) (get_version dec tm.version_store key t.read_version))
  unfolding Access.read read_store
  read-result tm addr t key h a =
      rw (with_active_lem tm addr t (read_txn dec tm addr key) h a)
        (elim (Option-cases (get dec key t.write_set)) [
          | inl q ↦ rw (q, read_txn)
          | inr (w, q) ↦ rw (q, read_txn)
        ])

  -- Repeatable reads: whatever calls other transactions make in between, short of a garbage
  -- collection, an active transaction that itself does nothing reads the same result for every key.
  pub read-run :
      (tm : TransactionManager K V) (addr : ℕ) (t : Transaction K V) (cs : List (Call K V))
      (key : K)
      → HasRoom (length cs) tm
      → Inv dec tm
      → find_txn tm addr ≡ some t
      → t.state ≡ active
      → All (λ c. is_foreign addr c ≡ true) cs
      → (Access.read dec (run dec tm cs) addr key).1 ≡ (Access.read dec tm addr key).1
  read-run tm addr t cs key room v h a f =
      let old = (v.sound addr t h).begun in
      rw (
        read-result (run dec tm cs) addr t key (run-SameTxn tm addr t cs room v f h) a,
        read-result tm addr t key h a,
        run-SameRead tm addr cs key t.read_version room v f old,
      )
