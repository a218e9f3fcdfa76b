-- ===== src/Mvcc/Commit/Conflict.antt =====
-- pkg/mvcc/transaction.go: when the loops of `Commit` report a conflict.
use laura_db.Prelude.{ℕ, ◌≤◌, ◌<◌, ◌≡◌, true, some, arith, any, inl, inr, Bool-cases, Option-cases}
use laura_db.Prelude.Assoc.{Assoc, Distinct, get, has, get_of_any}
use laura_db.Mvcc.VersionStore.{VersionedValue, VersionStore, get_latest_version}
use laura_db.Mvcc.Manager.{
  Transaction, TransactionManager, ok, active, find_txn, with_active, is_active,
}
use laura_db.Mvcc.Commit.{
  read_conflicts, write_conflicts, has_conflict, install, commit_txn, commit,
}

get_of_has {κ ℓ} :
    {K : Type κ} {W : Type ℓ} (dec : Discrete K) (k : K) (m : Assoc K W)
    → has dec k m ≡ true
    → (v : W) × (get dec k m ≡ some v)
unfolding has
get_of_has dec k m h = elim (Option-cases (get dec k m)) [
  | inl e ↦ ground arith
  | inr found ↦ found
]

module _ {ℓ} {K V : Type ℓ} (dec : Discrete K) where
  -- What every transaction keeps: a read is recorded at a version that its snapshot holds.
  pub record IsSnapshot (t : Transaction K V) : Type ℓ where
    pub writes_distinct : Distinct dec t.write_set
    pub reads_distinct : Distinct dec t.read_set
    pub reads_old : (k : K) (v : ℕ) → get dec k t.read_set ≡ some v → v ≤ t.read_version

  -- Some written key has a committed version newer than the snapshot.
  abbrev pub Overwritten : VersionStore K V → Transaction K V → Type ℓ
  Overwritten vs t =
      (k : K) × (v : VersionedValue V) × (get dec k t.write_set ≡ some v)
      × (t.read_version < get_latest_version dec vs k)

  module _ (vs : VersionStore K V) (t : Transaction K V) (s : IsSnapshot t) where
    Overwritten-of_read : any (read_conflicts dec vs t) t.read_set ≡ true → Overwritten vs t
    unfolding read_conflicts
    Overwritten-of_read h =
        let (k, r, _, p) = get_of_any dec (read_conflicts dec vs t) t.read_set s.reads_distinct h in
        let (v, found) = get_of_has dec k t.write_set (ground arith) in (k, v, found, ground arith)

    Overwritten-of_write : any (write_conflicts dec vs t) t.write_set ≡ true → Overwritten vs t
    unfolding write_conflicts
    Overwritten-of_write h =
        let (k, v, found, p) =
          get_of_any dec (write_conflicts dec vs t) t.write_set s.writes_distinct h in
        (k, v, found, ground arith)

    Overwritten-of_conflict : has_conflict dec vs t ≡ true → Overwritten vs t
    unfolding has_conflict
    Overwritten-of_conflict h = elim (Bool-cases (any (read_conflicts dec vs t) t.read_set)) [
      | inl e ↦ Overwritten-of_read e
      | inr e ↦ Overwritten-of_write (ground arith)
    ]

  module _ (tm : TransactionManager K V) (addr now : ℕ) (t : Transaction K V)
      (found : find_txn tm addr ≡ some t) (running : t.state ≡ active) (s : IsSnapshot t) where
    pub commit-install :
        ¬ Overwritten tm.version_store t
        → commit dec tm addr now ≡ (install dec tm addr now t, ok tt)
    unfolding commit with_active is_active commit_txn
    commit-install fresh = elim (Bool-cases (has_conflict dec tm.version_store t)) [
      | inl e ↦ absurd (fresh (Overwritten-of_conflict tm.version_store t s e))
      | inr e ↦ ground arith
    ]
