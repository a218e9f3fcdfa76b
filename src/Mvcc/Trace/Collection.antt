-- ===== src/Mvcc/Trace/Collection.antt =====
-- pkg/mvcc: what the garbage collection behind a commit takes from the snapshots.
use laura_db.Prelude.{
  ℕ, suc, ◌≡◌, refl, ap, ◌∙◌, ◌||◌, leb, Bool, true, false, Option, none, some, [], ◌∷◌, any, arith,
  if◌then◌else◌,
}
use laura_db.Prelude.Assoc.{Assoc}
use laura_db.Mvcc.VersionStore.{missing, chain_of, get_version, get_latest_version}
use laura_db.Mvcc.VersionStore.Order.{chain_of-garbage_collect}
use laura_db.Mvcc.VersionStore.Snapshots.{visible_version, scan-collect_chain}
use laura_db.Mvcc.Manager.{
  Transaction, TransactionManager, find_txn, lower_bound, min_read_version, maybe_garbage_collect,
}
use laura_db.Mvcc.Trace.Invariant.{Inv}

or_assoc : (a b c : Bool) → (a || b) || c ≡ (a || (b || c))
or_assoc true b c = refl
or_assoc false b c = refl

or_false : (a : Bool) → a ≡ (a || false)
or_false true = refl
or_false false = refl

module _ {ℓ} {K V : Type ℓ} where
  -- The snapshot of the transaction is not newer than the version.
  abbrev snapshot_within : ℕ → Option (Transaction K V) → Bool
  snapshot_within v none = false
  snapshot_within v (some t) = leb t.read_version v

  -- Some active transaction has a snapshot that is not newer than the version, or the version is not
  -- below the counter.
  abbrev pub is_recent : TransactionManager K V → ℕ → Bool
  is_recent tm v =
      leb tm.next_version v || any (λ e. snapshot_within v (find_txn tm e.1)) tm.active_txns

  leb-lower_bound :
      (v bound : ℕ) (t : Option (Transaction K V))
      → leb (lower_bound bound t) v ≡ (leb bound v || snapshot_within v t)
  unfolding lower_bound
  leb-lower_bound v bound none = ground arith
  leb-lower_bound v bound (some t) = ground arith

  leb-min_read_version :
      (tm : TransactionManager K V) (v bound : ℕ) (txns : Assoc ℕ ℕ)
      → leb (min_read_version tm bound txns) v
        ≡ (leb bound v || any (λ e. snapshot_within v (find_txn tm e.1)) txns)
  unfolding min_read_version
  leb-min_read_version tm v bound [] = or_false (leb bound v)
  leb-min_read_version tm v bound ((id, addr) ∷ rest) =
      leb-min_read_version tm v (lower_bound bound (find_txn tm addr)) rest
      ∙ ap (λ b. b || any (λ e. snapshot_within v (find_txn tm e.1)) rest)
          (leb-lower_bound v bound (find_txn tm addr))
      ∙ or_assoc (leb bound v) (snapshot_within v (find_txn tm addr)) _

module _ {ℓ} {K V : Type ℓ} (dec : Discrete K) where
  -- A collection keeps what a snapshot reads of a key if the newest version of the key is in the
  -- snapshot, or if the version that it sees is not below the snapshot of some active transaction or
  -- not below the counter; in every other case the snapshot then finds nothing.
  pub get_version-maybe_garbage_collect :
      (tm : TransactionManager K V) (k : K) (s : ℕ)
      → Inv dec tm
      → get_version dec (maybe_garbage_collect tm).version_store k s ≡ (
          if leb (get_latest_version dec tm.version_store k) s
            || is_recent tm (visible_version s (chain_of dec tm.version_store k))
          then get_version dec tm.version_store k s
          else missing)
  unfolding maybe_garbage_collect get_version get_latest_version
  get_version-maybe_garbage_collect tm k s v =
      let seen = visible_version s (chain_of dec tm.version_store k) in
      rw (← leb-min_read_version tm seen tm.next_version tm.active_txns) (
        rw (chain_of-garbage_collect dec tm.version_store _ k) (
          scan-collect_chain s _ (suc tm.next_version) (chain_of dec tm.version_store k)
            (v.ordered k)))
