-- ===== src/Mvcc/VersionStore/Snapshots.antt =====
-- pkg/mvcc/version_store.go: what a reader at a snapshot sees after `Put` and `GarbageCollect`.
use laura_db.Prelude.{ℕ, ◌≤◌, ◌<◌, ◌≡◌, [], ◌∷◌, arith, leb, if◌then◌else◌, ◌||◌}
use laura_db.Mvcc.VersionStore.{
  VersionedValue, VersionChain, VersionStore, missing, scan, put_version, get_version, sweep,
  collect_chain, head_version,
}
use laura_db.Mvcc.VersionStore.Order.{Below, chain_of-put_version}

-- The number of the version that a reader at the snapshot sees, 0 where there is none.
unfoldable pub visible_version {ℓ} : {V : Type ℓ} → ℕ → VersionChain V → ℕ
visible_version s [] = 0
visible_version s (v ∷ rest) = if leb v.version s then v.version else visible_version s rest

module _ {ℓ} {V : Type ℓ} where
  visible_version-le : (s n : ℕ) (c : VersionChain V) → Below n c → visible_version s c ≤ n
  unfolding visible_version
  visible_version-le s n [] b = omega arith
  visible_version-le s n (v ∷ rest) b = ground (arith, visible_version-le s v.version rest b.1)

  scan-sweep :
      (s m n : ℕ) (c : VersionChain V)
      → Below n c
      → scan s (sweep m c) ≡ (if leb m (visible_version s c) then scan s c else missing)
  unfolding scan sweep visible_version
  scan-sweep s m n [] b = ground arith
  scan-sweep s m n (v ∷ rest) b =
      ground (arith, scan-sweep s m v.version rest b.1, visible_version-le s v.version rest b.1)

  pub scan-collect_chain :
      (s m n : ℕ) (c : VersionChain V)
      → Below n c
      → scan s (collect_chain m c)
        ≡ (if leb (head_version c) s || leb m (visible_version s c) then scan s c else missing)
  unfolding scan collect_chain visible_version head_version
  scan-collect_chain s m n [] b = ground arith
  scan-collect_chain s m n (v ∷ rest) b = ground (arith, scan-sweep s m v.version rest b.1)

module _ {ℓ} {K V : Type ℓ} (dec : Discrete K) where
  pub get_version-put_version_old :
      (vs : VersionStore K V) (key j : K) (v : VersionedValue V) (s : ℕ)
      → s < v.version
      → get_version dec (put_version dec vs key v) j s ≡ get_version dec vs j s
  unfolding get_version scan
  get_version-put_version_old vs key j v s h =
      rw (chain_of-put_version dec vs key j v) (ground arith)
