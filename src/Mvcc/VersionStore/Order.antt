-- ===== src/Mvcc/VersionStore/Order.antt =====
-- pkg/mvcc/version_store.go: which chain each operation leaves behind, and the order of a chain.
use laura_db.Prelude.{ℕ, suc, ◌≤◌, ◌<◌, ◌≡◌, refl, ite, [], ◌∷◌, arith}
use laura_db.Prelude.Assoc.{get-put, get-map_values}
use laura_db.Mvcc.VersionStore.{
  VersionedValue, VersionChain, VersionStore, chain_of, put_version, garbage_collect, sweep,
  collect_chain, head_version,
}

-- Version numbers fall strictly along the chain and stay below the bound.
abbrev pub Below {ℓ} : {V : Type ℓ} → ℕ → VersionChain V → Type 0
Below n [] = Unit {0}
Below n (v ∷ rest) = (v.version < n) × Below v.version rest

module _ {ℓ} {V : Type ℓ} where
  pub Below-mono : (m n : ℕ) (c : VersionChain V) → m ≤ n → Below m c → Below n c
  Below-mono m n [] h b = tt
  Below-mono m n (v ∷ rest) h b = (omega arith, b.1)

  sweep-Below : (m n : ℕ) (c : VersionChain V) → Below n c → Below n (sweep m c)
  unfolding sweep
  sweep-Below m n [] b = tt
  sweep-Below m n (v ∷ rest) b =
      ground (arith, sweep-Below m v.version rest b.1, Below-mono v.version n (sweep m rest))

  pub collect_chain-Below : (m n : ℕ) (c : VersionChain V) → Below n c → Below n (collect_chain m c)
  unfolding collect_chain
  collect_chain-Below m n [] b = tt
  collect_chain-Below m n (v ∷ rest) b = (b.0, sweep-Below m v.version rest b.1)

  pub head_version-le : (n : ℕ) (c : VersionChain V) → Below (suc n) c → head_version c ≤ n
  unfolding head_version
  head_version-le n [] b = omega arith
  head_version-le n (v ∷ rest) b = omega arith

  pub head_version-collect_chain :
      (m : ℕ) (c : VersionChain V) → head_version (collect_chain m c) ≡ head_version c
  unfolding head_version collect_chain
  head_version-collect_chain m [] = refl
  head_version-collect_chain m (v ∷ rest) = refl

module _ {ℓ} {K V : Type ℓ} (dec : Discrete K) where
  -- `Put` extends the chain of its key and no other.
  pub chain_of-put_version :
      (vs : VersionStore K V) (key j : K) (v : VersionedValue V)
      → chain_of dec (put_version dec vs key v) j
        ≡ ite (dec key j) (v ∷ chain_of dec vs key) (chain_of dec vs j)
  unfolding put_version chain_of
  chain_of-put_version vs key j v = ground (arith, get-put dec key j (v ∷ chain_of dec vs key) vs)

  pub chain_of-garbage_collect :
      (vs : VersionStore K V) (m : ℕ) (j : K)
      → chain_of dec (garbage_collect vs m) j ≡ collect_chain m (chain_of dec vs j)
  unfolding garbage_collect chain_of
  chain_of-garbage_collect vs m j = ground (arith, get-map_values dec (collect_chain m) j vs)
