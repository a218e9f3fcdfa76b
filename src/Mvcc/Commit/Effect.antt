-- ===== src/Mvcc/Commit/Effect.antt =====
-- pkg/mvcc/transaction.go: what a commit leaves in the version store.
use laura_db.Prelude.{
  ℕ, suc, ◌+◌, ◌^◌, ◌<◌, ◌≡◌, refl, subst, [], ◌∷◌, Option, none, some, arith, leb, if◌then◌else◌,
  Option-cases, inl, inr,
}
use mathlib.Core.Option
use laura_db.Prelude.Assoc.{Assoc, Distinct, get, map_values, get-map_values, map_values-Distinct}
use laura_db.Mvcc.VersionStore.{
  VersionedValue, VersionChain, VersionStore, Found, chain_of, put_version, get_version, scan,
  content, get_latest_version, head_version,
}
use laura_db.Mvcc.VersionStore.Order.{Below, Below-mono, chain_of-put_version}
use laura_db.Mvcc.Manager.{Transaction, TransactionManager, add_uint64}
use laura_db.Mvcc.Commit.{stamp, apply_writes, install}

pub add_uint64_lem : (n : ℕ) → n + 1 < 2 ^ 64 → add_uint64 n ≡ suc n
unfolding add_uint64
add_uint64_lem n h = omega arith

-- A chain with the version that a write set has for its key.
abbrev pub pushed {ℓ} : {V : Type ℓ} → Option (VersionedValue V) → VersionChain V → VersionChain V
pushed none c = c
pushed (some v) c = v ∷ c

-- A write set answers a read first.
abbrev pub answer {ℓ} : {V : Type ℓ} → Option (VersionedValue V) → Found V → Found V
answer none found = found
answer (some v) found = content v

module _ {ℓ} {K V : Type ℓ} (dec : Discrete K) where
  pub chain_of-apply_writes :
      (ws : Assoc K (VersionedValue V)) (vs : VersionStore K V) (j : K)
      → Distinct dec ws
      → chain_of dec (apply_writes dec ws vs) j ≡ pushed (get dec j ws) (chain_of dec vs j)
  unfolding apply_writes get
  chain_of-apply_writes [] vs j d = refl
  chain_of-apply_writes ((k, v) ∷ ws) vs j d = elim (dec k j) [
    | yes p ↦ ground (
      arith,
      subst (λ (x : K). get dec x ws ≡ none) p d.0,
      chain_of-apply_writes ws (put_version dec vs k v) j d.1,
      chain_of-put_version dec vs k j v,
    )
    | no p ↦ ground (
      arith,
      chain_of-apply_writes ws (put_version dec vs k v) j d.1,
      chain_of-put_version dec vs k j v,
    )
  ]

  module _ (tm : TransactionManager K V) (addr now : ℕ) (t : Transaction K V) where
    -- The entry that a commit adds to the chain of a key.
    abbrev added : K → Option (VersionedValue V)
    added j = Option.map (stamp (add_uint64 tm.next_version) now) (get dec j t.write_set)

    pub chain_of-install :
        (j : K)
        → Distinct dec t.write_set
        → chain_of dec (install dec tm addr now t).version_store j
          ≡ pushed (added j) (chain_of dec tm.version_store j)
    unfolding install
    chain_of-install j d =
        let f = stamp {V = V} (add_uint64 tm.next_version) now in
        ground (
          arith,
          chain_of-apply_writes (map_values f t.write_set) tm.version_store j
              (map_values-Distinct dec f t.write_set d),
          get-map_values dec f j t.write_set,
        )

    module _ (room : tm.next_version + 1 < 2 ^ 64) (d : Distinct dec t.write_set) where
      pub next_version-install : (install dec tm addr now t).next_version ≡ suc tm.next_version
      unfolding install
      next_version-install = add_uint64_lem tm.next_version room

      pub install-Below :
          (j : K)
          → Below (suc tm.next_version) (chain_of dec tm.version_store j)
          → Below
              (suc (suc tm.next_version))
              (chain_of dec (install dec tm addr now t).version_store j)
      unfolding stamp
      install-Below j b = rw (chain_of-install j d) (elim (Option-cases (get dec j t.write_set)) [
        | inl e ↦ rw e (Below-mono _ _ (chain_of dec tm.version_store j) (omega arith) b)
        | inr (v, e) ↦ rw e (rw (add_uint64_lem tm.next_version room) (omega arith, b))
      ])

      -- A snapshot from before the commit reads what it read, and a later one reads the write set
      -- first.
      pub get_version-install :
          (j : K) (s : ℕ)
          → get_version dec (install dec tm addr now t).version_store j s ≡ (
              if leb (suc tm.next_version) s
              then answer (get dec j t.write_set) (get_version dec tm.version_store j s)
              else get_version dec tm.version_store j s)
      unfolding get_version scan stamp content
      get_version-install j s =
          ground (arith, chain_of-install j d, add_uint64_lem tm.next_version room)

      -- The latest version of a written key is the new one.
      pub get_latest_version-install :
          (j : K) (v : VersionedValue V)
          → get dec j t.write_set ≡ some v
          → get_latest_version dec (install dec tm addr now t).version_store j ≡ suc tm.next_version
      unfolding get_latest_version head_version stamp
      get_latest_version-install j v e =
          ground (arith, chain_of-install j d, add_uint64_lem tm.next_version room)
