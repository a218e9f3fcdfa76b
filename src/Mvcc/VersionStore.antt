-- ===== src/Mvcc/VersionStore.antt =====
-- pkg/mvcc/version_store.go: `VersionStore`, `VersionChain` and `VersionNode`. A chain is the list
-- of its nodes from `Head` on. An `interface{}` value is an `Option V`, with `none` for nil.
pub mod Order
pub mod Snapshots
use laura_db.Prelude.{
  ℕ, suc, Bool, true, false, List, [], ◌∷◌, Option, none, some, leb, ltb, ◌==◌, if◌then◌else◌,
  length,
}
use laura_db.Prelude.Assoc.{Assoc, get, put, map_values}

pub record VersionedValue {ℓ} (V : Type ℓ) : Type ℓ where
  pub value : Option V
  pub version : ℕ
  pub created_by : ℕ
  pub deleted_by : ℕ
  pub commit_time : ℕ

abbrev pub VersionChain {ℓ} : Type ℓ → Type ℓ
VersionChain V = List (VersionedValue V)

abbrev pub VersionStore {ℓ} : Type ℓ → Type ℓ → Type ℓ
VersionStore K V = Assoc K (VersionChain V)

-- A Go result `(interface{}, bool)`.
abbrev pub Found {ℓ} : Type ℓ → Type ℓ
Found V = Option V × Bool

module _ {ℓ} {V : Type ℓ} where
  abbrev pub missing : Found V
  missing = (none, false)

  -- What a reader gets from a version: nothing, if the version marks a deletion.
  unfoldable pub content : VersionedValue V → Found V
  content v = if v.deleted_by == 0 then (v.value, true) else missing

  -- The loop of `GetVersion` over the chain.
  unfoldable pub scan : ℕ → VersionChain V → Found V
  unfolding content
  scan snapshot [] = missing
  scan snapshot (v ∷ rest) = if leb v.version snapshot then content v else scan snapshot rest

  -- The version number at `Head`, 0 for an empty chain.
  unfoldable pub head_version : VersionChain V → ℕ
  head_version [] = 0
  head_version (v ∷ rest) = v.version

  unfoldable pub head_content : VersionChain V → Found V
  unfolding content
  head_content [] = missing
  head_content (v ∷ rest) = content v

  -- The loop of `GarbageCollect` over the nodes behind `prev`.
  unfoldable pub sweep : ℕ → VersionChain V → VersionChain V
  sweep min_version [] = []
  sweep min_version (v ∷ rest) =
      let kept = sweep min_version rest in if ltb v.version min_version then kept else v ∷ kept

  unfoldable pub collect_chain : ℕ → VersionChain V → VersionChain V
  unfolding sweep
  collect_chain min_version [] = []
  collect_chain min_version (v ∷ rest) = v ∷ sweep min_version rest

-- `vs.data[key]`; a missing chain reads as an empty one.
chain_of_entry {ℓ} : {V : Type ℓ} → Option (VersionChain V) → VersionChain V
chain_of_entry none = []
chain_of_entry (some c) = c

module _ {ℓ} {K V : Type ℓ} (dec : Discrete K) where
  unfoldable pub chain_of : VersionStore K V → K → VersionChain V
  unfolding chain_of_entry get
  chain_of vs key = chain_of_entry (get dec key vs)

  unfoldable pub put_version : VersionStore K V → K → VersionedValue V → VersionStore K V
  unfolding chain_of put
  put_version vs key v = put dec key (v ∷ chain_of vs key) vs

  unfoldable pub get_version : VersionStore K V → K → ℕ → Found V
  unfolding chain_of scan
  get_version vs key snapshot = scan snapshot (chain_of vs key)

  unfoldable pub get_latest : VersionStore K V → K → Found V
  unfolding chain_of head_content
  get_latest vs key = head_content (chain_of vs key)

  unfoldable pub get_latest_version : VersionStore K V → K → ℕ
  unfolding chain_of head_version
  get_latest_version vs key = head_version (chain_of vs key)

  unfoldable pub get_version_count : VersionStore K V → K → ℕ
  unfolding chain_of
  get_version_count vs key = length (chain_of vs key)

-- A chain that holds at most one node is left alone, so no chain becomes empty and no key is
-- dropped.
unfoldable pub garbage_collect {ℓ} : {K V : Type ℓ} → VersionStore K V → ℕ → VersionStore K V
unfolding collect_chain map_values
garbage_collect vs min_version = map_values (collect_chain min_version) vs
