-- ===== src/Cache/Lru.antt =====
-- pkg/cache/lru.go: the cache of query results. A key's entry in the list is the entry that the map
-- has for it, so that the list is kept as the list of its keys. The time is an argument of the
-- calls that read the clock, in nanoseconds. The mutex makes each call atomic.
pub mod Linked
pub mod Calls
pub mod Reads
pub mod Ages
pub mod Eviction
use laura_db.Prelude.{
  ℕ, ◌+◌, ◌%◌, ◌^◌, List, [], ◌∷◌, Bool, Option, none, some, length, ltb, if◌then◌else◌,
}
use laura_db.Prelude.Assoc.{Assoc, get, put, delete}
use laura_db.Recency.{remove, back}

pub record CacheEntry (V : Type 0) : Type 0 where
  pub value : V
  pub expires_at : ℕ

-- The capacity is not negative. The counters are kept modulo 2 ^ 64.
pub record LruCache (K V : Type 0) : Type 0 where
  pub capacity : ℕ
  pub ttl : ℕ
  pub items : Assoc K (CacheEntry V)
  pub lru_list : List K
  pub hits : ℕ
  pub misses : ℕ
  pub evictions : ℕ

unfoldable pub new_lru_cache : {K V : Type 0} → ℕ → ℕ → LruCache K V
new_lru_cache capacity ttl = record {
  capacity = capacity;
  ttl = ttl;
  items = [];
  lru_list = [];
  hits = 0;
  misses = 0;
  evictions = 0;
}

abbrev pub increment : ℕ → ℕ
increment n = (n + 1) % 18446744073709551616

-- `now.After(entry.ExpiresAt)`
unfoldable pub expired : {V : Type 0} → ℕ → CacheEntry V → Bool
expired now e = ltb e.expires_at now

unfoldable pub clear : {K V : Type 0} → LruCache K V → LruCache K V
clear c = record c { items = []; lru_list = [] }

unfoldable pub size : {K V : Type 0} → LruCache K V → ℕ
size c = length c.items

module _ {K V : Type 0} (dec : Discrete K) where
  -- `c.removeElement(entry.element)` with `delete(c.items, key)`
  unfoldable pub remove_entry : K → LruCache K V → LruCache K V
  unfolding remove delete
  remove_entry k c = record c { items = delete dec k c.items; lru_list = remove dec k c.lru_list }

  unfoldable pub get_entry : K → ℕ → LruCache K V → Option (CacheEntry V) → LruCache K V × Option V
  unfolding remove_entry remove expired
  get_entry k now c none = (record c { misses = increment c.misses }, none)
  get_entry k now c (some e) =
      if expired now e then (record (remove_entry k c) { misses = increment c.misses }, none) else (
        record c { lru_list = k ∷ remove dec k c.lru_list; hits = increment c.hits },
        some e.value,
      )

  unfoldable pub lookup : K → ℕ → LruCache K V → LruCache K V × Option V
  unfolding get_entry get
  lookup k now c = get_entry k now c (get dec k c.items)

  unfoldable pub evict_oldest : LruCache K V → LruCache K V
  unfolding remove_entry back
  evict_oldest c = elim (back c.lru_list) [
    | none ↦ c
    | some k ↦ record (remove_entry k c) { evictions = increment c.evictions }
  ]

  unfoldable pub store_entry :
      K → CacheEntry V → LruCache K V → Option (CacheEntry V) → LruCache K V
  unfolding put remove evict_oldest
  store_entry k e c (some old) = record c {
    items = put dec k e c.items;
    lru_list = k ∷ remove dec k c.lru_list;
  }
  store_entry k e c none =
      let c' : LruCache K V = record c { items = put dec k e c.items; lru_list = k ∷ c.lru_list } in
      if ltb c'.capacity (length c'.lru_list) then evict_oldest c' else c'

  unfoldable pub store : K → V → ℕ → LruCache K V → LruCache K V
  unfolding store_entry get
  store k v now c =
      store_entry k (record { value = v; expires_at = now + c.ttl }) c (get dec k c.items)

  -- The loop of CleanupExpired over the entries that the map had at first.
  unfoldable pub cleanup_loop : ℕ → Assoc K (CacheEntry V) → LruCache K V → ℕ → LruCache K V × ℕ
  unfolding remove_entry expired
  cleanup_loop now [] c removed = (c, removed)
  cleanup_loop now ((k, e) ∷ rest) c removed =
      cleanup_loop now rest (if expired now e then remove_entry k c else c)
        (if expired now e then removed + 1 else removed)

  unfoldable pub cleanup_expired : ℕ → LruCache K V → LruCache K V × ℕ
  unfolding cleanup_loop
  cleanup_expired now c = cleanup_loop now c.items c 0
