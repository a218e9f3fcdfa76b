-- ===== src/Cache/Tests.antt =====
-- Tests of pkg/cache at a cache of capacity 2.
use laura_db.Prelude.{ℕ, ◌≤◌, ◌<◌, ◌≡◌, ◌≢◌, true, refl, List, [], ◌∷◌, none, some, ite, ℕ_discrete}
use laura_db.Prelude.Assoc.{get, put, delete, has}
use laura_db.Recency.{back, remove, listed}
use laura_db.Cache.Lru.{
  CacheEntry, LruCache, new_lru_cache, expired, remove_entry, get_entry, lookup, evict_oldest,
  store_entry, store, clear, size, cleanup_loop, cleanup_expired, increment,
}
use laura_db.Recency.Linked.{Linked}
use laura_db.Cache.Lru.Calls.{Call, gets, puts, step, run, run-new-Bounded}
use laura_db.Cache.Lru.Reads.{last_put, lookup-run}
use laura_db.Cache.Lru.Ages.{age, History, fresh, called}
use laura_db.Cache.Lru.Eviction.{store-evict}

program : Unit {0}
unfolding run step lookup get_entry expired remove_entry evict_oldest store_entry store clear size
    cleanup_loop cleanup_expired new_lru_cache back remove listed get put delete has last_put
    ℕ_discrete
program = tt

-- The third Put evicts the key 2, since the key 1 was read after it.
abbrev calls : List (Call ℕ ℕ)
calls = puts 1 10 0 ∷ puts 2 20 1 ∷ gets 1 2 ∷ puts 3 30 3 ∷ []

abbrev full : LruCache ℕ ℕ
full = run ℕ_discrete (puts 1 10 0 ∷ puts 2 20 1 ∷ gets 1 2 ∷ []) (new_lru_cache 2 100)

run-new-Bounded_example :
    Linked ℕ_discrete
      (run ℕ_discrete calls (new_lru_cache 2 100)).items
      (run ℕ_discrete calls (new_lru_cache 2 100)).lru_list
    × (size (run ℕ_discrete calls (new_lru_cache 2 100)) ≤ 2)
run-new-Bounded_example = run-new-Bounded ℕ_discrete calls 2 100

lookup-run_example :
    (e : CacheEntry ℕ) × (last_put ℕ_discrete 100 1 calls none ≡ some e)
    × (e.value ≡ 10)
    × (50 ≤ e.expires_at)
unfolding program
lookup-run_example = lookup-run ℕ_discrete calls 2 100 1 50 10 refl

-- The calls on the full cache, the last one first
abbrev full_history : List (Call ℕ ℕ)
full_history = gets 1 2 ∷ puts 2 20 1 ∷ puts 1 10 0 ∷ []

full-History : History ℕ_discrete full_history full
unfolding program
full-History =
    called (gets 1 2) _ _ (called (puts 2 20 1) _ _ (called (puts 1 10 0) _ _ (fresh 2 100)))

store-evict_example :
    let c' = store ℕ_discrete 3 30 3 full in
    (c'.lru_list ≡ 3 ∷ remove ℕ_discrete 2 full.lru_list)
    × (c'.evictions ≡ increment full.evictions)
    × ((j : ℕ)
        → get ℕ_discrete j c'.items
          ≡ ite (ℕ_discrete 2 j) none (
              ite
                (ℕ_discrete 3 j)
                (some (record { value = 30; expires_at = 103 }))
                (get ℕ_discrete j full.items)))
    × ((j : ℕ)
        → has ℕ_discrete j full.items ≡ true
        → j ≢ 2
        → age ℕ_discrete j full_history < age ℕ_discrete 2 full_history)
unfolding program
store-evict_example = store-evict ℕ_discrete full_history 3 2 30 3 full full-History refl refl refl
