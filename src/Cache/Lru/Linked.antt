-- ===== src/Cache/Lru/Linked.antt =====
-- pkg/cache/lru.go: the map and the list stay in step, and within the capacity.
use laura_db.Prelude.{ℕ, suc, ◌≤◌, ◌≡◌, ap, none, some, length, arith, Option-cases, inl, inr}
use laura_db.Prelude.Assoc.{get, has}
use laura_db.Recency.{back, back-listed, nil_of_back}
use laura_db.Recency.Linked.{Linked, remove-Linked}
use laura_db.Cache.Lru.{LruCache, increment, remove_entry, evict_oldest}

module _ {K V : Type 0} (dec : Discrete K) where
  -- The cache is well formed and holds at most `n` entries.
  pub record Bounded (n : ℕ) (c : LruCache K V) : Type 0 where
    pub linked : Linked dec c.items c.lru_list
    pub within : length c.items ≤ n

  evict_oldest-none : (c : LruCache K V) → back c.lru_list ≡ none → evict_oldest dec c ≡ c
  unfolding evict_oldest
  evict_oldest-none c e = ground (arith, e)

  pub evict_oldest-some :
      (c : LruCache K V) (k : K)
      → back c.lru_list ≡ some k
      → evict_oldest dec c ≡ record (remove_entry dec k c) { evictions = increment c.evictions }
  unfolding evict_oldest
  evict_oldest-some c k e = ground (arith, e)

  pub evict_oldest-Bounded :
      (n : ℕ) (c : LruCache K V) → Bounded (suc n) c → Bounded n (evict_oldest dec c)
  unfolding remove_entry has
  evict_oldest-Bounded n c b = elim (Option-cases (back c.lru_list)) [
    | inl e ↦ rw (evict_oldest-none c e) (record {
      linked = b.linked;
      within = omega (arith, b.linked.counted, ap length (nil_of_back c.lru_list e));
    })
    | inr (k, e) ↦
        let present = back-listed dec k c.lru_list e in
        elim (Option-cases (get dec k c.items)) [
          | inl h ↦ cc (present, b.linked.same k, h)
          | inr (v, h) ↦
              let (linked, less) = remove-Linked dec k v c.items c.lru_list b.linked h in
              rw (evict_oldest-some c k e)
                (record { linked = linked; within = omega (arith, less, b.within) })
        ]
  ]
