-- ===== src/Cache/Lru/Calls.antt =====
-- pkg/cache/lru.go: the cache over any sequence of calls.
use laura_db.Prelude.{
  ℕ, suc, ◌+◌, ◌≤◌, ◌<◌, ◌≡◌, refl, sym, List, [], ◌∷◌, none, length, if◌then◌else◌, arith,
  Bool-cases, Option-cases, inl, inr, subst, dec_lt,
}
use laura_db.Prelude.Assoc.{Assoc, get, put, has}
use laura_db.Prelude.Assoc.Count.{delete_absent, length-put_old, length-put_new}
use laura_db.Recency.{remove, listed}
use laura_db.Cache.Lru.{
  CacheEntry, LruCache, new_lru_cache, expired, remove_entry, get_entry, lookup, evict_oldest,
  store_entry, store, clear, size, cleanup_loop, cleanup_expired,
}
use laura_db.Recency.Linked.{
  Linked, remove-Linked, remove_absent-Linked, hit-Linked, update-Linked, new-Linked,
}
use laura_db.Cache.Lru.Linked.{Bounded, evict_oldest-Bounded}

-- A call; the numbers are the times at which they read the clock.
pub data Call (K V : Type 0) : Type 0 where
  gets : K → ℕ → Call K V
  puts : K → V → ℕ → Call K V
  clears : Call K V
  cleans : ℕ → Call K V

module _ {K V : Type 0} (dec : Discrete K) where
  unfoldable pub step : Call K V → LruCache K V → LruCache K V
  unfolding lookup store clear cleanup_expired
  step (gets k now) c = (lookup dec k now c).0
  step (puts k v now) c = store dec k v now c
  step clears c = clear c
  step (cleans now) c = (cleanup_expired dec now c).0

  unfoldable pub run : List (Call K V) → LruCache K V → LruCache K V
  unfolding step
  run [] c = c
  run (x ∷ xs) c = run xs (step x c)

  remove_entry-Bounded :
      (n : ℕ) (k : K) (c : LruCache K V) → Bounded dec n c → Bounded dec n (remove_entry dec k c)
  unfolding remove_entry
  remove_entry-Bounded n k c b = elim (Option-cases (get dec k c.items)) [
    | inl h ↦ record {
      linked = remove_absent-Linked dec k c.items c.lru_list b.linked h;
      within = rw (delete_absent dec k c.items h) b.within;
    }
    | inr (e, h) ↦
        let (linked, less) = remove-Linked dec k e c.items c.lru_list b.linked h in
        record { linked = linked; within = omega (arith, less, b.within) }
  ]

  lookup-Bounded :
      (n : ℕ) (k : K) (now : ℕ) (c : LruCache K V)
      → Bounded dec n c
      → Bounded dec n (lookup dec k now c).0
  unfolding lookup
  lookup-Bounded n k now c b = elim (Option-cases (get dec k c.items)) [
    | inl h ↦ rw h (unfold get_entry in record { linked = b.linked; within = b.within })
    | inr (e, h) ↦ elim (Bool-cases (expired now e)) [
      | inl x ↦
          let r = remove_entry-Bounded n k c b in
          rw h (unfold get_entry in rw x (record { linked = r.linked; within = r.within }))
      | inr x ↦ rw h (
          unfold get_entry in
          rw x (record {
            linked = hit-Linked dec k e c.items c.lru_list b.linked h;
            within = b.within;
          }))
    ]
  ]

  -- A new entry, before the eviction.
  abbrev pub added : K → CacheEntry V → LruCache K V → LruCache K V
  added k e c = record c { items = put dec k e c.items; lru_list = k ∷ c.lru_list }

  pub store_entry-evict :
      (k : K) (e : CacheEntry V) (c : LruCache K V)
      → c.capacity < suc (length c.lru_list)
      → store_entry dec k e c none ≡ evict_oldest dec (added k e c)
  unfolding store_entry
  store_entry-evict k e c h = ground arith

  pub store_entry-room :
      (k : K) (e : CacheEntry V) (c : LruCache K V)
      → ¬ (c.capacity < suc (length c.lru_list))
      → store_entry dec k e c none ≡ added k e c
  unfolding store_entry
  store_entry-room k e c h = ground arith

  store-Bounded :
      (k : K) (v : V) (now : ℕ) (c : LruCache K V)
      → Bounded dec c.capacity c
      → Bounded dec c.capacity (store dec k v now c)
  unfolding store
  store-Bounded k v now c b =
      let e : CacheEntry V = record { value = v; expires_at = now + c.ttl } in
      elim (Option-cases (get dec k c.items)) [
        | inr (old, h) ↦ rw h (
            unfold store_entry in
            record {
              linked =
                  update-Linked dec k e old c.items (k ∷ remove dec k c.lru_list)
                    (hit-Linked dec k old c.items c.lru_list b.linked h) h;
              within = omega (arith, length-put_old dec k e old c.items h, b.within);
            })
        | inl h ↦ elim (dec_lt c.capacity (suc (length c.lru_list))) [
          | yes x ↦
              rw (h, store_entry-evict k e c x)
                (evict_oldest-Bounded dec c.capacity (added k e c) (record {
                  linked = new-Linked dec k e c.items c.lru_list b.linked h;
                  within = omega (arith, length-put_new dec k e c.items h, b.within);
                }))
          | no x ↦
              rw (h, store_entry-room k e c x)
                (record {
                  linked = new-Linked dec k e c.items c.lru_list b.linked h;
                  within = omega (arith, length-put_new dec k e c.items h, b.linked.counted);
                })
        ]
      ]

  cleanup_loop-Bounded :
      (n now : ℕ) (es : Assoc K (CacheEntry V)) (c : LruCache K V) (r : ℕ)
      → Bounded dec n c
      → Bounded dec n (cleanup_loop dec now es c r).0
  unfolding cleanup_loop
  cleanup_loop-Bounded n now [] c r b = b
  cleanup_loop-Bounded n now ((k, e) ∷ es) c r b =
      cleanup_loop-Bounded n now es (if expired now e then remove_entry dec k c else c)
        (if expired now e then r + 1 else r)
        (elim (Bool-cases (expired now e)) [
          | inl x ↦ rw x (remove_entry-Bounded n k c b)
          | inr x ↦ rw x b
        ])

  -- The settings of the cache stay.
  abbrev pub SameSettings : LruCache K V → LruCache K V → Type 0
  SameSettings c c' = (c'.capacity ≡ c.capacity) × (c'.ttl ≡ c.ttl)

  cleanup_loop-SameSettings :
      (now : ℕ) (es : Assoc K (CacheEntry V)) (c : LruCache K V) (r : ℕ)
      → SameSettings c (cleanup_loop dec now es c r).0
  unfolding cleanup_loop remove_entry
  cleanup_loop-SameSettings now [] c r = (refl, refl)
  cleanup_loop-SameSettings now ((k, e) ∷ es) c r = ground (
    arith,
    cleanup_loop-SameSettings now es (remove_entry dec k c) (r + 1),
    cleanup_loop-SameSettings now es c r,
  )

  pub step-SameSettings : (x : Call K V) (c : LruCache K V) → SameSettings c (step x c)
  unfolding step lookup get_entry store store_entry evict_oldest remove_entry clear cleanup_expired
  step-SameSettings (gets k now) c = ground arith
  step-SameSettings (puts k v now) c = ground arith
  step-SameSettings clears c = (refl, refl)
  step-SameSettings (cleans now) c = cleanup_loop-SameSettings now c.items c 0

  pub step-Bounded :
      (x : Call K V) (c : LruCache K V)
      → Bounded dec c.capacity c
      → Bounded dec c.capacity (step x c)
  unfolding step clear cleanup_expired has listed get
  step-Bounded (gets k now) c b = lookup-Bounded c.capacity k now c b
  step-Bounded (puts k v now) c b = store-Bounded k v now c b
  step-Bounded clears c b = record {
    linked = record { distinct = tt; once = tt; same = λ k. refl; counted = refl };
    within = omega arith;
  }
  step-Bounded (cleans now) c b = cleanup_loop-Bounded c.capacity now c.items c 0 b

  pub run-Bounded :
      (xs : List (Call K V)) (n : ℕ) (c : LruCache K V)
      → c.capacity ≡ n
      → Bounded dec n c
      → Bounded dec n (run xs c)
  unfolding run
  run-Bounded [] n c e b = b
  run-Bounded (x ∷ xs) n c e b =
      run-Bounded xs n (step x c) (omega (arith, e, (step-SameSettings x c).0)) (
        subst (λ m. Bounded dec m (step x c)) e
          (step-Bounded x c (subst (λ m. Bounded dec m c) (sym e) b)))

  -- After any calls on a new cache, the list and the map have the same keys, each once, and Size is
  -- at most the capacity.
  pub run-new-Bounded :
      (xs : List (Call K V)) (capacity ttl : ℕ)
      → let c = run xs (new_lru_cache capacity ttl) in
        Linked dec c.items c.lru_list × (size c ≤ capacity)
  unfolding size new_lru_cache has listed get
  run-new-Bounded xs capacity ttl =
      let b = run-Bounded xs capacity (new_lru_cache capacity ttl) refl (record {
        linked = record { distinct = tt; once = tt; same = λ k. refl; counted = refl };
        within = omega arith;
      }) in
      (b.linked, b.within)
