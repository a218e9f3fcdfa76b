-- ===== src/Cache/Lru/Reads.antt =====
-- pkg/cache/lru.go: what Get may return.
use laura_db.Prelude.{
  ℕ, suc, ◌+◌, ◌≤◌, ◌≡◌, refl, ◌∙◌, List, [], ◌∷◌, Option, none, some, ite, if_pos, if_neg,
  if◌then◌else◌, arith, Bool-cases, Option-cases, inl, inr, dec_lt, length, subst,
}
use laura_db.Prelude.Assoc.{Assoc, get, put, delete, get-put, get-delete}
use laura_db.Recency.{back}
use laura_db.Cache.Lru.{
  CacheEntry, LruCache, new_lru_cache, expired, remove_entry, get_entry, lookup, evict_oldest,
  store_entry, store, clear, cleanup_loop, cleanup_expired,
}
use laura_db.Cache.Lru.Calls.{
  Call, gets, puts, clears, cleans, step, run, step-SameSettings, store_entry-evict,
  store_entry-room, added,
}

module _ {K V : Type 0} (dec : Discrete K) where
  -- The entry of the last Put of a key, if no Clear came after it.
  noted : ℕ → K → Call K V → Option (CacheEntry V) → Option (CacheEntry V)
  noted ttl k (puts j v now) o =
      ite (dec j k) (some (record { value = v; expires_at = now + ttl })) o
  noted ttl k clears o = none
  noted ttl k (gets j now) o = o
  noted ttl k (cleans now) o = o

  unfoldable pub last_put : ℕ → K → List (Call K V) → Option (CacheEntry V) → Option (CacheEntry V)
  unfolding noted
  last_put ttl k [] o = o
  last_put ttl k (x ∷ xs) o = last_put ttl k xs (noted ttl k x o)

  -- The map has nothing but the entries that are noted.
  abbrev Noted : Assoc K (CacheEntry V) → (K → Option (CacheEntry V)) → Type 0
  Noted m f = (k : K) (e : CacheEntry V) → get dec k m ≡ some e → f k ≡ some e

  delete-Noted :
      (j : K) (m : Assoc K (CacheEntry V)) (f : K → Option (CacheEntry V))
      → Noted m f
      → Noted (delete dec j m) f
  delete-Noted j m f h k e g = h k e (ground (arith, get-delete dec j k m))

  evict_oldest-Noted :
      (c : LruCache K V) (f : K → Option (CacheEntry V))
      → Noted c.items f
      → Noted (evict_oldest dec c).items f
  unfolding evict_oldest remove_entry
  evict_oldest-Noted c f h k e g = elim (Option-cases (back c.lru_list)) [
    | inl b ↦ h k e (ground (arith, b))
    | inr (j, b) ↦ delete-Noted j c.items f h k e (ground (arith, b))
  ]

  cleanup_loop-Noted :
      (now : ℕ) (es : Assoc K (CacheEntry V)) (c : LruCache K V) (r : ℕ)
      (f : K → Option (CacheEntry V))
      → Noted c.items f
      → Noted (cleanup_loop dec now es c r).0.items f
  unfolding cleanup_loop
  cleanup_loop-Noted now [] c r f h = h
  cleanup_loop-Noted now ((j, x) ∷ es) c r f h =
      cleanup_loop-Noted now es (if expired now x then remove_entry dec j c else c)
        (if expired now x then r + 1 else r) f
        (elim (Bool-cases (expired now x)) [
          | inl t ↦ rw t (unfold remove_entry in delete-Noted j c.items f h)
          | inr t ↦ rw t h
        ])

  put-Noted :
      (j : K) (x : CacheEntry V) (m : Assoc K (CacheEntry V)) (f : K → Option (CacheEntry V))
      → Noted m f
      → Noted (put dec j x m) (λ k. ite (dec j k) (some x) (f k))
  put-Noted j x m f h k e g = elim (dec j k) [
    | yes p ↦ rw (if_pos _ p) (ground (arith, get-put dec j k x m))
    | no p ↦ rw (if_neg _ p) (h k e (ground (arith, get-put dec j k x m)))
  ]

  lookup-Noted :
      (j : K) (now : ℕ) (c : LruCache K V) (f : K → Option (CacheEntry V))
      → Noted c.items f
      → Noted (lookup dec j now c).0.items f
  unfolding lookup
  lookup-Noted j now c f h = elim (Option-cases (get dec j c.items)) [
    | inl g ↦ rw g (unfold get_entry in h)
    | inr (x, g) ↦ elim (Bool-cases (expired now x)) [
      | inl t ↦ rw g (unfold get_entry in rw t (unfold remove_entry in delete-Noted j c.items f h))
      | inr t ↦ rw g (unfold get_entry in rw t h)
    ]
  ]

  store-Noted :
      (j : K) (v : V) (now : ℕ) (c : LruCache K V) (f : K → Option (CacheEntry V))
      → Noted c.items f
      → Noted
          (store dec j v now c).items
          (λ k. ite (dec j k) (some (record { value = v; expires_at = now + c.ttl })) (f k))
  unfolding store
  store-Noted j v now c f h =
      let x : CacheEntry V = record { value = v; expires_at = now + c.ttl } in
      elim (Option-cases (get dec j c.items)) [
        | inr (old, g) ↦ rw g (unfold store_entry in put-Noted j x c.items f h)
        | inl g ↦ elim (dec_lt c.capacity (suc (length c.lru_list))) [
          | yes t ↦
              rw (g, store_entry-evict dec j x c t)
                (evict_oldest-Noted (added dec j x c) _ (put-Noted j x c.items f h))
          | no t ↦ rw (g, store_entry-room dec j x c t) (put-Noted j x c.items f h)
        ]
      ]

  step-Noted :
      (x : Call K V) (c : LruCache K V) (f : K → Option (CacheEntry V))
      → Noted c.items f
      → Noted (step dec x c).items (λ k. noted c.ttl k x (f k))
  unfolding step noted clear cleanup_expired get
  step-Noted clears c f h = λ k e g. cc
  step-Noted (cleans now) c f h = cleanup_loop-Noted now c.items c 0 f h
  step-Noted (gets j now) c f h = lookup-Noted j now c f h
  step-Noted (puts j v now) c f h = store-Noted j v now c f h

  run-Noted :
      (xs : List (Call K V)) (ttl : ℕ) (c : LruCache K V) (f : K → Option (CacheEntry V))
      → c.ttl ≡ ttl
      → Noted c.items f
      → Noted (run dec xs c).items (λ k. last_put ttl k xs (f k))
  unfolding run last_put
  run-Noted [] ttl c f e h = h
  run-Noted (x ∷ xs) ttl c f e h =
      run-Noted xs ttl (step dec x c) (λ k. noted ttl k x (f k)) ((step-SameSettings dec x c).1 ∙ e)
        (subst (λ t. Noted (step dec x c).items (λ k. noted t k x (f k))) e (step-Noted x c f h))

  get_entry-value :
      (k : K) (now : ℕ) (c : LruCache K V) (o : Option (CacheEntry V)) (v : V)
      → (get_entry dec k now c o).1 ≡ some v
      → (e : CacheEntry V) × (o ≡ some e) × (e.value ≡ v) × (now ≤ e.expires_at)
  unfolding get_entry expired
  get_entry-value k now c none v h = cc
  get_entry-value k now c (some e) v h = (e, refl, ground arith, ground arith)

  -- Whatever calls came before, Get returns a value only if it is the one of the last Put of the
  -- key, with no Clear after it, and its time has not run out.
  pub lookup-run :
      (xs : List (Call K V)) (capacity ttl : ℕ) (k : K) (now : ℕ) (v : V)
      → (lookup dec k now (run dec xs (new_lru_cache capacity ttl))).1 ≡ some v
      → (e : CacheEntry V) × (last_put ttl k xs none ≡ some e)
        × (e.value ≡ v)
        × (now ≤ e.expires_at)
  unfolding lookup
  lookup-run xs capacity ttl k now v h =
      let c = run dec xs (new_lru_cache capacity ttl) in
      let n =
        run-Noted xs ttl (new_lru_cache capacity ttl) (λ k. none) (unfold new_lru_cache in refl)
          (unfold new_lru_cache get in λ k e g. cc) in
      let (e, g, same, fresh) = get_entry-value k now c (get dec k c.items) v h in
      (e, n k e g, same, fresh)
