-- ===== src/Cache/Lru/Eviction.antt =====
-- pkg/cache/lru.go: which entry makes room for a new one.
use laura_db.Prelude.{
  ℕ, suc, ◌+◌, ◌<◌, ◌≡◌, ◌≢◌, true, refl, ap, sym, ◌∙◌, List, ◌∷◌, none, some, ite, if_pos, if_neg,
  arith, Option-cases, inl, inr, length, subst, dec_lt, ltb, if◌then◌else◌,
}
use laura_db.Prelude.Assoc.{get, put, get-put, get-delete, has}
use laura_db.Recency.{back, remove, back-listed, nil_of_back}
use laura_db.Cache.Lru.{
  CacheEntry, LruCache, expired, remove_entry, get_entry, lookup, store_entry, store, increment,
  size,
}
use laura_db.Cache.Lru.Linked.{Bounded, evict_oldest-some}
use laura_db.Cache.Lru.Calls.{Call, added, store_entry-evict, store_entry-room}
use laura_db.Cache.Lru.Ages.{age, History, History-Bounded, History-Ranked, back-oldest}

back-cons : {K : Type 0} (k old : K) (l : List K) → back l ≡ some old → back (k ∷ l) ≡ some old
unfolding back
back-cons k old l h = ground (arith, h)

module _ {K V : Type 0} (dec : Discrete K) where
  -- Put of a new key in a full cache evicts the entry at the back of the list.
  evicted_back :
      (k old : K) (v : V) (now : ℕ) (c : LruCache K V)
      → Bounded dec c.capacity c
      → size c ≡ c.capacity
      → get dec k c.items ≡ none
      → back c.lru_list ≡ some old
      → let c' = store dec k v now c in
        (c'.lru_list ≡ k ∷ remove dec old c.lru_list)
        × (c'.evictions ≡ increment c.evictions)
        × ((j : K)
            → get dec j c'.items
              ≡ ite (dec old j) none (
                  ite
                    (dec k j)
                    (some (record { value = v; expires_at = now + c.ttl }))
                    (get dec j c.items)))
  unfolding store size has
  evicted_back k old v now c b full new last =
      let x : CacheEntry V = record { value = v; expires_at = now + c.ttl } in
      let over : c.capacity < suc (length c.lru_list) = omega (arith, b.linked.counted) in
      let other : ¬ (k ≡ old) = λ p. ground (
        arith,
        back-listed dec old c.lru_list last,
        b.linked.same old,
        subst (λ (y : K). get dec y c.items ≡ none) p new,
      ) in
      rw
        (
          new,
          store_entry-evict dec k x c over,
          evict_oldest-some dec (added dec k x c) old (back-cons k old c.lru_list last),
        )
        (
          unfold remove_entry remove in if_neg (dec k old) other _ _,
          refl,
          λ j.
              unfold remove_entry in
              get-delete dec old j (put dec k x c.items)
              ∙ ap (ite (dec old j) none) (get-put dec k j x c.items),
        )

  get-store :
      (k : K) (v : V) (now : ℕ) (c : LruCache K V)
      → Bounded dec c.capacity c
      → 0 < c.capacity
      → get dec k (store dec k v now c).items
        ≡ some (record { value = v; expires_at = now + c.ttl })
  unfolding size has
  get-store k v now c b positive =
      let x : CacheEntry V = record { value = v; expires_at = now + c.ttl } in
      let stored : get dec k (put dec k x c.items) ≡ some x =
        get-put dec k k x c.items ∙ if_pos (dec k k) refl _ _ in
      elim (Option-cases (get dec k c.items)) [
        | inr (old, g) ↦ unfold store in rw g (unfold store_entry in stored)
        | inl g ↦ elim (dec_lt c.capacity (suc (length c.lru_list))) [
          | no t ↦ unfold store in rw (g, store_entry-room dec k x c t) stored
          | yes t ↦ elim (Option-cases (back c.lru_list)) [
            | inl e ↦ absurd (omega (arith, ap length (nil_of_back c.lru_list e)))
            | inr (old, e) ↦
                let other : ¬ (old ≡ k) = λ p. ground (
                  arith,
                  back-listed dec old c.lru_list e,
                  b.linked.same old,
                  subst (λ (y : K). get dec y c.items ≡ none) (sym p) g,
                ) in
                let full : length c.items ≡ c.capacity =
                  omega (arith, b.within, b.linked.counted) in
                (evicted_back k old v now c b full g e).2 k
                ∙ if_neg (dec old k) other _ _
                ∙ if_pos (dec k k) refl _ _
          ]
        ]
      ]

  -- In a well-formed cache of a positive capacity, Get right after Put returns the value until its
  -- time has run out, and nothing after that.
  pub lookup-store :
      (k : K) (v : V) (now later : ℕ) (c : LruCache K V)
      → Bounded dec c.capacity c
      → 0 < c.capacity
      → (lookup dec k later (store dec k v now c)).1
        ≡ (if ltb (now + c.ttl) later then none else some v)
  unfolding lookup
  lookup-store k v now later c b positive =
      rw (get-store k v now c b positive) (unfold get_entry expired in ground arith)

  -- After any calls on a new cache, Put of a new key in the full cache evicts the key at the back of
  -- the list, counts the eviction and leaves every other entry as it was, with the new key in front;
  -- every other key of the cache was got or put in a later call than the evicted one.
  pub store-evict :
      (h : List (Call K V)) (k old : K) (v : V) (now : ℕ) (c : LruCache K V)
      → History dec h c
      → size c ≡ c.capacity
      → get dec k c.items ≡ none
      → back c.lru_list ≡ some old
      → let c' = store dec k v now c in
        (c'.lru_list ≡ k ∷ remove dec old c.lru_list)
        × (c'.evictions ≡ increment c.evictions)
        × ((j : K)
            → get dec j c'.items
              ≡ ite (dec old j) none (
                  ite
                    (dec k j)
                    (some (record { value = v; expires_at = now + c.ttl }))
                    (get dec j c.items)))
        × ((j : K) → has dec j c.items ≡ true → j ≢ old → age dec j h < age dec old h)
  store-evict h k old v now c r full new last =
      let b = History-Bounded dec h c r in
      let (list, count, rest) = evicted_back k old v now c b full new last in
      (
        list,
        count,
        rest,
        λ j present other.
            back-oldest dec h c.lru_list old j (History-Ranked dec h c r) last
              (sym (b.linked.same j) ∙ present) other,
      )
