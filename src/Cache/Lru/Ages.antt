-- ===== src/Cache/Lru/Ages.antt =====
-- pkg/cache/lru.go: the list of the cache has the keys by their last use, the latest first.
use laura_db.Prelude.{
  ℕ, suc, ◌+◌, ◌<◌, ◌≡◌, ◌≢◌, refl, sym, subst, ◌∙◌, List, [], ◌∷◌, Bool, true, false, some, All,
  All-imp, ite, if_pos, if_neg, arith, Option-cases, Bool-cases, inl, inr, length, dec_lt,
  if◌then◌else◌,
}
use laura_db.Prelude.Assoc.{Assoc, get, has}
use laura_db.Recency.{remove, listed, Once, listed-remove, back, nil_of_back, back-listed}
use laura_db.Cache.Lru.{
  CacheEntry, LruCache, new_lru_cache, expired, remove_entry, get_entry, lookup, evict_oldest,
  store_entry, store, clear, cleanup_loop, cleanup_expired,
}
use laura_db.Cache.Lru.Linked.{Bounded}
use laura_db.Cache.Lru.Calls.{
  Call, gets, puts, clears, cleans, step, step-Bounded, step-SameSettings, added, store_entry-evict,
  store_entry-room,
}

module _ {K : Type 0} (dec : Discrete K) where
  All-remove : (P : K → Type 0) (k : K) (l : List K) → All P l → All P (remove dec k l)
  unfolding remove
  All-remove P k [] a = tt
  All-remove P k (j ∷ l) a = elim (dec j k) [
    | yes p ↦ rw (if_pos (dec j k) p l (j ∷ remove dec k l)) a.1
    | no n ↦ rw (if_neg (dec j k) n l (j ∷ remove dec k l)) (a.0, All-remove P k l a.1)
  ]

  absent-All : (k : K) (l : List K) → listed dec k l ≡ false → All (λ j. k ≢ j) l
  unfolding listed
  absent-All k [] e = tt
  absent-All k (j ∷ l) e = elim (dec j k) [
    | yes p ↦ cc (rw (if_pos (dec j k) p true (listed dec k l)) at e)
    | no n ↦ (λ q. n (sym q), absent-All k l (rw (if_neg (dec j k) n true (listed dec k l)) at e))
  ]

  -- A key that is not in the list is none of its keys.
  pub unused-All :
      (k : K) (l : List K) → listed dec k l ≡ false → All (λ j. ite (dec k j) true false ≡ false) l
  unused-All k l e = All-imp (λ j n. if_neg (dec k j) n true false) l (absent-All k l e)

  removed-All :
      (k : K) (l : List K)
      → Once dec l
      → All (λ j. ite (dec k j) true false ≡ false) (remove dec k l)
  removed-All k l o =
      unused-All k (remove dec k l)
        (listed-remove dec k k l o ∙ if_pos (dec k k) refl false (listed dec k l))

  All-listed : (P : K → Type 0) (j : K) (l : List K) → All P l → listed dec j l ≡ true → P j
  unfolding listed
  All-listed P j [] a m = cc
  All-listed P j (k ∷ l) a m = elim (dec k j) [
    | yes p ↦ subst P p a.0
    | no p ↦ All-listed P j l a.1 (rw (if_neg (dec k j) p true (listed dec j l)) at m)
  ]

  All-all : {P : K → Type 0} (l : List K) → ((j : K) → P j) → All P l
  All-all [] p = tt
  All-all (j ∷ l) p = (p j, All-all l p)

module _ {K V : Type 0} (dec : Discrete K) where
  -- The call gets or puts the key.
  abbrev uses : Call K V → K → Bool
  uses (gets j now) k = ite (dec j k) true false
  uses (puts j v now) k = ite (dec j k) true false
  uses clears k = false
  uses (cleans now) k = false

  -- How many calls have been made after the last one that gets or puts the key. The calls stand with
  -- the last one first.
  unfoldable pub age : K → List (Call K V) → ℕ
  age k [] = 0
  age k (x ∷ h) = if uses x k then 0 else suc (age k h)

  -- The caches that calls make of a new one, with the calls, the last one first
  pub data History : List (Call K V) → LruCache K V → Type 0 where
    fresh : (capacity ttl : ℕ) → History [] (new_lru_cache capacity ttl)
    called :
        (x : Call K V) (h : List (Call K V)) (c : LruCache K V)
        → History h c
        → History (x ∷ h) (step dec x c)

  -- Every key was used later than those behind it.
  abbrev pub Ranked : List (Call K V) → List K → Type 0
  Ranked h [] = Unit
  Ranked h (k ∷ l) = All (λ j. age k h < age j h) l × Ranked h l

  remove-Ranked :
      (h : List (Call K V)) (k : K) (l : List K) → Ranked h l → Ranked h (remove dec k l)
  unfolding remove
  remove-Ranked h k [] r = tt
  remove-Ranked h k (j ∷ l) r = elim (dec j k) [
    | yes p ↦ rw (if_pos (dec j k) p l (j ∷ remove dec k l)) r.1
    | no n ↦
        rw (if_neg (dec j k) n l (j ∷ remove dec k l))
          (All-remove dec _ k l r.0, remove-Ranked h k l r.1)
  ]

  -- A call that uses no key of the list makes all of them older.
  older-Ranked :
      (x : Call K V) (h : List (Call K V)) (l : List K)
      → All (λ j. uses x j ≡ false) l
      → Ranked h l
      → Ranked (x ∷ h) l
  unfolding age
  older-Ranked x h [] u r = tt
  older-Ranked x h (k ∷ l) u r = (later l u.1 r.0, older-Ranked x h l u.1 r.1)
    where
      later :
          (m : List K)
          → All (λ j. uses x j ≡ false) m
          → All (λ j. age k h < age j h) m
          → All (λ j. age k (x ∷ h) < age j (x ∷ h)) m
      later [] v a = tt
      later (j ∷ m) v a = (rw (u.0, v.0) (omega (arith, a.0)), later m v.1 a.1)

  -- The key that was just used is younger than the others.
  front-Ranked :
      (x : Call K V) (h : List (Call K V)) (k : K) (l : List K)
      → uses x k ≡ true
      → All (λ j. uses x j ≡ false) l
      → Ranked h l
      → Ranked (x ∷ h) (k ∷ l)
  unfolding age
  front-Ranked x h k l used u r =
      (All-imp (λ j v. rw (used, v) (omega arith)) l u, older-Ranked x h l u r)

  moved-Ranked :
      (x : Call K V) (h : List (Call K V)) (k : K) (l : List K)
      → ((j : K) → uses x j ≡ ite (dec k j) true false)
      → Once dec l
      → Ranked h l
      → Ranked (x ∷ h) (k ∷ remove dec k l)
  moved-Ranked x h k l u o r =
      front-Ranked x h k (remove dec k l) (u k ∙ if_pos (dec k k) refl true false)
        (All-imp (λ j e. u j ∙ e) (remove dec k l) (removed-All dec k l o)) (remove-Ranked h k l r)

  lookup-Ranked :
      (k : K) (now : ℕ) (h : List (Call K V)) (c : LruCache K V)
      → Bounded dec c.capacity c
      → Ranked h c.lru_list
      → Ranked (gets k now ∷ h) (lookup dec k now c).0.lru_list
  unfolding lookup has
  lookup-Ranked k now h c b r = elim (Option-cases (get dec k c.items)) [
    | inl e ↦
        let absent : listed dec k c.lru_list ≡ false = ground (arith, b.linked.same k, e) in
        rw (e, get_entry) (older-Ranked _ h c.lru_list (unused-All dec k c.lru_list absent) r)
    | inr (en, e) ↦ elim (Bool-cases (expired now en)) [
      | inl x ↦
          rw (e, get_entry, x)
            (unfold remove_entry in
              older-Ranked _ h (remove dec k c.lru_list)
                (removed-All dec k c.lru_list b.linked.once) (remove-Ranked h k c.lru_list r))
      | inr x ↦ rw (e, get_entry, x) (moved-Ranked _ h k c.lru_list (λ j. refl) b.linked.once r)
    ]
  ]

  evict_oldest-Ranked :
      (h : List (Call K V)) (c : LruCache K V)
      → Ranked h c.lru_list
      → Ranked h (evict_oldest dec c).lru_list
  unfolding evict_oldest remove_entry
  evict_oldest-Ranked h c r = elim (Option-cases (back c.lru_list)) [
    | inl e ↦ rw (e, evict_oldest) r
    | inr (k, e) ↦ rw (e, evict_oldest) (remove-Ranked h k c.lru_list r)
  ]

  store-Ranked :
      (k : K) (v : V) (now : ℕ) (h : List (Call K V)) (c : LruCache K V)
      → Bounded dec c.capacity c
      → Ranked h c.lru_list
      → Ranked (puts k v now ∷ h) (store dec k v now c).lru_list
  unfolding store has
  store-Ranked k v now h c b r =
      let en : CacheEntry V = record { value = v; expires_at = now + c.ttl } in
      elim (Option-cases (get dec k c.items)) [
        | inr (old, e) ↦
            rw (e, store_entry) (moved-Ranked _ h k c.lru_list (λ j. refl) b.linked.once r)
        | inl e ↦
            let absent : listed dec k c.lru_list ≡ false = ground (arith, b.linked.same k, e) in
            let front : Ranked (puts k v now ∷ h) (k ∷ c.lru_list) =
              front-Ranked _ h k c.lru_list (if_pos (dec k k) refl true false)
                (unused-All dec k c.lru_list absent) r in
            elim (dec_lt c.capacity (suc (length c.lru_list))) [
              | yes x ↦
                  rw (e, store_entry-evict dec k en c x)
                    (evict_oldest-Ranked _ (added dec k en c) front)
              | no x ↦ rw (e, store_entry-room dec k en c x) front
            ]
      ]

  cleanup_loop-Ranked :
      (h : List (Call K V)) (now : ℕ) (es : Assoc K (CacheEntry V)) (c : LruCache K V) (n : ℕ)
      → Ranked h c.lru_list
      → Ranked h (cleanup_loop dec now es c n).0.lru_list
  unfolding cleanup_loop remove_entry
  cleanup_loop-Ranked h now [] c n r = r
  cleanup_loop-Ranked h now ((k, e) ∷ es) c n r =
      cleanup_loop-Ranked h now es _ _ (elim (Bool-cases (expired now e)) [
        | inl x ↦ rw x (remove-Ranked h k c.lru_list r)
        | inr x ↦ rw x r
      ])

  step-Ranked :
      (x : Call K V) (h : List (Call K V)) (c : LruCache K V)
      → Bounded dec c.capacity c
      → Ranked h c.lru_list
      → Ranked (x ∷ h) (step dec x c).lru_list
  unfolding step clear cleanup_expired
  step-Ranked (gets k now) h c b r = lookup-Ranked k now h c b r
  step-Ranked (puts k v now) h c b r = store-Ranked k v now h c b r
  step-Ranked clears h c b r = tt
  step-Ranked (cleans now) h c b r =
      older-Ranked _ h _ (All-all dec _ (λ j. refl)) (cleanup_loop-Ranked h now c.items c 0 r)

  new-Bounded :
      (capacity ttl : ℕ) → Bounded dec capacity (new_lru_cache {K = K} {V = V} capacity ttl)
  unfolding new_lru_cache has listed get
  new-Bounded capacity ttl = record {
    linked = record { distinct = tt; once = tt; same = λ k. refl; counted = refl };
    within = omega arith;
  }

  pub History-Bounded :
      (h : List (Call K V)) (c : LruCache K V) → History h c → Bounded dec c.capacity c
  unfolding new_lru_cache
  History-Bounded _ _ (fresh capacity ttl) = new-Bounded capacity ttl
  History-Bounded _ _ (called x h c r) =
      subst (λ n. Bounded dec n (step dec x c)) (sym (step-SameSettings dec x c).0)
        (step-Bounded dec x c (History-Bounded h c r))

  pub History-Ranked : (h : List (Call K V)) (c : LruCache K V) → History h c → Ranked h c.lru_list
  unfolding new_lru_cache
  History-Ranked _ _ (fresh capacity ttl) = tt
  History-Ranked _ _ (called x h c r) =
      step-Ranked x h c (History-Bounded h c r) (History-Ranked h c r)

  -- The key at the back was not used for longer than any other.
  pub back-oldest :
      (h : List (Call K V)) (l : List K) (old j : K)
      → Ranked h l
      → back l ≡ some old
      → listed dec j l ≡ true
      → j ≢ old
      → age j h < age old h
  unfolding back listed
  back-oldest h [] old j r e m n = cc
  back-oldest h (k ∷ l) old j r e m n = elim (Option-cases (back l)) [
    | inl q ↦
        let only : l ≡ [] = nil_of_back l q in
        let same : k ≡ old = ground (arith, e, q) in
        let other : ¬ (k ≡ j) = λ p. n (sym p ∙ same) in
        let within : listed dec j l ≡ true =
          rw (if_neg (dec k j) other true (listed dec j l)) at m in
        cc (rw only at within)
    | inr (y, q) ↦
        let last : back l ≡ some old = ground (arith, e, q) in
        elim (dec k j) [
          | yes p ↦
              subst (λ x. age x h < age old h) p
                (All-listed dec (λ x. age k h < age x h) old l r.0 (back-listed dec old l last))
          | no p ↦
              back-oldest h l old j r.1 last (rw (if_neg (dec k j) p true (listed dec j l)) at m) n
        ]
  ]
