-- ===== src/Index/BTree/Place.antt =====
-- What an insertion does to the items of a tree: a new entry at its place, and at most one new key
-- of an internal node, in front of an entry that another precedes.
use Prim.Native.Nat.Ordering.{lt, eq, gt}
use laura_db.Prelude.{
  subst, sym, ◌≡◌, refl, ap, inl, inr, arith, none, List, [], ◌∷◌, ◌++◌, All, All-imp,
}
use laura_db.Index.Comparison.{
  Comparison, ◌≺◌, trans_below, below_trans, asymmetric, irreflexive, below_cases,
}
use laura_db.Index.BTree.Items.{Item, guide, entry, key_of, entries_of, Before, Sorted}
use laura_db.Index.BTree.Search.{find}

module _ {ℓ κ} {K : Type ℓ} {V : Type κ} where
  pub data Marked : List (Item K V) → List (Item K V) → Type (ℓ ⊔ κ) where
    same : (xs : List (Item K V)) → Marked xs xs
    guided :
        (a : K) (u : V) (s : K) (v : V) (ys : List (Item K V))
        → Marked (entry a u ∷ entry s v ∷ ys) (entry a u ∷ guide s ∷ entry s v ∷ ys)
    later : (i : Item K V) (xs ys : List (Item K V)) → Marked xs ys → Marked (i ∷ xs) (i ∷ ys)

  pub Marked-after : (zs xs ys : List (Item K V)) → Marked xs ys → Marked (zs ++ xs) (zs ++ ys)
  Marked-after [] xs ys m = m
  Marked-after (z ∷ zs) xs ys m = later z (zs ++ xs) (zs ++ ys) (Marked-after zs xs ys m)

  pub Marked-before : (xs ys zs : List (Item K V)) → Marked xs ys → Marked (xs ++ zs) (ys ++ zs)
  Marked-before xs ys zs (same _) = same (xs ++ zs)
  Marked-before xs ys zs (guided a u s v ws) = guided a u s v (ws ++ zs)
  Marked-before xs ys zs (later i us ws m) =
      later i (us ++ zs) (ws ++ zs) (Marked-before us ws zs m)

  pub entries_of-Marked : (xs ys : List (Item K V)) → Marked xs ys → entries_of ys ≡ entries_of xs
  entries_of-Marked xs ys (same _) = refl
  entries_of-Marked xs ys (guided a u s v ws) = refl
  entries_of-Marked xs ys (later (guide k) us ws m) = entries_of-Marked us ws m
  entries_of-Marked xs ys (later (entry k v) us ws m) = ap (◌∷◌ (k, v)) (entries_of-Marked us ws m)

module _ {ℓ κ} {K : Type ℓ} {V : Type κ} ⦃o : Comparison K⦄ where
  Before-guided :
      (i : Item K V) (a : K) (u : V) (s : K) (v : V)
      → Before i (entry a u)
      → Before i (entry s v)
      → a ≺ s
      → Before i (guide s)
  Before-guided (guide g) a u s v p q h = trans_below g a s p h
  Before-guided (entry g w) a u s v p q h = q

  All-Before-Marked :
      (i : Item K V) (xs ys : List (Item K V))
      → Sorted xs
      → Marked xs ys
      → All (Before i) xs
      → All (Before i) ys
  All-Before-Marked i xs ys s (same _) a = a
  All-Before-Marked i xs ys s (guided b u k v ws) a =
      (a.0, (Before-guided i b u k v a.0 a.1.0 s.0.0, a.1))
  All-Before-Marked i xs ys s (later j us ws m) a = (a.0, All-Before-Marked i us ws s.1 m a.1)

  guide_entry : (k : K) (v : V) (j : Item K V) → Before (entry k v) j → Before (guide k) j
  guide_entry k v (guide j) b = b
  guide_entry k v (entry j w) b = asymmetric k j b

  pub Sorted-Marked : (xs ys : List (Item K V)) → Sorted xs → Marked xs ys → Sorted ys
  Sorted-Marked xs ys s (same _) = s
  Sorted-Marked xs ys s (guided a u k v ws) =
      ((s.0.0, s.0), ((irreflexive k, All-imp (guide_entry k v) ws s.1.0), s.1))
  Sorted-Marked xs ys s (later i us ws m) =
      (All-Before-Marked i us ws s.1 m s.0, Sorted-Marked us ws s.1 m)

  unfoldable pub place : K → V → List (Item K V) → List (Item K V)
  place key value [] = entry key value ∷ []
  place key value (i ∷ is) = elim (o.cmp key (key_of i)) [
    | lt ↦ entry key value ∷ i ∷ is
    | eq ↦ i ∷ place key value is
    | gt ↦ i ∷ place key value is
  ]

  pub place-below :
      (key : K) (value : V) (i : Item K V) (is : List (Item K V))
      → key ≺ key_of i
      → place key value (i ∷ is) ≡ entry key value ∷ i ∷ is
  unfolding place
  place-below key value i is h = ground arith

  pub place-past :
      (key : K) (value : V) (i : Item K V) (is : List (Item K V))
      → ¬ (key ≺ key_of i)
      → place key value (i ∷ is) ≡ i ∷ place key value is
  unfolding place
  place-past key value i is h = ground arith

  pub place-left :
      (key : K) (value : V) (xs : List (Item K V)) (y : Item K V) (ys : List (Item K V))
      → key ≺ key_of y
      → place key value (xs ++ y ∷ ys) ≡ place key value xs ++ y ∷ ys
  unfolding place
  place-left key value [] y ys h = place-below key value y ys h
  place-left key value (x ∷ xs) y ys h = ground (arith, place-left key value xs y ys h)

  pub place-right :
      (key : K) (value : V) (xs ys : List (Item K V))
      → All (λ i. key_of i ≺ key) xs
      → place key value (xs ++ ys) ≡ xs ++ place key value ys
  place-right key value [] ys a = refl
  place-right key value (x ∷ xs) ys a =
      rw (place-past key value x (xs ++ ys) (asymmetric (key_of x) key a.0))
        (ap (◌∷◌ x) (place-right key value xs ys a.1))

  All-place {μ} :
      (P : Item K V → Type μ) (key : K) (value : V) (is : List (Item K V))
      → P (entry key value)
      → All P is
      → All P (place key value is)
  unfolding place
  All-place P key value [] p a = (p, tt)
  All-place P key value (i ∷ is) p a = ground (arith, All-place P key value is p a.1)

  pub past-Before :
      (key : K) (value : V) (i : Item K V) (is : List (Item K V))
      → ¬ (key ≺ key_of i)
      → find key (entries_of (i ∷ is)) ≡ none
      → Before i (entry key value) × (find key (entries_of is) ≡ none)
  unfolding find
  past-Before key value (guide k) is h f = (h, f)
  past-Before key value (entry k v) is h f = ground (arith, o.cmp_flip key k)

  entry_at : (key : K) (value : V) (i : Item K V) → key ≺ key_of i → Before (entry key value) i
  entry_at key value (guide k) h = h
  entry_at key value (entry k v) h = h

  pub entry_ahead :
      (key : K) (value : V) (i : Item K V)
      → key ≺ key_of i
      → (j : Item K V) → Before i j
      → Before (entry key value) j
  entry_ahead key value (guide k) h (guide j) b = o.cmp_trans key k j h b
  entry_ahead key value (guide k) h (entry j w) b = below_trans key k j h b
  entry_ahead key value (entry k v) h (guide j) b = o.cmp_trans key k j h b
  entry_ahead key value (entry k v) h (entry j w) b = o.cmp_trans key k j h b

  pub place-Sorted :
      (key : K) (value : V) (is : List (Item K V))
      → Sorted is
      → find key (entries_of is) ≡ none
      → Sorted (place key value is)
  unfolding place
  place-Sorted key value [] s f = (tt, tt)
  place-Sorted key value (i ∷ is) s f = elim (below_cases key (key_of i)) [
    | inl h ↦
        subst Sorted (sym (place-below key value i is h))
          (((entry_at key value i h, All-imp (entry_ahead key value i h) is s.0), s))
    | inr h ↦
        let (before, free) = past-Before key value i is h f in
        subst Sorted (sym (place-past key value i is h))
          ((All-place (Before i) key value is before s.0, place-Sorted key value is s.1 free))
  ]
