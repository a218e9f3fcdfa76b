-- ===== src/Lsm/SkipList/Middle.antt =====
-- A node between the nodes with smaller and with greater keys: the lists that Insert and Delete of
-- pkg/lsm/skiplist.go make.
use Prim.Native.Nat.Ordering.{eq}
use laura_db.Prelude.{
  ℕ, ◌≡◌, ◌≢◌, ◌⊎◌, inl, inr, sym, subst, ◌∙◌, none, some, List, [], ◌∷◌, ◌++◌, All, All-imp,
  All-append, All-left,
}
use laura_db.Index.Key.{compare_bytes}
use laura_db.Index.Comparison.{◌≺◌, irreflexive}
use laura_db.Lsm.SsTable.Entries.{key_order}
use laura_db.Lsm.SsTable.Lookup.{Ordering-cases}
use laura_db.Lsm.SkipList.{Node}
use laura_db.Lsm.SkipList.Walk.{Sorted, Levelled}
use laura_db.Lsm.SkipList.Changes.{
  find, find-here, find-other, find-skip, find-none, apart_below, apart_above,
}

pub same_or_not : (a b : List ℕ) → (compare_bytes a b ≡ eq) ⊎ (a ≢ b)
unfolding key_order
same_or_not a b = elim (Ordering-cases (compare_bytes a b)) [
  | inr (inl c) ↦ inl c
  | inl c ↦ inr (λ q. irreflexive b (subst (λ k. k ≺ b) q c))
  | inr (inr c) ↦ inr (λ q. let e = key_order.cmp_self b in cc)
]

module _ {V : Type 0} where
  Sorted-append :
      (ms ns : List (Node V)) (key : List ℕ)
      → Sorted ms
      → Sorted ns
      → All (λ m. m.key ≺ key) ms
      → All (λ n. (n.key ≡ key) ⊎ (key ≺ n.key)) ns
      → Sorted (ms ++ ns)
  Sorted-append [] ns key s t a b = t
  Sorted-append (m ∷ ms) ns key s t a b = (
    All-append _ ms ns s.0 (All-imp (λ n h. behind n h) ns b),
    Sorted-append ms ns key s.1 t a.1 b,
  )
    where
      behind : (n : Node V) → (n.key ≡ key) ⊎ (key ≺ n.key) → m.key ≺ n.key
      behind n (inl e) = subst (λ k. m.key ≺ k) (sym e) a.0
      behind n (inr h) = key_order.cmp_trans m.key key n.key a.0 h

  pub Sorted-left : (ms ns : List (Node V)) → Sorted (ms ++ ns) → Sorted ms
  Sorted-left [] ns s = tt
  Sorted-left (m ∷ ms) ns s = (All-left _ ms ns s.0, Sorted-left ms ns s.1)

  -- A node put between the nodes with smaller and with greater keys
  pub record Middle (key : List ℕ) (front behind : List (Node V)) : Type 0 where
    pub front_sorted : Sorted front
    pub behind_sorted : Sorted behind
    pub smaller : All (λ n. n.key ≺ key) front
    pub greater : All (λ n. key ≺ n.key) behind
    pub front_levelled : Levelled front
    pub behind_levelled : Levelled behind

  module _ (key : List ℕ) (front behind : List (Node V)) (m : Middle key front behind) where
    pub middle-Sorted : (n : Node V) → n.key ≡ key → Sorted (front ++ (n ∷ behind))
    middle-Sorted n e =
        Sorted-append front (n ∷ behind) key m.front_sorted
          (subst (λ k. All (λ o. k ≺ o.key) behind) (sym e) m.greater, m.behind_sorted) m.smaller
          (inl e, All-imp (λ o h. inr h) behind m.greater)

    pub middle-without : Sorted (front ++ behind)
    middle-without =
        Sorted-append front behind key m.front_sorted m.behind_sorted m.smaller
          (All-imp (λ o h. inr h) behind m.greater)

    pub find-middle : (n : Node V) → n.key ≡ key → find key (front ++ (n ∷ behind)) ≡ some n.value
    unfolding key_order
    find-middle n e =
        find-skip key front (n ∷ behind) (All-imp (λ o h. apart_below o h) front m.smaller)
        ∙ find-here key n behind (rw e (key_order.cmp_self key))

    pub find-without : find key (front ++ behind) ≡ none
    find-without =
        find-skip key front behind (All-imp (λ o h. apart_below o h) front m.smaller)
        ∙ find-none key behind (All-imp (λ o h. apart_above o h) behind m.greater)

  pub find-around :
      (k : List ℕ) (front behind : List (Node V)) (n : Node V)
      → n.key ≢ k
      → find k (front ++ (n ∷ behind)) ≡ find k (front ++ behind)
  find-around k [] behind n h = find-other k n behind h
  find-around k (o ∷ front) behind n h = elim (same_or_not o.key k) [
    | inl c ↦ find-here k o _ c ∙ sym (find-here k o _ c)
    | inr c ↦ find-other k o _ c ∙ find-around k front behind n h ∙ sym (find-other k o _ c)
  ]
