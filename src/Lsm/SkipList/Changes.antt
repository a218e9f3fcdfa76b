-- ===== src/Lsm/SkipList/Changes.antt =====
-- What the methods of pkg/lsm/skiplist.found_value do to the keys and values.
use Prim.Native.Nat.Ordering.{lt, eq, gt}
use laura_db.Prelude.{
  ℕ, ◌<◌, ◌≡◌, ◌≢◌, inl, inr, refl, ap, sym, subst, ◌∙◌, Option, none, some, List, [], ◌∷◌, ◌++◌,
  length, All, All-imp,
}
use laura_db.Index.Key.{compare_bytes}
use laura_db.Index.Comparison.{◌≺◌, irreflexive}
use laura_db.Lsm.SsTable.Entries.{key_order}
use laura_db.Lsm.SsTable.Lookup.{Ordering-cases}
use laura_db.Lsm.SkipList.{Node, SkipList, descend, search}
use laura_db.Lsm.SkipList.Walk.{Sorted, Sorted-right, Levelled, Stops, descend-Place}

module _ {V : Type 0} where
  -- The value of the first node with the key
  unfoldable pub find : List ℕ → List (Node V) → Option V
  find key [] = none
  find key (n ∷ ns) = elim (compare_bytes n.key key) [
    | lt ↦ find key ns
    | eq ↦ some n.value
    | gt ↦ find key ns
  ]

  pub record IsSkipList (sl : SkipList V) : Type 0 where
    pub sorted : Sorted sl.nodes
    pub levelled : Levelled sl.nodes
    pub has_level : 0 < sl.level
    pub counted : sl.size ≡ length sl.nodes

  pub find-here :
      (key : List ℕ) (n : Node V) (ns : List (Node V))
      → compare_bytes n.key key ≡ eq
      → find key (n ∷ ns) ≡ some n.value
  unfolding find
  find-here key n ns h = rw (find, h) refl

  pub find-other :
      (key : List ℕ) (n : Node V) (ns : List (Node V))
      → n.key ≢ key
      → find key (n ∷ ns) ≡ find key ns
  unfolding find key_order
  find-other key n ns h = elim (Ordering-cases (compare_bytes n.key key)) [
    | inl c ↦ rw (find, c) refl
    | inr (inl c) ↦ absurd (h (key_order.same_of_cmp n.key key c))
    | inr (inr c) ↦ rw (find, c) refl
  ]

  pub find-skip :
      (key : List ℕ) (ms ns : List (Node V))
      → All (λ m. m.key ≢ key) ms
      → find key (ms ++ ns) ≡ find key ns
  find-skip key [] ns h = refl
  find-skip key (m ∷ ms) ns h = find-other key m (ms ++ ns) h.0 ∙ find-skip key ms ns h.1

  pub find-none :
      (key : List ℕ) (ns : List (Node V)) → All (λ n. n.key ≢ key) ns → find key ns ≡ none
  unfolding find
  find-none key [] h = refl
  find-none key (n ∷ ns) h = find-other key n ns h.0 ∙ find-none key ns h.1

  pub apart_below : {key : List ℕ} (n : Node V) → n.key ≺ key → n.key ≢ key
  apart_below {key} n h q = irreflexive key (subst (λ k. k ≺ key) q h)

  pub apart_above : {key : List ℕ} (n : Node V) → key ≺ n.key → n.key ≢ key
  apart_above {key} n h q = irreflexive key (subst (λ k. key ≺ k) q h)

  -- All nodes behind a greater one are greater.
  greater_behind :
      (key : List ℕ) (n : Node V) (ns : List (Node V))
      → key ≺ n.key
      → Sorted (n ∷ ns)
      → All (λ m. key ≺ m.key) (n ∷ ns)
  greater_behind key n ns h s = (h, All-imp (λ m p. key_order.cmp_trans key n.key m.key h p) ns s.0)

  -- The rest of the list at the place of a key
  pub data Found (key : List ℕ) : List (Node V) → Type 0 where
    present :
        (n : Node V) (ns : List (Node V))
        → compare_bytes n.key key ≡ eq
        → All (λ m. key ≺ m.key) ns
        → Found key (n ∷ ns)
    absent_end : Found key []
    absent :
        (n : Node V) (ns : List (Node V))
        → compare_bytes n.key key ≡ gt
        → All (λ m. key ≺ m.key) (n ∷ ns)
        → Found key (n ∷ ns)

  pub stops-Found : (key : List ℕ) (ns : List (Node V)) → Sorted ns → Stops key ns → Found key ns
  unfolding key_order
  stops-Found key [] s h = absent_end
  stops-Found key (n ∷ ns) s h = elim (Ordering-cases (compare_bytes n.key key)) [
    | inl c ↦ absurd (h c)
    | inr (inl c) ↦
        present n ns c
          (subst (λ k. All (λ m. k ≺ m.key) ns) (key_order.same_of_cmp n.key key c) s.0)
    | inr (inr c) ↦
        absent n ns c (greater_behind key n ns (key_order.cmp_flip n.key key ∙ rw c refl) s)
  ]

  -- Search finds what a search through all nodes finds.
  pub search-find :
      (key : List ℕ) (sl : SkipList V) → IsSkipList sl → search key sl ≡ find key sl.nodes
  unfolding search
  search-find key sl w =
      let p = descend-Place sl.level key sl.nodes w.has_level w.sorted w.levelled in
      let at = descend sl.level key (0, sl.nodes) in
      let rest = find-skip key p.front at.1 (All-imp (λ m h. apart_below m h) p.front p.smaller) in
      found_value at.1
        (stops-Found key at.1 (Sorted-right p.front at.1 (subst Sorted p.parts w.sorted)) p.stops)
      ∙ sym (ap (find key) p.parts ∙ rest)
    where
      found_value :
          (ns : List (Node V))
          → Found key ns
          → elim ns [
            | [] ↦ none
            | n ∷ ns ↦ elim (compare_bytes n.key key) [ lt ↦ none | eq ↦ some n.value | gt ↦ none ]
          ]
            ≡ find key ns
      found_value _ (present n ns c g) = rw c (sym (find-here key n ns c))
      found_value _ absent_end = sym (find-none key [] tt)
      found_value _ (absent n ns c g) =
          rw c (sym (find-none key (n ∷ ns) (All-imp (λ m h. apart_above m h) (n ∷ ns) g)))
