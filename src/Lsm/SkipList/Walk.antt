-- ===== src/Lsm/SkipList/Walk.antt =====
-- Where the loops of pkg/lsm/skiplist.go end.
use laura_db.Prelude.{
  ℕ, zero, suc, ◌+◌, ◌<◌, ◌≡◌, inl, inr, refl, ap, sym, subst, ◌∙◌, true, false, List, [], ◌∷◌,
  ◌++◌, append_assoc, length, length-append, take, take-append, take_all, All, All-imp, All-append,
  All-right, arith, ltb, lt→ltb, Bool-cases,
}
use laura_db.Index.Comparison.{◌≺◌}
use laura_db.Lsm.SsTable.Entries.{key_order}
use laura_db.Lsm.SkipList.{Node, Pointer, is_below, walk_from, walk, descend}

pub below-≺ : (a b : List ℕ) → is_below a b ≡ true → a ≺ b
unfolding is_below key_order
below-≺ a b h = ground (arith, h)

pub not_below-≺ : (a b : List ℕ) → is_below a b ≡ false → ¬ (a ≺ b)
unfolding is_below key_order
not_below-≺ a b h k = ground (arith, h, k)

module _ {V : Type 0} where
  -- The keys go up strictly.
  abbrev pub Sorted : List (Node V) → Type 0
  Sorted [] = Unit
  Sorted (n ∷ ns) = All (λ m. n.key ≺ m.key) ns × Sorted ns

  pub Sorted-right : (ms ns : List (Node V)) → Sorted (ms ++ ns) → Sorted ns
  Sorted-right [] ns s = s
  Sorted-right (m ∷ ms) ns s = Sorted-right ms ns s.1

  pub sorted_below :
      (ms : List (Node V)) (n : Node V) (ns : List (Node V))
      → Sorted (ms ++ (n ∷ ns))
      → All (λ m. m.key ≺ n.key) ms
  sorted_below [] n ns s = tt
  sorted_below (m ∷ ms) n ns s = ((All-right _ ms (n ∷ ns) s.0).0, sorted_below ms n ns s.1)

  -- A pointer behind nodes with smaller keys only
  pub record Walked (key : List ℕ) (from to : Pointer V) : Type 0 where
    pub passed : List (Node V)
    pub parts : from.1 ≡ passed ++ to.1
    pub moved : to.0 ≡ from.0 + length passed
    pub smaller : All (λ n. n.key ≺ key) passed

  stay : (key : List ℕ) (at : Pointer V) → Walked key at at
  stay key at = record { passed = []; parts = refl; moved = omega arith; smaller = tt }

  Walked-trans :
      (key : List ℕ) (a b c : Pointer V) → Walked key a b → Walked key b c → Walked key a c
  Walked-trans key a b c x y = record {
    passed = x.passed ++ y.passed;
    parts = x.parts ∙ ap (λ ns. x.passed ++ ns) y.parts ∙ sym (append_assoc x.passed y.passed c.1);
    moved = omega (arith, x.moved, y.moved, length-append x.passed y.passed);
    smaller = All-append _ x.passed y.passed x.smaller y.smaller;
  }

  walk_from-Walked :
      (i : ℕ) (key : List ℕ) (current : Pointer V) (skipped : List (Node V)) (q : ℕ)
      (ns : List (Node V))
      → current.1 ≡ skipped ++ ns
      → q ≡ current.0 + length skipped
      → Sorted current.1
      → Walked key current (walk_from i key current q ns)
  unfolding walk_from
  walk_from-Walked i key current skipped q [] e p s = stay key current
  walk_from-Walked i key current skipped q (n ∷ ns) e p s =
      let here : skipped ++ (n ∷ ns) ≡ (skipped ++ (n ∷ [])) ++ ns =
        sym (append_assoc skipped (n ∷ []) ns) in
      let long = length-append skipped (n ∷ []) in
      elim (Bool-cases (ltb i n.levels)) [
        | inr h ↦ rw h (
            walk_from-Walked i key current (skipped ++ (n ∷ [])) (suc q) ns (e ∙ here)
              (omega (arith, p, long)) s)
        | inl h ↦ elim (Bool-cases (is_below n.key key)) [
          | inr k ↦ rw (h, k) (stay key current)
          | inl k ↦
              let less = below-≺ n.key key k in
              let s' = subst Sorted e s in
              let before =
                All-imp (λ m b. key_order.cmp_trans m.key n.key key b less) skipped
                  (sorted_below skipped n ns s') in
              let first : Walked key current (suc q, ns) = record {
                passed = skipped ++ (n ∷ []);
                parts = e ∙ here;
                moved = omega (arith, p, long);
                smaller = All-append _ skipped (n ∷ []) before (less, tt);
              } in
              rw (h, k)
                (Walked-trans key current (suc q, ns) _ first
                  (walk_from-Walked i key (suc q, ns) [] (suc q) ns refl (omega arith)
                    (Sorted-right skipped (n ∷ ns) s').1))
        ]
      ]

  pub walk-Walked :
      (i : ℕ) (key : List ℕ) (at : Pointer V) → Sorted at.1 → Walked key at (walk i key at)
  unfolding walk
  walk-Walked i key (q, ns) s = walk_from-Walked i key (q, ns) [] q ns refl (omega arith) s

  pub descend-Walked :
      (level : ℕ) (key : List ℕ) (at : Pointer V)
      → Sorted at.1
      → Walked key at (descend level key at)
  unfolding descend
  descend-Walked zero key at s = stay key at
  descend-Walked (suc i) key at s =
      let w = walk-Walked i key at s in
      Walked-trans key at (walk i key at) _ w
        (descend-Walked i key (walk i key at) (Sorted-right w.passed _ (subst Sorted w.parts s)))

  -- The next node has the key or a greater one.
  abbrev pub Stops : List ℕ → List (Node V) → Type 0
  Stops key [] = Unit
  Stops key (n ∷ ns) = ¬ (n.key ≺ key)

  abbrev pub Levelled : List (Node V) → Type 0
  Levelled ns = All (λ n. 0 < n.levels) ns

  walk_from-Stops :
      (key : List ℕ) (q : ℕ) (ns : List (Node V))
      → Levelled ns
      → Stops key (walk_from 0 key (q, ns) q ns).1
  unfolding walk_from
  walk_from-Stops key q [] l = tt
  walk_from-Stops key q (n ∷ ns) l =
      let on = lt→ltb 0 n.levels l.0 in
      elim (Bool-cases (is_below n.key key)) [
        | inl k ↦ rw (on, k) (walk_from-Stops key (suc q) ns l.1)
        | inr k ↦ rw (on, k) (not_below-≺ n.key key k)
      ]

  descend-Stops :
      (level : ℕ) (key : List ℕ) (at : Pointer V)
      → 0 < level
      → Sorted at.1
      → Levelled at.1
      → Stops key (descend level key at).1
  unfolding descend walk
  descend-Stops zero key at p s l = absurd (omega arith)
  descend-Stops (suc zero) key (q, ns) p s l = walk_from-Stops key q ns l
  descend-Stops (suc (suc i)) key at p s l =
      let w = walk-Walked (suc i) key at s in
      descend-Stops (suc i) key (walk (suc i) key at) (omega arith)
        (Sorted-right w.passed _ (subst Sorted w.parts s))
        (All-right _ w.passed _ (subst Levelled w.parts l))

  -- The list at the place of a key
  pub record Place (key : List ℕ) (nodes : List (Node V)) (at : Pointer V) : Type 0 where
    pub front : List (Node V)
    pub parts : nodes ≡ front ++ at.1
    pub taken : take at.0 nodes ≡ front
    pub smaller : All (λ n. n.key ≺ key) front
    pub stops : Stops key at.1

  pub descend-Place :
      (level : ℕ) (key : List ℕ) (nodes : List (Node V))
      → 0 < level
      → Sorted nodes
      → Levelled nodes
      → Place key nodes (descend level key (0, nodes))
  descend-Place level key nodes p s l =
      let w = descend-Walked level key (0, nodes) s in
      let at = descend level key (0, nodes) in
      record {
        front = w.passed;
        parts = w.parts;
        taken =
            subst (λ ns. take at.0 ns ≡ w.passed) (sym w.parts)
              (take-append at.0 w.passed at.1 (omega (arith, w.moved))
                ∙ take_all at.0 w.passed (omega (arith, w.moved)));
        smaller = w.smaller;
        stops = descend-Stops level key (0, nodes) p s l;
      }
