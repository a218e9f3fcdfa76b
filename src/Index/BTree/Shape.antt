-- ===== src/Index/BTree/Shape.antt =====
-- The shape of the tree of pkg/index/btree.go: every leaf at the same depth, every node below the
-- order.
use laura_db.Prelude.{
  ℕ, zero, suc, ◌-◌, ◌/◌, ◌≤◌, ◌<◌, ◌≡◌, refl, ap, inl, inr, arith, Bool-cases, Option-cases,
  List-cases, none, some, List, [], ◌∷◌, length, drop, length-take, length-drop, leb, leb→le,
}
use laura_db.Index.BTree.{
  Leaf, Node, leaf, internal, Children, one, link, Split, keys, at, insert_at, insert_link,
  take_children, drop_children, split_leaf, split_internal,
}
use laura_db.Index.BTree.Insertion.{drop-half}
use laura_db.Index.BTree.Descent.{check_leaf, check_internal}

pub length-insert_at {ℓ} :
    {A : Type ℓ} (n : ℕ) (x : A) (xs : List A) → length (insert_at n x xs) ≡ suc (length xs)
length-insert_at zero x xs = refl
length-insert_at (suc n) x [] = refl
length-insert_at (suc n) x (y ∷ ys) = ap suc (length-insert_at n x ys)

length_of_at {ℓ} : {A : Type ℓ} (n : ℕ) (xs : List A) → at n xs ≡ none → length xs ≤ n
length_of_at n [] h = omega arith
length_of_at zero (x ∷ xs) h = cc
length_of_at (suc n) (x ∷ xs) h = omega (arith, length_of_at n xs h)

module _ {ℓ κ} {K : Type ℓ} {V : Type κ} where
  abbrev mutual
    -- A tree of a height whose nodes have fewer keys than `order`
    pub Shaped : ℕ → ℕ → Node K V → Type 0
    Shaped order h (leaf l) = (h ≡ 1) × (length l.entries < order)
    Shaped order h (internal cs) = (2 ≤ h) × (length (keys cs) < order) × AllShaped order (h - 1) cs

    pub AllShaped : ℕ → ℕ → Children K V → Type 0
    AllShaped order h (one c) = Shaped order h c
    AllShaped order h (link c k cs) = Shaped order h c × AllShaped order h cs

  abbrev pub SplitShaped : ℕ → ℕ → Split K V → Type 0
  SplitShaped order h none = Unit
  SplitShaped order h (some (k, m)) = Shaped order h m

  abbrev pub ResultShaped : ℕ → ℕ → Node K V × Split K V → Type 0
  ResultShaped order h r = Shaped order h r.0 × SplitShaped order h r.1

  take_children-AllShaped :
      (order h n : ℕ) (cs : Children K V)
      → AllShaped order h cs
      → AllShaped order h (take_children n cs)
  take_children-AllShaped order h n (one c) s = s
  take_children-AllShaped order h zero (link c k cs) s = s.0
  take_children-AllShaped order h (suc n) (link c k cs) s =
      (s.0, take_children-AllShaped order h n cs s.1)

  drop_children-AllShaped :
      (order h n : ℕ) (cs : Children K V)
      → AllShaped order h cs
      → AllShaped order h (drop_children n cs)
  drop_children-AllShaped order h zero cs s = s
  drop_children-AllShaped order h (suc n) (one c) s = s
  drop_children-AllShaped order h (suc n) (link c k cs) s = drop_children-AllShaped order h n cs s.1

  pub insert_link-AllShaped :
      (order h n : ℕ) (key : K) (new : Node K V) (cs : Children K V)
      → AllShaped order h cs
      → Shaped order h new
      → AllShaped order h (insert_link n key new cs)
  insert_link-AllShaped order h n key new (one c) s t = (s, t)
  insert_link-AllShaped order h zero key new (link c k cs) s t = (s.0, (t, s.1))
  insert_link-AllShaped order h (suc n) key new (link c k cs) s t =
      (s.0, insert_link-AllShaped order h n key new cs s.1 t)

  length-take_children : (n : ℕ) (cs : Children K V) → length (keys (take_children n cs)) ≤ n
  length-take_children n (one c) = omega arith
  length-take_children zero (link c k cs) = omega arith
  length-take_children (suc n) (link c k cs) = omega (arith, length-take_children n cs)

  length-drop_children :
      (n : ℕ) (cs : Children K V) → length (keys (drop_children n cs)) ≡ length (keys cs) - n
  length-drop_children zero cs = omega arith
  length-drop_children (suc n) (one c) = omega arith
  length-drop_children (suc n) (link c k cs) = omega (arith, length-drop_children n cs)

  pub length-insert_link :
      (n : ℕ) (key : K) (new : Node K V) (cs : Children K V)
      → length (keys (insert_link n key new cs)) ≡ suc (length (keys cs))
  length-insert_link n key new (one c) = refl
  length-insert_link zero key new (link c k cs) = refl
  length-insert_link (suc n) key new (link c k cs) = ap suc (length-insert_link n key new cs)

  pub check_leaf-Shaped :
      (order fresh : ℕ) (l : Leaf K V)
      → 2 ≤ order
      → length l.entries ≤ order
      → ResultShaped order 1 (check_leaf order fresh l)
  unfolding check_leaf split_leaf
  check_leaf-Shaped order fresh l h bound = elim (Bool-cases (leb order (length l.entries))) [
    | inr e ↦ rw (e, check_leaf) ((refl, ground arith), tt)
    | inl e ↦ elim (List-cases (drop (length l.entries / 2) l.entries)) [
      | inl d ↦ absurd (drop-half l.entries (omega (arith, leb→le order (length l.entries) e)) d)
      | inr (x, right, d) ↦
          rw (e, check_leaf, d, split_leaf)
            (let full = leb→le order (length l.entries) e in
              let mid = length l.entries / 2 in
              (
                (refl, omega (arith, length-take mid l.entries (omega arith), full)),
                (refl, omega (arith, length-drop mid l.entries, ap length d, full)),
              ))
    ]
  ]

  pub check_internal-Shaped :
      (order h : ℕ) (cs : Children K V)
      → 2 ≤ order
      → 2 ≤ h
      → length (keys cs) ≤ order
      → AllShaped order (h - 1) cs
      → ResultShaped order h (check_internal order cs)
  unfolding check_internal split_internal
  check_internal-Shaped order h cs two tall bound s =
      elim (Bool-cases (leb order (length (keys cs)))) [
        | inr e ↦ rw (e, check_internal) ((tall, ground arith, s), tt)
        | inl e ↦ elim (Option-cases (at (length (keys cs) / 2) (keys cs))) [
          | inl d ↦ absurd (
              omega (
                arith,
                length_of_at (length (keys cs) / 2) (keys cs) d,
                leb→le order (length (keys cs)) e,
              ))
          | inr (k, d) ↦
              rw (e, check_internal, d, split_internal)
                (let full = leb→le order (length (keys cs)) e in
                  let mid = length (keys cs) / 2 in
                  (
                    (
                      tall,
                      omega (arith, length-take_children mid cs, full),
                      take_children-AllShaped order (h - 1) mid cs s,
                    ),
                    (
                      tall,
                      omega (arith, length-drop_children (suc mid) cs, full),
                      drop_children-AllShaped order (h - 1) (suc mid) cs s,
                    ),
                  ))
        ]
      ]
