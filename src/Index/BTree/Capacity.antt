-- ===== src/Index/BTree/Capacity.antt =====
-- How many entries a tree of pkg/index/btree.go holds at a height.
use native.Mathlib.Omega.{pow_step}
use native.Mathlib.Nat.{pow-zero}
use laura_db.Prelude.{
  ℕ, zero, suc, ◌+◌, ◌-◌, ◌*◌, ◌^◌, ◌≤◌, ◌<◌, ◌≡◌, ap, sym, subst, ◌∙◌, arith, ◌∷◌, length,
  length-append,
}
use laura_db.Index.Comparison.{Comparison}
use laura_db.Index.BTree.{Node, leaf, internal, Children, one, link, keys, BTree}
use laura_db.Index.BTree.Items.{
  as_items, guide, entries_of, items, items_of, entries_of-append, entries_of-as_items,
}
use laura_db.Index.BTree.Shape.{Shaped, AllShaped}
use laura_db.Index.BTree.Updates.{Reached, Reached-WellFormed}

times-le : (a b p : ℕ) → a ≤ b → a * p ≤ b * p
times-le zero b p h = omega arith
times-le (suc a) zero p h = absurd (omega arith)
times-le (suc a) (suc b) p h = omega (arith, times-le a b p (omega arith))

power_one : (order : ℕ) → order ^ 1 ≡ order
power_one order = pow_step order 0 ∙ ap (λ x. order * x) (pow-zero order) ∙ omega arith

power-times : (order h : ℕ) → 1 ≤ h → order ^ h ≡ order * order ^ (h - 1)
power-times order zero p = absurd (omega arith)
power-times order (suc h) p =
    let same : h ≡ suc h - 1 = omega arith in
    subst (λ x. order ^ suc h ≡ order * order ^ x) same (pow_step order h)

module _ {ℓ κ} {K : Type ℓ} {V : Type κ} where
  mutual
    Shaped-capacity :
        (order h : ℕ) (n : Node K V) → Shaped order h n → length (entries_of (items n)) < order ^ h
    Shaped-capacity order h (leaf l) s =
        subst (λ x. length (entries_of (as_items l.entries)) < order ^ x) (sym s.0)
          (omega (arith, ap length (entries_of-as_items l.entries), s.1, power_one order))
    Shaped-capacity order h (internal cs) s = omega (
      arith,
      AllShaped-capacity order (h - 1) cs s.2,
      times-le (suc (length (keys cs))) order (order ^ (h - 1)) s.1,
      power-times order h (omega (arith, s.0)),
    )

    AllShaped-capacity :
        (order h : ℕ) (cs : Children K V)
        → AllShaped order h cs
        → length (entries_of (items_of cs)) + suc (length (keys cs))
          ≤ suc (length (keys cs)) * order ^ h
    AllShaped-capacity order h (one c) s = omega (arith, Shaped-capacity order h c s)
    AllShaped-capacity order h (link c k cs) s = omega (
      arith,
      Shaped-capacity order h c s.0,
      AllShaped-capacity order h cs s.1,
      ap length (entries_of-append (items c) (guide k ∷ items_of cs)),
      length-append (entries_of (items c)) (entries_of (items_of cs)),
    )

module _ {ℓ κ} {K : Type ℓ} {V : Type κ} ⦃o : Comparison K⦄ where
  -- A tree that the methods made holds fewer entries than its order to the power of its height.
  pub size-lt : (t : BTree K V) → Reached t → t.size < t.order ^ t.height
  size-lt t r =
      let w = Reached-WellFormed t r in
      omega (arith, w.counted, Shaped-capacity t.order t.height t.root w.shaped)
