-- ===== src/Index/BTree/Items.antt =====
-- What the tree stands for: its entries in order, between them the keys of the internal nodes.
use laura_db.Prelude.{◌≡◌, refl, ap, none, some, List, [], ◌∷◌, ◌++◌, All}
use laura_db.Index.Comparison.{Comparison, ◌≺◌}
use laura_db.Index.BTree.{Node, leaf, internal, Children, one, link, Split}

-- A key of an internal node, or an entry of a leaf
pub data Item {ℓ κ} (K : Type ℓ) (V : Type κ) : Type (ℓ ⊔ κ) where
  guide : K → Item K V
  entry : K → V → Item K V

module _ {ℓ κ} {K : Type ℓ} {V : Type κ} where
  abbrev pub key_of : Item K V → K
  key_of (guide k) = k
  key_of (entry k v) = k

  abbrev pub entries_of : List (Item K V) → List (K × V)
  entries_of [] = []
  entries_of (guide k ∷ is) = entries_of is
  entries_of (entry k v ∷ is) = (k, v) ∷ entries_of is

  abbrev pub as_items : List (K × V) → List (Item K V)
  as_items [] = []
  as_items ((k, v) ∷ es) = entry k v ∷ as_items es

  abbrev mutual
    pub items : Node K V → List (Item K V)
    items (leaf l) = as_items l.entries
    items (internal cs) = items_of cs

    pub items_of : Children K V → List (Item K V)
    items_of (one c) = items c
    items_of (link c k cs) = items c ++ guide k ∷ items_of cs

  abbrev pub split_items : Split K V → List (Item K V)
  split_items none = []
  split_items (some (k, m)) = guide k ∷ items m

  pub entries_of-append :
      (xs ys : List (Item K V)) → entries_of (xs ++ ys) ≡ entries_of xs ++ entries_of ys
  entries_of-append [] ys = refl
  entries_of-append (guide k ∷ xs) ys = entries_of-append xs ys
  entries_of-append (entry k v ∷ xs) ys = ap (◌∷◌ (k, v)) (entries_of-append xs ys)

  pub entries_of-as_items : (es : List (K × V)) → entries_of (as_items es) ≡ es
  entries_of-as_items [] = refl
  entries_of-as_items ((k, v) ∷ es) = ap (◌∷◌ (k, v)) (entries_of-as_items es)

module _ {ℓ κ} {K : Type ℓ} {V : Type κ} ⦃o : Comparison K⦄ where
  -- `i` may stand somewhere before `j`.
  abbrev pub Before : Item K V → Item K V → Type 0
  Before (guide a) (entry b v) = ¬ (b ≺ a)
  Before (guide a) (guide b) = a ≺ b
  Before (entry a u) (entry b v) = a ≺ b
  Before (entry a u) (guide b) = a ≺ b

  abbrev pub Sorted : List (Item K V) → Type (ℓ ⊔ κ)
  Sorted [] = Unit
  Sorted (i ∷ is) = All (Before i) is × Sorted is
