-- ===== src/Lsm/Tree/Merging.antt =====
-- The merged table takes the place of the tables it was made of in pkg/lsm/lsm.go: the lists of
-- tables before and after.
use laura_db.Prelude.{
  ◌≡◌, inl, inr, refl, ap, sym, subst, ◌∙◌, Bool, true, false, Option, none, some, List, [], ◌∷◌,
  ◌++◌, append_assoc, map, any, All, All-append, All-left, All-right, ◌==◌, arith, Bool-cases,
}
use laura_db.Lsm.SsTable.{Entry}
use laura_db.Lsm.Merge.{table_entries}
use laura_db.Lsm.Merge.Least.{or_else}
use laura_db.Lsm.Merge.Compaction.{visible, visible-alive, visible-dead}
use laura_db.Lsm.Merge.Tables.{WellMade}
use laura_db.Lsm.Tree.{FileTable, keep_others}
use laura_db.Lsm.Tree.Layers.{table_layers, ValidTables}
use laura_db.Lsm.Tree.Reach.{NotNumbered, Distinct}

-- The file of a table is one of those merged.
abbrev is_merged : List FileTable → FileTable → Bool
is_merged olds x = any (λ o. x.0 == o.0) olds

member_is_merged :
    (pre : List FileTable) (x : FileTable) (post : List FileTable)
    → is_merged (pre ++ (x ∷ post)) x ≡ true
member_is_merged [] x post = ground arith
member_is_merged (o ∷ pre) x post = ground (arith, member_is_merged pre x post)

not_merged :
    (x : FileTable) (olds : List FileTable) → NotNumbered x.0 olds → is_merged olds x ≡ false
not_merged x [] n = refl
not_merged x (o ∷ olds) n = ground (arith, not_merged x olds n.1, n.0)

drop_merged : (pre olds : List FileTable) → keep_others (pre ++ olds) olds ≡ []
unfolding keep_others
drop_merged pre [] = refl
drop_merged pre (x ∷ olds) =
    let rest = drop_merged (pre ++ (x ∷ [])) olds in
    rw (member_is_merged pre x olds)
      (subst (λ os. keep_others os olds ≡ []) (append_assoc pre (x ∷ []) olds) rest)

pub keep_newer :
    (newer olds : List FileTable)
    → Distinct (newer ++ olds)
    → keep_others olds (newer ++ olds) ≡ newer
unfolding keep_others
keep_newer [] olds d = drop_merged [] olds
keep_newer (x ∷ newer) olds d =
    rw (not_merged x olds (All-right _ newer olds d.0)) (ap (◌∷◌ x) (keep_newer newer olds d.1))

pub table_layers-append :
    (xs ys : List FileTable) → table_layers (xs ++ ys) ≡ table_layers xs ++ table_layers ys
unfolding table_layers
table_layers-append [] ys = refl
table_layers-append (x ∷ xs) ys = ap (◌∷◌ (table_entries x.1)) (table_layers-append xs ys)

pub map-layers :
    (xs : List FileTable) → map table_entries (map (λ (x : FileTable). x.1) xs) ≡ table_layers xs
unfolding table_layers
map-layers [] = refl
map-layers (x ∷ xs) = ap (◌∷◌ (table_entries x.1)) (map-layers xs)

pub all_made :
    (xs : List FileTable)
    → ValidTables xs
    → All WellMade (map table_entries (map (λ (x : FileTable). x.1) xs))
all_made [] v = tt
all_made (x ∷ xs) v = (v.0.made, all_made xs v.1)

visible-visible : (o : Option Entry) → visible (visible o) ≡ visible o
unfolding visible
visible-visible none = refl
visible-visible (some e) = elim (Bool-cases e.deleted) [
  | inl h ↦ ap visible (visible-dead e h) ∙ sym (visible-dead e h)
  | inr h ↦ ap visible (visible-alive e h)
]

pub visible-or_else : (a b : Option Entry) → visible (or_else a (visible b)) ≡ visible (or_else a b)
unfolding or_else
visible-or_else none b = visible-visible b
visible-or_else (some e) b = refl

pub Distinct-append :
    (xs : List FileTable) (x : FileTable)
    → Distinct xs
    → NotNumbered x.0 xs
    → Distinct (xs ++ (x ∷ []))
Distinct-append [] x d n = (tt, tt)
Distinct-append (y ∷ xs) x d n =
    (All-append _ xs (x ∷ []) d.0 ((λ q. n.0 (sym q)), tt), Distinct-append xs x d.1 n.1)

pub Distinct-left : (xs ys : List FileTable) → Distinct (xs ++ ys) → Distinct xs
Distinct-left [] ys d = tt
Distinct-left (x ∷ xs) ys d = (All-left _ xs ys d.0, Distinct-left xs ys d.1)
