-- ===== src/Lsm/Merge/Choice.antt =====
-- The loop of mergeSSTables of pkg/lsm/lsm.go that looks for the smallest entry.
use laura_db.Prelude.{
  ℕ, suc, ◌≡◌, ◌⊎◌, inl, inr, refl, sym, subst, Option, none, some, List, [], ◌∷◌, ◌++◌,
  append_assoc, append-nil, length, length-append, All, All-imp, All-append, arith,
}
use laura_db.Index.Key.{compare_bytes}
use laura_db.Index.Comparison.{◌≺◌, trans_below}
use laura_db.Lsm.SsTable.{Entry}
use laura_db.Lsm.SsTable.Entries.{key_order, Ascending}
use laura_db.Lsm.SsTable.Lookup.{Ordering-cases}
use laura_db.Lsm.Merge.{find_min, smaller}
use laura_db.Lsm.Merge.Least.{
  find_first, find_first-none, NoneBelow, not_below, Least, Best, keep-Least, new-Least,
}

-- Entries that are not below a greater key do not have the key.
pub find_first-below :
    (k key : List ℕ) (iters : List (List Entry))
    → k ≺ key
    → NoneBelow key iters
    → find_first k iters ≡ none
find_first-below k key iters h n =
    find_first-none k iters
      (All-imp (λ es p. All-imp (λ e q r. q (subst (λ j. j ≺ key) (sym r) h)) es p) iters n)

pub find_first-exhausted :
    (k : List ℕ) (iters : List (List Entry)) → All (λ es. es ≡ []) iters → find_first k iters ≡ none
find_first-exhausted k iters h = find_first-none k iters (All-imp (λ es p. rw p tt) iters h)

keep-Best :
    (pre : List (List Entry)) (i : ℕ) (m e : Entry) (es : List Entry)
    → All Ascending pre
    → Ascending (e ∷ es)
    → ¬ (e.key ≺ m.key)
    → Least pre i m
    → Least (pre ++ ((e ∷ es) ∷ [])) i m
keep-Best pre i m e es o a n l =
    keep-Least pre o i m (e ∷ es) a (n, not_below m.key e.key es n a.0) l

-- The least entry after one more table
smaller-Best :
    (pre : List (List Entry)) (best : Option (ℕ × Entry)) (e : Entry) (es : List Entry)
    → All Ascending pre
    → Ascending (e ∷ es)
    → Best pre best
    → Best (pre ++ ((e ∷ es) ∷ [])) (smaller (length pre) e best)
unfolding smaller key_order
smaller-Best pre none e es o a b =
    new-Least pre o e es a (λ k n. find_first-exhausted k pre b) (All-imp (λ fs p. rw p tt) pre b)
smaller-Best pre (some (i, m)) e es o a l = elim (Ordering-cases (compare_bytes e.key m.key)) [
  | inl c ↦
      let lower =
        All-imp (λ fs p. All-imp (λ f q r. q (key_order.cmp_trans f.key e.key m.key r c)) fs p) pre
          l.lowest in
      rw (c, smaller)
        (new-Least pre o e es a (λ k n. find_first-below k m.key pre (lower_still k n c) l.lowest)
          lower)
  | inr (inl c) ↦ rw (c, smaller) (keep-Best pre i m e es o a (λ q. cc) l)
  | inr (inr c) ↦ rw (c, smaller) (keep-Best pre i m e es o a (λ q. cc) l)
]
  where
    lower_still : (k : List ℕ) → ¬ (e.key ≺ k) → e.key ≺ m.key → k ≺ m.key
    lower_still k n c = trans_below k e.key m.key n c

empty-Best :
    (pre : List (List Entry)) (best : Option (ℕ × Entry))
    → All Ascending pre
    → Best pre best
    → Best (pre ++ ([] ∷ [])) best
empty-Best pre none o b = All-append _ pre ([] ∷ []) b (refl, tt)
empty-Best pre (some (i, m)) o l = keep-Least pre o i m [] tt tt l

-- One table is passed.
pass_table :
    (pre : List (List Entry)) (es : List Entry) (iters : List (List Entry))
    (best : Option (ℕ × Entry))
    → Best ((pre ++ (es ∷ [])) ++ iters) (find_min (length (pre ++ (es ∷ []))) best iters)
    → Best (pre ++ (es ∷ iters)) (find_min (suc (length pre)) best iters)
pass_table pre es iters best b =
    let count : length (pre ++ (es ∷ [])) ≡ suc (length pre) =
      omega (arith, length-append pre (es ∷ [])) in
    subst (λ n. Best (pre ++ (es ∷ iters)) (find_min n best iters)) count
      (subst (λ xs. Best xs (find_min (length (pre ++ (es ∷ []))) best iters))
        (append_assoc pre (es ∷ []) iters) b)

find_min-from :
    (pre iters : List (List Entry)) (best : Option (ℕ × Entry))
    → All Ascending pre
    → All Ascending iters
    → Best pre best
    → Best (pre ++ iters) (find_min (length pre) best iters)
unfolding find_min
find_min-from pre [] best o a b = rw (append-nil pre) b
find_min-from pre ([] ∷ iters) best o a b = pass_table pre [] iters best (
    find_min-from (pre ++ ([] ∷ [])) iters best (All-append _ pre ([] ∷ []) o (tt, tt)) a.1
      (empty-Best pre best o b))
find_min-from pre ((e ∷ es) ∷ iters) best o a b =
    pass_table pre (e ∷ es) iters (smaller (length pre) e best) (
      find_min-from (pre ++ ((e ∷ es) ∷ [])) iters (smaller (length pre) e best)
        (All-append _ pre ((e ∷ es) ∷ []) o (a.0, tt)) a.1 (smaller-Best pre best e es o a.0 b))

-- What the loop finds is the least entry, or nothing where all iterators are at their end.
pub find_min-Best :
    (iters : List (List Entry)) → All Ascending iters → Best iters (find_min 0 none iters)
find_min-Best iters a = find_min-from [] iters none tt a tt

pub find_min-cases :
    (iters : List (List Entry))
    → All Ascending iters
    → ((find_min 0 none iters ≡ none) × All (λ es. es ≡ []) iters)
      ⊎ ((i : ℕ) × (m : Entry) × (find_min 0 none iters ≡ some (i, m)) × Least iters i m)
find_min-cases iters a = sort_out (find_min 0 none iters) refl (find_min-Best iters a)
  where
    sort_out :
        (best : Option (ℕ × Entry))
        → find_min 0 none iters ≡ best
        → Best iters best
        → ((find_min 0 none iters ≡ none) × All (λ es. es ≡ []) iters)
          ⊎ ((i : ℕ) × (m : Entry) × (find_min 0 none iters ≡ some (i, m)) × Least iters i m)
    sort_out none e b = inl (e, b)
    sort_out (some (i, m)) e b = inr (i, m, e, b)
