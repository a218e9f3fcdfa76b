-- ===== src/Lsm/Merge/Least.antt =====
-- What the search for the smallest entry in mergeSSTables of pkg/lsm/lsm.go finds.
use laura_db.Prelude.{
  ℕ, zero, suc, ◌+◌, ◌<◌, ◌≡◌, ◌≢◌, refl, ap, sym, ◌∙◌, Option, none, some, List, [], ◌∷◌, ◌++◌,
  length, length-append, All, All-imp, All-append, arith,
}
use laura_db.Index.Comparison.{◌≺◌, irreflexive}
use laura_db.Lsm.SsTable.{Entry}
use laura_db.Lsm.SsTable.Entries.{key_order, Ascending, lookup}
use laura_db.Lsm.SsTable.Lookup.{lookup-none, lookup-here}
use laura_db.Lsm.SsTable.Seeking.{lookup-other}
use laura_db.Lsm.Merge.{advance, count_entries}

unfoldable pub or_else : Option Entry → Option Entry → Option Entry
or_else none f = f
or_else (some e) f = some e

-- The entry of the first table that has the key
unfoldable pub find_first : List ℕ → List (List Entry) → Option Entry
find_first key [] = none
find_first key (es ∷ iters) = or_else (lookup key es) (find_first key iters)

abbrev pub NoneBelow : List ℕ → List (List Entry) → Type 0
NoneBelow key iters = All (All (λ e. ¬ (e.key ≺ key))) iters

-- The next entry of the merge: the one of the first table among the smallest
pub record Least (iters : List (List Entry)) (i : ℕ) (m : Entry) : Type 0 where
  pub within : i < length iters
  pub found : find_first m.key iters ≡ some m
  pub others : (k : List ℕ) → k ≢ m.key → find_first k (advance i iters) ≡ find_first k iters
  pub lowest : NoneBelow m.key iters
  pub still_lowest : NoneBelow m.key (advance i iters)
  pub ordered : All Ascending (advance i iters)
  pub fewer : suc (count_entries (advance i iters)) ≡ count_entries iters

-- The tables without entries have no smallest one.
abbrev pub Best : List (List Entry) → Option (ℕ × Entry) → Type 0
Best iters none = All (λ es. es ≡ []) iters
Best iters (some (i, m)) = Least iters i m

pub or_else_assoc : (a b c : Option Entry) → or_else (or_else a b) c ≡ or_else a (or_else b c)
unfolding or_else
or_else_assoc none b c = refl
or_else_assoc (some e) b c = refl

pub find_first-append :
    (k : List ℕ) (xs ys : List (List Entry))
    → find_first k (xs ++ ys) ≡ or_else (find_first k xs) (find_first k ys)
unfolding find_first or_else
find_first-append k [] ys = refl
find_first-append k (es ∷ xs) ys =
    ap (or_else (lookup k es)) (find_first-append k xs ys)
    ∙ sym (or_else_assoc (lookup k es) (find_first k xs) (find_first k ys))

count_entries-append :
    (xs ys : List (List Entry)) → count_entries (xs ++ ys) ≡ count_entries xs + count_entries ys
unfolding count_entries
count_entries-append [] ys = omega arith
count_entries-append (es ∷ xs) ys = omega (arith, count_entries-append xs ys)

advance-left :
    (i : ℕ) (xs ys : List (List Entry)) → i < length xs → advance i (xs ++ ys) ≡ advance i xs ++ ys
unfolding advance
advance-left i [] ys h = absurd (omega arith)
advance-left zero ([] ∷ xs) ys h = refl
advance-left zero ((e ∷ es) ∷ xs) ys h = refl
advance-left (suc i) (it ∷ xs) ys h = ap (◌∷◌ it) (advance-left i xs ys (omega arith))

advance-here :
    (e : Entry) (es : List Entry) (xs ys : List (List Entry))
    → advance (length xs) (xs ++ ((e ∷ es) ∷ ys)) ≡ xs ++ (es ∷ ys)
unfolding advance
advance-here e es [] ys = refl
advance-here e es (it ∷ xs) ys = ap (◌∷◌ it) (advance-here e es xs ys)

pub find_first-none :
    (k : List ℕ) (iters : List (List Entry))
    → All (All (λ e. e.key ≢ k)) iters
    → find_first k iters ≡ none
unfolding find_first or_else
find_first-none k [] h = refl
find_first-none k (es ∷ iters) h = rw (lookup-none k es h.0) (find_first-none k iters h.1)

pub not_below :
    (k a : List ℕ) (es : List Entry)
    → ¬ (a ≺ k)
    → All (λ e. a ≺ e.key) es
    → All (λ e. ¬ (e.key ≺ k)) es
not_below k a es n h = All-imp (λ e p q. n (key_order.cmp_trans a e.key k p q)) es h

module _ (pre : List (List Entry)) (ordered : All Ascending pre) where
  pub keep-Least :
      (i : ℕ) (m : Entry) (es : List Entry)
      → Ascending es
      → All (λ e. ¬ (e.key ≺ m.key)) es
      → Least pre i m
      → Least (pre ++ (es ∷ [])) i m
  unfolding count_entries or_else
  keep-Least i m es a n l =
      let moved = advance-left i pre (es ∷ []) l.within in
      record {
        within = omega (arith, l.within, length-append pre (es ∷ []));
        found = find_first-append m.key pre (es ∷ []) ∙ rw l.found refl;
        others = λ k h.
            rw (moved, find_first-append k (advance i pre) (es ∷ []), l.others k h)
              (sym (find_first-append k pre (es ∷ [])));
        lowest = All-append _ pre (es ∷ []) l.lowest (n, tt);
        still_lowest = rw moved (All-append _ (advance i pre) (es ∷ []) l.still_lowest (n, tt));
        ordered = rw moved (All-append _ (advance i pre) (es ∷ []) l.ordered (a, tt));
        fewer = rw moved (
            omega (
              arith,
              l.fewer,
              count_entries-append (advance i pre) (es ∷ []),
              count_entries-append pre (es ∷ []),
            ));
      }

  pub new-Least :
      (e : Entry) (es : List Entry)
      → Ascending (e ∷ es)
      → ((k : List ℕ) → ¬ (e.key ≺ k) → find_first k pre ≡ none)
      → NoneBelow e.key pre
      → Least (pre ++ ((e ∷ es) ∷ [])) (length pre) e
  unfolding count_entries or_else find_first key_order
  new-Least e es a none_here low =
      let moved = advance-here e es pre [] in
      let above = not_below e.key e.key es (irreflexive e.key) a.0 in
      record {
        within = omega (arith, length-append pre ((e ∷ es) ∷ []));
        found =
            find_first-append e.key pre ((e ∷ es) ∷ [])
            ∙ rw
                (
                  none_here e.key (irreflexive e.key),
                  lookup-here e.key e es (key_order.cmp_self e.key),
                )
                refl;
        others = λ k h.
            rw
              (
                moved,
                find_first-append k pre (es ∷ []),
                find_first-append k pre ((e ∷ es) ∷ []),
                lookup-other k e es (λ q. h (sym q)),
              )
              refl;
        lowest = All-append _ pre _ low ((irreflexive e.key, above), tt);
        still_lowest = rw moved (All-append _ pre (es ∷ []) low (above, tt));
        ordered = rw moved (All-append _ pre (es ∷ []) ordered (a.1, tt));
        fewer = rw moved (
            omega (
              arith,
              count_entries-append pre (es ∷ []),
              count_entries-append pre ((e ∷ es) ∷ []),
            ));
      }
