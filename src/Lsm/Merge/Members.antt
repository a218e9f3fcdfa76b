-- ===== src/Lsm/Merge/Members.antt =====
-- The entries that mergeSSTables of pkg/lsm/lsm.go writes are entries of the tables.
use laura_db.Prelude.{
  ℕ, zero, suc, inl, inr, ap, sym, Bool, true, false, Option, none, some, List, [], ◌∷◌, All,
  Option-cases, if◌then◌else◌,
}
use laura_db.Index.Key.{compare_bytes}
use laura_db.Lsm.SsTable.{Entry, Outcome, done, failed, ◌>>=◌}
use laura_db.Lsm.SsTable.Lookup.{Ordering-cases}
use laura_db.Lsm.Merge.{find_min, smaller, advance, is_new, merge_from}

module _ (P : Entry → Type 0) where
  abbrev Chosen : Option (ℕ × Entry) → Type 0
  Chosen none = Unit
  Chosen (some (i, m)) = P m

  smaller-Chosen :
      (i : ℕ) (e : Entry) (best : Option (ℕ × Entry))
      → P e
      → Chosen best
      → Chosen (smaller i e best)
  unfolding smaller
  smaller-Chosen i e none p b = p
  smaller-Chosen i e (some (j, m)) p b = elim (Ordering-cases (compare_bytes e.key m.key)) [
    | inl c ↦ rw (smaller, c) p
    | inr (inl c) ↦ rw (smaller, c) b
    | inr (inr c) ↦ rw (smaller, c) b
  ]

  find_min-Chosen :
      (i : ℕ) (best : Option (ℕ × Entry)) (iters : List (List Entry))
      → Chosen best
      → All (All P) iters
      → Chosen (find_min i best iters)
  unfolding find_min
  find_min-Chosen i best [] b p = b
  find_min-Chosen i best ([] ∷ iters) b p = find_min-Chosen (suc i) best iters b p.1
  find_min-Chosen i best ((e ∷ es) ∷ iters) b p =
      find_min-Chosen (suc i) (smaller i e best) iters (smaller-Chosen i e best p.0.0 b) p.1

  advance-All :
      (i : ℕ) (iters : List (List Entry)) → All (All P) iters → All (All P) (advance i iters)
  unfolding advance
  advance-All i [] p = tt
  advance-All zero ([] ∷ iters) p = p
  advance-All zero ((e ∷ es) ∷ iters) p = (p.0.1, p.1)
  advance-All (suc i) (it ∷ iters) p = (p.0, advance-All i iters p.1)

  abbrev pub AllDone : Outcome (List Entry) → Type 0
  AllDone (done out) = All P out
  AllDone (failed error) = Unit

  written-AllDone :
      (fresh dead : Bool) (m : Entry) (rest : Outcome (List Entry))
      → P m
      → AllDone rest
      → AllDone (if fresh then (if dead then rest else rest >>= λ out. done (m ∷ out)) else rest)
  unfolding ◌>>=◌
  written-AllDone true true m rest p h = h
  written-AllDone true false m (done out) p h = (p, h)
  written-AllDone true false m (failed error) p h = tt
  written-AllDone false dead m rest p h = h

  -- Every entry that the merge gives comes from the tables.
  pub merge_from-AllDone :
      (fuel : ℕ) (last_key : Option (List ℕ)) (iters : List (List Entry))
      → All (All P) iters
      → AllDone (merge_from fuel last_key iters)
  unfolding merge_from
  merge_from-AllDone zero last_key iters p = tt
  merge_from-AllDone (suc fuel) last_key iters p = elim (Option-cases (find_min 0 none iters)) [
    | inl e ↦ rw (merge_from, e) tt
    | inr ((i, m), e) ↦
        let chosen : P m = rw (sym (ap Chosen e)) (find_min-Chosen 0 none iters tt p) in
        rw (merge_from, e)
          (written-AllDone (is_new last_key m.key) m.deleted m
            (merge_from fuel (some m.key) (advance i iters)) chosen
            (merge_from-AllDone fuel (some m.key) (advance i iters) (advance-All i iters p)))
  ]
