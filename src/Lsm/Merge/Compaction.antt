-- ===== src/Lsm/Merge/Compaction.antt =====
-- mergeSSTables of pkg/lsm/lsm.go against the entries of the tables.
use laura_db.Prelude.{
  ℕ, zero, suc, ◌<◌, ◌≡◌, ◌≢◌, ◌⊎◌, inl, inr, refl, ap, sym, subst, ◌∙◌, true, false, Option, none,
  some, List, [], ◌∷◌, All, All-imp, arith, Bool-cases, if◌then◌else◌,
}
use laura_db.Index.Key.{compare_bytes}
use laura_db.Index.Comparison.{◌≺◌, irreflexive}
use laura_db.Lsm.SsTable.{Entry, Outcome, done, ◌>>=◌}
use laura_db.Lsm.SsTable.Entries.{key_order, Ascending, lookup}
use laura_db.Lsm.SsTable.Lookup.{
  Ordering-cases, differs, lookup-none, lookup-here, lookup-past, lookup-behind,
}
use laura_db.Lsm.Merge.{find_min, advance, is_new, merge_from, merge_entries, count_entries}
use laura_db.Lsm.Merge.Least.{find_first, NoneBelow, Least}
use laura_db.Lsm.Merge.Choice.{find_first-below, find_first-exhausted, find_min-cases}

-- What a reader sees of an entry that was found
unfoldable pub visible : Option Entry → Option Entry
visible none = none
visible (some e) = if e.deleted then none else some e

pub visible-alive : (e : Entry) → e.deleted ≡ false → visible (some e) ≡ some e
unfolding visible
visible-alive e h = ap (λ b. if b then none else some e) h

pub visible-dead : (e : Entry) → e.deleted ≡ true → visible (some e) ≡ none
unfolding visible
visible-dead e h = ap (λ b. if b then none else some e) h

-- The keys that are still to come
abbrev Past : Option (List ℕ) → List ℕ → Type 0
Past none k = Unit
Past (some last_key) k = last_key ≺ k

abbrev NotBefore : Option (List ℕ) → List (List Entry) → Type 0
NotBefore none iters = Unit
NotBefore (some last_key) iters = NoneBelow last_key iters

record Continues (last_key : Option (List ℕ)) (iters : List (List Entry))
    (result : Outcome (List Entry)) : Type 0 where
  out : List Entry
  runs : result ≡ done out
  ascending : Ascending out
  later : All (λ e. Past last_key e.key) out
  finds : (k : List ℕ) → Past last_key k → lookup k out ≡ visible (find_first k iters)

Past-trans : (last_key : Option (List ℕ)) (a b : List ℕ) → Past last_key a → a ≺ b → Past last_key b
Past-trans none a b h k = tt
Past-trans (some l) a b h k = key_order.cmp_trans l a b h k

fresh-cases :
    (last_key : Option (List ℕ)) (key : List ℕ) (iters : List (List Entry))
    → NotBefore last_key iters
    → find_first key iters ≢ none
    → ((is_new last_key key ≡ true) × Past last_key key)
      ⊎ ((is_new last_key key ≡ false) × (last_key ≡ some key))
unfolding is_new key_order
fresh-cases none key iters n f = inl (refl, tt)
fresh-cases (some l) key iters n f = elim (Ordering-cases (compare_bytes key l)) [
  | inl c ↦ absurd (f (find_first-below key l iters c n))
  | inr (inl c) ↦ inr (rw (c, is_new) refl, ap some (sym (key_order.same_of_cmp key l c)))
  | inr (inr c) ↦ inl (rw (c, is_new) refl, key_order.cmp_flip key l ∙ rw c refl)
]

module _ (last_key : Option (List ℕ)) (iters : List (List Entry)) (i : ℕ) (m : Entry)
    (least : Least iters i m) (past : Past last_key m.key) where
  -- An entry that is written
  write-Continues :
      (result : Outcome (List Entry))
      → m.deleted ≡ false
      → Continues (some m.key) (advance i iters) result
      → Continues last_key iters (result >>= λ out. done (m ∷ out))
  unfolding ◌>>=◌ visible key_order
  write-Continues result alive c = record {
    out = m ∷ c.out;
    runs = rw c.runs refl;
    ascending = (c.later, c.ascending);
    later = (past, All-imp (λ e p. Past-trans last_key m.key e.key past p) c.out c.later);
    finds = λ k p. elim (Ordering-cases (compare_bytes m.key k)) [
      | inl h ↦
          lookup-behind k m c.out h
          ∙ c.finds k h
          ∙ ap visible (least.others k (λ q. irreflexive m.key (subst (λ j. m.key ≺ j) q h)))
      | inr (inl h) ↦
          let found : find_first k iters ≡ some m =
            subst (λ j. find_first j iters ≡ some m) (key_order.same_of_cmp m.key k h)
              least.found in
          lookup-here k m c.out h ∙ sym (ap visible found ∙ visible-alive m alive)
      | inr (inr h) ↦
          let less : k ≺ m.key = key_order.cmp_flip m.key k ∙ rw h refl in
          lookup-past k m c.out less (c.later, c.ascending)
          ∙ rw (find_first-below k m.key iters less least.lowest) refl
    ];
  }

  -- A tombstone that is left out
  skip-Continues :
      (result : Outcome (List Entry))
      → m.deleted ≡ true
      → Continues (some m.key) (advance i iters) result
      → Continues last_key iters result
  unfolding visible key_order
  skip-Continues result dead c = record {
    out = c.out;
    runs = c.runs;
    ascending = c.ascending;
    later = All-imp (λ e p. Past-trans last_key m.key e.key past p) c.out c.later;
    finds = λ k p. elim (Ordering-cases (compare_bytes m.key k)) [
      | inl h ↦
          c.finds k h
          ∙ ap visible (least.others k (λ q. irreflexive m.key (subst (λ j. m.key ≺ j) q h)))
      | inr (inl h) ↦
          let same = key_order.same_of_cmp m.key k h in
          let found : find_first k iters ≡ some m =
            subst (λ j. find_first j iters ≡ some m) same least.found in
          lookup-none k c.out
            (All-imp (λ e q. differs e (subst (λ j. j ≺ e.key) same q)) c.out c.later)
          ∙ sym (ap visible found ∙ visible-dead m dead)
      | inr (inr h) ↦
          let less : k ≺ m.key = key_order.cmp_flip m.key k ∙ rw h refl in
          lookup-none k c.out
            (All-imp (λ e q. differs e (key_order.cmp_trans k m.key e.key less q)) c.out c.later)
          ∙ rw (find_first-below k m.key iters less least.lowest) refl
    ];
  }

-- An entry with the key of the one before
repeat-Continues :
    (iters : List (List Entry)) (i : ℕ) (m : Entry) (result : Outcome (List Entry))
    → Least iters i m
    → Continues (some m.key) (advance i iters) result
    → Continues (some m.key) iters result
repeat-Continues iters i m result least c = record {
  out = c.out;
  runs = c.runs;
  ascending = c.ascending;
  later = c.later;
  finds = λ k p.
      c.finds k p
      ∙ ap visible (least.others k (λ q. irreflexive m.key (subst (λ j. m.key ≺ j) q p)));
}

-- One round of the loop, where the rest does what it should
round-Continues :
    (fuel : ℕ) (last_key : Option (List ℕ)) (iters : List (List Entry)) (i : ℕ) (m : Entry)
    → NotBefore last_key iters
    → find_min 0 none iters ≡ some (i, m)
    → Least iters i m
    → Continues (some m.key) (advance i iters) (merge_from fuel (some m.key) (advance i iters))
    → Continues last_key iters (merge_from (suc fuel) last_key iters)
unfolding merge_from
round-Continues fuel last_key iters i m n e least c =
    let rest = merge_from fuel (some m.key) (advance i iters) in
    elim (fresh-cases last_key m.key iters n (λ h. some_none (sym least.found ∙ h))) [
      | inr (old, same) ↦ rw (merge_from, e, old, same) (repeat-Continues iters i m _ least c)
      | inl (fresh, past) ↦ elim (Bool-cases m.deleted) [
        | inl dead ↦
            rw (merge_from, e, fresh, dead) (skip-Continues last_key iters i m least past _ dead c)
        | inr alive ↦
            rw (merge_from, e, fresh)
              (subst
                (λ b. Continues last_key iters (if b then rest else rest >>= λ out. done (m ∷ out)))
                (sym alive) (write-Continues last_key iters i m least past rest alive c))
      ]
    ]
  where
    some_none : {a : Entry} → ¬ (some a ≡ none)
    some_none h = cc

merge_from-Continues :
    (fuel : ℕ) (last_key : Option (List ℕ)) (iters : List (List Entry))
    → count_entries iters < fuel
    → All Ascending iters
    → NotBefore last_key iters
    → Continues last_key iters (merge_from fuel last_key iters)
unfolding merge_from visible lookup
merge_from-Continues zero last_key iters f a n = absurd (omega arith)
merge_from-Continues (suc fuel) last_key iters f a n = elim (find_min-cases iters a) [
  | inl (e, b) ↦
      rw (merge_from, e)
        (record {
          out = [];
          runs = refl;
          ascending = tt;
          later = tt;
          finds = λ k p. rw (find_first-exhausted k iters b) refl;
        })
  | inr (i, m, e, least) ↦ round-Continues fuel last_key iters i m n e least (
      merge_from-Continues fuel (some m.key) (advance i iters) (omega (arith, least.fewer, f))
        least.ordered least.still_lowest)
]

-- What the merge of tables gives
pub record Merged (iters : List (List Entry)) : Type 0 where
  pub out : List Entry
  pub runs : merge_entries iters ≡ done out
  pub ascending : Ascending out
  pub finds : (k : List ℕ) → lookup k out ≡ visible (find_first k iters)

-- The merge of tables, each in ascending order, ends; its entries are in ascending order, and a
-- search of them for any key finds the entry that the first of the tables with the key has, or
-- nothing where that is a tombstone or no table has the key.
pub merge_entries-Merged : (iters : List (List Entry)) → All Ascending iters → Merged iters
unfolding merge_entries
merge_entries-Merged iters a =
    let c = merge_from-Continues (suc (count_entries iters)) none iters (omega arith) a tt in
    record { out = c.out; runs = c.runs; ascending = c.ascending; finds = λ k. c.finds k tt }
