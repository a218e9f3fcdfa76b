-- ===== src/Lsm/SsTable/Reads.antt =====
-- Get of pkg/lsm/sstable.go against the entries that were written.
use Prim.Native.Nat.Ordering.{lt, eq, gt}
use laura_db.Prelude.{
  ℕ, ◌<◌, ◌≡◌, ◌≢◌, inl, inr, refl, ap, sym, subst, ◌∙◌, false, none, List, [], ◌∷◌, All, All-imp,
  Bool-cases,
}
use laura_db.Index.Key.{compare_bytes}
use laura_db.Index.Comparison.{◌≺◌, irreflexive}
use laura_db.Lsm.Bloom.{contains}
use laura_db.Lsm.SsTable.{Entry, done, Writer, new_writer, write_all, finalize, seek_and_scan, get}
use laura_db.Lsm.SsTable.Entries.{key_order, Fits, Ascending, lookup}
use laura_db.Lsm.SsTable.Lookup.{Ordering-cases, lookup-none, lookup-past}
use laura_db.Lsm.SsTable.Seeking.{seek_and_scan-lookup}
use laura_db.Lsm.SsTable.Writing.{head_key, last_key, Written, write_all-Written}

below_head :
    (key : List ℕ) (es : List Entry) → Ascending es → key ≺ head_key es → lookup key es ≡ none
unfolding head_key lookup
below_head key [] a h = refl
below_head key (e ∷ es) a h = lookup-past key e es h a

up_to_last : (es : List Entry) → Ascending es → All (λ e. ¬ (last_key es ≺ e.key)) es
unfolding last_key
up_to_last [] a = tt
up_to_last (e ∷ []) a = (irreflexive e.key, tt)
up_to_last (e ∷ f ∷ es) a =
    let rest = up_to_last (f ∷ es) a.1 in
    (λ h. rest.0 (key_order.cmp_trans _ e.key f.key h a.0.0), rest)

above_last :
    (key : List ℕ) (es : List Entry) → Ascending es → last_key es ≺ key → lookup key es ≡ none
above_last key es a h =
    lookup-none key es
      (All-imp (λ e n q. n (subst (λ k. last_key es ≺ k) (sym q) h)) es (up_to_last es a))

-- A filter that does not contain the key proves that no entry has it.
not_contained :
    (key : List ℕ) (es : List Entry) (w : Writer)
    → Written es w
    → contains key w.bloom_filter ≡ false
    → lookup key es ≡ none
not_contained key es w wr h = lookup-none key es (All-imp (λ e c q. cc) es wr.contained)

within_range :
    (key footer : List ℕ) (es : List Entry) (w : Writer)
    → Ascending es
    → All Fits es
    → Written es w
    → elim (compare_bytes key w.max_key) [
      | gt ↦ done none
      | lt ↦ seek_and_scan key (finalize footer w)
      | eq ↦ seek_and_scan key (finalize footer w)
    ]
      ≡ done (lookup key es)
unfolding key_order
within_range key footer es w a f wr =
    let found = seek_and_scan-lookup key footer es w a f wr in
    elim (Ordering-cases (compare_bytes key w.max_key)) [
      | inl c ↦ rw c found
      | inr (inl c) ↦ rw c found
      | inr (inr c) ↦
          let less : last_key es ≺ key =
            rw (← wr.max_is) (key_order.cmp_flip key w.max_key ∙ rw c refl) in
          rw c (ap done (sym (above_last key es a less)))
    ]

-- Get on the table that the writer makes of entries with ascending, non-empty keys that fit their
-- fields finds what a search through all the entries finds, whatever the interval of the index.
pub get-lookup :
    (key footer : List ℕ) (index_interval : ℕ) (es : List Entry)
    → 0 < index_interval
    → All (λ e. e.key ≢ []) es
    → Ascending es
    → All Fits es
    → get key (finalize footer (write_all index_interval es new_writer)) ≡ done (lookup key es)
unfolding get finalize key_order
get-lookup key footer n es pos keys a f =
    let w = write_all n es new_writer in
    let wr = write_all-Written n es pos keys in
    let found = within_range key footer es w a f wr in
    elim (Bool-cases (contains key w.bloom_filter)) [
      | inr h ↦ rw h (ap done (sym (not_contained key es w wr h)))
      | inl h ↦ elim (Ordering-cases (compare_bytes key w.min_key)) [
        | inl c ↦ rw (h, c) (ap done (sym (below_head key es a (rw (← wr.min_is) c))))
        | inr (inl c) ↦ rw (h, c) found
        | inr (inr c) ↦ rw (h, c) found
      ]
    ]
