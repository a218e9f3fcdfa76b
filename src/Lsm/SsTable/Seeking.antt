-- ===== src/Lsm/SsTable/Seeking.antt =====
-- The place in the file from which Get of pkg/lsm/sstable.go scans.
use Prim.Native.Nat.{Ordering}
use Prim.Native.Nat.Ordering.{lt, eq, gt}
use laura_db.Prelude.{
  ℕ, suc, ◌-◌, ◌≡◌, ◌≢◌, ◌⊎◌, inl, inr, refl, ap, subst, ◌∙◌, List, [], ◌∷◌, ◌++◌, append_assoc,
  length, length-append, drop, All, All-imp, All-right, arith,
}
use laura_db.Index.Key.{compare_bytes}
use laura_db.Index.Comparison.{◌≺◌}
use laura_db.Lsm.SsTable.{
  Entry, IndexEntry, done, Writer, finalize, search_index, offset_at, seek_and_scan,
}
use laura_db.Lsm.SsTable.Entries.{key_order, Fits, encode_all, Ascending, lookup}
use laura_db.Lsm.SsTable.Lookup.{Ordering-cases, scan-lookup}
use laura_db.Lsm.SsTable.Writing.{Points, Written, encode_all-append}

-- A place in the file where an entry starts or the entries end, and before which the key is not
record Start (key : List ℕ) (es : List Entry) (offset : ℕ) : Type 0 where
  skipped : List Entry
  left : List Entry
  parts : es ≡ skipped ++ left
  offset_is : offset ≡ length (encode_all skipped)
  without_key : All (λ e. e.key ≢ key) skipped

zero-Start : (key : List ℕ) (es : List Entry) (offset : ℕ) → offset ≡ 0 → Start key es offset
unfolding encode_all
zero-Start key es offset h = record {
  skipped = [];
  left = es;
  parts = refl;
  offset_is = h;
  without_key = tt;
}

earlier_below :
    (es : List Entry) (e : Entry) (fs : List Entry)
    → Ascending (es ++ (e ∷ fs))
    → All (λ d. d.key ≺ e.key) es
earlier_below [] e fs a = tt
earlier_below (d ∷ es) e fs a = ((All-right _ es (e ∷ fs) a.0).0, earlier_below es e fs a.1)

Ascending-right : (es fs : List Entry) → Ascending (es ++ fs) → Ascending fs
Ascending-right [] fs a = a
Ascending-right (e ∷ es) fs a = Ascending-right es fs a.1

point-Start :
    (key : List ℕ) (es : List Entry) (i : IndexEntry)
    → Ascending es
    → Points es i
    → compare_bytes i.0 key ≢ gt
    → Start key es i.1
unfolding key_order
point-Start key es i a p h =
    let below = earlier_below p.before_it p.entry p.behind_it (subst Ascending p.place a) in
    record {
      skipped = p.before_it;
      left = p.entry ∷ p.behind_it;
      parts = p.place;
      offset_is = p.offset;
      without_key = All-imp (λ d q. apart d q) p.before_it below;
    }
  where
    reached : ¬ (key ≺ p.entry.key)
    reached q = h (key_order.cmp_flip key i.0 ∙ rw (← p.same_key, q) refl)

    apart : (d : Entry) → d.key ≺ p.entry.key → d.key ≢ key
    apart d q r = reached (subst (λ k. k ≺ p.entry.key) r q)

gt-cases : (c : Ordering) → (c ≡ gt) ⊎ (c ≢ gt)
gt-cases lt = inr (λ h. cc)
gt-cases eq = inr (λ h. cc)
gt-cases gt = inl refl

search_none : (key : List ℕ) → search_index key [] ≡ 0
unfolding search_index
search_none key = refl

drop-parts : {A : Type 0} (xs ys : List A) → drop (length xs) (xs ++ ys) ≡ ys
drop-parts [] ys = refl
drop-parts (x ∷ xs) ys = drop-parts xs ys

pub lookup-other :
    (key : List ℕ) (e : Entry) (es : List Entry) → e.key ≢ key → lookup key (e ∷ es) ≡ lookup key es
unfolding lookup key_order
lookup-other key e es h = elim (Ordering-cases (compare_bytes e.key key)) [
  | inl c ↦ rw (c, lookup) refl
  | inr (inl c) ↦ absurd (h (key_order.same_of_cmp e.key key c))
  | inr (inr c) ↦ rw (c, lookup) refl
]

-- An index entry with a key up to the one sought is passed.
search-next :
    (key : List ℕ) (i : IndexEntry) (index : List IndexEntry)
    → compare_bytes i.0 key ≢ gt
    → search_index key (i ∷ index) ≡ suc (search_index key index)
unfolding search_index
search-next key i index h = elim (Ordering-cases (compare_bytes i.0 key)) [
  | inl c ↦ rw (search_index, c) refl
  | inr (inl c) ↦ rw (search_index, c) refl
  | inr (inr c) ↦ absurd (h c)
]

search-stop :
    (key : List ℕ) (i : IndexEntry) (index : List IndexEntry)
    → compare_bytes i.0 key ≡ gt
    → search_index key (i ∷ index) ≡ 0
unfolding search_index
search-stop key i index h = rw (search_index, h) refl

later-Start :
    (key : List ℕ) (es : List Entry) (i : IndexEntry) (index : List IndexEntry)
    → Ascending es
    → compare_bytes i.0 key ≢ gt
    → All (Points es) (i ∷ index)
    → Start key es (offset_at (search_index key index) (i ∷ index))
unfolding offset_at
later-Start key es i [] a h p = rw (search_none key) (point-Start key es i a p.0 h)
later-Start key es i (j ∷ index) a h p = elim (gt-cases (compare_bytes j.0 key)) [
  | inl c ↦ rw (search-stop key j index c) (point-Start key es i a p.0 h)
  | inr n ↦ rw (search-next key j index n) (later-Start key es j index a n p.1)
]

index-Start :
    (key : List ℕ) (es : List Entry) (index : List IndexEntry)
    → Ascending es
    → All (Points es) index
    → offset_at 0 index ≡ 0
    → Start key es (offset_at (search_index key index - 1) index)
index-Start key es [] a p z = zero-Start key es _ (rw (search_none key) z)
index-Start key es (i ∷ index) a p z = elim (gt-cases (compare_bytes i.0 key)) [
  | inl c ↦ rw (search-stop key i index c) (zero-Start key es _ z)
  | inr n ↦
      let pred : suc (search_index key index) - 1 ≡ search_index key index = omega arith in
      rw (search-next key i index n, pred) (later-Start key es i index a n p)
]

lookup-skip :
    (key : List ℕ) (es fs : List Entry)
    → All (λ e. e.key ≢ key) es
    → lookup key (es ++ fs) ≡ lookup key fs
unfolding lookup
lookup-skip key [] fs h = refl
lookup-skip key (e ∷ es) fs h = lookup-other key e (es ++ fs) h.0 ∙ lookup-skip key es fs h.1

-- What the seek and the scan find in a table of the entries
pub seek_and_scan-lookup :
    (key footer : List ℕ) (es : List Entry) (w : Writer)
    → Ascending es
    → All Fits es
    → Written es w
    → seek_and_scan key (finalize footer w) ≡ done (lookup key es)
unfolding seek_and_scan finalize
seek_and_scan-lookup key footer es w a f wr =
    let s = index-Start key es w.index a wr.points wr.starts in
    let split : encode_all es ≡ encode_all s.skipped ++ encode_all s.left =
      ap encode_all s.parts ∙ encode_all-append s.skipped s.left in
    let size = ap length split ∙ length-append (encode_all s.skipped) (encode_all s.left) in
    let file : w.file ++ footer ≡ encode_all s.skipped ++ (encode_all s.left ++ footer) =
      rw (wr.file_is, split) (append_assoc (encode_all s.skipped) (encode_all s.left) footer) in
    let same : lookup key es ≡ lookup key s.left =
      ap (lookup key) s.parts ∙ lookup-skip key s.skipped s.left s.without_key in
    let room = ap length file ∙ length-append (encode_all s.skipped) _ in
    rw (same, s.offset_is, file, drop-parts (encode_all s.skipped) (encode_all s.left ++ footer))
      (scan-lookup _ key w.current_offset (length (encode_all s.skipped)) s.left footer
        (Ascending-right s.skipped s.left (subst Ascending s.parts a))
        (All-right Fits s.skipped s.left (subst (All Fits) s.parts f))
        (omega (arith, wr.offset_is, size))
        (omega (
          arith,
          length-append (encode_all s.skipped) (encode_all s.left ++ footer),
          length-append (encode_all s.left) footer,
        )))
