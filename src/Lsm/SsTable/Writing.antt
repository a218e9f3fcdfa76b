-- ===== src/Lsm/SsTable/Writing.antt =====
-- What the writer of pkg/lsm/sstable.go has written.
use laura_db.Prelude.{
  ℕ, zero, suc, ◌%◌, ◌<◌, ◌≡◌, ◌≢◌, inl, inr, refl, ap, sym, ◌∙◌, true, false, List, [], ◌∷◌, ◌++◌,
  append_assoc, append-nil, length, length-append, All, All-imp, All-append, arith, ◌==◌,
  Bool-cases,
}
use laura_db.Lsm.Bloom.{
  contains, IsFilter, new_bloom_filter-IsFilter, add-IsFilter, contains-add_self,
  contains-add_other,
}
use laura_db.Lsm.SsTable.{
  Entry, IndexEntry, Writer, new_writer, encode_entry, first_key, write, write_all, offset_at,
}
use laura_db.Lsm.SsTable.Entries.{encode_all}

-- The key of the first entry, and of the last one
unfoldable pub head_key : List Entry → List ℕ
head_key [] = []
head_key (e ∷ es) = e.key

unfoldable pub last_key : List Entry → List ℕ
last_key [] = []
last_key (e ∷ []) = e.key
last_key (e ∷ f ∷ es) = last_key (f ∷ es)

-- The offset of an entry of the index is where its key starts.
pub record Points (es : List Entry) (i : IndexEntry) : Type 0 where
  pub before_it : List Entry
  pub entry : Entry
  pub behind_it : List Entry
  pub place : es ≡ before_it ++ (entry ∷ behind_it)
  pub offset : i.1 ≡ length (encode_all before_it)
  pub same_key : entry.key ≡ i.0

pub record Written (es : List Entry) (w : Writer) : Type 0 where
  pub file_is : w.file ≡ encode_all es
  pub offset_is : w.current_offset ≡ length (encode_all es)
  pub counted : w.num_entries ≡ length es
  pub min_is : w.min_key ≡ head_key es
  pub max_is : w.max_key ≡ last_key es
  pub points : All (Points es) w.index
  pub starts : offset_at 0 w.index ≡ 0
  pub indexed : w.index ≡ [] → es ≡ []
  pub filter_is : IsFilter w.bloom_filter
  pub contained : All (λ e. contains e.key w.bloom_filter ≡ true) es

pub encode_all-append :
    (es fs : List Entry) → encode_all (es ++ fs) ≡ encode_all es ++ encode_all fs
unfolding encode_all
encode_all-append [] fs = refl
encode_all-append (e ∷ es) fs =
    ap (λ b. encode_entry e ++ b) (encode_all-append es fs)
    ∙ sym (append_assoc (encode_entry e) (encode_all es) (encode_all fs))

encode_all-one : (e : Entry) → encode_all (e ∷ []) ≡ encode_entry e
unfolding encode_all
encode_all-one e = append-nil (encode_entry e)

last_key-append : (es : List Entry) (e : Entry) → last_key (es ++ (e ∷ [])) ≡ e.key
unfolding last_key
last_key-append [] e = refl
last_key-append (d ∷ []) e = refl
last_key-append (d ∷ f ∷ es) e = last_key-append (f ∷ es) e

first_key-kept : (a b : List ℕ) → a ≢ [] → first_key a b ≡ a
unfolding first_key
first_key-kept [] b h = absurd (h refl)
first_key-kept (x ∷ a) b h = refl

head_key-append :
    (es : List Entry) (e : Entry)
    → All (λ f. f.key ≢ []) es
    → first_key (head_key es) e.key ≡ head_key (es ++ (e ∷ []))
unfolding head_key first_key
head_key-append [] e h = refl
head_key-append (d ∷ es) e h = first_key-kept d.key e.key h.0

Points-append :
    (es : List Entry) (e : Entry) (i : IndexEntry) → Points es i → Points (es ++ (e ∷ [])) i
Points-append es e i p = record {
  before_it = p.before_it;
  entry = p.entry;
  behind_it = p.behind_it ++ (e ∷ []);
  place = rw p.place (append_assoc p.before_it (p.entry ∷ p.behind_it) (e ∷ []));
  offset = p.offset;
  same_key = p.same_key;
}

offset_at-append :
    (is : List IndexEntry) (i : IndexEntry)
    → offset_at 0 is ≡ 0
    → (is ≡ [] → i.1 ≡ 0)
    → offset_at 0 (is ++ (i ∷ [])) ≡ 0
unfolding offset_at
offset_at-append [] i h k = k refl
offset_at-append (j ∷ is) i h k = h

new_writer-Written : Written [] new_writer
unfolding new_writer encode_all head_key last_key offset_at
new_writer-Written = record {
  file_is = refl;
  offset_is = refl;
  counted = refl;
  min_is = refl;
  max_is = refl;
  points = tt;
  starts = refl;
  indexed = λ h. refl;
  filter_is = new_bloom_filter-IsFilter 10000 3 (omega arith);
  contained = tt;
}

not_empty : {A : Type 0} (xs : List A) (x : A) → xs ++ (x ∷ []) ≢ []
not_empty [] x h = cc
not_empty (y ∷ xs) x h = cc

mod_zero : (a n : ℕ) → 0 < n → a ≡ 0 → a % n == 0 ≡ true
mod_zero a zero h k = absurd (omega arith)
mod_zero a (suc n) h k = ground (arith, k)

-- The index after one more entry
record Indexed (es : List Entry) (index : List IndexEntry) : Type 0 where
  all_point : All (Points es) index
  first_zero : offset_at 0 index ≡ 0
  none_for_none : index ≡ [] → es ≡ []

index-Indexed :
    (n : ℕ) (e : Entry) (es : List Entry) (w : Writer)
    → 0 < n
    → Written es w
    → Indexed (es ++ (e ∷ [])) (write n e w).index
unfolding write encode_all
index-Indexed n e es w pos wr =
    let older = All-imp (λ i p. Points-append es e i p) w.index wr.points in
    elim (Bool-cases (w.num_entries % n == 0)) [
      | inl h ↦ rw h (record {
        all_point = All-append _ w.index ((e.key, w.current_offset) ∷ []) older (
          record {
            before_it = es;
            entry = e;
            behind_it = [];
            place = refl;
            offset = wr.offset_is;
            same_key = refl;
          },
          tt,
        );
        first_zero =
            offset_at-append w.index (e.key, w.current_offset) wr.starts
              (λ k. wr.offset_is ∙ rw (wr.indexed k) refl);
        none_for_none = λ k. absurd (not_empty w.index (e.key, w.current_offset) k);
      })
      | inr h ↦ rw h (record {
        all_point = older;
        first_zero = wr.starts;
        none_for_none = λ k. absurd (unindexed (wr.counted ∙ rw (wr.indexed k) refl) h);
      })
    ]
  where
    unindexed : w.num_entries ≡ 0 → ¬ (w.num_entries % n == 0 ≡ false)
    unindexed k h = ground (arith, mod_zero w.num_entries n pos k)

write-Written :
    (n : ℕ) (e : Entry) (es : List Entry) (w : Writer)
    → 0 < n
    → All (λ f. f.key ≢ []) es
    → Written es w
    → Written (es ++ (e ∷ [])) (write n e w)
unfolding write
write-Written n e es w pos keys wr =
    let all = encode_all-append es (e ∷ []) in
    let ix = index-Indexed n e es w pos wr in
    record {
      file_is = rw (wr.file_is, all, encode_all-one e) refl;
      offset_is =
          rw (wr.offset_is, all, encode_all-one e)
            (sym (length-append (encode_all es) (encode_entry e)));
      counted = omega (arith, wr.counted, length-append es (e ∷ []));
      min_is = rw wr.min_is (head_key-append es e keys);
      max_is = sym (last_key-append es e);
      points = ix.all_point;
      starts = ix.first_zero;
      indexed = ix.none_for_none;
      filter_is = add-IsFilter e.key w.bloom_filter wr.filter_is;
      contained =
          All-append _ es (e ∷ [])
            (All-imp (λ f h. contains-add_other f.key e.key w.bloom_filter h) es wr.contained)
            (contains-add_self e.key w.bloom_filter wr.filter_is, tt);
    }

write_all-from :
    (n : ℕ) (es before : List Entry) (w : Writer)
    → 0 < n
    → All (λ f. f.key ≢ []) before
    → All (λ f. f.key ≢ []) es
    → Written before w
    → Written (before ++ es) (write_all n es w)
unfolding write_all
write_all-from n [] before w pos b k wr = rw (append-nil before) wr
write_all-from n (e ∷ es) before w pos b k wr = rw (← append_assoc before (e ∷ []) es) (
    write_all-from n es (before ++ (e ∷ [])) (write n e w) pos
      (All-append _ before (e ∷ []) b (k.0, tt)) k.1 (write-Written n e before w pos b wr))

-- The writer has written the entries that it was given.
pub write_all-Written :
    (n : ℕ) (es : List Entry)
    → 0 < n
    → All (λ f. f.key ≢ []) es
    → Written es (write_all n es new_writer)
write_all-Written n es pos k = write_all-from n es [] new_writer pos tt k new_writer-Written
