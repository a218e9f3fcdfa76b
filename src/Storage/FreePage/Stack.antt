-- ===== src/Storage/FreePage/Stack.antt =====
-- pkg/storage/free_page.go: a free list page is a stack of page identifiers.
use laura_db.Prelude.{
  ℕ, zero, suc, ◌+◌, ◌-◌, ◌*◌, ◌≤◌, ◌<◌, ◌≡◌, ◌⊎◌, inl, inr, refl, ap, ap₂, sym, ◌∙◌, List, [], ◌∷◌,
  ◌++◌, true, length, arith,
}
use laura_db.Storage.Bytes.{
  u32, put_u32, byte_range, length-put_u32, u32-put_u32, u32-put_u32_other,
}
use laura_db.Storage.Page.{Page}

abbrev pub next_of : Page → ℕ
next_of p = u32 0 p.bytes

abbrev pub count_of : Page → ℕ
count_of p = u32 4 p.bytes

pub record IsFreeList (p : Page) : Type 0 where
  pub kind : p.page_type ≡ 2
  pub size : length p.bytes ≡ 4080
  pub next_fits : next_of p < byte_range 4
  pub within : count_of p ≤ 1018

-- The `n` entries from the index `i` on.
unfoldable pub entries_from : ℕ → ℕ → List ℕ → List ℕ
entries_from zero i b = []
entries_from (suc n) i b = u32 (8 + i * 4) b ∷ entries_from n (suc i) b

abbrev pub entries : Page → List ℕ
entries p = entries_from (count_of p) 0 p.bytes

entries_from-snoc :
    (n i : ℕ) (b : List ℕ)
    → entries_from (suc n) i b ≡ entries_from n i b ++ (u32 (8 + (i + n) * 4) b ∷ [])
unfolding entries_from
entries_from-snoc zero i b = ground arith
entries_from-snoc (suc n) i b = ground (arith, entries_from-snoc n (suc i) b)

entries_from-last :
    (n : ℕ) (b : List ℕ) → entries_from (suc n) 0 b ≡ entries_from n 0 b ++ (u32 (8 + n * 4) b ∷ [])
entries_from-last n b = ground (arith, entries_from-snoc n 0 b)

entries_from-put_u32 :
    (n i off v : ℕ) (b : List ℕ)
    → (off + 4 ≤ 8 + i * 4) ⊎ (8 + (i + n) * 4 ≤ off)
    → entries_from n i (put_u32 off v b) ≡ entries_from n i b
unfolding entries_from
entries_from-put_u32 zero i off v b h = refl
entries_from-put_u32 (suc n) i off v b h =
    ap₂ ◌∷◌ (u32-put_u32_other off (8 + i * 4) v b (ground arith))
      (entries_from-put_u32 n (suc i) off v b (ground arith))

abbrev pub with_header : ℕ → ℕ → List ℕ → List ℕ
with_header next count b = put_u32 4 count (put_u32 0 next b)

pub count-with_header :
    (next count : ℕ) (b : List ℕ)
    → count < byte_range 4
    → length b ≡ 4080
    → u32 4 (with_header next count b) ≡ count
count-with_header next count b h e =
    u32-put_u32 4 count _ h (omega (arith, length-put_u32 0 next b))

pub next-with_header :
    (next count : ℕ) (b : List ℕ)
    → next < byte_range 4
    → length b ≡ 4080
    → u32 0 (with_header next count b) ≡ next
next-with_header next count b h e =
    u32-put_u32_other 4 0 count (put_u32 0 next b) (inl (omega arith))
    ∙ u32-put_u32 0 next b h (omega arith)

entries-with_header :
    (n next count : ℕ) (b : List ℕ)
    → entries_from n 0 (with_header next count b) ≡ entries_from n 0 b
entries-with_header n next count b =
    entries_from-put_u32 n 0 4 count (put_u32 0 next b) (inl (omega arith))
    ∙ entries_from-put_u32 n 0 0 next b (inl (omega arith))

pub length-with_header :
    (next count : ℕ) (b : List ℕ) → length (with_header next count b) ≡ length b
length-with_header next count b = length-put_u32 4 count _ ∙ length-put_u32 0 next b

-- A page after an identifier has been added, and after the last one has been removed.
abbrev pub pushed : Page → ℕ → Page
pushed p id = record p {
  bytes = with_header (next_of p) (count_of p + 1) (put_u32 (8 + count_of p * 4) id p.bytes);
  is_dirty = true;
}

abbrev pub popped : Page → Page
popped p = record p { bytes = with_header (next_of p) (count_of p - 1) p.bytes; is_dirty = true }

pub entries-pushed :
    (p : Page) (id : ℕ)
    → IsFreeList p
    → count_of p < 1018
    → id < byte_range 4
    → (entries (pushed p id) ≡ entries p ++ (id ∷ []))
      × (next_of (pushed p id) ≡ next_of p)
      × (count_of (pushed p id) ≡ count_of p + 1)
      × IsFreeList (pushed p id)
entries-pushed p id v h k =
    let b : List ℕ = put_u32 (8 + count_of p * 4) id p.bytes in
    let size : length b ≡ 4080 = length-put_u32 _ id p.bytes ∙ v.size in
    let count : count_of (pushed p id) ≡ suc (count_of p) =
      count-with_header (next_of p) (count_of p + 1) b (omega arith) size ∙ omega arith in
    let next : next_of (pushed p id) ≡ next_of p =
      next-with_header (next_of p) (count_of p + 1) b v.next_fits size in
    (
      ap (λ n. entries_from n 0 (pushed p id).bytes) count
          ∙ entries-with_header (suc (count_of p)) (next_of p) (count_of p + 1) b
          ∙ entries_from-last (count_of p) b
          ∙ ap₂ (λ xs x. xs ++ (x ∷ []))
              (entries_from-put_u32 (count_of p) 0 _ id p.bytes (inr (omega arith)))
              (u32-put_u32 _ id p.bytes k (omega (arith, v.size))),
      next,
      omega (arith, count),
      record {
        kind = v.kind;
        size = length-with_header _ _ b ∙ size;
        next_fits = omega (arith, next, v.next_fits);
        within = omega (arith, count);
      },
    )

pub entries-popped :
    (p : Page)
    → IsFreeList p
    → 0 < count_of p
    → (entries p ≡ entries (popped p) ++ (u32 (8 + (count_of p - 1) * 4) p.bytes ∷ []))
      × (next_of (popped p) ≡ next_of p)
      × (count_of (popped p) ≡ count_of p - 1)
      × IsFreeList (popped p)
entries-popped p v h =
    let count : count_of (popped p) ≡ count_of p - 1 =
      count-with_header (next_of p) (count_of p - 1) p.bytes (omega (arith, v.within)) v.size in
    let next : next_of (popped p) ≡ next_of p =
      next-with_header (next_of p) (count_of p - 1) p.bytes v.next_fits v.size in
    let above : count_of p ≡ suc (count_of p - 1) = omega arith in
    (
      ap (λ n. entries_from n 0 p.bytes) above
          ∙ entries_from-last (count_of p - 1) p.bytes
          ∙ ap (λ xs. xs ++ (u32 (8 + (count_of p - 1) * 4) p.bytes ∷ []))
              (sym (
                ap (λ n. entries_from n 0 (popped p).bytes) count
                ∙ entries-with_header (count_of p - 1) (next_of p) (count_of p - 1) p.bytes)),
      next,
      count,
      record {
        kind = v.kind;
        size = length-with_header _ _ p.bytes ∙ v.size;
        next_fits = omega (arith, next, v.next_fits);
        within = omega (arith, count, v.within);
      },
    )
