-- ===== src/Storage/FreePage/Operations.antt =====
-- What the functions of pkg/storage/free_page.go do to a well-formed free list page.
use laura_db.Prelude.{
  ℕ, zero, suc, ◌+◌, ◌-◌, ◌*◌, ◌≤◌, ◌<◌, ◌≡◌, refl, ap, ap₂, sym, ◌∙◌, List, [], ◌∷◌, ◌++◌, true,
  false, length, length-append, arith,
}
use laura_db.Storage.Bytes.{u32, byte_range}
use laura_db.Storage.Page.{Page, ok, ◌>>=◌, mark_dirty}
use laura_db.Storage.FreePage.{
  serialize_free_page_header, deserialize_free_page_header, write_free_page_entry,
  read_free_page_entry, read_entries, read_all_free_page_entries, count_entry,
  add_free_page_to_list, uncount_entry, remove_free_page_from_list, initialize_free_list_page,
}
use laura_db.Storage.FreePage.Stack.{
  IsFreeList, next_of, count_of, entries, entries_from, with_header, count-with_header,
  next-with_header, length-with_header, pushed, popped, entries-pushed, entries-popped,
}

-- What the functions of the source do to a well-formed page.
pub add-pushed :
    (p : Page) (id : ℕ)
    → IsFreeList p
    → count_of p < 1018
    → add_free_page_to_list p id ≡ (pushed p id, ok true)
unfolding add_free_page_to_list deserialize_free_page_header write_free_page_entry count_entry
    serialize_free_page_header mark_dirty
add-pushed p id v h = ground (arith, v.kind, v.size)

pub add-full :
    (p : Page) (id : ℕ)
    → IsFreeList p
    → count_of p ≡ 1018
    → add_free_page_to_list p id ≡ (p, ok false)
unfolding add_free_page_to_list deserialize_free_page_header
add-full p id v h = ground (arith, v.kind, v.size)

pub remove-popped :
    (p : Page)
    → IsFreeList p
    → 0 < count_of p
    → remove_free_page_from_list p ≡ (popped p, ok (u32 (8 + (count_of p - 1) * 4) p.bytes, true))
unfolding remove_free_page_from_list deserialize_free_page_header read_free_page_entry uncount_entry
    serialize_free_page_header mark_dirty
remove-popped p v h = ground (arith, v.kind, v.size, v.within)

pub remove-empty :
    (p : Page) → IsFreeList p → count_of p ≡ 0 → remove_free_page_from_list p ≡ (p, ok (0, false))
unfolding remove_free_page_from_list deserialize_free_page_header
remove-empty p v h = ground (arith, v.kind, v.size)

read_entries-entries_from :
    (n i : ℕ) (p : Page)
    → IsFreeList p
    → i + n ≤ 1018
    → read_entries n i p ≡ ok (entries_from n i p.bytes)
unfolding read_entries read_free_page_entry entries_from ◌>>=◌
read_entries-entries_from zero i p v h = refl
read_entries-entries_from (suc n) i p v h =
    ground (arith, v.kind, v.size, read_entries-entries_from n (suc i) p v (omega arith))

pub read_all-entries : (p : Page) → IsFreeList p → read_all_free_page_entries p ≡ ok (entries p)
unfolding read_all_free_page_entries deserialize_free_page_header ◌>>=◌
read_all-entries p v =
    ground (
      arith,
      v.kind,
      v.size,
      read_entries-entries_from (count_of p) 0 p v (omega (arith, v.within)),
    )

pub initialize-IsFreeList :
    (p : Page)
    → length p.bytes ≡ 4080
    → IsFreeList (initialize_free_list_page p)
      × (count_of (initialize_free_list_page p) ≡ 0)
      × (next_of (initialize_free_list_page p) ≡ 0)
unfolding initialize_free_list_page serialize_free_page_header mark_dirty
initialize-IsFreeList p e =
    let count : u32 4 (with_header 0 0 p.bytes) ≡ 0 =
      count-with_header 0 0 p.bytes (omega arith) e in
    let next : u32 0 (with_header 0 0 p.bytes) ≡ 0 = next-with_header 0 0 p.bytes (omega arith) e in
    (
      record {
        kind = refl;
        size = length-with_header 0 0 p.bytes ∙ e;
        next_fits = omega (arith, next);
        within = omega (arith, count);
      },
      count,
      next,
    )

pub snoc_injective :
    {x y : ℕ} (xs ys : List ℕ) → xs ++ (x ∷ []) ≡ ys ++ (y ∷ []) → (xs ≡ ys) × (x ≡ y)
snoc_injective [] [] e = (refl, cc)
snoc_injective [] (y ∷ ys) e = absurd (omega (arith, ap length e, length-append {0} ys))
snoc_injective (x ∷ xs) [] e = absurd (omega (arith, ap length e, length-append {0} xs))
snoc_injective (x ∷ xs) (y ∷ ys) e =
    let (same, last) = snoc_injective xs ys (cc) in (ap₂ ◌∷◌ (cc) same, last)

-- A page that is not full takes an identifier behind its other entries, and RemoveFreePageFromList
-- then gives it back; both calls leave the earlier entries and the link to the next page alone, and
-- the page stays well formed. ReadAllFreePageEntries lists the entries each time.
pub remove-add :
    (p : Page) (id : ℕ)
    → IsFreeList p
    → count_of p < 1018
    → id < byte_range 4
    → let q = (add_free_page_to_list p id).0 in
      let r = (remove_free_page_from_list q).0 in
      ((add_free_page_to_list p id).1 ≡ ok true)
      × (read_all_free_page_entries p ≡ ok (entries p))
      × (read_all_free_page_entries q ≡ ok (entries p ++ (id ∷ [])))
      × ((remove_free_page_from_list q).1 ≡ ok (id, true))
      × (read_all_free_page_entries r ≡ ok (entries p))
      × (next_of r ≡ next_of p)
      × IsFreeList r
remove-add p id v h k =
    let q = pushed p id in
    let (list, next, count, valid) = entries-pushed p id v h k in
    let (list', next', count', valid') = entries-popped q valid (omega (arith, count)) in
    let (same, last) = snoc_injective (entries p) (entries (popped q)) (sym list ∙ list') in
    rw (add-pushed p id v h, remove-popped q valid (omega (arith, count)))
      (
        refl,
        read_all-entries p v,
        rw (read_all-entries q valid) (ap ok list),
        ap (λ x. ok (x, true)) (sym last),
        rw (read_all-entries (popped q) valid') (ap ok (sym same)),
        next' ∙ next,
        valid',
      )
