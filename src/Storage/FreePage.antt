-- ===== src/Storage/FreePage.antt =====
-- pkg/storage/free_page.go: a page of type FreeList holds a stack of page identifiers behind a
-- header with the next such page and the number of entries. A function that changes a page returns
-- it.
pub mod Stack
pub mod Operations
use laura_db.Prelude.{
  ℕ, zero, suc, ◌+◌, ◌-◌, ◌*◌, List, [], ◌∷◌, Bool, true, false, length, ltb, leb, ◌==◌, not,
  if◌then◌else◌,
}
use laura_db.Storage.Bytes.{u32, put_u32}
use laura_db.Storage.Page.{
  Page, Error, Result, ok, err, ◌>>=◌, invalid_page_type, page_too_small, entry_index_too_large,
  offset_too_large, mark_dirty, page_type_free_list,
}

abbrev pub free_page_header_size : ℕ
free_page_header_size = 8

-- (4096 - 16 - 8) / 4
abbrev pub max_free_page_entries : ℕ
max_free_page_entries = 1018

pub record FreePageHeader : Type 0 where
  pub next_free_list_page : ℕ
  pub entry_count : ℕ

pub record FreePageList : Type 0 where
  pub head_page_id : ℕ
  pub page_count : ℕ

unfoldable pub new_free_page_list : FreePageList
new_free_page_list = record { head_page_id = 0; page_count = 0 }

unfoldable pub serialize_free_page_header : Page → FreePageHeader → Page
serialize_free_page_header p h =
    if p.page_type == page_type_free_list
    then record p { bytes = put_u32 4 h.entry_count (put_u32 0 h.next_free_list_page p.bytes) }
    else p

unfoldable pub deserialize_free_page_header : Page → Result FreePageHeader
deserialize_free_page_header p =
    if not (p.page_type == page_type_free_list)
    then err invalid_page_type
    else if ltb (length p.bytes) free_page_header_size
    then err page_too_small
    else ok (record { next_free_list_page = u32 0 p.bytes; entry_count = u32 4 p.bytes })

unfoldable pub write_free_page_entry : Page → ℕ → ℕ → Page × Result (Unit {0})
write_free_page_entry p index id =
    if not (p.page_type == page_type_free_list)
    then (p, err invalid_page_type)
    else if leb max_free_page_entries index
    then (p, err entry_index_too_large)
    else if ltb (length p.bytes) (free_page_header_size + index * 4 + 4)
    then (p, err offset_too_large)
    else (record p { bytes = put_u32 (free_page_header_size + index * 4) id p.bytes }, ok tt)

unfoldable pub read_free_page_entry : Page → ℕ → Result ℕ
read_free_page_entry p index =
    if not (p.page_type == page_type_free_list)
    then err invalid_page_type
    else if leb max_free_page_entries index
    then err entry_index_too_large
    else if ltb (length p.bytes) (free_page_header_size + index * 4 + 4)
    then err offset_too_large
    else ok (u32 (free_page_header_size + index * 4) p.bytes)

-- The loop of ReadAllFreePageEntries: `n` entries from the index `i` on.
unfoldable pub read_entries : ℕ → ℕ → Page → Result (List ℕ)
read_entries zero i p = ok []
read_entries (suc n) i p =
    read_free_page_entry p i >>= λ id. read_entries n (suc i) p >>= λ ids. ok (id ∷ ids)

unfoldable pub read_all_free_page_entries : Page → Result (List ℕ)
read_all_free_page_entries p =
    deserialize_free_page_header p >>= λ header. read_entries header.entry_count 0 p

unfoldable pub initialize_free_list_page : Page → Page
initialize_free_list_page p = mark_dirty (
    serialize_free_page_header (record p { page_type = page_type_free_list })
      (record { next_free_list_page = 0; entry_count = 0 }))

-- The rest of AddFreePageToList, after the entry has been written.
unfoldable pub count_entry : FreePageHeader → Page × Result (Unit {0}) → Page × Result Bool
count_entry header (p, ok u) = (
  mark_dirty
      (serialize_free_page_header p (record header { entry_count = header.entry_count + 1 })),
  ok true,
)
count_entry header (p, err e) = (p, err e)

-- The flag is false if the page is full.
unfoldable pub add_free_page_to_list : Page → ℕ → Page × Result Bool
add_free_page_to_list p id = elim (deserialize_free_page_header p) [
  | err e ↦ (p, err e)
  | ok header ↦
      if leb max_free_page_entries header.entry_count
      then (p, ok false)
      else count_entry header (write_free_page_entry p header.entry_count id)
]

-- The rest of RemoveFreePageFromList, after the last entry has been read.
unfoldable pub uncount_entry : Page → FreePageHeader → Result ℕ → Page × Result (ℕ × Bool)
uncount_entry p header (ok id) = (mark_dirty (serialize_free_page_header p header), ok (id, true))
uncount_entry p header (err e) = (p, err e)

-- The flag is false if the page is empty.
unfoldable pub remove_free_page_from_list : Page → Page × Result (ℕ × Bool)
remove_free_page_from_list p = elim (deserialize_free_page_header p) [
  | err e ↦ (p, err e)
  | ok header ↦
      if header.entry_count == 0
      then (p, ok (0, false))
      else (let header = record header { entry_count = header.entry_count - 1 } in
          uncount_entry p header (read_free_page_entry p header.entry_count))
]

unfoldable pub is_free_list_page_full : Page → Result Bool
is_free_list_page_full p =
    deserialize_free_page_header p >>= λ header. ok (leb max_free_page_entries header.entry_count)

unfoldable pub is_free_list_page_empty : Page → Result Bool
is_free_list_page_empty p =
    deserialize_free_page_header p >>= λ header. ok (header.entry_count == 0)
