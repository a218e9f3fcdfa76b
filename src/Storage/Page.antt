-- ===== src/Storage/Page.antt =====
-- pkg/storage/page.go: a page and its 4096 bytes on disk. PageType, Flags and LSN are kept as
-- numbers, PageID too; encoding keeps their lowest 1, 1, 8 and 4 bytes.
pub mod RoundTrip
use laura_db.Prelude.{
  ℕ, suc, ◌+◌, ◌-◌, ◌≡◌, refl, List, Bool, true, false, length, ltb, if◌then◌else◌, dec_lt, ite,
  ℕ_discrete,
}
use laura_db.Storage.Bytes.{zeros, copy, copy_at, slice, le_bytes, le_value}

abbrev pub page_size : ℕ
page_size = 4096

abbrev pub page_header_size : ℕ
page_header_size = 16

-- The constants of PageType.
abbrev pub page_type_data : ℕ
page_type_data = 0

abbrev pub page_type_index : ℕ
page_type_index = 1

abbrev pub page_type_free_list : ℕ
page_type_free_list = 2

abbrev pub page_type_overflow : ℕ
page_type_overflow = 3

-- The errors of pkg/storage.
pub data Error : Type 0 where
  invalid_page_size invalid_page_type page_too_small entry_index_too_large : Error
  offset_too_large invalid_page_id record_too_short record_truncated : Error
  -- An index or a slice out of range, which panics; and a model's loop that was cut short.
  out_of_range out_of_fuel : Error
  not_in_buffer_pool no_unpinned_page page_is_pinned : Error
  empty_data insufficient_space invalid_slot slot_is_deleted : Error

pub data Result (A : Type 0) : Type 0 where
  ok : A → Result A
  err : Error → Result A

-- `if err != nil { return err }`
infixl 2 ◌>>=◌
unfoldable pub ◌>>=◌ : {A B : Type 0} → Result A → (A → Result B) → Result B
ok a >>= f = f a
err e >>= f = err e

pub record Page : Type 0 where
  pub id : ℕ
  pub page_type : ℕ
  pub flags : ℕ
  pub lsn : ℕ
  pub bytes : List ℕ
  pub is_dirty : Bool
  pub pin_count : ℕ

unfoldable pub new_page : ℕ → ℕ → Page
new_page id page_type = record {
  id = id;
  page_type = page_type;
  flags = 0;
  lsn = 0;
  bytes = zeros (page_size - page_header_size);
  is_dirty = false;
  pin_count = 0;
}

unfoldable pub serialize : Page → List ℕ
serialize p =
    let buf = zeros page_size in
    let buf = copy_at 0 (le_bytes 4 p.id) buf in
    let buf = copy_at 4 (le_bytes 1 p.page_type) buf in
    let buf = copy_at 5 (le_bytes 1 p.flags) buf in
    let buf = copy_at 6 (le_bytes 8 p.lsn) buf in copy_at page_header_size p.bytes buf

-- The page `p` is overwritten, short of `IsDirty` and `PinCount`.
unfoldable pub deserialize : Page → List ℕ → Result Page
deserialize p b =
    ite (ℕ_discrete (length b) page_size)
      (ok (record p {
        id = le_value (slice 0 4 b);
        page_type = le_value (slice 4 1 b);
        flags = le_value (slice 5 1 b);
        lsn = le_value (slice 6 8 b);
        bytes =
            copy (slice page_header_size (page_size - page_header_size) b)
              (zeros (page_size - page_header_size));
      }))
      (err invalid_page_size)

unfoldable pub pin : Page → Page
pin p = record p { pin_count = p.pin_count + 1 }

-- At 0 the pin count stays.
unfoldable pub unpin : Page → Page
unpin p = if ltb 0 p.pin_count then record p { pin_count = p.pin_count - 1 } else p

unfoldable pub is_pinned : Page → Bool
is_pinned p = ltb 0 p.pin_count

unfoldable pub mark_dirty : Page → Page
mark_dirty p = record p { is_dirty = true }

unfoldable pub free_space : Page → ℕ
free_space p = length p.bytes
