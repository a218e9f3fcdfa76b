-- ===== src/Storage/SlottedPage.antt =====
-- pkg/storage/slotted_page.go: documents of any length in the data of a page. A method that fails
-- after it has changed the page returns the page with the error. A slot directory that is out of
-- the range of the page's data, which would panic, does not occur at the callers' pages.
pub mod Slots
pub mod View
pub mod Active
pub mod Compaction
pub mod Insertion
pub mod Reads
pub mod Rewrite
pub mod Changes
pub mod Deletion
pub mod Placement
pub mod Updates
mod Tests
use laura_db.Prelude.{
  ℕ, zero, suc, ◌+◌, ◌-◌, ◌*◌, ◌/◌, ◌%◌, Bool, true, false, not, Option, none, some, List, [], ◌∷◌,
  ◌++◌, length, ltb, leb, ◌==◌, if◌then◌else◌,
}
use laura_db.Storage.Bytes.{zeros, copy, copy_at, slice, le_bytes, le_value}
use laura_db.Storage.Page.{
  Page, Error, Result, ok, err, ◌>>=◌, mark_dirty, page_type_data, invalid_page_type,
  page_too_small, empty_data, insufficient_space, invalid_slot, slot_is_deleted,
}

abbrev pub slotted_page_header_size : ℕ
slotted_page_header_size = 12

abbrev pub slot_entry_size : ℕ
slot_entry_size = 5

-- 4096 - 16 - 12
abbrev pub slotted_page_available_space : ℕ
slotted_page_available_space = 4068

-- Arithmetic of uint16
abbrev pub word : ℕ → ℕ
word n = n % 65536

abbrev pub minus_word : ℕ → ℕ → ℕ
minus_word a b = (a + 65536 - b) % 65536

pub record SlotEntry : Type 0 where
  pub offset : ℕ
  pub size : ℕ
  pub flags : ℕ

-- `se.Flags&SlotFlagDeleted != 0`, the lowest bit
abbrev pub is_deleted : SlotEntry → Bool
is_deleted s = s.flags % 2 == 1

-- `slot.Flags |= SlotFlagDeleted`
unfoldable pub set_deleted : ℕ → ℕ
set_deleted flags = if flags % 2 == 1 then flags else flags + 1

-- `slot.Flags |= SlotFlagUpdated`, the third bit
unfoldable pub set_updated : ℕ → ℕ
set_updated flags = if flags / 4 % 2 == 1 then flags else flags + 4

pub record SlottedPageHeader : Type 0 where
  pub slot_count : ℕ
  pub free_space_start : ℕ
  pub free_space_end : ℕ
  pub fragmented_space : ℕ
  pub flags : ℕ
  pub reserved : ℕ

pub record SlottedPage : Type 0 where
  pub page : Page
  pub header : SlottedPageHeader
  pub slots : List SlotEntry

-- `binary.LittleEndian.PutUint16(b[off:off+2], v)` and `Uint16`
unfoldable pub put_u16 : ℕ → ℕ → List ℕ → List ℕ
put_u16 off v b = copy_at off (le_bytes 2 v) b

unfoldable pub u16 : ℕ → List ℕ → ℕ
u16 off b = le_value (slice off 2 b)

unfoldable pub serialize_header : SlottedPageHeader → List ℕ → List ℕ
serialize_header h b = put_u16 10 h.reserved (
    put_u16 8 h.flags (
      put_u16 6 h.fragmented_space
        (put_u16 4 h.free_space_end (put_u16 2 h.free_space_start (put_u16 0 h.slot_count b)))))

unfoldable pub deserialize_header : List ℕ → Result SlottedPageHeader
deserialize_header b =
    if ltb (length b) slotted_page_header_size
    then err page_too_small
    else ok (record {
      slot_count = u16 0 b;
      free_space_start = u16 2 b;
      free_space_end = u16 4 b;
      fragmented_space = u16 6 b;
      flags = u16 8 b;
      reserved = u16 10 b;
    })

unfoldable pub serialize_slot : ℕ → SlotEntry → List ℕ → List ℕ
serialize_slot id s b =
    let offset = slotted_page_header_size + id * slot_entry_size in
    copy_at (offset + 4) (le_bytes 1 s.flags)
      (put_u16 (offset + 2) s.size (put_u16 offset s.offset b))

-- The loop over the slot directory, from a slot on, for so many slots
unfoldable pub deserialize_slots : ℕ → ℕ → List ℕ → Result (List SlotEntry)
deserialize_slots zero i b = ok []
deserialize_slots (suc n) i b =
    let offset = slotted_page_header_size + i * slot_entry_size in
    let rest = deserialize_slots n (suc i) b in
    if ltb (length b) (offset + slot_entry_size)
    then err page_too_small
    else (rest >>= λ slots. ok (
        record {
          offset = u16 offset b;
          size = u16 (offset + 2) b;
          flags = le_value (slice (offset + 4) 1 b);
        }
        ∷ slots))

unfoldable pub new_slotted_page : Page → Result SlottedPage
new_slotted_page p =
    if not (p.page_type == page_type_data)
    then err invalid_page_type
    else (let header : SlottedPageHeader = record {
      slot_count = 0;
      free_space_start = 0;
      free_space_end = word (length p.bytes);
      fragmented_space = 0;
      flags = 0;
      reserved = 0;
    } in
        ok (record {
          page = record p { bytes = serialize_header header p.bytes };
          header = header;
          slots = [];
        }))

unfoldable pub load_slotted_page : Page → Result SlottedPage
load_slotted_page p =
    if not (p.page_type == page_type_data)
    then err invalid_page_type
    else (deserialize_header p.bytes >>= λ header.
        deserialize_slots header.slot_count 0 p.bytes >>= λ slots.
        ok (record { page = p; header = header; slots = slots }))

unfoldable pub contiguous_free_space : SlottedPage → ℕ
contiguous_free_space sp =
    if ltb sp.header.free_space_end sp.header.free_space_start
    then 0
    else sp.header.free_space_end - sp.header.free_space_start

unfoldable pub total_free_space : SlottedPage → ℕ
total_free_space sp = word (contiguous_free_space sp + sp.header.fragmented_space)

-- `fragmented/pageSize > PageCompactionThreshold`, which is a quarter
unfoldable pub needs_compaction : SlottedPage → Bool
needs_compaction sp = ltb slotted_page_available_space (4 * sp.header.fragmented_space)
