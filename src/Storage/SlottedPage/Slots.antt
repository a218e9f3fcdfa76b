-- ===== src/Storage/SlottedPage/Slots.antt =====
-- The slots of a page of pkg/storage/slotted_page.go: reads, changes, and compaction.
use laura_db.Prelude.{
  ℕ, zero, suc, ◌+◌, ◌-◌, ◌*◌, Bool, true, not, Option, none, some, List, [], ◌∷◌, ◌++◌, length,
  take, ltb, leb, ◌==◌, if◌then◌else◌,
}
use laura_db.Storage.Bytes.{zeros, copy, copy_at, slice}
use laura_db.Storage.Page.{
  Result, ok, err, empty_data, insufficient_space, invalid_slot, slot_is_deleted, out_of_range,
}
use laura_db.Storage.SlottedPage.{
  word, minus_word, SlotEntry, is_deleted, set_deleted, set_updated, SlottedPageHeader, SlottedPage,
  serialize_header, serialize_slot, contiguous_free_space, total_free_space, needs_compaction,
}

-- `sp.slots[id]`
abbrev pub slot_at : ℕ → List SlotEntry → Option SlotEntry
slot_at n [] = none
slot_at zero (s ∷ ss) = some s
slot_at (suc n) (s ∷ ss) = slot_at n ss

abbrev pub set_slot : ℕ → SlotEntry → List SlotEntry → List SlotEntry
set_slot n t [] = []
set_slot zero t (s ∷ ss) = t ∷ ss
set_slot (suc n) t (s ∷ ss) = s ∷ set_slot n t ss

-- The page with a header, slots and data, dirty
abbrev pub with_data : SlottedPage → SlottedPageHeader → List SlotEntry → List ℕ → SlottedPage
with_data sp h slots b = record {
  page = record sp.page { bytes = b; is_dirty = true };
  header = h;
  slots = slots;
}

unfoldable pub get_slot : SlottedPage → ℕ → Result (List ℕ)
get_slot sp id =
    if leb sp.header.slot_count id then err invalid_slot else elim (slot_at id sp.slots) [
      | none ↦ err out_of_range
      | some s ↦
          if is_deleted s
          then err slot_is_deleted
          else ok (copy (slice s.offset s.size sp.page.bytes) (zeros s.size))
    ]

-- The slots that are not deleted
unfoldable pub active_slots : List SlotEntry → List SlotEntry
active_slots [] = []
active_slots (s ∷ ss) = let rest = active_slots ss in if is_deleted s then rest else s ∷ rest

-- The loop from the last slot to the first: the end of the free space, the new data, and the slots
-- with their new offsets.
unfoldable pub relocate : List ℕ → List SlotEntry → ℕ × List ℕ × List SlotEntry
relocate b [] = (word (length b), zeros (length b), [])
relocate b (s ∷ ss) =
    let (data_end, temp, moved) = relocate b ss in
    let offset = minus_word data_end s.size in
    (
      offset,
      copy_at offset (slice s.offset s.size b) temp,
      record { offset = offset; size = s.size; flags = s.flags } ∷ moved,
    )

unfoldable pub serialize_slots : ℕ → List SlotEntry → List ℕ → List ℕ
serialize_slots i [] b = b
serialize_slots i (s ∷ ss) b = serialize_slots (suc i) ss (serialize_slot i s b)

-- The header of a page without fragmented space
abbrev pub compacted_header : SlottedPageHeader → ℕ → ℕ → SlottedPageHeader
compacted_header h count data_end = record {
  slot_count = count;
  free_space_start = word (12 + count * 5);
  free_space_end = data_end;
  fragmented_space = 0;
  flags = h.flags;
  reserved = h.reserved;
}

-- A page without active slots
unfoldable pub reset : SlottedPage → SlottedPage
reset sp =
    let header = compacted_header sp.header 0 (word (length sp.page.bytes)) in
    with_data sp header [] (serialize_header header sp.page.bytes)

unfoldable pub rebuild : SlottedPage → List SlotEntry → SlottedPage
rebuild sp active =
    let (data_end, temp, moved) = relocate sp.page.bytes active in
    let header = compacted_header sp.header (word (length active)) data_end in
    with_data sp header moved
      (serialize_slots 0 moved (serialize_header header (copy temp sp.page.bytes)))

unfoldable pub compact : SlottedPage → SlottedPage
compact sp =
    let active = active_slots sp.slots in if length active == 0 then reset sp else rebuild sp active

-- The part of InsertSlot that follows its checks; `needed` is the length of the data.
unfoldable pub add_slot : SlottedPage → ℕ → List ℕ → SlottedPage
add_slot sp needed doc =
    let h = sp.header in
    let count = word (h.slot_count + 1) in
    let offset = minus_word h.free_space_end needed in
    let slot : SlotEntry = record { offset = offset; size = needed; flags = 0 } in
    let header : SlottedPageHeader = record {
      slot_count = count;
      free_space_start = word (12 + count * 5);
      free_space_end = offset;
      fragmented_space = h.fragmented_space;
      flags = h.flags;
      reserved = h.reserved;
    } in
    with_data sp header (sp.slots ++ slot ∷ []) (
      serialize_header header
        (serialize_slot h.slot_count slot (copy_at offset (take needed doc) sp.page.bytes)))

abbrev pub compact_if_needed : SlottedPage → SlottedPage
compact_if_needed sp = if needs_compaction sp then compact sp else sp

unfoldable pub insert_slot : SlottedPage → List ℕ → SlottedPage × Result ℕ
insert_slot sp doc =
    let base = compact_if_needed sp in
    let needed = word (length doc) in
    if length doc == 0
    then (sp, err empty_data)
    else (if ltb (contiguous_free_space base) (needed + 5)
        then (base, err insufficient_space)
        else (add_slot base needed doc, ok base.header.slot_count))

-- Writes a slot and the header, with so much fragmented space and with the data.
abbrev pub write_slot :
    SlottedPage → SlottedPageHeader → ℕ → SlotEntry → List SlotEntry → List ℕ → SlottedPage
write_slot sp h id slot slots b =
    with_data sp h slots (serialize_header h (serialize_slot id slot b))

abbrev pub with_fragmented : SlottedPageHeader → ℕ → SlottedPageHeader
with_fragmented h n = record h { fragmented_space = n }

unfoldable pub update_in_place : SlottedPage → ℕ → SlotEntry → ℕ → List ℕ → SlottedPage
update_in_place sp id s n doc =
    let h = sp.header in
    let slot : SlotEntry = record { offset = s.offset; size = n; flags = s.flags } in
    write_slot sp (with_fragmented h (word (h.fragmented_space + (s.size - n)))) id slot
      (set_slot id slot sp.slots) (copy_at s.offset (take n doc) sp.page.bytes)

-- The page that counts the space of a slot as fragmented
abbrev pub with_old_space : SlottedPage → SlotEntry → SlottedPage
with_old_space sp s = record sp {
  header = with_fragmented sp.header (word (sp.header.fragmented_space + s.size));
}

-- The data at the end of the free space; the slot is written to the page's data, and among the
-- slots only where they are those that the pointer to it points into.
unfoldable pub move_slot : SlottedPage → ℕ → SlotEntry → ℕ → List ℕ → Bool → SlottedPage
move_slot base id s n doc same_slots =
    let offset = minus_word base.header.free_space_end n in
    let slot : SlotEntry = record { offset = offset; size = n; flags = set_updated s.flags } in
    write_slot base (record base.header { free_space_end = offset }) id slot
      (if same_slots then set_slot id slot base.slots else base.slots)
      (copy_at offset (take n doc) base.page.bytes)

-- The data does not fit the slot: new space, after a compaction where the page needs one. `slot` is
-- a pointer to an element of the slots before the compaction, which makes new ones.
unfoldable pub update_moved : SlottedPage → ℕ → SlotEntry → ℕ → List ℕ → SlottedPage × Result Unit
update_moved sp id s n doc =
    let raised = with_old_space sp s in
    let base = compact_if_needed raised in
    if ltb (total_free_space raised) n
    then (raised, err insufficient_space)
    else (if ltb (contiguous_free_space base) n
        then (base, err insufficient_space)
        else (move_slot base id s n doc (not (needs_compaction raised)), ok tt))

unfoldable pub update_slot : SlottedPage → ℕ → List ℕ → SlottedPage × Result Unit
update_slot sp id doc =
    if leb sp.header.slot_count id then (sp, err invalid_slot) else elim (slot_at id sp.slots) [
      | none ↦ (sp, err out_of_range)
      | some s ↦
          let n = word (length doc) in
          if is_deleted s
          then (sp, err slot_is_deleted)
          else (if leb n s.size
              then (update_in_place sp id s n doc, ok tt)
              else update_moved sp id s n doc)
    ]

unfoldable pub delete_slot : SlottedPage → ℕ → SlottedPage × Result Unit
delete_slot sp id =
    if leb sp.header.slot_count id then (sp, err invalid_slot) else elim (slot_at id sp.slots) [
      | none ↦ (sp, err out_of_range)
      | some s ↦
          let slot : SlotEntry = record {
            offset = 0;
            size = s.size;
            flags = set_deleted s.flags;
          } in
          let header = with_fragmented sp.header (word (sp.header.fragmented_space + s.size)) in
          if is_deleted s
          then (sp, err slot_is_deleted)
          else (write_slot sp header id slot (set_slot id slot sp.slots) sp.page.bytes, ok tt)
    ]
