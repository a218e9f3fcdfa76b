-- ===== src/Storage/SlottedPage/Tests.antt =====
-- Tests of pkg/storage/slotted_page.go at concrete pages.
use laura_db.Prelude.{ℕ, ◌≡◌, refl, List, [], ◌∷◌, false, arith}
use laura_db.Storage.Bytes.{zeros, length-zeros}
use laura_db.Storage.SlottedPage.{SlottedPage}
use laura_db.Storage.SlottedPage.Slots.{compact, add_slot, insert_slot}
use laura_db.Storage.SlottedPage.View.{contents, IsSlotted}
use laura_db.Storage.SlottedPage.Active.{live}
use laura_db.Storage.SlottedPage.Compaction.{compact-live}
use laura_db.Storage.SlottedPage.Insertion.{add_slot-IsSlotted}
use laura_db.Storage.SlottedPage.Changes.{Added, insert_slot-Added}

-- A page without slots, as a compaction leaves it
abbrev fresh : SlottedPage
fresh = record {
  page = record {
    id = 7;
    page_type = 0;
    flags = 0;
    lsn = 0;
    bytes = zeros 4080;
    is_dirty = false;
    pin_count = 0;
  };
  header = record {
    slot_count = 0;
    free_space_start = 12;
    free_space_end = 4080;
    fragmented_space = 0;
    flags = 0;
    reserved = 0;
  };
  slots = [];
}

fresh-IsSlotted : IsSlotted fresh
fresh-IsSlotted = record {
  whole = length-zeros 4080;
  counted = refl;
  directory = refl;
  in_order = omega arith;
  fits = omega arith;
  inside = tt;
  apart = tt;
}

abbrev doc : List ℕ
doc = 1 ∷ 2 ∷ 3 ∷ []

-- The page with one document
one_slot : SlottedPage
one_slot = add_slot fresh 3 doc

one_slot-IsSlotted : IsSlotted one_slot
unfolding one_slot
one_slot-IsSlotted = (add_slot-IsSlotted fresh 3 doc fresh-IsSlotted (omega arith) (omega arith)).0

insert_slot-Added_example : Added one_slot (9 ∷ 8 ∷ []) (insert_slot one_slot (9 ∷ 8 ∷ []))
insert_slot-Added_example = insert_slot-Added one_slot (9 ∷ 8 ∷ []) one_slot-IsSlotted (omega arith)

compact-live_example :
    IsSlotted (compact one_slot)
    × (contents (compact one_slot) ≡ live (contents one_slot))
    × ((compact one_slot).header.fragmented_space ≡ 0)
compact-live_example = compact-live one_slot one_slot-IsSlotted
