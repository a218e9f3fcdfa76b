-- ===== src/Storage/SlottedPage/Updates.antt =====
-- UpdateSlot of pkg/storage/slotted_page.go against the contents of the slots.
use laura_db.Prelude.{ℕ, ◌≡◌, none, some, List}
use laura_db.Storage.Page.{Result, ok, err, insufficient_space, invalid_slot, slot_is_deleted}
use laura_db.Storage.SlottedPage.{SlottedPage}
use laura_db.Storage.SlottedPage.View.{contents, IsSlotted}
use laura_db.Storage.SlottedPage.Reads.{entry_at, set_entry}

-- The outcomes of UpdateSlot
pub data Updated (sp : SlottedPage) (id : ℕ) (doc : List ℕ)
    : SlottedPage × Result Unit → Type 0 where
  unknown : entry_at id (contents sp) ≡ none → Updated sp id doc (sp, err invalid_slot)
  dead : entry_at id (contents sp) ≡ some none → Updated sp id doc (sp, err slot_is_deleted)
  full :
      (u : SlottedPage)
      → IsSlotted u
      → contents u ≡ contents sp
      → Updated sp id doc (u, err insufficient_space)
  updated :
      (u : SlottedPage)
      → IsSlotted u
      → contents u ≡ set_entry id (some doc) (contents sp)
      → Updated sp id doc (u, ok tt)
