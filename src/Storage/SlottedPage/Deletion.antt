-- ===== src/Storage/SlottedPage/Deletion.antt =====
-- DeleteSlot of pkg/storage/slotted_page.go against the contents of the slots.
use laura_db.Prelude.{
  ℕ, ◌+◌, ◌%◌, ◌≡◌, inl, inr, refl, ap, ◌∙◌, true, false, none, some, List, [], ◌∷◌, All, arith,
  leb, ◌==◌, Bool-cases, Option-cases,
}
use laura_db.Storage.Bytes.{slice}
use laura_db.Storage.Page.{Result, ok, err, invalid_slot, slot_is_deleted}
use laura_db.Storage.SlottedPage.{word, SlotEntry, is_deleted, set_deleted, SlottedPage}
use laura_db.Storage.SlottedPage.Slots.{slot_at, with_fragmented, delete_slot}
use laura_db.Storage.SlottedPage.View.{content-live, content-dead, contents, IsSlotted}
use laura_db.Storage.SlottedPage.Reads.{
  entry_at, set_entry, slot_at-within, entry_at-none, entry_at-some, slot_at-counted,
}
use laura_db.Storage.SlottedPage.Rewrite.{bytes_held, live_size-set_slot, write_slot-IsSlotted}

set_deleted-deletes : (f : ℕ) → f % 2 == 1 ≡ false → set_deleted f % 2 == 1 ≡ true
unfolding set_deleted
set_deleted-deletes f h = ground (arith, h)

pub every {ℓ} :
    {P : SlotEntry → Type ℓ} → ((r : SlotEntry) → P r) → (ss : List SlotEntry) → All P ss
every f [] = tt
every f (s ∷ ss) = (f s, every f ss)

-- The outcomes of DeleteSlot
pub data Deleted (sp : SlottedPage) (id : ℕ) : SlottedPage × Result Unit → Type 0 where
  unknown : entry_at id (contents sp) ≡ none → Deleted sp id (sp, err invalid_slot)
  again : entry_at id (contents sp) ≡ some none → Deleted sp id (sp, err slot_is_deleted)
  deleted :
      (u : SlottedPage) (doc : List ℕ)
      → entry_at id (contents sp) ≡ some (some doc)
      → IsSlotted u
      → contents u ≡ set_entry id none (contents sp)
      → Deleted sp id (u, ok tt)

-- DeleteSlot empties the slot and leaves the other slots of a well-formed page, which stays well
-- formed; it refuses a number that no slot has and a slot that is deleted already.
pub delete_slot-Deleted :
    (sp : SlottedPage) (id : ℕ) → IsSlotted sp → Deleted sp id (delete_slot sp id)
unfolding delete_slot
delete_slot-Deleted sp id w = elim (Option-cases (slot_at id sp.slots)) [
  | inl h ↦ elim (Bool-cases (leb sp.header.slot_count id)) [
    | inl e ↦ rw (e, delete_slot) (unknown (entry_at-none sp.page.bytes id sp.slots h))
    | inr e ↦ let past = slot_at-within id sp.slots h in absurd (ground (arith, e, past, w.counted))
  ]
  | inr (s, h) ↦
      let found = entry_at-some sp.page.bytes id sp.slots s h in
      let counted = slot_at-counted sp id s w h in
      elim (Bool-cases (is_deleted s)) [
        | inl d ↦
            rw (counted, h, d, delete_slot)
              (again (found ∙ ap some (content-dead sp.page.bytes s d)))
        | inr d ↦
            let t : SlotEntry = record { offset = 0; size = s.size; flags = set_deleted s.flags } in
            let dead : is_deleted t ≡ true = set_deleted-deletes s.flags d in
            let header = with_fragmented sp.header (word (sp.header.fragmented_space + s.size)) in
            let held : bytes_held t ≡ 0 = rw dead refl in
            let (w', same) = write_slot-IsSlotted sp header id s t sp.page.bytes none w (record {
              found = h;
              same_count = refl;
              same_start = refl;
              start_end = w.in_order;
              end_falls = omega arith;
              still_fits = omega (arith, live_size-set_slot id s t sp.slots h, held, w.fits);
              long = w.whole;
              within = λ l. cc;
              away = every (λ r p l. cc) sp.slots;
              untouched = every (λ r p. refl) sp.slots;
              holds = content-dead sp.page.bytes t dead;
            }) in
            rw (counted, h, d, delete_slot)
              (deleted _ (slice s.offset s.size sp.page.bytes)
                (found ∙ ap some (content-live sp.page.bytes s d)) w' same)
      ]
]
