-- ===== src/Storage/SlottedPage/Changes.antt =====
-- The exported methods of pkg/storage/slotted_page.go against the contents of the slots.
use laura_db.Prelude.{
  ℕ, ◌+◌, ◌<◌, ◌≡◌, inl, inr, refl, ap, ap₂, sym, ◌∙◌, false, Option, some, List, [], ◌∷◌, ◌++◌,
  length, take_all, arith, ltb, ltb→lt, Bool-cases, ◌==◌, if◌then◌else◌,
}
use laura_db.Storage.Page.{Result, ok, err, empty_data, insufficient_space}
use laura_db.Storage.SlottedPage.{word, SlottedPage, contiguous_free_space, needs_compaction}
use laura_db.Storage.SlottedPage.Slots.{compact_if_needed, add_slot, insert_slot}
use laura_db.Storage.SlottedPage.View.{contents, IsSlotted}
use laura_db.Storage.SlottedPage.Active.{live}
use laura_db.Storage.SlottedPage.Compaction.{compact-live}
use laura_db.Storage.SlottedPage.Reads.{length-contents_of}
use laura_db.Storage.SlottedPage.Insertion.{add_slot-IsSlotted, HasRoom}

-- The contents that InsertSlot starts from
abbrev pub kept : SlottedPage → List (Option (List ℕ))
kept sp = if needs_compaction sp then live (contents sp) else contents sp

-- The outcomes of InsertSlot
pub data Added (sp : SlottedPage) (doc : List ℕ) : SlottedPage × Result ℕ → Type 0 where
  empty : length doc ≡ 0 → Added sp doc (sp, err empty_data)
  full :
      (u : SlottedPage)
      → IsSlotted u
      → contents u ≡ kept sp
      → contiguous_free_space u < length doc + 5
      → Added sp doc (u, err insufficient_space)
  added :
      (u : SlottedPage) (id : ℕ)
      → IsSlotted u
      → id ≡ length (kept sp)
      → contents u ≡ kept sp ++ some doc ∷ []
      → Added sp doc (u, ok id)

compact_if_needed-kept :
    (sp : SlottedPage)
    → IsSlotted sp
    → IsSlotted (compact_if_needed sp) × (contents (compact_if_needed sp) ≡ kept sp)
compact_if_needed-kept sp w = elim (Bool-cases (needs_compaction sp)) [
  | inl h ↦ let (w', same, zero_left) = compact-live sp w in rw h (w', same)
  | inr h ↦ rw h (w, refl)
]

contiguous-HasRoom :
    (sp : SlottedPage) (n : ℕ)
    → IsSlotted sp
    → ltb (contiguous_free_space sp) (n + 5) ≡ false
    → HasRoom sp n
unfolding contiguous_free_space
contiguous-HasRoom sp n w h = let start = w.in_order in ground arith

-- InsertSlot of data shorter than 65536 bytes into a well-formed page appends the data to what the
-- slots in memory hold and returns the number of its slot, or refuses empty data and data that does not fit,
-- and the page stays well formed. Where a quarter of the page is fragmented, the slots are first
-- those of the compacted page.
pub insert_slot-Added :
    (sp : SlottedPage) (doc : List ℕ)
    → IsSlotted sp
    → length doc < 65536
    → Added sp doc (insert_slot sp doc)
unfolding insert_slot
insert_slot-Added sp doc w short =
    let base = compact_if_needed sp in
    let (w', same) = compact_if_needed-kept sp w in
    let size : word (length doc) ≡ length doc = omega (arith, short) in
    elim (Bool-cases (length doc == 0)) [
      | inl h ↦ rw (h, insert_slot) (empty (ground (arith, h)))
      | inr h ↦ elim (Bool-cases (ltb (contiguous_free_space base) (word (length doc) + 5))) [
        | inl f ↦ rw (h, f, insert_slot) (full base w' same (omega (arith, ltb→lt _ _ f, size)))
        | inr f ↦
            rw (h, f, insert_slot)
              (let n = word (length doc) in
                let room = contiguous-HasRoom base n w' f in
                let (w'', more) = add_slot-IsSlotted base n doc w' room (omega (arith, size)) in
                added (add_slot base n doc) base.header.slot_count w''
                  (w'.counted
                    ∙ sym (length-contents_of base.page.bytes base.slots)
                    ∙ ap length same)
                  (more ∙ ap₂ (λ xs x. xs ++ some x ∷ []) same (take_all n doc (sym size))))
      ]
    ]
