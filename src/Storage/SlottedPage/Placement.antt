-- ===== src/Storage/SlottedPage/Placement.antt =====
-- How UpdateSlot of pkg/storage/slotted_page.go places the new data: over the old data, or in the
-- free space.
use laura_db.Prelude.{
  ℕ, ◌+◌, ◌-◌, ◌%◌, ◌≤◌, ◌≡◌, inl, inr, refl, ap, ◌∙◌, true, false, some, List, length, take,
  take_all, All-imp, arith, ◌==◌, Bool-cases,
}
use laura_db.Storage.Bytes.{
  copy_at, length-copy_at, slice-copy_at_self, slice-copy_at_behind, slice-copy_at_before,
}
use laura_db.Storage.SlottedPage.{word, minus_word, SlotEntry, is_deleted, set_updated, SlottedPage}
use laura_db.Storage.SlottedPage.Slots.{slot_at, with_fragmented, move_slot, update_in_place}
use laura_db.Storage.SlottedPage.View.{
  content, content-live, contents, Inside, Apart, IsSlotted, Agree, Agree-later, Agree-copy_at,
  content-Agree, Apart-front,
}
use laura_db.Storage.SlottedPage.Reads.{set_entry, All-slot_at}
use laura_db.Storage.SlottedPage.Rewrite.{bytes_held, live_size-set_slot, write_slot-IsSlotted}
use laura_db.Storage.SlottedPage.Insertion.{minus_word-eq}
use laura_db.Storage.SlottedPage.Deletion.{every}

set_updated-keeps : (f : ℕ) → f % 2 == 1 ≡ false → set_updated f % 2 == 1 ≡ false
unfolding set_updated
set_updated-keeps f h = ground (arith, h)

-- What holds of the page where an update is done
abbrev pub Written : SlottedPage → ℕ → List ℕ → SlottedPage → Type 0
Written sp id doc u = IsSlotted u × (contents u ≡ set_entry id (some doc) (contents sp))

outside :
    (s : SlotEntry) (n : ℕ) (doc b : List ℕ) (r : SlotEntry)
    → is_deleted s ≡ false
    → n ≤ s.size
    → length doc ≡ n
    → Apart s r
    → content (copy_at s.offset doc b) r ≡ content b r
outside s n doc b r d h size p = elim (Bool-cases (is_deleted r)) [
  | inl k ↦ rw k refl
  | inr k ↦ rw k (
      ap some (elim (p d k) [
        | inl q ↦ slice-copy_at_behind s.offset r.offset r.size doc b (omega (arith, size, h, q))
        | inr q ↦ slice-copy_at_before s.offset r.offset r.size doc b q
      ]))
]

narrower :
    (s t r : SlotEntry)
    → is_deleted s ≡ false
    → t.offset ≡ s.offset
    → t.size ≤ s.size
    → Apart s r
    → Apart t r
narrower s t r d e h p l k = elim (p d k) [
  | inl q ↦ inl (omega (arith, e, h, q))
  | inr q ↦ inr (omega (arith, e, q))
]

pub update_in_place-Written :
    (sp : SlottedPage) (id : ℕ) (s : SlotEntry) (doc : List ℕ)
    → IsSlotted sp
    → slot_at id sp.slots ≡ some s
    → is_deleted s ≡ false
    → length doc ≤ s.size
    → Written sp id doc (update_in_place sp id s (length doc) doc)
unfolding update_in_place
update_in_place-Written sp id s doc w h d fits =
    let n = length doc in
    let t : SlotEntry = record { offset = s.offset; size = n; flags = s.flags } in
    let all : take n doc ≡ doc = take_all n doc refl in
    let size : length (take n doc) ≡ n = ap length all in
    let within = All-slot_at (Inside sp.header.free_space_end) id sp.slots s h w.inside d in
    let old_size : bytes_held s ≡ s.size = rw d refl in
    let new_size : bytes_held t ≡ n = rw d refl in
    write_slot-IsSlotted sp
      (with_fragmented sp.header (word (sp.header.fragmented_space + (s.size - n)))) id s t
      (copy_at s.offset (take n doc) sp.page.bytes) (some doc) w
      (record {
        found = h;
        same_count = refl;
        same_start = refl;
        start_end = w.in_order;
        end_falls = omega arith;
        still_fits =
            omega (arith, live_size-set_slot id s t sp.slots h, old_size, new_size, w.fits);
        long = length-copy_at s.offset (take n doc) sp.page.bytes ∙ w.whole;
        within = λ l. (within.0, omega (arith, within.1, fits));
        away = every (λ r p. narrower s t r d refl fits p) sp.slots;
        untouched = every (λ r p. outside s n (take n doc) sp.page.bytes r d fits size p) sp.slots;
        holds =
            content-live _ t d
            ∙ ap some (
                slice-copy_at_self s.offset n (take n doc) sp.page.bytes size
                  (omega (arith, within.1, fits, w.whole))
                ∙ all);
      })

pub move_slot-Written :
    (sp : SlottedPage) (id : ℕ) (s : SlotEntry) (doc : List ℕ)
    → IsSlotted sp
    → slot_at id sp.slots ≡ some s
    → is_deleted s ≡ false
    → sp.header.free_space_start + length doc ≤ sp.header.free_space_end
    → Written sp id doc (move_slot sp id s (length doc) doc true)
unfolding move_slot
move_slot-Written sp id s doc w h d room =
    let n = length doc in
    let e = sp.header.free_space_end in
    let off : minus_word e n ≡ e - n =
      minus_word-eq e n (omega (arith, room)) (omega (arith, w.fits)) in
    let t : SlotEntry = record { offset = minus_word e n; size = n; flags = set_updated s.flags } in
    let all : take n doc ≡ doc = take_all n doc refl in
    let size : length (take n doc) ≡ n = ap length all in
    let alive : is_deleted t ≡ false = set_updated-keeps s.flags d in
    let new_size : bytes_held t ≡ n = rw alive refl in
    let old : Agree e sp.page.bytes (copy_at (minus_word e n) (take n doc) sp.page.bytes) =
      Agree-later (minus_word e n + length (take n doc)) e _ _ (omega (arith, off, size, room))
        (Agree-copy_at (minus_word e n) (take n doc) sp.page.bytes) in
    write_slot-IsSlotted sp (record sp.header { free_space_end = minus_word e n }) id s t
      (copy_at (minus_word e n) (take n doc) sp.page.bytes) (some doc) w
      (record {
        found = h;
        same_count = refl;
        same_start = refl;
        start_end = omega (arith, off, room);
        end_falls = omega (arith, off);
        still_fits =
            omega (arith, live_size-set_slot id s t sp.slots h, new_size, off, room, w.fits);
        long = length-copy_at (minus_word e n) (take n doc) sp.page.bytes ∙ w.whole;
        within = λ l. (omega arith, omega (arith, off, room, w.fits));
        away =
            All-imp (λ r p q. p) sp.slots
              (Apart-front t e sp.slots (omega (arith, off, room)) w.inside);
        untouched = All-imp (λ r i p. content-Agree e _ _ r old i) sp.slots w.inside;
        holds =
            content-live _ t alive
            ∙ ap some (
                slice-copy_at_self (minus_word e n) n (take n doc) sp.page.bytes size
                  (omega (arith, off, room, w.fits, w.whole))
                ∙ all);
      })
