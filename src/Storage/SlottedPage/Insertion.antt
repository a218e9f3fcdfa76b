-- ===== src/Storage/SlottedPage/Insertion.antt =====
-- InsertSlot of pkg/storage/slotted_page.go against the contents of the slots.
use laura_db.Prelude.{
  ℕ, suc, ◌+◌, ◌-◌, ◌*◌, ◌≤◌, ◌≡◌, ap, ap₂, sym, ◌∙◌, some, List, [], ◌∷◌, ◌++◌, length,
  length-append, take, length-take, All, All-append, arith,
}
use laura_db.Storage.Bytes.{copy_at, slice, length-copy_at, slice-copy_at_self}
use laura_db.Storage.SlottedPage.{
  word, minus_word, SlotEntry, SlottedPageHeader, SlottedPage, serialize_header, serialize_slot,
}
use laura_db.Storage.SlottedPage.Slots.{add_slot}
use laura_db.Storage.SlottedPage.View.{
  contents, live_size, Inside, Apart, AllApart, IsSlotted, Agree, Agree-trans, Agree-later,
  Agree-copy_at, Agree-serialize_header, length-serialize_header, Agree-serialize_slot,
  length-serialize_slot, contents_of-Agree, contents_of-append, Inside-below, Apart-front,
  Apart-sym,
}

live_size-append : (ss ts : List SlotEntry) → live_size (ss ++ ts) ≡ live_size ss + live_size ts
live_size-append [] ts = omega arith
live_size-append (s ∷ ss) ts = omega (arith, live_size-append ss ts)

AllApart-last :
    (ss : List SlotEntry) (t : SlotEntry) → AllApart ss → All (Apart t) ss → AllApart (ss ++ t ∷ [])
AllApart-last [] t a f = (tt, tt)
AllApart-last (s ∷ ss) t a f =
    (All-append (Apart s) ss (t ∷ []) a.0 (Apart-sym t s f.0, tt), AllApart-last ss t a.1 f.1)

-- The header and a slot are written in front of the data.
pub Agree-directory :
    (id : ℕ) (h : SlottedPageHeader) (s : SlotEntry) (b : List ℕ)
    → Agree (17 + id * 5) b (serialize_header h (serialize_slot id s b))
Agree-directory id h s b =
    Agree-trans _ b (serialize_slot id s b) _ (Agree-serialize_slot id s b)
      (Agree-later 12 (17 + id * 5) _ _ (omega arith) (Agree-serialize_header h _))

pub length-directory :
    (id : ℕ) (h : SlottedPageHeader) (s : SlotEntry) (b : List ℕ)
    → length (serialize_header h (serialize_slot id s b)) ≡ length b
length-directory id h s b = length-serialize_header h _ ∙ length-serialize_slot id s b

pub minus_word-eq : (a b : ℕ) → b ≤ a → a ≤ 4080 → minus_word a b ≡ a - b
minus_word-eq a b h k = omega arith

-- A page with room for the data and a slot entry
abbrev pub HasRoom : SlottedPage → ℕ → Type 0
HasRoom sp n = sp.header.free_space_start + 5 + n ≤ sp.header.free_space_end

pub add_slot-IsSlotted :
    (sp : SlottedPage) (n : ℕ) (doc : List ℕ)
    → IsSlotted sp
    → HasRoom sp n
    → n ≤ length doc
    → IsSlotted (add_slot sp n doc)
      × (contents (add_slot sp n doc) ≡ contents sp ++ some (take n doc) ∷ [])
unfolding add_slot
add_slot-IsSlotted sp n doc w room h =
    let e = sp.header.free_space_end in
    let top : e ≤ 4080 = omega (arith, w.fits) in
    let off : minus_word e n ≡ e - n = minus_word-eq e n (omega (arith, room)) top in
    let count : word (sp.header.slot_count + 1) ≡ suc (length sp.slots) =
      omega (arith, w.counted, w.directory, room, top) in
    let slot : SlotEntry = record { offset = minus_word e n; size = n; flags = 0 } in
    let b = copy_at (minus_word e n) (take n doc) sp.page.bytes in
    let added : length (sp.slots ++ slot ∷ []) ≡ suc (length sp.slots) =
      omega (arith, length-append sp.slots (slot ∷ [])) in
    let size : length (take n doc) ≡ n = length-take n doc h in
    let wide : 17 + sp.header.slot_count * 5 ≤ minus_word e n =
      omega (arith, off, w.counted, w.directory, room) in
    let directory : Agree (17 + sp.header.slot_count * 5) b (add_slot sp n doc).page.bytes =
      Agree-directory sp.header.slot_count (add_slot sp n doc).header slot b in
    let old : Agree e sp.page.bytes (add_slot sp n doc).page.bytes =
      Agree-trans e sp.page.bytes b _
        (Agree-later (minus_word e n + length (take n doc)) e _ _ (omega (arith, off, size))
          (Agree-copy_at (minus_word e n) (take n doc) sp.page.bytes))
        (Agree-later _ e _ _ (omega (arith, wide, off)) directory) in
    let new : slice (minus_word e n) n (add_slot sp n doc).page.bytes ≡ take n doc =
      directory (minus_word e n) n wide
      ∙ slice-copy_at_self (minus_word e n) n (take n doc) sp.page.bytes size
          (omega (arith, off, w.whole, room, top)) in
    (
      record {
        whole =
            length-directory sp.header.slot_count (add_slot sp n doc).header slot b
            ∙ length-copy_at (minus_word e n) (take n doc) sp.page.bytes
            ∙ w.whole;
        counted = count ∙ sym added;
        directory = omega (arith, count, added, w.directory, room, top);
        in_order = omega (arith, count, off, w.directory, room, top);
        fits = omega (arith, off, w.fits, room, live_size-append sp.slots (slot ∷ []));
        inside =
            All-append (Inside (minus_word e n)) sp.slots (slot ∷ [])
              (Inside-below e (minus_word e n) sp.slots (omega (arith, off)) w.inside)
              ((λ d. (omega arith, omega (arith, off, room, top))), tt);
        apart =
            AllApart-last sp.slots slot w.apart
              (Apart-front slot e sp.slots (omega (arith, off, room)) w.inside);
      },
      contents_of-append (add_slot sp n doc).page.bytes sp.slots (slot ∷ [])
          ∙ ap₂ (λ xs ys. xs ++ ys) (contents_of-Agree e _ _ sp.slots old w.inside)
              (ap (λ x. some x ∷ []) new),
    )
