-- ===== src/Storage/SlottedPage/Compaction.antt =====
-- Compact of pkg/storage/slotted_page.go: the data that the slots hold stays, the deleted slots go.
use laura_db.Prelude.{
  ℕ, suc, ◌+◌, ◌-◌, ◌*◌, ◌≤◌, ◌≡◌, inl, inr, refl, ap, ap₂, sym, ◌∙◌, some, List, [], ◌∷◌, length,
  length-take, length-drop, drop, All, arith, Bool-cases, ◌==◌, if◌then◌else◌,
}
use laura_db.Storage.Bytes.{
  copy, copy_at, slice, length-zeros, length-copy_at, slice-copy_at_self, copy_full,
}
use laura_db.Storage.SlottedPage.{
  minus_word, SlotEntry, is_deleted, SlottedPage, serialize_header, serialize_slot,
}
use laura_db.Storage.SlottedPage.Slots.{
  active_slots, relocate, serialize_slots, compact, reset, rebuild,
}
use laura_db.Storage.SlottedPage.View.{
  content-live, contents_of, contents, live_size, Inside, AllApart, IsSlotted, Agree, Agree-trans,
  Agree-later, Agree-copy_at, Agree-serialize_header, length-serialize_header, Agree-serialize_slot,
  length-serialize_slot, contents_of-Agree, Inside-below, Apart-front,
}
use laura_db.Storage.SlottedPage.Active.{
  live, AllLive, active_slots-AllLive, contents_of-active_slots, live_size-active_slots,
  length-active_slots, All-active_slots,
}
use laura_db.Storage.SlottedPage.Insertion.{minus_word-eq}

-- What the loop makes: the slots in turn down from the end of the page, with the same data
abbrev Relocated : List ℕ → List SlotEntry → ℕ × List ℕ × List SlotEntry → Type 0
Relocated b ss r =
    (r.0 + live_size ss ≡ 4080)
    × (length r.1 ≡ 4080)
    × (length r.2 ≡ length ss)
    × (live_size r.2 ≡ live_size ss)
    × (contents_of r.1 r.2 ≡ contents_of b ss)
    × All (Inside r.0) r.2
    × AllApart r.2

pub length-slice : (off n : ℕ) (b : List ℕ) → off + n ≤ length b → length (slice off n b) ≡ n
unfolding slice
length-slice off n b h = length-take n (drop off b) (omega (arith, length-drop off b))

relocate-Relocated :
    (b : List ℕ) (ss : List SlotEntry)
    → length b ≡ 4080
    → live_size ss ≤ 4080
    → All (Inside 0) ss
    → AllLive ss
    → Relocated b ss (relocate b ss)
unfolding relocate
relocate-Relocated b [] whole fits i a =
    (omega (arith, whole), length-zeros (length b) ∙ whole, refl, refl, refl, tt, tt)
relocate-Relocated b (s ∷ ss) whole fits i a =
    let size_of : (if is_deleted s then 0 else s.size) ≡ s.size = rw a.0 refl in
    let rest = relocate b ss in
    let (end_of, long, same_count, same_size, same, within, separate) =
      relocate-Relocated b ss whole (omega (arith, fits)) i.1 a.1 in
    let off : minus_word rest.0 s.size ≡ rest.0 - s.size =
      minus_word-eq rest.0 s.size (omega (arith, end_of, fits, size_of)) (omega (arith, end_of)) in
    let place = minus_word rest.0 s.size in
    let moved : SlotEntry = record { offset = place; size = s.size; flags = s.flags } in
    let doc = slice s.offset s.size b in
    let size : length doc ≡ s.size =
      length-slice s.offset s.size b (omega (arith, whole, (i.0 a.0).1)) in
    let old : Agree rest.0 rest.1 (copy_at place doc rest.1) =
      Agree-later (place + length doc) rest.0 _ _ (omega (arith, off, size, end_of, fits, size_of))
        (Agree-copy_at place doc rest.1) in
    let new : slice place s.size (copy_at place doc rest.1) ≡ doc =
      slice-copy_at_self place s.size doc rest.1 size
        (omega (arith, off, long, end_of, fits, size_of)) in
    (
      omega (arith, off, end_of, fits, size_of),
      length-copy_at place doc rest.1 ∙ long,
      ap suc same_count,
      ap (λ n. (if is_deleted s then 0 else s.size) + n) same_size,
      ap₂ ◌∷◌ (content-live _ moved a.0 ∙ ap some new ∙ sym (content-live b s a.0))
          (contents_of-Agree rest.0 rest.1 _ rest.2 old within ∙ same),
      (
        (λ d. (omega arith, omega (arith, off, end_of, fits, size_of))),
        Inside-below rest.0 place rest.2 (omega (arith, off)) within,
      ),
      (
        Apart-front moved rest.0 rest.2 (omega (arith, off, end_of, fits, size_of)) within,
        separate,
      ),
    )

serialize_slots-Agree :
    (i : ℕ) (ss : List SlotEntry) (b : List ℕ)
    → Agree (12 + (i + length ss) * 5) b (serialize_slots i ss b)
unfolding serialize_slots
serialize_slots-Agree i [] b off n h = refl
serialize_slots-Agree i (s ∷ ss) b off n h =
    serialize_slots-Agree (suc i) ss (serialize_slot i s b) off n (omega (arith, h))
    ∙ Agree-serialize_slot i s b off n (omega (arith, h))

length-serialize_slots :
    (i : ℕ) (ss : List SlotEntry) (b : List ℕ) → length (serialize_slots i ss b) ≡ length b
unfolding serialize_slots
length-serialize_slots i [] b = refl
length-serialize_slots i (s ∷ ss) b =
    length-serialize_slots (suc i) ss (serialize_slot i s b) ∙ length-serialize_slot i s b

-- A page that a compaction gives for a page
abbrev Compacted : SlottedPage → SlottedPage → Type 0
Compacted sp u = IsSlotted u × (contents u ≡ live (contents sp)) × (u.header.fragmented_space ≡ 0)

reset-Compacted :
    (sp : SlottedPage) → IsSlotted sp → length (active_slots sp.slots) ≡ 0 → Compacted sp (reset sp)
unfolding reset
reset-Compacted sp w h = (
  record {
    whole = length-serialize_header (reset sp).header sp.page.bytes ∙ w.whole;
    counted = refl;
    directory = refl;
    in_order = omega (arith, w.whole);
    fits = omega (arith, w.whole);
    inside = tt;
    apart = tt;
  },
  nothing sp.page.bytes (active_slots sp.slots) h ∙ contents_of-active_slots sp.page.bytes sp.slots,
  refl,
)
  where
    nothing : (b : List ℕ) (ss : List SlotEntry) → length ss ≡ 0 → [] ≡ contents_of b ss
    nothing b [] h = refl
    nothing b (s ∷ ss) h = absurd (omega (arith, h))

rebuild-Compacted :
    (sp : SlottedPage) → IsSlotted sp → Compacted sp (rebuild sp (active_slots sp.slots))
unfolding rebuild
rebuild-Compacted sp w =
    let active = active_slots sp.slots in
    let b = sp.page.bytes in
    let few = length-active_slots sp.slots in
    let (end_of, long, same_count, same_size, same, within, separate) =
      relocate-Relocated b active w.whole (omega (arith, live_size-active_slots sp.slots, w.fits))
        (Inside-below sp.header.free_space_end 0 active (omega arith)
          (All-active_slots _ sp.slots w.inside))
        (active_slots-AllLive sp.slots) in
    let r = relocate b active in
    let h = (rebuild sp active).header in
    let all : copy r.1 b ≡ r.1 = copy_full r.1 b (long ∙ sym w.whole) in
    let agree : Agree r.0 (copy r.1 b) (rebuild sp active).page.bytes =
      Agree-trans r.0 (copy r.1 b) (serialize_header h (copy r.1 b)) _
        (Agree-later 12 r.0 _ _
          (omega
            (arith, few, w.directory, w.in_order, w.fits, end_of, live_size-active_slots sp.slots))
          (Agree-serialize_header h (copy r.1 b)))
        (Agree-later (12 + (0 + length r.2) * 5) r.0 _ _
          (omega (
            arith,
            same_count,
            few,
            w.directory,
            w.in_order,
            w.fits,
            end_of,
            live_size-active_slots sp.slots,
          ))
          (serialize_slots-Agree 0 r.2 _)) in
    (
      record {
        whole =
            length-serialize_slots 0 r.2 _
            ∙ length-serialize_header h (copy r.1 b)
            ∙ ap length all
            ∙ long;
        counted = omega (arith, same_count, few, w.directory, w.in_order, w.fits);
        directory = omega (arith, same_count, few, w.directory, w.in_order, w.fits);
        in_order = omega (
          arith,
          same_count,
          few,
          w.directory,
          w.in_order,
          w.fits,
          end_of,
          live_size-active_slots sp.slots,
        );
        fits = omega (arith, end_of, same_size);
        inside = within;
        apart = separate;
      },
      contents_of-Agree r.0 (copy r.1 b) _ r.2 agree within
          ∙ ap (λ x. contents_of x r.2) all
          ∙ same
          ∙ contents_of-active_slots b sp.slots,
      refl,
    )

-- A compaction of a well-formed page gives a well-formed page whose slots hold the data of the
-- active slots in the same order, without fragmented space; a slot may have another number then.
pub compact-live :
    (sp : SlottedPage)
    → IsSlotted sp
    → IsSlotted (compact sp)
      × (contents (compact sp) ≡ live (contents sp))
      × ((compact sp).header.fragmented_space ≡ 0)
unfolding compact
compact-live sp w = elim (Bool-cases (length (active_slots sp.slots) == 0)) [
  | inl h ↦ rw (h, compact) (reset-Compacted sp w (ground (arith, h)))
  | inr h ↦ rw (h, compact) (rebuild-Compacted sp w)
]
