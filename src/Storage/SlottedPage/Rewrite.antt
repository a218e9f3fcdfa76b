-- ===== src/Storage/SlottedPage/Rewrite.antt =====
-- One slot of a page of pkg/storage/slotted_page.go is replaced.
use mathlib.Core.Option.{some-injective}
use laura_db.Prelude.{
  ℕ, zero, suc, ◌+◌, ◌*◌, ◌≤◌, ◌<◌, ◌≡◌, refl, ap, ap₂, sym, ◌∙◌, subst, Option, some, List, [],
  ◌∷◌, length, All, arith, if◌then◌else◌,
}
use laura_db.Storage.SlottedPage.{
  SlotEntry, is_deleted, SlottedPageHeader, SlottedPage, serialize_header, serialize_slot,
}
use laura_db.Storage.SlottedPage.Slots.{slot_at, set_slot, write_slot}
use laura_db.Storage.SlottedPage.View.{
  content, contents_of, contents, live_size, Inside, Apart, AllApart, IsSlotted, Agree, Agree-later,
  content-Agree, Inside-below, Apart-sym,
}
use laura_db.Storage.SlottedPage.Reads.{set_entry, All-slot_at}
use laura_db.Storage.SlottedPage.Insertion.{Agree-directory, length-directory}

length-set_slot :
    (n : ℕ) (t : SlotEntry) (ss : List SlotEntry) → length (set_slot n t ss) ≡ length ss
length-set_slot n t [] = refl
length-set_slot zero t (s ∷ ss) = refl
length-set_slot (suc n) t (s ∷ ss) = ap suc (length-set_slot n t ss)

length_of_slot_at :
    (n : ℕ) (ss : List SlotEntry) (s : SlotEntry) → slot_at n ss ≡ some s → n < length ss
length_of_slot_at n [] s h = cc
length_of_slot_at zero (t ∷ ss) s h = omega arith
length_of_slot_at (suc n) (t ∷ ss) s h = omega (arith, length_of_slot_at n ss s h)

All-set_slot {ℓ} :
    (P : SlotEntry → Type ℓ) (n : ℕ) (t : SlotEntry) (ss : List SlotEntry)
    → P t
    → All P ss
    → All P (set_slot n t ss)
All-set_slot P n t [] p a = tt
All-set_slot P zero t (s ∷ ss) p a = (p, a.1)
All-set_slot P (suc n) t (s ∷ ss) p a = (a.0, All-set_slot P n t ss p a.1)

abbrev pub bytes_held : SlotEntry → ℕ
bytes_held s = if is_deleted s then 0 else s.size

pub live_size-set_slot :
    (n : ℕ) (s t : SlotEntry) (ss : List SlotEntry)
    → slot_at n ss ≡ some s
    → live_size (set_slot n t ss) + bytes_held s ≡ live_size ss + bytes_held t
live_size-set_slot n s t [] h = cc
live_size-set_slot zero s t (r ∷ ss) h = omega (arith, ap bytes_held (some-injective _ _ h))
live_size-set_slot (suc n) s t (r ∷ ss) h = omega (arith, live_size-set_slot n s t ss h)

AllApart-set_slot :
    (n : ℕ) (s t : SlotEntry) (ss : List SlotEntry)
    → slot_at n ss ≡ some s
    → All (λ r. Apart s r → Apart t r) ss
    → AllApart ss
    → AllApart (set_slot n t ss)
AllApart-set_slot n s t [] h f a = tt
AllApart-set_slot zero s t (r ∷ ss) h f a =
    (apart ss f.1 (subst (λ x. All (Apart x) ss) (some-injective _ _ h) a.0), a.1)
  where
    apart :
        (ss : List SlotEntry)
        → All (λ r. Apart s r → Apart t r) ss
        → All (Apart s) ss
        → All (Apart t) ss
    apart [] f a = tt
    apart (r ∷ ss) f a = (f.0 a.0, apart ss f.1 a.1)
AllApart-set_slot (suc n) s t (r ∷ ss) h f a =
    let away : Apart t r = f.0 (Apart-sym r s (All-slot_at (Apart r) n ss s h a.0)) in
    (All-set_slot (Apart r) n t ss (Apart-sym t r away) a.0, AllApart-set_slot n s t ss h f.1 a.1)

contents_of-set_slot :
    (b c : List ℕ) (n : ℕ) (s t : SlotEntry) (ss : List SlotEntry)
    → slot_at n ss ≡ some s
    → All (λ r. Apart s r → content c r ≡ content b r) ss
    → AllApart ss
    → contents_of c (set_slot n t ss) ≡ set_entry n (content c t) (contents_of b ss)
contents_of-set_slot b c n s t [] h f a = refl
contents_of-set_slot b c zero s t (r ∷ ss) h f a =
    ap (◌∷◌ (content c t)) (same ss f.1 (subst (λ x. All (Apart x) ss) (some-injective _ _ h) a.0))
  where
    same :
        (ss : List SlotEntry)
        → All (λ r. Apart s r → content c r ≡ content b r) ss
        → All (Apart s) ss
        → contents_of c ss ≡ contents_of b ss
    same [] f a = refl
    same (r ∷ ss) f a = ap₂ ◌∷◌ (f.0 a.0) (same ss f.1 a.1)
contents_of-set_slot b c (suc n) s t (r ∷ ss) h f a =
    ap₂ ◌∷◌ (f.0 (Apart-sym r s (All-slot_at (Apart r) n ss s h a.0)))
      (contents_of-set_slot b c n s t ss h f.1 a.1)

-- A slot and data for it, which leave what the other slots hold
pub record Rewrite (sp : SlottedPage) (h : SlottedPageHeader) (id : ℕ) (s t : SlotEntry)
    (b : List ℕ) (x : Option (List ℕ)) : Type 0 where
  pub found : slot_at id sp.slots ≡ some s
  pub same_count : h.slot_count ≡ sp.header.slot_count
  pub same_start : h.free_space_start ≡ sp.header.free_space_start
  pub start_end : h.free_space_start ≤ h.free_space_end
  pub end_falls : h.free_space_end ≤ sp.header.free_space_end
  pub still_fits : h.free_space_end + live_size (set_slot id t sp.slots) ≤ 4080
  pub long : length b ≡ 4080
  pub within : Inside h.free_space_end t
  pub away : All (λ r. Apart s r → Apart t r) sp.slots
  pub untouched : All (λ r. Apart s r → content b r ≡ content sp.page.bytes r) sp.slots
  pub holds : content b t ≡ x

both :
    (e : ℕ) (s : SlotEntry) (b c d : List ℕ) (ss : List SlotEntry)
    → Agree e c d
    → All (Inside e) ss
    → All (λ r. Apart s r → content c r ≡ content b r) ss
    → All (λ r. Apart s r → content d r ≡ content b r) ss
both e s b c d [] g i u = tt
both e s b c d (r ∷ ss) g i u =
    ((λ p. content-Agree e c d r g i.0 ∙ u.0 p), both e s b c d ss g i.1 u.1)

pub write_slot-IsSlotted :
    (sp : SlottedPage) (h : SlottedPageHeader) (id : ℕ) (s t : SlotEntry) (b : List ℕ)
    (x : Option (List ℕ))
    → IsSlotted sp
    → Rewrite sp h id s t b x
    → let u = write_slot sp h id t (set_slot id t sp.slots) b in
      IsSlotted u × (contents u ≡ set_entry id x (contents sp))
write_slot-IsSlotted sp h id s t b x w r =
    let below : id < length sp.slots = length_of_slot_at id sp.slots s r.found in
    let agree : Agree h.free_space_end b (serialize_header h (serialize_slot id t b)) =
      Agree-later (17 + id * 5) h.free_space_end _ _
        (omega (arith, below, r.start_end, r.same_start, w.directory)) (Agree-directory id h t b) in
    let inside =
      Inside-below sp.header.free_space_end h.free_space_end sp.slots r.end_falls w.inside in
    let count = length-set_slot id t sp.slots in
    (
      record {
        whole = length-directory id h t b ∙ r.long;
        counted = r.same_count ∙ w.counted ∙ sym count;
        directory = omega (arith, r.same_start, w.directory, count);
        in_order = r.start_end;
        fits = r.still_fits;
        inside = All-set_slot (Inside h.free_space_end) id t sp.slots r.within inside;
        apart = AllApart-set_slot id s t sp.slots r.found r.away w.apart;
      },
      contents_of-set_slot sp.page.bytes _ id s t sp.slots r.found
            (both h.free_space_end s sp.page.bytes b _ sp.slots agree inside r.untouched) w.apart
          ∙ ap (λ y. set_entry id y (contents sp))
              (content-Agree h.free_space_end b _ t agree r.within ∙ r.holds),
    )
