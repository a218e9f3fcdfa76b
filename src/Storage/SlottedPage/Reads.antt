-- ===== src/Storage/SlottedPage/Reads.antt =====
-- GetSlot of pkg/storage/slotted_page.go against the contents of the slots.
use mathlib.Core.Option.{some-injective}
use laura_db.Prelude.{
  ℕ, zero, suc, ◌≤◌, ◌≡◌, inl, inr, refl, ap, sym, ◌∙◌, subst, false, Option, none, some, List, [],
  ◌∷◌, length, All, arith, leb, leb→le, Bool-cases, Option-cases,
}
use laura_db.Storage.Bytes.{slice, zeros, length-zeros, copy_full}
use laura_db.Storage.Page.{Result, ok, err, invalid_slot, slot_is_deleted}
use laura_db.Storage.SlottedPage.{SlotEntry, is_deleted, SlottedPage}
use laura_db.Storage.SlottedPage.Slots.{slot_at, get_slot}
use laura_db.Storage.SlottedPage.View.{
  content, content-live, content-dead, contents_of, contents, Inside, IsSlotted,
}
use laura_db.Storage.SlottedPage.Compaction.{length-slice}

-- What a slot number finds
abbrev pub entry_at : ℕ → List (Option (List ℕ)) → Option (Option (List ℕ))
entry_at n [] = none
entry_at zero (x ∷ xs) = some x
entry_at (suc n) (x ∷ xs) = entry_at n xs

-- What GetSlot makes of it
abbrev pub read_entry : Option (Option (List ℕ)) → Result (List ℕ)
read_entry none = err invalid_slot
read_entry (some none) = err slot_is_deleted
read_entry (some (some doc)) = ok doc

abbrev pub set_entry : ℕ → Option (List ℕ) → List (Option (List ℕ)) → List (Option (List ℕ))
set_entry n x [] = []
set_entry zero x (y ∷ ys) = x ∷ ys
set_entry (suc n) x (y ∷ ys) = y ∷ set_entry n x ys

pub length-contents_of : (b : List ℕ) (ss : List SlotEntry) → length (contents_of b ss) ≡ length ss
length-contents_of b [] = refl
length-contents_of b (s ∷ ss) = ap suc (length-contents_of b ss)

pub slot_at-past : (n : ℕ) (ss : List SlotEntry) → length ss ≤ n → slot_at n ss ≡ none
slot_at-past n [] h = refl
slot_at-past zero (s ∷ ss) h = absurd (omega (arith, h))
slot_at-past (suc n) (s ∷ ss) h = slot_at-past n ss (omega (arith, h))

pub slot_at-within : (n : ℕ) (ss : List SlotEntry) → slot_at n ss ≡ none → length ss ≤ n
slot_at-within n [] h = omega arith
slot_at-within zero (s ∷ ss) h = cc
slot_at-within (suc n) (s ∷ ss) h = omega (arith, slot_at-within n ss h)

pub entry_at-none :
    (b : List ℕ) (n : ℕ) (ss : List SlotEntry)
    → slot_at n ss ≡ none
    → entry_at n (contents_of b ss) ≡ none
entry_at-none b n [] h = refl
entry_at-none b zero (s ∷ ss) h = cc
entry_at-none b (suc n) (s ∷ ss) h = entry_at-none b n ss h

pub entry_at-some :
    (b : List ℕ) (n : ℕ) (ss : List SlotEntry) (s : SlotEntry)
    → slot_at n ss ≡ some s
    → entry_at n (contents_of b ss) ≡ some (content b s)
entry_at-some b n [] s h = cc
entry_at-some b zero (t ∷ ss) s h = ap (λ x. some (content b x)) (some-injective _ _ h)
entry_at-some b (suc n) (t ∷ ss) s h = entry_at-some b n ss s h

pub All-slot_at {ℓ} :
    (P : SlotEntry → Type ℓ) (n : ℕ) (ss : List SlotEntry) (s : SlotEntry)
    → slot_at n ss ≡ some s
    → All P ss
    → P s
All-slot_at P n [] s h a = cc
All-slot_at P zero (t ∷ ss) s h a = subst P (some-injective _ _ h) a.0
All-slot_at P (suc n) (t ∷ ss) s h a = All-slot_at P n ss s h a.1

pub slot_at-counted :
    (sp : SlottedPage) (id : ℕ) (s : SlotEntry)
    → IsSlotted sp
    → slot_at id sp.slots ≡ some s
    → leb sp.header.slot_count id ≡ false
slot_at-counted sp id s w h = elim (Bool-cases (leb sp.header.slot_count id)) [
  | inr e ↦ e
  | inl e ↦ let past = slot_at-past id sp.slots (omega (arith, leb→le _ _ e, w.counted)) in cc
]

-- GetSlot gives what the slot of a well-formed page holds, and refuses a number that no slot has
-- and a deleted slot.
pub get_slot-read_entry :
    (sp : SlottedPage) (id : ℕ)
    → IsSlotted sp
    → get_slot sp id ≡ read_entry (entry_at id (contents sp))
unfolding get_slot
get_slot-read_entry sp id w = elim (Option-cases (slot_at id sp.slots)) [
  | inl h ↦ elim (Bool-cases (leb sp.header.slot_count id)) [
    | inl e ↦ rw (e, get_slot) (sym (ap read_entry (entry_at-none sp.page.bytes id sp.slots h)))
    | inr e ↦ let past = slot_at-within id sp.slots h in absurd (ground (arith, e, past, w.counted))
  ]
  | inr (s, h) ↦
      let found = entry_at-some sp.page.bytes id sp.slots s h in
      let within = All-slot_at (Inside sp.header.free_space_end) id sp.slots s h w.inside in
      let counted = slot_at-counted sp id s w h in
      elim (Bool-cases (is_deleted s)) [
        | inl d ↦
            rw (counted, h, d, get_slot)
              (sym (ap read_entry (found ∙ ap some (content-dead sp.page.bytes s d))))
        | inr d ↦
            let doc = slice s.offset s.size sp.page.bytes in
            let size : length doc ≡ s.size =
              length-slice s.offset s.size sp.page.bytes (omega (arith, w.whole, (within d).1)) in
            rw (counted, h, d, get_slot)
              (ap ok (copy_full doc (zeros s.size) (size ∙ sym (length-zeros s.size)))
                ∙ sym (ap read_entry (found ∙ ap some (content-live sp.page.bytes s d))))
      ]
]
