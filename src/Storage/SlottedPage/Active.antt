-- ===== src/Storage/SlottedPage/Active.antt =====
-- The slots of a page of pkg/storage/slotted_page.go that are not deleted.
use laura_db.Prelude.{
  ℕ, ◌+◌, ◌≤◌, ◌≡◌, inl, inr, refl, ap₂, false, Option, none, some, List, [], ◌∷◌, length, All,
  arith, Bool-cases, if◌then◌else◌,
}
use laura_db.Storage.SlottedPage.{SlotEntry, is_deleted}
use laura_db.Storage.SlottedPage.Slots.{active_slots}
use laura_db.Storage.SlottedPage.View.{content-live, contents_of, live_size}

-- The contents of the slots that hold something
unfoldable pub live {ℓ} : {A : Type ℓ} → List (Option A) → List (Option A)
live [] = []
live (none ∷ xs) = live xs
live (some x ∷ xs) = some x ∷ live xs

abbrev pub AllLive : List SlotEntry → Type 0
AllLive ss = All (λ s. is_deleted s ≡ false) ss

-- The active slots: what they hold, and where
pub active_slots-AllLive : (ss : List SlotEntry) → AllLive (active_slots ss)
unfolding active_slots
active_slots-AllLive [] = tt
active_slots-AllLive (s ∷ ss) = elim (Bool-cases (is_deleted s)) [
  | inl d ↦ rw d (active_slots-AllLive ss)
  | inr d ↦ rw d (d, active_slots-AllLive ss)
]

pub contents_of-active_slots :
    (b : List ℕ) (ss : List SlotEntry) → contents_of b (active_slots ss) ≡ live (contents_of b ss)
unfolding active_slots live
contents_of-active_slots b [] = refl
contents_of-active_slots b (s ∷ ss) = elim (Bool-cases (is_deleted s)) [
  | inl d ↦ rw d (contents_of-active_slots b ss)
  | inr d ↦ rw d (ap₂ ◌∷◌ (content-live b s d) (contents_of-active_slots b ss))
]

pub size_live :
    (s : SlotEntry) → is_deleted s ≡ false → (if is_deleted s then 0 else s.size) ≡ s.size
size_live s d = rw d refl

pub live_size-active_slots : (ss : List SlotEntry) → live_size (active_slots ss) ≡ live_size ss
unfolding active_slots
live_size-active_slots [] = refl
live_size-active_slots (s ∷ ss) = elim (Bool-cases (is_deleted s)) [
  | inl d ↦ rw d (omega (arith, live_size-active_slots ss))
  | inr d ↦ rw d (ap₂ (λ m n. m + n) (size_live s d) (live_size-active_slots ss))
]

pub length-active_slots : (ss : List SlotEntry) → length (active_slots ss) ≤ length ss
unfolding active_slots
length-active_slots [] = omega arith
length-active_slots (s ∷ ss) = ground (arith, length-active_slots ss)

pub All-active_slots {ℓ} :
    (P : SlotEntry → Type ℓ) (ss : List SlotEntry) → All P ss → All P (active_slots ss)
unfolding active_slots
All-active_slots P [] a = tt
All-active_slots P (s ∷ ss) a = ground (arith, All-active_slots P ss a.1)
