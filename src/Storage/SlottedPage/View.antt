-- ===== src/Storage/SlottedPage/View.antt =====
-- pkg/storage/slotted_page.go: what the slots of a page hold, and which pages are well formed.
use laura_db.Prelude.{
  ℕ, ◌+◌, ◌*◌, ◌≤◌, ◌≡◌, ◌⊎◌, inl, inr, refl, ap, ap₂, ◌∙◌, true, false, Bool-cases, Option, none,
  some, List, [], ◌∷◌, ◌++◌, length, All, if◌then◌else◌, arith,
}
use laura_db.Storage.Bytes.{
  copy_at, slice, le_bytes, length-le_bytes, length-copy_at, slice-copy_at_behind,
}
use laura_db.Storage.SlottedPage.{
  SlotEntry, is_deleted, SlottedPageHeader, SlottedPage, put_u16, serialize_header, serialize_slot,
}

-- What a client reads in a slot
abbrev pub content : List ℕ → SlotEntry → Option (List ℕ)
content b s = if is_deleted s then none else some (slice s.offset s.size b)

abbrev pub contents_of : List ℕ → List SlotEntry → List (Option (List ℕ))
contents_of b [] = []
contents_of b (s ∷ ss) = content b s ∷ contents_of b ss

abbrev pub contents : SlottedPage → List (Option (List ℕ))
contents sp = contents_of sp.page.bytes sp.slots

-- How many bytes the slots hold
abbrev pub live_size : List SlotEntry → ℕ
live_size [] = 0
live_size (s ∷ ss) = (if is_deleted s then 0 else s.size) + live_size ss

-- The data of the slot lies behind the free space and in the page.
abbrev pub Inside : ℕ → SlotEntry → Type 0
Inside e s = is_deleted s ≡ false → (e ≤ s.offset) × (s.offset + s.size ≤ 4080)

-- The data of the two slots does not overlap.
abbrev pub Apart : SlotEntry → SlotEntry → Type 0
Apart s t =
    is_deleted s ≡ false
    → is_deleted t ≡ false
    → (s.offset + s.size ≤ t.offset) ⊎ (t.offset + t.size ≤ s.offset)

abbrev pub AllApart : List SlotEntry → Type 0
AllApart [] = Unit
AllApart (s ∷ ss) = All (Apart s) ss × AllApart ss

pub record IsSlotted (sp : SlottedPage) : Type 0 where
  pub whole : length sp.page.bytes ≡ 4080
  pub counted : sp.header.slot_count ≡ length sp.slots
  pub directory : sp.header.free_space_start ≡ 12 + length sp.slots * 5
  pub in_order : sp.header.free_space_start ≤ sp.header.free_space_end
  pub fits : sp.header.free_space_end + live_size sp.slots ≤ 4080
  pub inside : All (Inside sp.header.free_space_end) sp.slots
  pub apart : AllApart sp.slots

-- The bytes from a place on are the same.
abbrev pub Agree : ℕ → List ℕ → List ℕ → Type 0
Agree e b c = (off n : ℕ) → e ≤ off → slice off n c ≡ slice off n b

pub Agree-trans : (e : ℕ) (b c d : List ℕ) → Agree e b c → Agree e c d → Agree e b d
Agree-trans e b c d f g off n h = g off n h ∙ f off n h

pub Agree-later : (e e' : ℕ) (b c : List ℕ) → e ≤ e' → Agree e b c → Agree e' b c
Agree-later e e' b c h f off n k = f off n (omega (arith, h, k))

pub Agree-copy_at : (off : ℕ) (src b : List ℕ) → Agree (off + length src) b (copy_at off src b)
Agree-copy_at off src b off' n h = slice-copy_at_behind off off' n src b h

Agree-put_u16 : (e off v : ℕ) (b : List ℕ) → off + 2 ≤ e → Agree e b (put_u16 off v b)
unfolding put_u16
Agree-put_u16 e off v b h off' n k =
    slice-copy_at_behind off off' n (le_bytes 2 v) b (omega (arith, length-le_bytes 2 v, h, k))

length-put_u16 : (off v : ℕ) (b : List ℕ) → length (put_u16 off v b) ≡ length b
unfolding put_u16
length-put_u16 off v b = length-copy_at off (le_bytes 2 v) b

pub Agree-serialize_header :
    (h : SlottedPageHeader) (b : List ℕ) → Agree 12 b (serialize_header h b)
unfolding serialize_header
Agree-serialize_header h b off n k =
    Agree-put_u16 12 10 h.reserved _ (omega arith) off n k
    ∙ Agree-put_u16 12 8 h.flags _ (omega arith) off n k
    ∙ Agree-put_u16 12 6 h.fragmented_space _ (omega arith) off n k
    ∙ Agree-put_u16 12 4 h.free_space_end _ (omega arith) off n k
    ∙ Agree-put_u16 12 2 h.free_space_start _ (omega arith) off n k
    ∙ Agree-put_u16 12 0 h.slot_count b (omega arith) off n k

pub length-serialize_header :
    (h : SlottedPageHeader) (b : List ℕ) → length (serialize_header h b) ≡ length b
unfolding serialize_header
length-serialize_header h b =
    length-put_u16 10 h.reserved _
    ∙ length-put_u16 8 h.flags _
    ∙ length-put_u16 6 h.fragmented_space _
    ∙ length-put_u16 4 h.free_space_end _
    ∙ length-put_u16 2 h.free_space_start _
    ∙ length-put_u16 0 h.slot_count b

pub Agree-serialize_slot :
    (id : ℕ) (s : SlotEntry) (b : List ℕ) → Agree (17 + id * 5) b (serialize_slot id s b)
unfolding serialize_slot
Agree-serialize_slot id s b off n k =
    slice-copy_at_behind (12 + id * 5 + 4) off n (le_bytes 1 s.flags) _
      (omega (arith, length-le_bytes 1 s.flags, k))
    ∙ Agree-put_u16 off (12 + id * 5 + 2) s.size _ (omega (arith, k)) off n (omega arith)
    ∙ Agree-put_u16 off (12 + id * 5) s.offset b (omega (arith, k)) off n (omega arith)

pub length-serialize_slot :
    (id : ℕ) (s : SlotEntry) (b : List ℕ) → length (serialize_slot id s b) ≡ length b
unfolding serialize_slot
length-serialize_slot id s b =
    length-copy_at (12 + id * 5 + 4) (le_bytes 1 s.flags) _
    ∙ length-put_u16 (12 + id * 5 + 2) s.size _
    ∙ length-put_u16 (12 + id * 5) s.offset b

pub content-dead : (b : List ℕ) (s : SlotEntry) → is_deleted s ≡ true → content b s ≡ none
content-dead b s d = rw d refl

pub content-live :
    (b : List ℕ) (s : SlotEntry)
    → is_deleted s ≡ false
    → content b s ≡ some (slice s.offset s.size b)
content-live b s d = rw d refl

pub content-Agree :
    (e : ℕ) (b c : List ℕ) (s : SlotEntry) → Agree e b c → Inside e s → content c s ≡ content b s
content-Agree e b c s f i = elim (Bool-cases (is_deleted s)) [
  | inl d ↦ rw d refl
  | inr d ↦ rw d (ap some (f s.offset s.size (i d).0))
]

pub contents_of-Agree :
    (e : ℕ) (b c : List ℕ) (ss : List SlotEntry)
    → Agree e b c
    → All (Inside e) ss
    → contents_of c ss ≡ contents_of b ss
contents_of-Agree e b c [] f i = refl
contents_of-Agree e b c (s ∷ ss) f i =
    ap₂ ◌∷◌ (content-Agree e b c s f i.0) (contents_of-Agree e b c ss f i.1)

pub contents_of-append :
    (b : List ℕ) (ss ts : List SlotEntry)
    → contents_of b (ss ++ ts) ≡ contents_of b ss ++ contents_of b ts
contents_of-append b [] ts = refl
contents_of-append b (s ∷ ss) ts = ap (◌∷◌ (content b s)) (contents_of-append b ss ts)

pub Inside-below :
    (e e' : ℕ) (ss : List SlotEntry) → e' ≤ e → All (Inside e) ss → All (Inside e') ss
Inside-below e e' [] h i = tt
Inside-below e e' (s ∷ ss) h i =
    ((λ d. (omega (arith, h, (i.0 d).0), (i.0 d).1)), Inside-below e e' ss h i.1)

-- Data in front of where all others begin is apart from them.
pub Apart-front :
    (t : SlotEntry) (e : ℕ) (ss : List SlotEntry)
    → t.offset + t.size ≤ e
    → All (Inside e) ss
    → All (Apart t) ss
Apart-front t e [] h i = tt
Apart-front t e (s ∷ ss) h i =
    ((λ d d'. inl (omega (arith, h, (i.0 d').0))), Apart-front t e ss h i.1)

pub Apart-sym : (s t : SlotEntry) → Apart s t → Apart t s
Apart-sym s t a d d' = elim (a d' d) [ inl h ↦ inr h | inr h ↦ inl h ]
