-- ===== src/Storage/DiskManager/Blocks.antt =====
-- pkg/storage/disk_manager.go: a page that is written is the page that is read.
use laura_db.Prelude.{
  ℕ, zero, suc, ◌+◌, ◌%◌, ◌<◌, ◌≤◌, ◌≡◌, ◌≢◌, refl, ap, List, [], ◌∷◌, false, none, some, length,
  arith, if_pos, ℕ_discrete,
}
use laura_db.Storage.Bytes.{zeros, slice, le_value, length-zeros, byte_range, copy_full}
use laura_db.Storage.Page.{Page, ok, new_page, serialize, deserialize}
use laura_db.Storage.Page.RoundTrip.{IsStorable, deserialize_of_serialize}
use laura_db.Storage.DiskManager.{
  DiskManager, block_at, write_block, decode_block, read_page, write_page,
}

pub block_at-write_block :
    (i : ℕ) (b : List ℕ) (bs : List (List ℕ)) → block_at i (write_block i b bs) ≡ some b
unfolding block_at write_block
block_at-write_block zero b [] = refl
block_at-write_block zero b (c ∷ bs) = refl
block_at-write_block (suc i) b [] = block_at-write_block i b []
block_at-write_block (suc i) b (c ∷ bs) = block_at-write_block i b bs

-- A block of the file other than the written one stays.
pub block_at-write_block_other :
    (i j : ℕ) (b c : List ℕ) (bs : List (List ℕ))
    → j ≢ i
    → block_at j bs ≡ some c
    → block_at j (write_block i b bs) ≡ some c
unfolding block_at write_block
block_at-write_block_other i j b c [] h e = cc
block_at-write_block_other zero zero b c (d ∷ bs) h e = absurd (h refl)
block_at-write_block_other zero (suc j) b c (d ∷ bs) h e = e
block_at-write_block_other (suc i) zero b c (d ∷ bs) h e = e
block_at-write_block_other (suc i) (suc j) b c (d ∷ bs) h e =
    block_at-write_block_other i j b c bs (λ p. h (ap suc p)) e

-- A block between the old end of the file and the written one is a gap of zeros.
pub block_at-write_block_gap :
    (i j : ℕ) (b : List ℕ) (bs : List (List ℕ))
    → length bs ≤ j
    → j < i
    → block_at j (write_block i b bs) ≡ some (zeros 4096)
unfolding block_at write_block
block_at-write_block_gap zero j b bs h k = absurd (omega arith)
block_at-write_block_gap (suc i) zero b [] h k = refl
block_at-write_block_gap (suc i) zero b (c ∷ bs) h k = absurd (omega arith)
block_at-write_block_gap (suc i) (suc j) b [] h k =
    block_at-write_block_gap i j b [] (omega arith) (omega arith)
block_at-write_block_gap (suc i) (suc j) b (c ∷ bs) h k =
    block_at-write_block_gap i j b bs (omega arith) (omega arith)

-- What reading gives of a stored page: it is clean and unpinned.
abbrev pub stored : Page → Page
stored p = record p { is_dirty = false; pin_count = 0 }

abbrev pub counted : DiskManager → DiskManager
counted dm = record dm { total_reads = (dm.total_reads + 1) % byte_range 8 }

read_page-deserialize :
    (id : ℕ) (dm : DiskManager) (b : List ℕ) (p : Page)
    → block_at id dm.blocks ≡ some b
    → deserialize (new_page id 0) b ≡ ok p
    → read_page id dm ≡ (counted dm, ok p)
unfolding read_page decode_block
read_page-deserialize id dm b p e h = rw e (ground (arith, h))

pub read_page-serialize :
    (id : ℕ) (dm : DiskManager) (p : Page)
    → IsStorable p
    → block_at id dm.blocks ≡ some (serialize p)
    → read_page id dm ≡ (counted dm, ok (stored p))
unfolding new_page
read_page-serialize id dm p s e =
    read_page-deserialize id dm (serialize p) _ e (deserialize_of_serialize p (new_page id 0) s)

-- A block of zeros reads as an empty data page with the identifier 0.
slice-zeros : (off n m : ℕ) → off + n ≤ m → slice off n (zeros m) ≡ zeros n
unfolding slice zeros
slice-zeros zero zero m h = refl
slice-zeros zero (suc n) zero h = absurd (omega arith)
slice-zeros zero (suc n) (suc m) h = ap (◌∷◌ 0) (slice-zeros zero n m (omega arith))
slice-zeros (suc off) n zero h = absurd (omega arith)
slice-zeros (suc off) n (suc m) h = slice-zeros off n m (omega arith)

deserialize-zeros : (id : ℕ) → deserialize (new_page id 0) (zeros 4096) ≡ ok (new_page 0 0)
unfolding deserialize new_page
deserialize-zeros id =
    rw
      (
        if_pos (ℕ_discrete (length (zeros 4096)) 4096) (length-zeros 4096) _ _,
        slice-zeros 0 4 4096 (omega arith),
        slice-zeros 4 1 4096 (omega arith),
        slice-zeros 5 1 4096 (omega arith),
        slice-zeros 6 8 4096 (omega arith),
        slice-zeros 16 4080 4096 (omega arith),
        copy_full (zeros 4080) (zeros 4080) refl,
      )
      (unfold zeros le_value in refl)

-- A page of the file: its identifier is in the file.
abbrev pub InFile : ℕ → DiskManager → Type 0
InFile id dm = id < length dm.blocks

pub block_at-InFile :
    (i : ℕ) (bs : List (List ℕ)) → i < length bs → (b : List ℕ) × (block_at i bs ≡ some b)
unfolding block_at
block_at-InFile i [] h = absurd (omega arith)
block_at-InFile zero (b ∷ bs) h = (b, refl)
block_at-InFile (suc i) (b ∷ bs) h = block_at-InFile i bs (omega arith)

block_at-none : (i : ℕ) (bs : List (List ℕ)) → length bs ≤ i → block_at i bs ≡ none
unfolding block_at
block_at-none i [] h = refl
block_at-none zero (b ∷ bs) h = absurd (omega arith)
block_at-none (suc i) (b ∷ bs) h = block_at-none i bs (omega arith)

-- After WritePage of a page whose fields fit the layout, ReadPage gives it back, clean and
-- unpinned, and every other page of the file reads as it did before.
pub read_page-write_page :
    (p : Page) (id : ℕ) (dm : DiskManager)
    → IsStorable p
    → id ≢ p.id
    → InFile id dm
    → ((read_page p.id (write_page p dm)).1 ≡ ok (stored p))
      × ((read_page id (write_page p dm)).1 ≡ (read_page id dm).1)
unfolding write_page
read_page-write_page p id dm s h k = (
  ap (λ r. r.1)
      (read_page-serialize p.id (write_page p dm) p s
        (block_at-write_block p.id (serialize p) dm.blocks)),
  let (b, e) = block_at-InFile id dm.blocks k in
      unfold read_page decode_block in
      rw (e, block_at-write_block_other p.id id (serialize p) b dm.blocks h e) (ground arith),
)

-- A page that was allocated but never written reads as an empty data page with its own identifier,
-- until a page behind it is written: from then on it reads as a page with the identifier 0.
pub read_page-gap :
    (p : Page) (id : ℕ) (dm : DiskManager)
    → length dm.blocks ≤ id
    → id < p.id
    → ((read_page id dm).1 ≡ ok (new_page id 0))
      × ((read_page id (write_page p dm)).1 ≡ ok (new_page 0 0))
read_page-gap p id dm h k = (
  unfold read_page decode_block in rw (block_at-none id dm.blocks h) refl,
  ap (λ r. r.1)
      (read_page-deserialize id (write_page p dm) (zeros 4096) (new_page 0 0)
        (unfold write_page in block_at-write_block_gap p.id id (serialize p) dm.blocks h k)
        (deserialize-zeros id)),
)
