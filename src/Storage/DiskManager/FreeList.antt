-- ===== src/Storage/DiskManager/FreeList.antt =====
-- pkg/storage/disk_manager.go: AllocatePage and DeallocatePage use the chain of free list pages as
-- one stack of page identifiers.
use laura_db.Prelude.{
  ℕ, ◌+◌, ◌-◌, ◌*◌, ◌%◌, ◌<◌, ◌≡◌, ◌≢◌, refl, ap, sym, ◌∙◌, List, [], ◌∷◌, ◌++◌, true, some, length,
  All, append_assoc, arith, dec_lt, subst,
}
use laura_db.Storage.Bytes.{byte_range, u32}
use laura_db.Storage.Page.{Page, ok, serialize}
use laura_db.Storage.Page.RoundTrip.{IsStorable}
use laura_db.Storage.FreePage.{deserialize_free_page_header}
use laura_db.Storage.FreePage.Stack.{
  IsFreeList, next_of, count_of, entries, entries_from, popped, entries-popped,
}
use laura_db.Storage.FreePage.Operations.{remove-popped, remove-empty}
use laura_db.Storage.DiskManager.{
  DiskManager, block_at, write_block, read_page, write_page, with_head, with_count, pop_removed,
  pop_read, pop_free_page, allocate_new, allocate_popped, allocate_page,
}
use laura_db.Storage.DiskManager.Blocks.{
  stored, counted, read_page-serialize, block_at-write_block, block_at-write_block_other,
}

-- The pages of the free list, from the head on, as the file holds them.
abbrev pub Chain : List Page → ℕ → List (List ℕ) → Type 0
Chain [] head bs = head ≡ 0
Chain (p ∷ ps) head bs =
    (p.id ≡ head)
    × (head ≢ 0)
    × (block_at head bs ≡ some (serialize p))
    × IsStorable p
    × IsFreeList p
    × All (λ q. q.id ≢ p.id) ps
    × Chain ps (next_of p) bs

-- The stack of free pages, the top at the end: below the entries of a list page lies the page
-- itself.
abbrev pub free_ids : List Page → List ℕ
free_ids [] = []
free_ids (p ∷ ps) = free_ids ps ++ (p.id ∷ entries p)

abbrev pub entry_total : List Page → ℕ
entry_total [] = 0
entry_total (p ∷ ps) = count_of p + entry_total ps

-- `ps` are the pages of the manager's free list, and PageCount counts the entries in them.
pub record IsFree (ps : List Page) (dm : DiskManager) : Type 0 where
  pub chain : Chain ps dm.free_page_list.head_page_id dm.blocks
  pub total : dm.free_page_list.page_count ≡ entry_total ps
  pub next_fits : dm.next_page_id < byte_range 4

Chain-write_block :
    (i : ℕ) (b : List ℕ) (ps : List Page) (head : ℕ) (bs : List (List ℕ))
    → Chain ps head bs
    → All (λ p. p.id ≢ i) ps
    → Chain ps head (write_block i b bs)
Chain-write_block i b [] head bs c a = c
Chain-write_block i b (p ∷ ps) head bs (e, n, k, s, v, d, c) (h, a) = (
  e,
  n,
  block_at-write_block_other i head b (serialize p) bs (λ q. h (e ∙ q)) k,
  s,
  v,
  d,
  Chain-write_block i b ps (next_of p) bs c a,
)

-- The head of a chain after a write of it.
pub Chain-put :
    (q : Page) (ps : List Page) (bs : List (List ℕ))
    → q.id ≢ 0
    → IsStorable q
    → IsFreeList q
    → All (λ r. r.id ≢ q.id) ps
    → Chain ps (next_of q) bs
    → Chain (q ∷ ps) q.id (write_block q.id (serialize q) bs)
Chain-put q ps bs n s v d c = (
  refl,
  n,
  block_at-write_block q.id (serialize q) bs,
  s,
  v,
  d,
  Chain-write_block q.id (serialize q) ps (next_of q) bs c d,
)

pub stored-IsFreeList : (p : Page) → IsFreeList p → IsFreeList (stored p)
stored-IsFreeList p v = record {
  kind = v.kind;
  size = v.size;
  next_fits = v.next_fits;
  within = v.within;
}

-- New contents of the same length, for a dirty page.
pub resized :
    (p : Page) (b : List ℕ)
    → IsStorable p
    → length b ≡ 4080
    → IsStorable (record p { bytes = b; is_dirty = true; pin_count = 0 })
resized p b s e = record {
  id_fits = s.id_fits;
  type_fits = s.type_fits;
  flags_fit = s.flags_fit;
  lsn_fits = s.lsn_fits;
  bytes_fit = e;
}

module _ (dm : DiskManager) (p : Page) (ps : List Page) (f : IsFree (p ∷ ps) dm) where
  pub head_read : read_page dm.free_page_list.head_page_id dm ≡ (counted dm, ok (stored p))
  head_read =
      let (e, n, k, s, v, d, c) = f.chain in
      read_page-serialize dm.free_page_list.head_page_id dm p s k

  abbrev popped_manager : DiskManager
  popped_manager = record (write_page (popped (stored p)) (counted dm)) {
    free_page_list = with_count (dm.free_page_list.page_count - 1) dm.free_page_list;
  }

  allocate-entry :
      0 < count_of p
      → allocate_page dm ≡ (popped_manager, ok (u32 (8 + (count_of p - 1) * 4) p.bytes))
  unfolding allocate_page allocate_popped pop_free_page pop_read pop_removed write_page
  allocate-entry h =
      let (e, n, k, s, v, d, c) = f.chain in
      ground (arith, f.total, head_read, remove-popped (stored p) (stored-IsFreeList p v) h)

  allocate-head :
      count_of p ≡ 0
      → 0 < dm.free_page_list.page_count
      → allocate_page dm ≡ (
        record (counted dm) { free_page_list = with_head (next_of p) dm.free_page_list },
        ok p.id,
      )
  unfolding allocate_page allocate_popped pop_free_page pop_read pop_removed
      deserialize_free_page_header
  allocate-head h m =
      let (e, n, k, s, v, d, c) = f.chain in
      ground (arith, head_read, remove-empty (stored p) (stored-IsFreeList p v) h, v.kind, v.size)

  -- The pages of the list after an allocation, and the page that is handed out.
  allocate-IsFree :
      0 < dm.free_page_list.page_count
      → (qs : List Page) × (id : ℕ) × ((allocate_page dm).1 ≡ ok id)
        × IsFree qs (allocate_page dm).0
        × (free_ids (p ∷ ps) ≡ free_ids qs ++ (id ∷ []))
        × ((allocate_page dm).0.next_page_id ≡ dm.next_page_id)
  unfolding write_page entries_from
  allocate-IsFree m =
      let (e, n, k, s, v, d, c) = f.chain in
      elim (dec_lt 0 (count_of p)) [
        | yes h ↦
            let q = popped (stored p) in
            let (list, next, count, valid) = entries-popped (stored p) (stored-IsFreeList p v) h in
            rw (allocate-entry h) (
              q ∷ ps,
              u32 (8 + (count_of p - 1) * 4) p.bytes,
              refl,
              record {
                chain =
                    subst (λ j. Chain (q ∷ ps) j (write_block p.id (serialize q) dm.blocks)) e
                      (Chain-put q ps dm.blocks (λ z. n (sym e ∙ z))
                        (resized p q.bytes s valid.size) valid d
                        (subst (λ j. Chain ps j dm.blocks) (sym next) c));
                total = omega (arith, f.total, count);
                next_fits = f.next_fits;
              },
              ap (λ xs. free_ids ps ++ (p.id ∷ xs)) list ∙ sym (append_assoc (free_ids ps) _ _),
              refl,
            )
        | no h ↦
            let empty : count_of p ≡ 0 = omega arith in
            rw (allocate-head empty m) (
              ps,
              p.id,
              refl,
              record { chain = c; total = omega (arith, f.total); next_fits = f.next_fits },
              ap (λ n. free_ids ps ++ (p.id ∷ entries_from n 0 p.bytes)) empty,
              refl,
            )
      ]

-- While PageCount is above 0 and the chain of free list pages is well formed, AllocatePage hands out
-- the identifier at the top of the stack of free pages, which is taken off it, and creates no page:
-- the other free pages stay in their order, and the chain stays well formed.
pub allocate-free_ids :
    (ps : List Page) (dm : DiskManager)
    → IsFree ps dm
    → 0 < dm.free_page_list.page_count
    → (qs : List Page) × (id : ℕ) × ((allocate_page dm).1 ≡ ok id)
      × IsFree qs (allocate_page dm).0
      × (free_ids ps ≡ free_ids qs ++ (id ∷ []))
      × ((allocate_page dm).0.next_page_id ≡ dm.next_page_id)
allocate-free_ids [] dm f m = absurd (omega (arith, f.total))
allocate-free_ids (p ∷ ps) dm f m = allocate-IsFree dm p ps f m

-- With PageCount 0, AllocatePage hands out the next unused identifier, whether or not pages of the
-- free list itself are left over: they stay on the list.
pub allocate-fresh :
    (ps : List Page) (dm : DiskManager)
    → IsFree ps dm
    → dm.free_page_list.page_count ≡ 0
    → dm.next_page_id + 1 < byte_range 4
    → ((allocate_page dm).1 ≡ ok dm.next_page_id)
      × IsFree ps (allocate_page dm).0
      × ((allocate_page dm).0.next_page_id ≡ dm.next_page_id + 1)
allocate-fresh ps dm f m h =
    let next : (dm.next_page_id + 1) % byte_range 4 ≡ dm.next_page_id + 1 = omega arith in
    let same : allocate_page dm
        ≡ (record dm { next_page_id = (dm.next_page_id + 1) % byte_range 4 }, ok dm.next_page_id) =
      unfold allocate_page allocate_popped allocate_new pop_free_page in ground (arith, m) in
    rw same
      (refl, record { chain = f.chain; total = f.total; next_fits = omega (arith, next) }, next)
