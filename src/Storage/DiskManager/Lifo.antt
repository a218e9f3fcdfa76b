-- ===== src/Storage/DiskManager/Lifo.antt =====
-- pkg/storage/disk_manager.go: a freed page is the next one to be allocated, but for page 0 at a
-- full head page.
use laura_db.Prelude.{
  ℕ, ◌+◌, ◌<◌, ◌≤◌, ◌≡◌, ◌≢◌, refl, ap, sym, ◌∙◌, List, [], ◌∷◌, All, arith, dec_lt,
}
use laura_db.Storage.Bytes.{byte_range}
use laura_db.Storage.Page.{Page, ok}
use laura_db.Storage.FreePage.Stack.{count_of}
use laura_db.Storage.FreePage.Operations.{snoc_injective}
use laura_db.Storage.DiskManager.{
  DiskManager, stats, pop_free_page, allocate_popped, allocate_new, allocate_page, deallocate_page,
  write_page,
}
use laura_db.Storage.DiskManager.FreeList.{free_ids, IsFree, allocate-free_ids}
use laura_db.Storage.DiskManager.Reuse.{
  below, Freed, deallocate-first, deallocate-entry, deallocate-full, head_manager,
}

-- On a well-formed free list DeallocatePage puts an allocated page other than page 0 and the pages
-- of the list on top of the stack of free pages; a first free page gets a new page for the list
-- below it. The list stays well formed, and PageCount is above 0, so that AllocatePage takes the
-- page again. The counters must not wrap.
pub deallocate-Freed :
    (ps : List Page) (dm : DiskManager) (id : ℕ)
    → IsFree ps dm
    → id < dm.next_page_id
    → id ≢ 0
    → All (λ p. p.id ≢ id) ps
    → dm.next_page_id + 1 < byte_range 4
    → dm.free_page_list.page_count + 1 < byte_range 4
    → Freed ps id dm (deallocate_page id dm)
deallocate-Freed [] dm id f h z a k j = deallocate-first dm id h f k
deallocate-Freed (p ∷ ps) dm id f h z a k j = elim (dec_lt (count_of p) 1018) [
  | yes m ↦ deallocate-entry dm id h p ps f m j
  | no m ↦
      let (e, n, b, s, v, d, c) = f.chain in
      deallocate-full dm id h p ps f (omega (arith, v.within)) z a
]

-- On a well-formed free list, after DeallocatePage of an allocated page other than page 0 and the
-- pages of the list, AllocatePage returns that page; the free pages are then those from before,
-- with the page that holds the list if there was none. The counters must not wrap.
pub allocate-deallocate :
    (ps : List Page) (dm : DiskManager) (id : ℕ)
    → IsFree ps dm
    → id < dm.next_page_id
    → id ≢ 0
    → All (λ p. p.id ≢ id) ps
    → dm.next_page_id + 1 < byte_range 4
    → dm.free_page_list.page_count + 1 < byte_range 4
    → ((deallocate_page id dm).1 ≡ ok tt)
      × ((allocate_page (deallocate_page id dm).0).1 ≡ ok id)
      × (qs : List Page) × IsFree qs (allocate_page (deallocate_page id dm).0).0
      × (free_ids qs ≡ below ps dm)
allocate-deallocate ps dm id f h z a k j =
    let (done, qs, free, list, some_free) = deallocate-Freed ps dm id f h z a k j in
    let (rs, id', result, free', list', next) =
      allocate-free_ids qs (deallocate_page id dm).0 free some_free in
    let (same, last) = snoc_injective (free_ids rs) (below ps dm) (sym list' ∙ list) in
    (done, result ∙ ap ok last, rs, free', same)

-- Freeing page 0 while the head page is full loses the list: the call succeeds, the 1018 entries of
-- the page and more stay counted as free, but the list has no head, and AllocatePage creates a new
-- page.
pub deallocate-zero :
    (dm : DiskManager) (p : Page) (ps : List Page)
    → IsFree (p ∷ ps) dm
    → count_of p ≡ 1018
    → 0 < dm.next_page_id
    → let r = deallocate_page 0 dm in
      (r.1 ≡ ok tt)
      × (1018 ≤ (stats r.0).free_pages)
      × (r.0.free_page_list.head_page_id ≡ 0)
      × ((allocate_page r.0).1 ≡ ok dm.next_page_id)
unfolding stats write_page allocate_page allocate_popped pop_free_page allocate_new
deallocate-zero dm p ps f m h =
    rw (head_manager dm 0 h p ps f m) (refl, omega (arith, f.total), refl, ground (arith, f.total))
