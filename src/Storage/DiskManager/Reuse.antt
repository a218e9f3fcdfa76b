-- ===== src/Storage/DiskManager/Reuse.antt =====
-- pkg/storage/disk_manager.go: the manager after DeallocatePage, for each form of the free list.
use laura_db.Prelude.{
  ℕ, ◌+◌, ◌%◌, ◌<◌, ◌≡◌, ◌≢◌, refl, ap, sym, ◌∙◌, List, [], ◌∷◌, ◌++◌, true, length, All,
  append_assoc, arith, subst,
}
use laura_db.Storage.Bytes.{byte_range, length-zeros}
use laura_db.Storage.Page.{Page, Result, ok, new_page, serialize, mark_dirty}
use laura_db.Storage.Page.RoundTrip.{IsStorable}
use laura_db.Storage.FreePage.{initialize_free_list_page, serialize_free_page_header}
use laura_db.Storage.FreePage.Stack.{
  count-with_header, next-with_header, length-with_header, IsFreeList, next_of, count_of,
  entries_from, pushed, entries-pushed,
}
use laura_db.Storage.FreePage.Operations.{add-pushed, add-full, initialize-IsFreeList}
use laura_db.Storage.DiskManager.{
  DiskManager, write_block, write_page, with_head, with_count, push_first, first_added, push_head,
  push_added, push_read, push_free_page, deallocate_page,
}
use laura_db.Storage.DiskManager.Blocks.{stored, counted}
use laura_db.Storage.DiskManager.FreeList.{
  Chain, Chain-put, free_ids, IsFree, stored-IsFreeList, resized, head_read,
}

-- What lies below a freed page on the stack: the free pages, or the new page that holds the list.
abbrev pub below : List Page → DiskManager → List ℕ
below [] dm = dm.next_page_id ∷ []
below (p ∷ ps) dm = free_ids (p ∷ ps)

-- The manager after a page has been freed.
abbrev pub Freed : List Page → ℕ → DiskManager → DiskManager × Result (Unit {0}) → Type 0
Freed ps id dm r =
    (r.1 ≡ ok tt)
    × (qs : List Page) × IsFree qs r.0
    × (free_ids qs ≡ below ps dm ++ (id ∷ []))
    × (0 < r.0.free_page_list.page_count)

abbrev empty_list_page : ℕ → Page
empty_list_page id = initialize_free_list_page (new_page id 2)

empty-IsFreeList :
    (id : ℕ)
    → IsFreeList (empty_list_page id)
      × (count_of (empty_list_page id) ≡ 0)
      × (next_of (empty_list_page id) ≡ 0)
empty-IsFreeList id = initialize-IsFreeList (new_page id 2) (unfold new_page in length-zeros 4080)

-- A list page of that identifier with the contents `b`.
filled-IsStorable :
    (id : ℕ) (b : List ℕ)
    → id < byte_range 4
    → length b ≡ 4080
    → IsStorable (record (empty_list_page id) { bytes = b; is_dirty = true })
unfolding initialize_free_list_page serialize_free_page_header mark_dirty new_page
filled-IsStorable id b h e = record {
  id_fits = h;
  type_fits = omega arith;
  flags_fit = omega arith;
  lsn_fits = omega arith;
  bytes_fit = e;
}

module _ (dm : DiskManager) (id : ℕ) (h : id < dm.next_page_id) where
  module _ (f : IsFree [] dm) (k : dm.next_page_id + 1 < byte_range 4) where
    abbrev first : Page
    first = pushed (empty_list_page dm.next_page_id) id

    first_manager : deallocate_page id dm ≡ (
      record (write_page first dm) {
        next_page_id = (dm.next_page_id + 1) % byte_range 4;
        free_page_list = record { head_page_id = dm.next_page_id; page_count = 1 };
      },
      ok tt,
    )
    unfolding deallocate_page push_free_page push_first first_added write_page
    first_manager =
        let (valid, count, next) = empty-IsFreeList dm.next_page_id in
        ground (
          arith,
          f.chain,
          add-pushed (empty_list_page dm.next_page_id) id valid (omega (arith, count)),
        )

    pub deallocate-first : Freed [] id dm (deallocate_page id dm)
    unfolding write_page entries_from initialize_free_list_page serialize_free_page_header
        mark_dirty new_page
    deallocate-first =
        let list = empty_list_page dm.next_page_id in
        let (valid, count, next) = empty-IsFreeList dm.next_page_id in
        let (entries', next', count', valid') =
          entries-pushed list id valid (omega (arith, count)) (omega (arith, f.next_fits)) in
        rw first_manager (
          refl,
          first ∷ [],
          record {
            chain =
                Chain-put first [] dm.blocks (omega arith)
                  (filled-IsStorable dm.next_page_id first.bytes f.next_fits valid'.size) valid' tt
                  (next' ∙ next);
            total = omega (arith, count, count');
            next_fits = omega arith;
          },
          ap (◌∷◌ dm.next_page_id)
              (entries' ∙ ap (λ n. entries_from n 0 list.bytes ++ (id ∷ [])) count),
          omega arith,
        )

  module _ (p : Page) (ps : List Page) (f : IsFree (p ∷ ps) dm) where
    abbrev grown : Page
    grown = pushed (stored p) id

    grown_manager :
        count_of p < 1018
        → deallocate_page id dm ≡ (
          record (write_page grown (counted dm)) {
            free_page_list =
                with_count ((dm.free_page_list.page_count + 1) % byte_range 4) dm.free_page_list;
          },
          ok tt,
        )
    unfolding deallocate_page push_free_page push_read push_added write_page
    grown_manager m =
        let (e, n, k, s, v, d, c) = f.chain in
        ground (arith, head_read dm p ps f, add-pushed (stored p) id (stored-IsFreeList p v) m)

    pub deallocate-entry :
        count_of p < 1018
        → dm.free_page_list.page_count + 1 < byte_range 4
        → Freed (p ∷ ps) id dm (deallocate_page id dm)
    unfolding write_page
    deallocate-entry m j =
        let (e, n, k, s, v, d, c) = f.chain in
        let (list, next, count, valid) =
          entries-pushed (stored p) id (stored-IsFreeList p v) m (omega (arith, f.next_fits)) in
        rw (grown_manager m) (
          refl,
          grown ∷ ps,
          record {
            chain =
                subst (λ i. Chain (grown ∷ ps) i (write_block p.id (serialize grown) dm.blocks)) e
                  (Chain-put grown ps dm.blocks (λ z. n (sym e ∙ z))
                    (resized p grown.bytes s valid.size) valid d
                    (subst (λ i. Chain ps i dm.blocks) (sym next) c));
            total = omega (arith, f.total, count);
            next_fits = f.next_fits;
          },
          ap (λ xs. free_ids ps ++ (p.id ∷ xs)) list ∙ sym (append_assoc (free_ids ps) _ _),
          omega arith,
        )

    abbrev pub new_head : Page
    new_head =
        serialize_free_page_header (empty_list_page id)
          (record { next_free_list_page = dm.free_page_list.head_page_id; entry_count = 0 })

    pub head_manager :
        count_of p ≡ 1018
        → deallocate_page id dm ≡ (
          record (write_page new_head (counted dm)) {
            free_page_list = with_head id dm.free_page_list;
          },
          ok tt,
        )
    unfolding deallocate_page push_free_page push_read push_added push_head write_page
    head_manager m =
        let (e, n, k, s, v, d, c) = f.chain in
        ground (arith, head_read dm p ps f, add-full (stored p) id (stored-IsFreeList p v) m)

    pub deallocate-full :
        count_of p ≡ 1018
        → id ≢ 0
        → All (λ q. q.id ≢ id) (p ∷ ps)
        → Freed (p ∷ ps) id dm (deallocate_page id dm)
    unfolding write_page entries_from initialize_free_list_page serialize_free_page_header
        mark_dirty new_page
    deallocate-full m z a =
        let (e, n, k, s, v, d, c) = f.chain in
        let head = dm.free_page_list.head_page_id in
        let (valid, none_yet, last) = empty-IsFreeList id in
        let fits : head < byte_range 4 = omega (arith, e, s.id_fits) in
        let b : List ℕ = (empty_list_page id).bytes in
        let count : count_of new_head ≡ 0 = count-with_header head 0 b (omega arith) valid.size in
        let next : next_of new_head ≡ head = next-with_header head 0 b fits valid.size in
        let size : length new_head.bytes ≡ 4080 = length-with_header head 0 b ∙ valid.size in
        rw (head_manager m) (
          refl,
          new_head ∷ p ∷ ps,
          record {
            chain =
                Chain-put new_head (p ∷ ps) dm.blocks z
                  (filled-IsStorable id new_head.bytes (omega (arith, f.next_fits)) size)
                  (record {
                    kind = refl;
                    size = size;
                    next_fits = omega (arith, next);
                    within = omega (arith, count);
                  })
                  a (subst (λ i. Chain (p ∷ ps) i dm.blocks) (sym next) f.chain);
            total = omega (arith, f.total, count);
            next_fits = f.next_fits;
          },
          ap (λ i. free_ids (p ∷ ps) ++ (id ∷ entries_from i 0 new_head.bytes)) count,
          omega (arith, f.total),
        )
