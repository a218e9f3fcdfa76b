-- ===== src/Storage/BufferPool/Flush.antt =====
-- pkg/storage/buffer_pool.go: FlushPage brings the disk up to date and shows nothing to the
-- clients.
use laura_db.Prelude.{
  ℕ, ◌≡◌, ◌≢◌, ◌⊎◌, inl, inr, refl, ap, sym, ◌∙◌, true, false, some, arith, Option-cases,
  Bool-cases, ℕ_discrete, subst, if_pos, if_neg,
}
use laura_db.Prelude.Assoc.{get, put, has, get-put}
use laura_db.Storage.Page.{Page, ok, serialize, is_pinned}
use laura_db.Storage.DiskManager.{DiskManager, block_at, write_block, read_page, write_page}
use laura_db.Storage.DiskManager.Blocks.{
  stored, InFile, read_page-serialize, block_at-write_block, block_at-write_block_other,
  block_at-InFile,
}
use laura_db.Storage.BufferPool.{BufferPool, flush_page}
use laura_db.Storage.BufferPool.Eviction.{absurd_of_has}
use laura_db.Storage.BufferPool.View.{Backed, seen_page, view, read_page-same}

abbrev cleaned : Page → Page
cleaned p = record p { is_dirty = false }

abbrev flushed : ℕ → Page → BufferPool → BufferPool
flushed id p bp = record bp {
  disk = write_page p bp.disk;
  pages = put ℕ_discrete id (cleaned p) bp.pages;
}

flush_page-dirty :
    (id : ℕ) (bp : BufferPool) (p : Page)
    → get ℕ_discrete id bp.pages ≡ some p
    → p.is_dirty ≡ true
    → flush_page id bp ≡ (flushed id p bp, ok tt)
unfolding flush_page
flush_page-dirty id bp p g d = ground (arith, g, d)

flush_page-clean :
    (id : ℕ) (bp : BufferPool) (p : Page)
    → get ℕ_discrete id bp.pages ≡ some p
    → p.is_dirty ≡ false
    → flush_page id bp ≡ (bp, ok tt)
unfolding flush_page
flush_page-clean id bp p g d = ground (arith, g, d)

-- The block of a page after it was written.
written-block :
    (id : ℕ) (p : Page) (disk : DiskManager)
    → p.id ≡ id
    → block_at id (write_page p disk).blocks ≡ some (serialize p)
unfolding write_page
written-block id p disk e =
    subst (λ j. block_at j (write_block p.id (serialize p) disk.blocks) ≡ some (serialize p)) e
      (block_at-write_block p.id (serialize p) disk.blocks)

flushed-view :
    (id k : ℕ) (p : Page) (bp : BufferPool)
    → get ℕ_discrete id bp.pages ≡ some p
    → p.id ≡ id
    → (has ℕ_discrete k bp.pages ≡ true) ⊎ InFile k bp.disk
    → view k (flushed id p bp) ≡ view k bp
unfolding seen_page write_page
flushed-view id k p bp g same h = elim (ℕ_discrete id k) [
  | yes z ↦
      let here : get ℕ_discrete k (put ℕ_discrete id (cleaned p) bp.pages) ≡ some (cleaned p) =
        get-put ℕ_discrete id k (cleaned p) bp.pages ∙ if_pos (ℕ_discrete id k) z _ _ in
      let there : get ℕ_discrete k bp.pages ≡ some p =
        subst (λ j. get ℕ_discrete j bp.pages ≡ some p) z g in
      rw (here, there) refl
  | no n ↦
      let kept : get ℕ_discrete k (put ℕ_discrete id (cleaned p) bp.pages)
          ≡ get ℕ_discrete k bp.pages =
        get-put ℕ_discrete id k (cleaned p) bp.pages ∙ if_neg (ℕ_discrete id k) n _ _ in
      elim (Option-cases (get ℕ_discrete k bp.pages)) [
        | inr (q, e) ↦ rw (kept, e) refl
        | inl e ↦ elim h [
          | inl present ↦ absurd_of_has bp.pages k e present
          | inr inside ↦
              let (c, at) = block_at-InFile k bp.disk.blocks inside in
              let apart : k ≢ p.id = λ y. n (sym same ∙ sym y) in
              rw (kept, e)
                (read_page-same k bp.disk (write_page p bp.disk) c at
                  (block_at-write_block_other p.id k (serialize p) c bp.disk.blocks apart at))
        ]
      ]
]

-- FlushPage of a page in the pool that is dirty, or not in use, succeeds: the disk then holds the
-- page as the clients see it, and under every identifier of the pool or the file they see what they
-- saw. The pages of the pool were backed by the disk.
pub flush_page-view :
    (id k : ℕ) (bp : BufferPool) (p : Page)
    → get ℕ_discrete id bp.pages ≡ some p
    → (p.is_dirty ≡ true) ⊎ (is_pinned p ≡ false)
    → Backed bp.pages bp.disk
    → (has ℕ_discrete k bp.pages ≡ true) ⊎ InFile k bp.disk
    → ((flush_page id bp).1 ≡ ok tt)
      × ((read_page id (flush_page id bp).0.disk).1 ≡ ok (stored p))
      × (view k (flush_page id bp).0 ≡ view k bp)
flush_page-view id k bp p g u b h =
    let (same, s, c) = b id p g in
    elim (Bool-cases p.is_dirty) [
      | inl d ↦ rw (flush_page-dirty id bp p g d) (
        refl,
        ap (λ r. r.1)
            (read_page-serialize id (write_page p bp.disk) p s (written-block id p bp.disk same)),
        flushed-view id k p bp g same h,
      )
      | inr d ↦
          let at : block_at id bp.disk.blocks ≡ some (serialize p) = elim c [
            | inl dirty ↦ cc (d, dirty)
            | inr (inl pinned) ↦ elim u [ inl dirty ↦ cc (d, dirty) | inr free ↦ cc (pinned, free) ]
            | inr (inr at) ↦ at
          ] in
          rw (flush_page-clean id bp p g d)
            (refl, ap (λ r. r.1) (read_page-serialize id bp.disk p s at), refl)
    ]
