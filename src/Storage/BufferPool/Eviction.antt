-- ===== src/Storage/BufferPool/Eviction.antt =====
-- pkg/storage/buffer_pool.go: an eviction takes a page that is not pinned.
use laura_db.Prelude.{
  ℕ, ◌≡◌, ◌⊎◌, inl, inr, sym, ◌∙◌, List, [], ◌∷◌, true, false, none, some, arith, Option-cases,
  ℕ_discrete,
}
use laura_db.Prelude.Assoc.{Assoc, get, has}
use laura_db.Recency.{listed}
use laura_db.Recency.Linked.{Linked}
use laura_db.Storage.Page.{Page, ok, err, is_pinned, no_unpinned_page}
use laura_db.Storage.BufferPool.{BufferPool, unpinned, victim, evict, evict_page}

victim-listed :
    (pages : Assoc ℕ Page) (l : List ℕ) (v : ℕ)
    → victim pages l ≡ some v
    → (unpinned pages v ≡ true) × (listed ℕ_discrete v l ≡ true)
unfolding victim listed
victim-listed pages [] v h = cc
victim-listed pages (id ∷ l) v h = ground (arith, victim-listed pages l v)

victim-none :
    (pages : Assoc ℕ Page) (l : List ℕ) (k : ℕ)
    → victim pages l ≡ none
    → listed ℕ_discrete k l ≡ true
    → unpinned pages k ≡ false
unfolding victim listed
victim-none pages [] k h g = cc
victim-none pages (id ∷ l) k h g = ground (arith, victim-none pages l k)

pub has-get :
    (pages : Assoc ℕ Page) (k : ℕ) (p : Page)
    → get ℕ_discrete k pages ≡ some p
    → has ℕ_discrete k pages ≡ true
unfolding has
has-get pages k p g = ground (arith, g)

pinned_of :
    (pages : Assoc ℕ Page) (k : ℕ) (p : Page)
    → get ℕ_discrete k pages ≡ some p
    → unpinned pages k ≡ false
    → is_pinned p ≡ true
unfolding unpinned
pinned_of pages k p g h = ground (arith, g, h)

page_of :
    (pages : Assoc ℕ Page) (k : ℕ)
    → unpinned pages k ≡ true
    → (p : Page) × (get ℕ_discrete k pages ≡ some p) × (is_pinned p ≡ false)
unfolding unpinned
page_of pages k h = elim (Option-cases (get ℕ_discrete k pages)) [
  | inl g ↦ ground (arith, g, h)
  | inr (p, g) ↦ (p, g, ground (arith, g, h))
]

pub absurd_of_has :
    {A : Type 0} (pages : Assoc ℕ Page) (k : ℕ)
    → get ℕ_discrete k pages ≡ none
    → has ℕ_discrete k pages ≡ true
    → A
unfolding has
absurd_of_has pages k g h = ground (arith, g, h)

-- Every page in the pool is pinned.
abbrev pub AllPinned : BufferPool → Type 0
AllPinned bp = (k : ℕ) (p : Page) → get ℕ_discrete k bp.pages ≡ some p → is_pinned p ≡ true

-- An unpinned page left the pool, and no other did.
abbrev pub Evicted : BufferPool → BufferPool → Type 0
Evicted bp bp' =
    (id : ℕ) × (p : Page) × (get ℕ_discrete id bp.pages ≡ some p)
    × (is_pinned p ≡ false)
    × (bp' ≡ evict id bp)

-- evictPage succeeds by evicting a page that is not pinned, or it fails, changes nothing, and every
-- page in the pool is pinned. The list and the map of the pool are in step.
pub evict_page-Evicted :
    (bp : BufferPool)
    → Linked ℕ_discrete bp.pages bp.lru_list
    → (((evict_page bp).1 ≡ ok tt) × Evicted bp (evict_page bp).0)
      ⊎ ((evict_page bp ≡ (bp, err no_unpinned_page)) × AllPinned bp)
unfolding evict_page
evict_page-Evicted bp i = elim (Option-cases (victim bp.pages bp.lru_list)) [
  | inl e ↦ inr (
    ground (arith, e),
    λ k p g.
        let seen = sym (i.same k) ∙ has-get bp.pages k p g in
        pinned_of bp.pages k p g (victim-none bp.pages bp.lru_list k e seen),
  )
  | inr (id, e) ↦
      let (free, seen) = victim-listed bp.pages bp.lru_list id e in
      let (p, g, h) = page_of bp.pages id free in
      inl (ground (arith, e), (id, p, g, h, ground (arith, e)))
]
