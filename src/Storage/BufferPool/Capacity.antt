-- ===== src/Storage/BufferPool/Capacity.antt =====
-- pkg/storage/buffer_pool.go: the map and the list of the pool stay in step and within the
-- capacity.
use laura_db.Prelude.{
  ℕ, ◌+◌, ◌<◌, ◌≤◌, ◌≡◌, inl, inr, refl, ap₂, sym, ◌∙◌, ◌∷◌, true, none, some, length, leb, arith,
  Option-cases, Bool-cases, ℕ_discrete, if_pos, subst,
}
use laura_db.Prelude.Assoc.{Assoc, get, put, delete, get-put, get-delete}
use laura_db.Prelude.Assoc.Count.{length-put_old, length-put_new}
use laura_db.Recency.{remove}
use laura_db.Recency.Linked.{Linked, remove-Linked, hit-Linked, update-Linked, new-Linked}
use laura_db.Storage.Page.{Page, Result, ok, err, pin, is_pinned}
use laura_db.Storage.DiskManager.{DiskManager, read_page}
use laura_db.Storage.BufferPool.{
  BufferPool, evict_page, evict, make_room, add_page, fetch_read, fetch_miss, fetch_page,
}
use laura_db.Storage.BufferPool.Eviction.{evict_page-Evicted}
use laura_db.Storage.BufferPool.Fetch.{fetch_page-hit, fetch_page-miss}

-- Map and list of the pool have the same identifiers, each once, and at most `n` of them.
pub record InStep (n : ℕ) (bp : BufferPool) : Type 0 where
  pub linked : Linked ℕ_discrete bp.pages bp.lru_list
  pub within : length bp.pages ≤ n

-- A pool with a place for one more page, in which `id` is absent as before.
abbrev Roomy : ℕ → ℕ → BufferPool × Result (Unit {0}) → Type 0
Roomy n id (bp, ok u) =
    Linked ℕ_discrete bp.pages bp.lru_list
    × (length bp.pages < n)
    × (get ℕ_discrete id bp.pages ≡ none)
Roomy n id (bp, err e) = InStep n bp

evict_page-Roomy :
    (n id : ℕ) (bp : BufferPool)
    → InStep n bp
    → get ℕ_discrete id bp.pages ≡ none
    → Roomy n id (evict_page bp)
evict_page-Roomy n id bp i g = elim (evict_page-Evicted bp i.linked) [
  | inr (e, all) ↦ rw e i
  | inl (e, (k, p, found, free, same)) ↦
      let (linked, less) = remove-Linked ℕ_discrete k p bp.pages bp.lru_list i.linked found in
      let gone : get ℕ_discrete id (delete ℕ_discrete k bp.pages) ≡ none =
        ground (arith, get-delete ℕ_discrete k id bp.pages, g) in
      subst (λ (x : BufferPool × Result (Unit {0})). Roomy n id x)
        (ap₂ (λ a b. (a, b)) (sym same) (sym e))
        (unfold evict in (linked, omega (arith, less, i.within), gone))
]

make_room-Roomy :
    (id : ℕ) (bp : BufferPool)
    → InStep bp.capacity bp
    → get ℕ_discrete id bp.pages ≡ none
    → Roomy bp.capacity id (make_room bp)
unfolding make_room
make_room-Roomy id bp i g = elim (Bool-cases (leb bp.capacity (length bp.pages))) [
  | inl e ↦ rw e (evict_page-Roomy bp.capacity id bp i g)
  | inr e ↦ rw e (i.linked, ground (arith, e), g)
]

-- The page that FetchPage returns is the one in the pool, and it is pinned.
abbrev pub Held : ℕ → BufferPool × Result Page → Type 0
Held id (bp, ok p) = (get ℕ_discrete id bp.pages ≡ some p) × (is_pinned p ≡ true)
Held id (bp, err e) = Unit

is_pinned-pin : (p : Page) → is_pinned (pin p) ≡ true
unfolding is_pinned pin
is_pinned-pin p = ground arith

get-put_self :
    (id : ℕ) (p : Page) (pages : Assoc ℕ Page)
    → get ℕ_discrete id (put ℕ_discrete id p pages) ≡ some p
get-put_self id p pages = get-put ℕ_discrete id id p pages ∙ if_pos (ℕ_discrete id id) refl _ _

fetch_read-InStep :
    (n id : ℕ) (bp : BufferPool) (r : DiskManager × Result Page)
    → Roomy n id (bp, ok tt)
    → InStep n (fetch_read id bp r).0 × Held id (fetch_read id bp r)
unfolding fetch_read add_page
fetch_read-InStep n id bp (d, err e) (linked, room, g) =
    (record { linked = linked; within = omega arith }, tt)
fetch_read-InStep n id bp (d, ok p) (linked, room, g) = (
  record {
    linked = new-Linked ℕ_discrete id (pin p) bp.pages bp.lru_list linked g;
    within = omega (arith, length-put_new ℕ_discrete id (pin p) bp.pages g);
  },
  (get-put_self id (pin p) bp.pages, is_pinned-pin p),
)

fetch_miss-InStep :
    (n id : ℕ) (r : BufferPool × Result (Unit {0}))
    → Roomy n id r
    → InStep n (fetch_miss id r).0 × Held id (fetch_miss id r)
unfolding fetch_miss
fetch_miss-InStep n id (bp, err e) h = (h, tt)
fetch_miss-InStep n id (bp, ok u) h = fetch_read-InStep n id bp (read_page id bp.disk) h

-- FetchPage keeps the map and the list of the pool in step and within the capacity, whatever it
-- reads and whether or not it fails. A page that it returns is the one in the pool, and pinned.
pub fetch_page-InStep :
    (id : ℕ) (bp : BufferPool)
    → InStep bp.capacity bp
    → InStep bp.capacity (fetch_page id bp).0 × Held id (fetch_page id bp)
fetch_page-InStep id bp i = elim (Option-cases (get ℕ_discrete id bp.pages)) [
  | inr (p, g) ↦ rw (fetch_page-hit id bp p g) (
    record {
      linked =
          update-Linked ℕ_discrete id (pin p) p bp.pages (id ∷ remove ℕ_discrete id bp.lru_list)
            (hit-Linked ℕ_discrete id p bp.pages bp.lru_list i.linked g) g;
      within = omega (arith, length-put_old ℕ_discrete id (pin p) p bp.pages g, i.within);
    },
    (get-put_self id (pin p) bp.pages, is_pinned-pin p),
  )
  | inl g ↦
      let bp' : BufferPool = record bp { misses = bp.misses + 1 } in
      rw (fetch_page-miss id bp g) (
        fetch_miss-InStep bp.capacity id (make_room bp')
          (make_room-Roomy id bp' (record { linked = i.linked; within = i.within }) g))
]
