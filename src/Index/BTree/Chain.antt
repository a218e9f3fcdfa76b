-- ===== src/Index/BTree/Chain.antt =====
-- The list that the `next` pointers of the leaves form, as pkg/index/btree.go changes it.
use laura_db.Prelude.{
  sym, ℕ, suc, ◌<◌, ◌≡◌, ◌≢◌, refl, ◌∙◌, arith, Option, none, some, List, [], ◌∷◌, ◌++◌, All,
}
use laura_db.Index.BTree.{Leaf}

module _ {ℓ κ} {K : Type ℓ} {V : Type κ} where
  -- The address of the first leaf, or that of what follows
  abbrev pub first : List (Leaf K V) → Option ℕ → Option ℕ
  first [] rest = rest
  first (l ∷ ls) rest = some l.address

  -- Each leaf points to the next one.
  abbrev pub Linked : List (Leaf K V) → Type 0
  Linked [] = Unit
  Linked (l ∷ ls) = (l.next ≡ first ls none) × Linked ls

  -- No two leaves have one address, and none has that of a later leaf.
  abbrev pub Separate : List (Leaf K V) → Type (ℓ ⊔ κ)
  Separate [] = Unit
  Separate (l ∷ ls) = All (λ m. l.address ≢ m.address) ls × Separate ls

  abbrev pub Old : ℕ → List (Leaf K V) → Type 0
  Old fresh ls = All (λ l. l.address < fresh) ls

  -- One leaf has other entries, or is two leaves, the second one new.
  pub data Touched (fresh : ℕ) : List (Leaf K V) → List (Leaf K V) → Type (ℓ ⊔ κ) where
    filled :
        (l : Leaf K V) (es : List (K × V)) (ls : List (Leaf K V))
        → Touched fresh (l ∷ ls) (record { address = l.address; entries = es; next = l.next } ∷ ls)
    divided :
        (l : Leaf K V) (es fs : List (K × V)) (ls : List (Leaf K V))
        → Touched fresh (l ∷ ls) (
            record { address = l.address; entries = es; next = some fresh }
            ∷ record { address = fresh; entries = fs; next = l.next }
            ∷ ls)
    later :
        (l : Leaf K V) (ls ms : List (Leaf K V))
        → Touched fresh ls ms
        → Touched fresh (l ∷ ls) (l ∷ ms)

  pub Touched-after :
      (fresh : ℕ) (ks ls ms : List (Leaf K V))
      → Touched fresh ls ms
      → Touched fresh (ks ++ ls) (ks ++ ms)
  Touched-after fresh [] ls ms t = t
  Touched-after fresh (k ∷ ks) ls ms t =
      later k (ks ++ ls) (ks ++ ms) (Touched-after fresh ks ls ms t)

  pub Touched-before :
      (fresh : ℕ) (ls ms ns : List (Leaf K V))
      → Touched fresh ls ms
      → Touched fresh (ls ++ ns) (ms ++ ns)
  Touched-before fresh ls ms ns (filled l es rest) = filled l es (rest ++ ns)
  Touched-before fresh ls ms ns (divided l es fs rest) = divided l es fs (rest ++ ns)
  Touched-before fresh ls ms ns (later l us ws t) =
      later l (us ++ ns) (ws ++ ns) (Touched-before fresh us ws ns t)

  first-Touched :
      (fresh : ℕ) (ls ms : List (Leaf K V)) → Touched fresh ls ms → first ms none ≡ first ls none
  first-Touched fresh ls ms (filled l es rest) = refl
  first-Touched fresh ls ms (divided l es fs rest) = refl
  first-Touched fresh ls ms (later l us ws t) = refl

  pub Linked-Touched :
      (fresh : ℕ) (ls ms : List (Leaf K V)) → Linked ls → Touched fresh ls ms → Linked ms
  Linked-Touched fresh ls ms c (filled l es rest) = c
  Linked-Touched fresh ls ms c (divided l es fs rest) = (refl, c)
  Linked-Touched fresh ls ms c (later l us ws t) =
      (c.0 ∙ sym (first-Touched fresh us ws t), Linked-Touched fresh us ws c.1 t)

  older : (fresh : ℕ) (ls : List (Leaf K V)) → Old fresh ls → Old (suc fresh) ls
  older fresh [] o = tt
  older fresh (l ∷ ls) o = (omega (arith, o.0), older fresh ls o.1)

  not_fresh : (fresh : ℕ) (ls : List (Leaf K V)) → Old fresh ls → All (λ m. fresh ≢ m.address) ls
  not_fresh fresh [] o = tt
  not_fresh fresh (l ∷ ls) o = ((λ e. omega (arith, e, o.0)), not_fresh fresh ls o.1)

  pub Old-Touched :
      (fresh : ℕ) (ls ms : List (Leaf K V))
      → Old fresh ls
      → Touched fresh ls ms
      → Old (suc fresh) ms
  Old-Touched fresh ls ms c (filled l es rest) = (omega (arith, c.0), older fresh rest c.1)
  Old-Touched fresh ls ms c (divided l es fs rest) =
      (omega (arith, c.0), (omega arith, older fresh rest c.1))
  Old-Touched fresh ls ms c (later l us ws t) = (omega (arith, c.0), Old-Touched fresh us ws c.1 t)

  apart :
      (fresh a : ℕ) (ls ms : List (Leaf K V))
      → a < fresh
      → All (λ m. a ≢ m.address) ls
      → Touched fresh ls ms
      → All (λ m. a ≢ m.address) ms
  apart fresh a ls ms h c (filled l es rest) = c
  apart fresh a ls ms h c (divided l es fs rest) = (c.0, ((λ e. omega (arith, e, h)), c.1))
  apart fresh a ls ms h c (later l us ws t) = (c.0, apart fresh a us ws h c.1 t)

  pub Separate-Touched :
      (fresh : ℕ) (ls ms : List (Leaf K V))
      → Old fresh ls
      → Separate ls
      → Touched fresh ls ms
      → Separate ms
  Separate-Touched fresh ls ms o c (filled l es rest) = c
  Separate-Touched fresh ls ms o c (divided l es fs rest) =
      (((λ e. omega (arith, e, o.0)), c.0), (not_fresh fresh rest o.1, c.1))
  Separate-Touched fresh ls ms o c (later l us ws t) =
      (apart fresh l.address us ws o.0 c.0 t, Separate-Touched fresh us ws o.1 c.1 t)
