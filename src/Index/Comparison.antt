-- ===== src/Index/Comparison.antt =====
-- The order of the keys of one index: what the tree relies on in `compare` of pkg/index/btree.go,
-- whose -1, 0 and 1 are `lt`, `eq` and `gt`.
use Prim.Native.Nat.{compare, Ordering}
use Prim.Native.Nat.Ordering.{lt, eq, gt}
use laura_db.Prelude.{ℕ, ◌≡◌, ◌⊎◌, arith}

abbrev pub opposite : Ordering → Ordering
opposite lt = gt
opposite eq = eq
opposite gt = lt

pub record IsOrder {ℓ} {K : Type ℓ} (cmp : K → K → Ordering) : Type ℓ where
  pub cmp_self : (a : K) → cmp a a ≡ eq
  pub same_of_cmp : (a b : K) → cmp a b ≡ eq → a ≡ b
  pub cmp_flip : (a b : K) → cmp b a ≡ opposite (cmp a b)
  pub cmp_trans : (a b c : K) → cmp a b ≡ lt → cmp b c ≡ lt → cmp a c ≡ lt

pub record Comparison {ℓ} (K : Type ℓ) : Type ℓ where
  pub cmp : K → K → Ordering
  pub order : IsOrder cmp
  pub open order use *

infix 50 ◌≺◌
abbrev pub ◌≺◌ {ℓ} : {K : Type ℓ} ⦃o : Comparison K⦄ → K → K → Type 0
◌≺◌ ⦃o⦄ a b = o.cmp a b ≡ lt

pub compare-IsOrder : IsOrder compare
compare-IsOrder = ground arith

instance unfoldable pub number_comparison : Comparison ℕ
number_comparison = record { cmp = compare; order = compare-IsOrder }

module _ {ℓ} {K : Type ℓ} ⦃o : Comparison K⦄ where
  -- `b` is not below `a`, so what is below `a` is below `b`.
  pub below_trans : (a b c : K) → a ≺ b → ¬ (c ≺ b) → a ≺ c
  below_trans a b c h n = ground (arith, o.cmp_flip b c, o.same_of_cmp b c, o.cmp_trans a b c)

  pub trans_below : (a b c : K) → ¬ (b ≺ a) → b ≺ c → a ≺ c
  trans_below a b c n h = ground (arith, o.cmp_flip a b, o.same_of_cmp a b, o.cmp_trans a b c)

  pub irreflexive : (a : K) → ¬ (a ≺ a)
  irreflexive a h = ground (arith, o.cmp_self a)

  pub asymmetric : (a b : K) → a ≺ b → ¬ (b ≺ a)
  asymmetric a b h k = ground (arith, o.cmp_flip a b)

  pub below_cases : (a b : K) → (a ≺ b) ⊎ (¬ (a ≺ b))
  below_cases a b = ground arith
