-- ===== src/Recency.antt =====
-- container/list as the caches use it: a list of keys without repetition, the most recent first.
pub mod Linked
use laura_db.Prelude.{
  suc, ◌≡◌, refl, sym, List, [], ◌∷◌, Bool, true, false, Option, none, some, length, ite, if_pos,
  if_neg, subst, arith,
}

module _ {K : Type 0} (dec : Discrete K) where
  -- `l.Remove(e)`, for the element with the key.
  unfoldable pub remove : K → List K → List K
  remove k [] = []
  remove k (j ∷ l) = ite (dec j k) l (j ∷ remove k l)

  unfoldable pub listed : K → List K → Bool
  listed k [] = false
  listed k (j ∷ l) = ite (dec j k) true (listed k l)

  abbrev pub Once : List K → Type 0
  Once [] = Unit
  Once (j ∷ l) = (listed j l ≡ false) × Once l

  pub listed-remove :
      (k j : K) (l : List K) → Once l → listed j (remove k l) ≡ ite (dec k j) false (listed j l)
  unfolding remove listed
  listed-remove k j [] o = ground arith
  listed-remove k j (i ∷ l) o = elim (dec i k) [
    | yes p ↦ rw (if_pos _ p) (ground (arith, o.0, subst (λ (x : K). listed x l ≡ false) p o.0))
    | no p ↦ rw (if_neg _ p) (ground (arith, listed-remove k j l o.1))
  ]

  pub Once-remove : (k : K) (l : List K) → Once l → Once (remove k l)
  unfolding remove
  Once-remove k [] o = tt
  Once-remove k (i ∷ l) o = ground (arith, Once-remove k l o.1, listed-remove k i l o.1)

  pub length-remove :
      (k : K) (l : List K) → listed k l ≡ true → length l ≡ suc (length (remove k l))
  unfolding remove listed
  length-remove k [] h = cc
  length-remove k (i ∷ l) h = ground (arith, length-remove k l)

  pub length-remove_absent : (k : K) (l : List K) → listed k l ≡ false → remove k l ≡ l
  unfolding remove listed
  length-remove_absent k [] h = refl
  length-remove_absent k (i ∷ l) h = ground (arith, length-remove_absent k l)

module _ {K : Type 0} (dec : Discrete K) where
  -- `l.MoveToFront(e)` keeps the elements.
  pub front-Once : (k : K) (l : List K) → Once dec l → Once dec (k ∷ remove dec k l)
  front-Once k l o = (ground (arith, listed-remove dec k k l o), Once-remove dec k l o)

  pub listed-front :
      (k j : K) (l : List K)
      → Once dec l
      → listed dec k l ≡ true
      → listed dec j (k ∷ remove dec k l) ≡ listed dec j l
  unfolding listed
  listed-front k j l o h = elim (dec k j) [
    | yes p ↦ rw (if_pos _ p) (sym (subst (λ (x : K). listed dec x l ≡ true) p h))
    | no p ↦ rw (if_neg _ p) (ground (arith, listed-remove dec k j l o))
  ]

-- `l.Back()`
unfoldable pub back {ℓ} : {A : Type ℓ} → List A → Option A
back [] = none
back (x ∷ l) = elim (back l) [ none ↦ some x | some y ↦ some y ]

pub back-listed :
    {K : Type 0} (dec : Discrete K) (k : K) (l : List K) → back l ≡ some k → listed dec k l ≡ true
unfolding back listed
back-listed dec k [] h = cc
back-listed dec k (x ∷ l) h = ground (arith, back-listed dec k l)

pub nil_of_back : {K : Type 0} (l : List K) → back l ≡ none → l ≡ []
unfolding back
nil_of_back [] h = refl
nil_of_back (x ∷ l) h = ground arith
