-- ===== src/Prelude/Assoc.antt =====
-- Go's `map`: an association list with one entry for each key, over keys with a decidable equality.
pub mod Count
use mathlib.Core.Path.{◌≡◌, refl, ap, subst, subst₂}
use mathlib.Core.Logic.{ite, if_pos, if_neg, inl, inr}
use mathlib.Core.Bool.{Bool, true, false}
use mathlib.Core.List.{List, [], ◌∷◌}
use mathlib.Core.Option
use mathlib.Core.Option.{Option, none, some}
use native.Mathlib.Omega.{arith}
use laura_db.Prelude.Tests.{Bool-cases}
use laura_db.Prelude.Lists.{any}

abbrev pub Assoc {κ ℓ} : Type κ → Type ℓ → Type (κ ⊔ ℓ)
Assoc K V = List (K × V)

-- `for k, v := range m { m[k] = f(v) }`
unfoldable pub map_values {κ ℓ} : {K : Type κ} {V W : Type ℓ} → (V → W) → Assoc K V → Assoc K W
map_values f [] = []
map_values f ((k, v) ∷ m) = (k, f v) ∷ map_values f m

pub map_values-map_values {κ ℓ} :
    {K : Type κ} {U V W : Type ℓ} (g : U → V) (f : V → W) (m : Assoc K U)
    → map_values f (map_values g m) ≡ map_values (λ u. f (g u)) m
unfolding map_values
map_values-map_values g f [] = refl
map_values-map_values g f ((k, v) ∷ m) = ap (◌∷◌ (k, f (g v))) (map_values-map_values g f m)

module _ {κ ℓ} {K : Type κ} {V : Type ℓ} (dec : Discrete K) where
  unfoldable pub get : K → Assoc K V → Option V
  get k [] = none
  get k ((j, v) ∷ m) = ite (dec j k) (some v) (get k m)

  unfoldable pub put : K → V → Assoc K V → Assoc K V
  put k v [] = (k, v) ∷ []
  put k v ((j, w) ∷ m) = ite (dec j k) ((k, v) ∷ m) ((j, w) ∷ put k v m)

  unfoldable pub delete : K → Assoc K V → Assoc K V
  delete k [] = []
  delete k ((j, w) ∷ m) = let rest = delete k m in ite (dec j k) rest ((j, w) ∷ rest)

  pub get-put :
      (k j : K) (v : V) (m : Assoc K V) → get j (put k v m) ≡ ite (dec k j) (some v) (get j m)
  unfolding get put
  get-put k j v [] = refl
  get-put k j v ((i, w) ∷ m) = elim (dec i k) [
    | yes p ↦ rw (if_pos _ p) (ground arith)
    | no p ↦ rw (if_neg _ p) (ground (arith, get-put k j v m))
  ]

  pub get-delete : (k j : K) (m : Assoc K V) → get j (delete k m) ≡ ite (dec k j) none (get j m)
  unfolding get delete
  get-delete k j [] = ground arith
  get-delete k j ((i, w) ∷ m) = elim (dec i k) [
    | yes p ↦ rw (if_pos _ p) (ground (arith, get-delete k j m))
    | no p ↦ rw (if_neg _ p) (ground (arith, get-delete k j m))
  ]

module _ {κ ℓ} {K : Type κ} {V : Type ℓ} (dec : Discrete K) where
  -- `_, ok := m[k]`
  unfoldable pub has : K → Assoc K V → Bool
  unfolding get
  has k m = elim (get dec k m) [ none ↦ false | some v ↦ true ]

  -- No key has two entries.
  abbrev pub Distinct : Assoc K V → Type ℓ
  Distinct [] = Unit
  Distinct ((k, v) ∷ m) = (get dec k m ≡ none) × Distinct m

  pub put-Distinct : (k : K) (v : V) (m : Assoc K V) → Distinct m → Distinct (put dec k v m)
  unfolding put get
  put-Distinct k v [] d = (refl, tt)
  put-Distinct k v ((j, w) ∷ m) d = ground (arith, put-Distinct k v m d.1, get-put dec k j v m)

  pub delete-Distinct : (k : K) (m : Assoc K V) → Distinct m → Distinct (delete dec k m)
  unfolding delete
  delete-Distinct k [] d = tt
  delete-Distinct k ((j, w) ∷ m) d = ground (arith, delete-Distinct k m d.1, get-delete dec k j m)

  -- A property of every entry holds again after a write of an entry that has it.
  pub put-every {μ} :
      (P : K → V → Type μ) (k : K) (v : V) (m : Assoc K V)
      → P k v
      → ((j : K) (w : V) → get dec j m ≡ some w → P j w)
      → (j : K) (w : V) → get dec j (put dec k v m) ≡ some w
      → P j w
  put-every P k v m h all j w e = elim (dec k j) [
    | yes p ↦ let q : v ≡ w = ground (arith, get-put dec k j v m) in subst₂ P p q h
    | no p ↦ all j w (ground (arith, get-put dec k j v m))
  ]

  -- A loop over the map finds an entry that passes its test, or there is none.
  pub any_of_get :
      (p : K × V → Bool) (k : K) (v : V) (m : Assoc K V)
      → get dec k m ≡ some v
      → p (k, v) ≡ true
      → any p m ≡ true
  unfolding get
  any_of_get p k v [] e h = cc
  any_of_get p k v ((j, w) ∷ m) e h = ground (arith, any_of_get p k v m)

  pub get_of_any :
      (p : K × V → Bool) (m : Assoc K V)
      → Distinct m
      → any p m ≡ true
      → (k : K) × (v : V) × (get dec k m ≡ some v) × (p (k, v) ≡ true)
  unfolding get
  get_of_any p [] d h = cc
  get_of_any p ((j, w) ∷ m) d h = elim (Bool-cases (p (j, w))) [
    | inl e ↦ (j, w, if_pos (dec j j) refl _ _, e)
    | inr e ↦
        let (k, v, found, passed) = get_of_any p m d.1 (ground arith) in
        (
          k,
          v,
          elim (dec j k) [
            | yes q ↦ ground (arith, subst (λ (x : K). get dec x m ≡ none) q d.0)
            | no q ↦ rw (if_neg _ q) found
          ],
          passed,
        )
  ]

module _ {κ ℓ} {K : Type κ} {V W : Type ℓ} (dec : Discrete K) where
  pub get-map_values :
      (f : V → W) (k : K) (m : Assoc K V) → get dec k (map_values f m) ≡ Option.map f (get dec k m)
  unfolding get map_values
  get-map_values f k [] = refl
  get-map_values f k ((j, v) ∷ m) = ground (arith, get-map_values f k m)

  pub map_values-Distinct :
      (f : V → W) (m : Assoc K V) → Distinct dec m → Distinct dec (map_values f m)
  unfolding map_values
  map_values-Distinct f [] d = tt
  map_values-Distinct f ((k, v) ∷ m) d =
      (ground (arith, get-map_values f k m), map_values-Distinct f m d.1)
