-- ===== src/Prelude/Assoc/Count.antt =====
-- How many entries a map has after a write and after a deletion.
use Prim.Native.Nat.{suc}
use mathlib.Core.Path.{◌≡◌, refl, ap, sym, subst}
use mathlib.Core.Logic.{if_pos, if_neg}
use mathlib.Core.List.{[], ◌∷◌}
use mathlib.Core.Option.{none, some}
use native.Mathlib.Omega.{arith}
use laura_db.Prelude.Lists.{length}
use laura_db.Prelude.Assoc.{Assoc, get, put, delete, Distinct}

module _ {ℓ} {K V : Type ℓ} (dec : Discrete K) where
  pub delete_absent : (k : K) (m : Assoc K V) → get dec k m ≡ none → delete dec k m ≡ m
  unfolding get delete
  delete_absent k [] h = refl
  delete_absent k ((j, w) ∷ m) h = ground (arith, delete_absent k m)

  -- The number of entries after a write and after a deletion.
  pub length-delete :
      (k : K) (v : V) (m : Assoc K V)
      → Distinct dec m
      → get dec k m ≡ some v
      → length m ≡ suc (length (delete dec k m))
  unfolding get delete
  length-delete k v [] d h = cc
  length-delete k v ((j, w) ∷ m) d h = elim (dec j k) [
    | yes p ↦
        rw (if_pos _ p) (
          ap suc
            (ap length (sym (delete_absent k m (subst (λ (x : K). get dec x m ≡ none) p d.0)))))
    | no p ↦ rw (if_neg _ p) (ap suc (length-delete k v m d.1 (ground arith)))
  ]

  pub length-put_new :
      (k : K) (v : V) (m : Assoc K V) → get dec k m ≡ none → length (put dec k v m) ≡ suc (length m)
  unfolding get put
  length-put_new k v [] h = refl
  length-put_new k v ((j, w) ∷ m) h = ground (arith, length-put_new k v m)

  pub length-put_old :
      (k : K) (v w : V) (m : Assoc K V) → get dec k m ≡ some w → length (put dec k v m) ≡ length m
  unfolding get put
  length-put_old k v w [] h = cc
  length-put_old k v w ((j, x) ∷ m) h = ground (arith, length-put_old k v w m)
