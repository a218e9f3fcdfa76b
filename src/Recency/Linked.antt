-- ===== src/Recency/Linked.antt =====
-- A map and a list of its keys in step.
use laura_db.Prelude.{
  suc, ◌≡◌, ap, sym, ◌∙◌, List, ◌∷◌, true, false, none, some, length, arith, subst,
}
use laura_db.Prelude.Assoc.{
  Assoc, get, put, delete, has, Distinct, get-put, get-delete, put-Distinct, delete-Distinct,
}
use laura_db.Prelude.Assoc.Count.{length-delete, length-put_new, length-put_old, delete_absent}
use laura_db.Recency.{
  remove, listed, Once, listed-remove, Once-remove, length-remove, length-remove_absent, front-Once,
  listed-front,
}

module _ {K V : Type 0} (dec : Discrete K) where
  -- The list has each key of the map once, and no other.
  pub record Linked (m : Assoc K (V)) (l : List K) : Type 0 where
    pub distinct : Distinct dec m
    pub once : Once dec l
    pub same : (k : K) → has dec k m ≡ listed dec k l
    pub counted : length m ≡ length l

  -- An entry is removed from both.
  pub remove-Linked :
      (k : K) (e : V) (m : Assoc K (V)) (l : List K)
      → Linked m l
      → get dec k m ≡ some e
      → Linked (delete dec k m) (remove dec k l) × (length m ≡ suc (length (delete dec k m)))
  unfolding has
  remove-Linked k e m l i h =
      let present : listed dec k l ≡ true = ground (arith, i.same k) in
      let less = length-delete dec k e m i.distinct h in
      (
        record {
          distinct = delete-Distinct dec k m i.distinct;
          once = Once-remove dec k l i.once;
          same =
              λ j. ground (arith, i.same j, get-delete dec k j m, listed-remove dec k j l i.once);
          counted = omega (arith, less, length-remove dec k l present, i.counted);
        },
        less,
      )

  pub remove_absent-Linked :
      (k : K) (m : Assoc K (V)) (l : List K)
      → Linked m l
      → get dec k m ≡ none
      → Linked (delete dec k m) (remove dec k l)
  unfolding has
  remove_absent-Linked k m l i h =
      let absent : listed dec k l ≡ false = ground (arith, i.same k) in
      subst (λ (x : List K). Linked (delete dec k m) x) (sym (length-remove_absent dec k l absent))
        (subst (λ (x : Assoc K (V)). Linked x l) (sym (delete_absent dec k m h)) i)

  pub hit-Linked :
      (k : K) (e : V) (m : Assoc K (V)) (l : List K)
      → Linked m l
      → get dec k m ≡ some e
      → Linked m (k ∷ remove dec k l)
  unfolding has
  hit-Linked k e m l i h =
      let present : listed dec k l ≡ true = ground (arith, i.same k) in
      record {
        distinct = i.distinct;
        once = front-Once dec k l i.once;
        same = λ j. i.same j ∙ sym (listed-front dec k j l i.once present);
        counted = i.counted ∙ length-remove dec k l present;
      }

  pub update-Linked :
      (k : K) (e old : V) (m : Assoc K (V)) (l : List K)
      → Linked m l
      → get dec k m ≡ some old
      → Linked (put dec k e m) l
  unfolding has
  update-Linked k e old m l i h = record {
    distinct = put-Distinct dec k e m i.distinct;
    once = i.once;
    same = λ j. elim (dec k j) [
      | yes p ↦
          ground
            (arith, get-put dec k j e m, i.same j, subst (λ (x : K). get dec x m ≡ some old) p h)
      | no p ↦ ground (arith, get-put dec k j e m, i.same j)
    ];
    counted = length-put_old dec k e old m h ∙ i.counted;
  }

  pub new-Linked :
      (k : K) (e : V) (m : Assoc K (V)) (l : List K)
      → Linked m l
      → get dec k m ≡ none
      → Linked (put dec k e m) (k ∷ l)
  unfolding has listed
  new-Linked k e m l i h = record {
    distinct = put-Distinct dec k e m i.distinct;
    once = (ground (arith, i.same k), i.once);
    same = λ j. ground (arith, get-put dec k j e m, i.same j);
    counted = length-put_new dec k e m h ∙ ap suc i.counted;
  }
