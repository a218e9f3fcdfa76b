-- ===== src/Lsm/SsTable/Lookup.antt =====
-- The search of Get in pkg/lsm/sstable.go through entries in order.
use Prim.Native.Nat.{Ordering}
use Prim.Native.Nat.Ordering.{lt, eq, gt}
use laura_db.Prelude.{
  ℕ, zero, suc, ◌+◌, ◌-◌, ◌<◌, ◌≡◌, ◌≢◌, ◌⊎◌, inl, inr, refl, ap, sym, subst, ◌∙◌, true, false,
  none, some, List, [], ◌∷◌, ◌++◌, append_assoc, length, length-append, All, All-imp, arith, leb,
}
use laura_db.Index.Key.{compare_bytes}
use laura_db.Index.Comparison.{◌≺◌, irreflexive}
use laura_db.Lsm.SsTable.{Entry, done, encode_entry, scan}
use laura_db.Lsm.SsTable.Entries.{
  key_order, Fits, encode_all, Ascending, lookup, read_entry-encode_entry, length-encode_entry,
}

pub Ordering-cases : (c : Ordering) → (c ≡ lt) ⊎ (c ≡ eq) ⊎ (c ≡ gt)
Ordering-cases lt = inl refl
Ordering-cases eq = inr (inl refl)
Ordering-cases gt = inr (inr refl)

-- No entry has a key that all keys are different from.
pub lookup-none :
    (key : List ℕ) (es : List Entry) → All (λ e. e.key ≢ key) es → lookup key es ≡ none
unfolding lookup key_order
lookup-none key [] h = refl
lookup-none key (e ∷ es) h = elim (Ordering-cases (compare_bytes e.key key)) [
  | inl c ↦ rw (c, lookup) (lookup-none key es h.1)
  | inr (inl c) ↦ absurd (h.0 (key_order.same_of_cmp e.key key c))
  | inr (inr c) ↦ rw (c, lookup) (lookup-none key es h.1)
]

pub differs : {key : List ℕ} (f : Entry) → key ≺ f.key → f.key ≢ key
differs {key} f h q = irreflexive key (subst (λ k. key ≺ k) q h)

-- Entries behind a greater key do not have the key.
pub lookup-past :
    (key : List ℕ) (e : Entry) (es : List Entry)
    → key ≺ e.key
    → Ascending (e ∷ es)
    → lookup key (e ∷ es) ≡ none
lookup-past key e es h a =
    lookup-none key (e ∷ es)
      (differs e h, All-imp (λ f p. differs f (key_order.cmp_trans key e.key f.key h p)) es a.0)

lookup-beyond :
    (key : List ℕ) (e : Entry) (es : List Entry)
    → compare_bytes e.key key ≡ gt
    → Ascending (e ∷ es)
    → lookup key (e ∷ es) ≡ none
unfolding key_order
lookup-beyond key e es h a = lookup-past key e es (key_order.cmp_flip e.key key ∙ rw h refl) a

pub lookup-here :
    (key : List ℕ) (e : Entry) (es : List Entry)
    → compare_bytes e.key key ≡ eq
    → lookup key (e ∷ es) ≡ some e
unfolding lookup
lookup-here key e es h = rw (lookup, h) refl

pub lookup-behind :
    (key : List ℕ) (e : Entry) (es : List Entry)
    → compare_bytes e.key key ≡ lt
    → lookup key (e ∷ es) ≡ lookup key es
unfolding lookup
lookup-behind key e es h = rw (lookup, h) refl

-- The scan from the start of an entry finds what a search through the entries from there finds.
pub scan-lookup :
    (fuel : ℕ) (key : List ℕ) (data_end pos : ℕ) (es : List Entry) (footer : List ℕ)
    → Ascending es
    → All Fits es
    → data_end ≡ pos + length (encode_all es)
    → length (encode_all es) < fuel
    → scan fuel key data_end pos (encode_all es ++ footer) ≡ done (lookup key es)
unfolding scan encode_all lookup
scan-lookup zero key data_end pos es footer a f h k = absurd (omega arith)
scan-lookup (suc fuel) key data_end pos [] footer a f h k =
    let past : leb data_end pos ≡ true = ground (arith, h) in rw past refl
scan-lookup (suc fuel) key data_end pos (e ∷ es) footer a f h k =
    let split = length-append (encode_entry e) (encode_all es) in
    let long = length-encode_entry e in
    let within : leb data_end pos ≡ false = ground (arith, h, split, long) in
    let moved : pos + (length (encode_all (e ∷ es) ++ footer) - length (encode_all es ++ footer))
        ≡ pos + length (encode_entry e) =
      omega (
        arith,
        length-append (encode_all (e ∷ es)) footer,
        length-append (encode_all es) footer,
        split,
      ) in
    let rest =
      scan-lookup fuel key data_end (pos + length (encode_entry e)) es footer a.1 f.1
        (omega (arith, split)) (omega (arith, split, long)) in
    let read = read_entry-encode_entry e (encode_all es ++ footer) f.0 in
    let assoc = append_assoc (encode_entry e) (encode_all es) footer in
    elim (Ordering-cases (compare_bytes e.key key)) [
      | inl c ↦ rw (within, assoc, read, c, moved) (rest ∙ ap done (sym (lookup-behind key e es c)))
      | inr (inl c) ↦ rw (within, assoc, read, c) (ap done (sym (lookup-here key e es c)))
      | inr (inr c) ↦ rw (within, assoc, read, c) (ap done (sym (lookup-beyond key e es c a)))
    ]
