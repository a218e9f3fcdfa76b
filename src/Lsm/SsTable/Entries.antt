-- ===== src/Lsm/SsTable/Entries.antt =====
-- The encoding of the entries of pkg/lsm/sstable.go, and lists of entries in order.
use Prim.Native.Nat.Ordering.{lt, eq, gt}
use laura_db.Prelude.{
  ℕ, ◌<◌, ◌≤◌, ◌≡◌, refl, Bool, true, false, Option, none, some, List, [], ◌∷◌, ◌++◌, append_assoc,
  length, length-append, take_front, drop_front, All, arith, leb, ◌==◌, if◌then◌else◌,
}
use laura_db.Storage.Bytes.{le_bytes, le_value, length-le_bytes, le_value-le_bytes, byte_range}
use laura_db.Index.Key.{compare_bytes}
use laura_db.Index.Key.Order.{compare_bytes-IsOrder}
use laura_db.Index.Comparison.{Comparison, ◌≺◌}
use laura_db.Lsm.SsTable.{Entry, Outcome, done, ◌>>=◌, read_full, encode_entry, read_entry}

instance unfoldable pub key_order : Comparison (List ℕ)
key_order = record { cmp = compare_bytes; order = compare_bytes-IsOrder }

-- Lengths and timestamps fit their fields.
pub record Fits (e : Entry) : Type 0 where
  pub key_fits : length e.key < byte_range 4
  pub value_fits : length e.value < byte_range 4
  pub timestamp_fits : e.timestamp < byte_range 8

unfoldable pub encode_all : List Entry → List ℕ
encode_all [] = []
encode_all (e ∷ es) = encode_entry e ++ encode_all es

-- The keys go up strictly.
abbrev pub Ascending : List Entry → Type 0
Ascending [] = Unit
Ascending (e ∷ es) = All (λ f. e.key ≺ f.key) es × Ascending es

-- The first entry with the key
unfoldable pub lookup : List ℕ → List Entry → Option Entry
lookup key [] = none
lookup key (e ∷ es) = elim (compare_bytes e.key key) [
  | lt ↦ lookup key es
  | eq ↦ some e
  | gt ↦ lookup key es
]

pub read_full-append :
    (n : ℕ) (xs rest : List ℕ) → length xs ≡ n → read_full n (xs ++ rest) ≡ done (xs, rest)
unfolding read_full
read_full-append n xs rest h =
    let enough : leb n (length (xs ++ rest)) ≡ true = ground (arith, length-append xs rest, h) in
    rw (enough, take_front n xs rest h, drop_front n xs rest h) refl

flag_of : (b : Bool) → le_value ((if b then 1 else 0) ∷ []) == 1 ≡ b
unfolding le_value
flag_of true = refl
flag_of false = refl

-- A field of the entry, and the fields behind it
pub take_field :
    {A : Type 0} (n : ℕ) (xs ys rest : List ℕ) (f : List ℕ × List ℕ → Outcome A)
    → length xs ≡ n
    → (read_full n ((xs ++ ys) ++ rest) >>= f) ≡ f (xs, ys ++ rest)
unfolding ◌>>=◌
take_field n xs ys rest f h =
    rw (append_assoc xs ys rest, read_full-append n xs (ys ++ rest) h) refl

-- An entry reads back from the bytes that Write wrote for it.
pub read_entry-encode_entry :
    (e : Entry) (rest : List ℕ) → Fits e → read_entry (encode_entry e ++ rest) ≡ done (e, rest)
unfolding read_entry encode_entry
read_entry-encode_entry e rest f =
    rw
      (
        take_field 4 (le_bytes 4 (length e.key)) _ rest _ (length-le_bytes 4 _),
        le_value-le_bytes 4 (length e.key) f.key_fits,
        take_field (length e.key) e.key _ rest _ refl,
        take_field 4 (le_bytes 4 (length e.value)) _ rest _ (length-le_bytes 4 _),
        le_value-le_bytes 4 (length e.value) f.value_fits,
        take_field (length e.value) e.value _ rest _ refl,
        take_field 8 (le_bytes 8 e.timestamp) _ rest _ (length-le_bytes 8 _),
        le_value-le_bytes 8 e.timestamp f.timestamp_fits,
        take_field 1 ((if e.deleted then 1 else 0) ∷ []) [] rest _ refl,
        flag_of e.deleted,
      )
      refl

pub length-encode_entry : (e : Entry) → 17 ≤ length (encode_entry e)
unfolding encode_entry
length-encode_entry e =
    rw
      (
        length-append (le_bytes 4 (length e.key)) _,
        length-append e.key _,
        length-append (le_bytes 4 (length e.value)) _,
        length-append e.value _,
        length-append (le_bytes 8 e.timestamp) _,
      )
      (omega (
        arith,
        length-le_bytes 4 (length e.key),
        length-le_bytes 4 (length e.value),
        length-le_bytes 8 e.timestamp,
      ))
