-- ===== src/Lsm/Bloom/Marshal.antt =====
-- Marshal and UnmarshalBloomFilter of pkg/lsm/bloom.go. The bytes of the bit array hold eight bits
-- each, the lowest one first.
use laura_db.Prelude.{
  ℕ, zero, suc, ◌+◌, ◌*◌, ◌/◌, ◌%◌, ◌<◌, ◌≤◌, ◌≡◌, refl, ap, ap₂, sym, ◌∙◌, Bool, true, false,
  Option, none, some, List, [], ◌∷◌, ◌++◌, append_assoc, append-take_rest, take_front, drop_front,
  take, drop, length, length-append, length-drop, ltb, ◌==◌, arith, if◌then◌else◌,
}
use laura_db.Storage.Bytes.{le_bytes, le_value, byte_range, length-le_bytes, le_value-le_bytes}
use laura_db.Lsm.Bloom.{BloomFilter}

-- The value of the next `w` bits
unfoldable pub bits_value : ℕ → List Bool → ℕ
bits_value zero bits = 0
bits_value (suc w) [] = 0
bits_value (suc w) (b ∷ bits) = (if b then 1 else 0) + 2 * bits_value w bits

unfoldable pub pack : ℕ → List Bool → List ℕ
pack zero bits = []
pack (suc n) bits = bits_value 8 bits ∷ pack n (drop 8 bits)

unfoldable pub bits_of : ℕ → ℕ → List Bool
bits_of zero b = []
bits_of (suc w) b = (b % 2 == 1) ∷ bits_of w (b / 2)

unfoldable pub unpack : List ℕ → List Bool
unpack [] = []
unpack (b ∷ bytes) = bits_of 8 b ++ unpack bytes

-- How many bytes the bit array has
abbrev pub byte_count : BloomFilter → ℕ
byte_count bf = length bf.bits / 8

unfoldable pub marshal : BloomFilter → List ℕ
marshal bf = le_bytes 4 bf.size ++ (le_bytes 4 bf.num_hashes ++ pack (byte_count bf) bf.bits)

-- The result is none for ErrInvalidBloomFilter.
unfoldable pub unmarshal : List ℕ → Option BloomFilter
unmarshal bytes =
    if ltb (length bytes) 8
    then none
    else some (record {
      bits = unpack (drop 8 bytes);
      size = le_value (take 4 bytes);
      num_hashes = le_value (take 4 (drop 4 bytes));
    })

bits_of-bits_value :
    (w : ℕ) (bits : List Bool) → w ≤ length bits → bits_of w (bits_value w bits) ≡ take w bits
unfolding bits_of bits_value
bits_of-bits_value zero bits h = refl
bits_of-bits_value (suc w) [] h = absurd (omega arith)
bits_of-bits_value (suc w) (true ∷ bits) h =
    ap₂ ◌∷◌ (ground arith) (ap (bits_of w) (omega arith) ∙ bits_of-bits_value w bits (omega arith))
bits_of-bits_value (suc w) (false ∷ bits) h =
    ap₂ ◌∷◌ (ground arith) (ap (bits_of w) (omega arith) ∙ bits_of-bits_value w bits (omega arith))

unpack-pack : (n : ℕ) (bits : List Bool) → length bits ≡ 8 * n → unpack (pack n bits) ≡ bits
unfolding unpack pack
unpack-pack zero [] h = refl
unpack-pack zero (b ∷ bits) h = absurd (omega arith)
unpack-pack (suc n) bits h =
    ap₂ ◌++◌ (bits_of-bits_value 8 bits (omega arith))
      (unpack-pack n (drop 8 bits) (omega (arith, length-drop 8 bits)))
    ∙ append-take_rest 8 bits

pub length-pack : (n : ℕ) (bits : List Bool) → length (pack n bits) ≡ n
unfolding pack
length-pack zero bits = refl
length-pack (suc n) bits = ap suc (length-pack n (drop 8 bits))

-- A filter is read back from the bytes that Marshal makes of it.
pub unmarshal-marshal :
    (bf : BloomFilter)
    → bf.size < byte_range 4
    → bf.num_hashes < byte_range 4
    → length bf.bits ≡ 8 * byte_count bf
    → unmarshal (marshal bf) ≡ some bf
unfolding unmarshal marshal
unmarshal-marshal bf size hashes whole =
    let a = le_bytes 4 bf.size in
    let b = le_bytes 4 bf.num_hashes in
    let p = pack (byte_count bf) bf.bits in
    let first : length a ≡ 4 = length-le_bytes 4 bf.size in
    let second : length b ≡ 4 = length-le_bytes 4 bf.num_hashes in
    let long : ltb (length (a ++ (b ++ p))) 8 ≡ false =
      ground (arith, length-append a (b ++ p), length-append b p, first, second) in
    let behind : drop 8 (a ++ (b ++ p)) ≡ p =
      ap (drop 8) (sym (append_assoc a b p))
      ∙ drop_front 8 (a ++ b) p (omega (arith, length-append a b, first, second)) in
    rw
      (
        long,
        behind,
        take_front 4 a (b ++ p) first,
        drop_front 4 a (b ++ p) first,
        take_front 4 b p second,
        le_value-le_bytes 4 bf.size size,
        le_value-le_bytes 4 bf.num_hashes hashes,
        unpack-pack (byte_count bf) bf.bits whole,
      )
      refl
