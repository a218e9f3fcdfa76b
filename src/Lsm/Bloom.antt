-- ===== src/Lsm/Bloom.antt =====
-- pkg/lsm/bloom.go: the Bloom filter, and hash/fnv's New64a, which it uses. Bit `i` of byte `j` of
-- the bit array is element `8 j + i` of the list. Of an index that is out of range, which would
-- panic, the bit is false.
pub mod Marshal
use native.Mathlib.Omega.{mod_fact}
use laura_db.Prelude.{
  ℕ, zero, suc, ◌+◌, ◌*◌, ◌/◌, ◌%◌, ◌≤◌, ◌<◌, ◌≡◌, refl, ap, ◌∙◌, Bool, true, false, ◌&&◌, List, [],
  ◌∷◌, ◌++◌, length, arith,
}

-- `a ^ b` of numbers of `w` bits
unfoldable pub xor_bits : ℕ → ℕ → ℕ → ℕ
xor_bits zero a b = 0
xor_bits (suc w) a b = (a + b) % 2 + 2 * xor_bits w (a / 2) (b / 2)

-- FNV-1a of 64 bits, from the hash of what was written before
unfoldable pub fnv_from : ℕ → List ℕ → ℕ
fnv_from h [] = h
fnv_from h (b ∷ bs) = fnv_from (xor_bits 64 h b * 1099511628211 % 18446744073709551616) bs

unfoldable pub sum64 : List ℕ → ℕ
sum64 bs = fnv_from 14695981039346656037 bs

pub record BloomFilter : Type 0 where
  pub bits : List Bool
  pub size : ℕ
  pub num_hashes : ℕ

unfoldable pub clear_bits : ℕ → List Bool
clear_bits zero = []
clear_bits (suc n) = false ∷ clear_bits n

unfoldable pub new_bloom_filter : ℕ → ℕ → BloomFilter
new_bloom_filter expected_items num_hashes =
    let size = expected_items * 10 in
    record { bits = clear_bits (8 * ((size + 7) / 8)); size = size; num_hashes = num_hashes }

unfoldable pub bit_at : ℕ → List Bool → Bool
bit_at i [] = false
bit_at zero (b ∷ bs) = b
bit_at (suc i) (b ∷ bs) = bit_at i bs

unfoldable pub set_bit : ℕ → List Bool → List Bool
set_bit i [] = []
set_bit zero (b ∷ bs) = true ∷ bs
set_bit (suc i) (b ∷ bs) = b ∷ set_bit i bs

unfoldable pub hash : List ℕ → ℕ → ℕ
hash key i = (sum64 key + i * sum64 (key ++ (i % 256 ∷ []))) % 18446744073709551616

-- The rounds `i` to `i + n - 1` of the loop of Add
unfoldable pub add_hashes : ℕ → ℕ → List ℕ → ℕ → List Bool → List Bool
add_hashes zero i key size bits = bits
add_hashes (suc n) i key size bits =
    add_hashes n (suc i) key size (set_bit (hash key i % size) bits)

unfoldable pub add : List ℕ → BloomFilter → BloomFilter
add key bf = record bf { bits = add_hashes bf.num_hashes 0 key bf.size bf.bits }

-- The rounds `i` to `i + n - 1` of the loop of Contains
unfoldable pub contains_hashes : ℕ → ℕ → List ℕ → ℕ → List Bool → Bool
contains_hashes zero i key size bits = true
contains_hashes (suc n) i key size bits =
    bit_at (hash key i % size) bits && contains_hashes n (suc i) key size bits

unfoldable pub contains : List ℕ → BloomFilter → Bool
contains key bf = contains_hashes bf.num_hashes 0 key bf.size bf.bits

length-set_bit : (i : ℕ) (bs : List Bool) → length (set_bit i bs) ≡ length bs
unfolding set_bit
length-set_bit i [] = refl
length-set_bit zero (b ∷ bs) = refl
length-set_bit (suc i) (b ∷ bs) = ap suc (length-set_bit i bs)

bit_at-set_bit : (i : ℕ) (bs : List Bool) → i < length bs → bit_at i (set_bit i bs) ≡ true
unfolding bit_at set_bit
bit_at-set_bit i [] h = absurd (omega arith)
bit_at-set_bit zero (b ∷ bs) h = refl
bit_at-set_bit (suc i) (b ∷ bs) h = bit_at-set_bit i bs (omega arith)

set_bit-keeps : (i j : ℕ) (bs : List Bool) → bit_at i bs ≡ true → bit_at i (set_bit j bs) ≡ true
unfolding bit_at set_bit
set_bit-keeps i j [] h = h
set_bit-keeps zero zero (b ∷ bs) h = refl
set_bit-keeps zero (suc j) (b ∷ bs) h = h
set_bit-keeps (suc i) zero (b ∷ bs) h = h
set_bit-keeps (suc i) (suc j) (b ∷ bs) h = set_bit-keeps i j bs h

add_hashes-keeps :
    (n i : ℕ) (key : List ℕ) (size j : ℕ) (bs : List Bool)
    → bit_at j bs ≡ true
    → bit_at j (add_hashes n i key size bs) ≡ true
unfolding add_hashes
add_hashes-keeps zero i key size j bs h = h
add_hashes-keeps (suc n) i key size j bs h =
    add_hashes-keeps n (suc i) key size j _ (set_bit-keeps j _ bs h)

length-add_hashes :
    (n i : ℕ) (key : List ℕ) (size : ℕ) (bs : List Bool)
    → length (add_hashes n i key size bs) ≡ length bs
unfolding add_hashes
length-add_hashes zero i key size bs = refl
length-add_hashes (suc n) i key size bs =
    length-add_hashes n (suc i) key size _ ∙ length-set_bit _ bs

length-clear_bits : (n : ℕ) → length (clear_bits n) ≡ n
unfolding clear_bits
length-clear_bits zero = refl
length-clear_bits (suc n) = ap suc (length-clear_bits n)

-- The size, the number of hashes and the length of the bit array of a filter
pub record Shape (size num_hashes bits : ℕ) (bf : BloomFilter) : Type 0 where
  pub size_is : bf.size ≡ size
  pub hashes_are : bf.num_hashes ≡ num_hashes
  pub bits_are : length bf.bits ≡ bits

pub new_bloom_filter-Shape :
    (n k : ℕ) → Shape (n * 10) k (8 * ((n * 10 + 7) / 8)) (new_bloom_filter n k)
unfolding new_bloom_filter
new_bloom_filter-Shape n k = record {
  size_is = refl;
  hashes_are = refl;
  bits_are = length-clear_bits (8 * ((n * 10 + 7) / 8));
}

pub add-Shape :
    (s k n : ℕ) (key : List ℕ) (bf : BloomFilter) → Shape s k n bf → Shape s k n (add key bf)
unfolding add
add-Shape s k n key bf h = record {
  size_is = h.size_is;
  hashes_are = h.hashes_are;
  bits_are = length-add_hashes bf.num_hashes 0 key bf.size bf.bits ∙ h.bits_are;
}

-- Every index of a bit is in range.
pub record IsFilter (bf : BloomFilter) : Type 0 where
  pub not_empty : 0 < bf.size
  pub in_range : bf.size ≤ length bf.bits

pub new_bloom_filter-IsFilter : (n k : ℕ) → 0 < n → IsFilter (new_bloom_filter n k)
unfolding new_bloom_filter
new_bloom_filter-IsFilter n k h = record {
  not_empty = omega arith;
  in_range = omega (arith, length-clear_bits (8 * ((n * 10 + 7) / 8)));
}

pub add-IsFilter : (key : List ℕ) (bf : BloomFilter) → IsFilter bf → IsFilter (add key bf)
unfolding add
add-IsFilter key bf f = record {
  not_empty = f.not_empty;
  in_range = omega (arith, length-add_hashes bf.num_hashes 0 key bf.size bf.bits, f.in_range);
}

mod_within : (a size n : ℕ) → 0 < size → size ≤ n → a % size < n
mod_within a zero n h k = absurd (omega arith)
mod_within a (suc s) n h k = omega (arith, mod_fact a s)

both_true : (a b : Bool) → a && b ≡ true → (a ≡ true) × (b ≡ true)
both_true true b h = (refl, h)
both_true false b h = absurd (ground (arith, h))

contains-add_hashes :
    (n i : ℕ) (key : List ℕ) (size : ℕ) (bs : List Bool)
    → 0 < size
    → size ≤ length bs
    → contains_hashes n i key size (add_hashes n i key size bs) ≡ true
unfolding contains_hashes add_hashes
contains-add_hashes zero i key size bs h k = refl
contains-add_hashes (suc n) i key size bs h k =
    let j = hash key i % size in
    let here = bit_at-set_bit j bs (mod_within (hash key i) size (length bs) h k) in
    rw (add_hashes-keeps n (suc i) key size j (set_bit j bs) here)
      (contains-add_hashes n (suc i) key size (set_bit j bs) h (omega (arith, length-set_bit j bs)))

-- A filter finds what was added.
pub contains-add_self :
    (key : List ℕ) (bf : BloomFilter) → IsFilter bf → contains key (add key bf) ≡ true
unfolding contains add
contains-add_self key bf f =
    contains-add_hashes bf.num_hashes 0 key bf.size bf.bits f.not_empty f.in_range

contains_hashes-add :
    (n i : ℕ) (key : List ℕ) (size m j : ℕ) (other : List ℕ) (bs : List Bool)
    → contains_hashes n i key size bs ≡ true
    → contains_hashes n i key size (add_hashes m j other size bs) ≡ true
unfolding contains_hashes
contains_hashes-add zero i key size m j other bs h = refl
contains_hashes-add (suc n) i key size m j other bs h =
    let (here, later) = both_true _ _ h in
    rw (add_hashes-keeps m j other size (hash key i % size) bs here)
      (contains_hashes-add n (suc i) key size m j other bs later)

-- A filter does not forget a key when another one is added.
pub contains-add_other :
    (key other : List ℕ) (bf : BloomFilter)
    → contains key bf ≡ true
    → contains key (add other bf) ≡ true
unfolding contains add
contains-add_other key other bf h =
    contains_hashes-add bf.num_hashes 0 key bf.size bf.num_hashes 0 other bf.bits h
