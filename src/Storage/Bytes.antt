-- ===== src/Storage/Bytes.antt =====
-- Byte slices of Go, and encoding/binary's little-endian integers. A byte is a number below 256. A
-- slice expression that is out of range, which would panic, does not occur at the callers' lengths.
use laura_db.Prelude.{
  ℕ, zero, suc, ◌+◌, ◌*◌, ◌/◌, ◌%◌, ◌≤◌, ◌<◌, ◌≡◌, refl, ap, List, [], ◌∷◌, arith, length, take,
  drop, ◌⊎◌, inl, inr,
}

-- `make([]byte, n)`
unfoldable pub zeros : ℕ → List ℕ
zeros zero = []
zeros (suc n) = 0 ∷ zeros n

-- `copy(dst, src)`: as many bytes as both have.
unfoldable pub copy : List ℕ → List ℕ → List ℕ
copy [] dst = dst
copy (s ∷ src) [] = []
copy (s ∷ src) (d ∷ dst) = s ∷ copy src dst

-- `copy(dst[off:], src)`
unfoldable pub copy_at : ℕ → List ℕ → List ℕ → List ℕ
unfolding copy
copy_at zero src dst = copy src dst
copy_at (suc off) src [] = []
copy_at (suc off) src (d ∷ dst) = d ∷ copy_at off src dst

-- `b[off : off+n]`
unfoldable pub slice : ℕ → ℕ → List ℕ → List ℕ
slice off n b = take n (drop off b)

-- The `w` bytes of an integer, lowest first.
unfoldable pub le_bytes : ℕ → ℕ → List ℕ
le_bytes zero n = []
le_bytes (suc w) n = n % 256 ∷ le_bytes w (n / 256)

unfoldable pub le_value : List ℕ → ℕ
le_value [] = 0
le_value (b ∷ bs) = b + 256 * le_value bs

-- How many values `w` bytes have: 2 ^ (8 w).
abbrev pub byte_range : ℕ → ℕ
byte_range zero = 1
byte_range (suc w) = 256 * byte_range w

pub length-zeros : (n : ℕ) → length (zeros n) ≡ n
unfolding zeros
length-zeros zero = refl
length-zeros (suc n) = ap suc (length-zeros n)

pub length-le_bytes : (w n : ℕ) → length (le_bytes w n) ≡ w
unfolding le_bytes
length-le_bytes zero n = refl
length-le_bytes (suc w) n = ap suc (length-le_bytes w (n / 256))

pub le_value-le_bytes : (w n : ℕ) → n < byte_range w → le_value (le_bytes w n) ≡ n
unfolding le_bytes le_value
le_value-le_bytes zero n h = omega arith
le_value-le_bytes (suc w) n h = omega (arith, le_value-le_bytes w (n / 256) (omega arith))

length-copy : (src dst : List ℕ) → length (copy src dst) ≡ length dst
unfolding copy
length-copy [] dst = refl
length-copy (s ∷ src) [] = refl
length-copy (s ∷ src) (d ∷ dst) = ap suc (length-copy src dst)

pub length-copy_at : (off : ℕ) (src dst : List ℕ) → length (copy_at off src dst) ≡ length dst
unfolding copy_at
length-copy_at zero src dst = length-copy src dst
length-copy_at (suc off) src [] = refl
length-copy_at (suc off) src (d ∷ dst) = ap suc (length-copy_at off src dst)

take-copy : (src dst : List ℕ) → length src ≤ length dst → take (length src) (copy src dst) ≡ src
unfolding copy
take-copy [] dst h = refl
take-copy (s ∷ src) [] h = absurd (omega arith)
take-copy (s ∷ src) (d ∷ dst) h = ap (◌∷◌ s) (take-copy src dst (omega arith))

-- What was copied reads back.
pub slice-copy_at_self :
    (off n : ℕ) (src dst : List ℕ)
    → length src ≡ n
    → off + n ≤ length dst
    → slice off n (copy_at off src dst) ≡ src
unfolding slice copy_at
slice-copy_at_self zero n src dst e h = rw (← e) (take-copy src dst (omega arith))
slice-copy_at_self (suc off) n src [] e h = absurd (omega arith)
slice-copy_at_self (suc off) n src (d ∷ dst) e h = slice-copy_at_self off n src dst e (omega arith)

drop-copy : (off : ℕ) (src dst : List ℕ) → length src ≤ off → drop off (copy src dst) ≡ drop off dst
unfolding copy
drop-copy off [] dst h = refl
drop-copy zero (s ∷ src) dst h = absurd (omega arith)
drop-copy (suc off) (s ∷ src) [] h = refl
drop-copy (suc off) (s ∷ src) (d ∷ dst) h = drop-copy off src dst (omega arith)

-- What lies behind or before the copied bytes is untouched.
pub slice-copy_at_behind :
    (off off' n : ℕ) (src dst : List ℕ)
    → off + length src ≤ off'
    → slice off' n (copy_at off src dst) ≡ slice off' n dst
unfolding slice copy_at
slice-copy_at_behind zero off' n src dst h = rw (drop-copy off' src dst (omega arith))
slice-copy_at_behind (suc off) zero n src dst h = absurd (omega arith)
slice-copy_at_behind (suc off) (suc off') n src [] h = refl
slice-copy_at_behind (suc off) (suc off') n src (d ∷ dst) h =
    slice-copy_at_behind off off' n src dst (omega arith)

pub slice-copy_at_before :
    (off off' n : ℕ) (src dst : List ℕ)
    → off' + n ≤ off
    → slice off' n (copy_at off src dst) ≡ slice off' n dst
unfolding slice copy_at
slice-copy_at_before off off' zero src dst h = refl
slice-copy_at_before zero off' (suc n) src dst h = absurd (omega arith)
slice-copy_at_before (suc off) off' (suc n) src [] h = refl
slice-copy_at_before (suc off) zero (suc n) src (d ∷ dst) h =
    ap (◌∷◌ d) (slice-copy_at_before off zero n src dst (omega arith))
slice-copy_at_before (suc off) (suc off') (suc n) src (d ∷ dst) h =
    slice-copy_at_before off off' (suc n) src dst (omega arith)

-- A copy of a slice of the same length replaces all of it.
pub copy_full : (src dst : List ℕ) → length src ≡ length dst → copy src dst ≡ src
unfolding copy
copy_full [] [] h = refl
copy_full [] (d ∷ dst) h = absurd (omega arith)
copy_full (s ∷ src) [] h = absurd (omega arith)
copy_full (s ∷ src) (d ∷ dst) h = ap (◌∷◌ s) (copy_full src dst (omega arith))

-- `binary.LittleEndian.Uint32(b[off:off+4])` and `PutUint32(b[off:off+4], v)`
unfoldable pub u32 : ℕ → List ℕ → ℕ
u32 off b = le_value (slice off 4 b)

unfoldable pub put_u32 : ℕ → ℕ → List ℕ → List ℕ
put_u32 off v b = copy_at off (le_bytes 4 v) b

pub length-put_u32 : (off v : ℕ) (b : List ℕ) → length (put_u32 off v b) ≡ length b
unfolding put_u32
length-put_u32 off v b = length-copy_at off _ b

pub u32-put_u32 :
    (off v : ℕ) (b : List ℕ) → v < byte_range 4 → off + 4 ≤ length b → u32 off (put_u32 off v b) ≡ v
unfolding u32 put_u32
u32-put_u32 off v b h k =
    rw (slice-copy_at_self off 4 (le_bytes 4 v) b (length-le_bytes 4 v) k) (le_value-le_bytes 4 v h)

-- The two places do not overlap.
pub u32-put_u32_other :
    (off off' v : ℕ) (b : List ℕ)
    → (off' + 4 ≤ off) ⊎ (off + 4 ≤ off')
    → u32 off' (put_u32 off v b) ≡ u32 off' b
unfolding u32 put_u32
u32-put_u32_other off off' v b (inl h) =
    rw (slice-copy_at_before off off' 4 (le_bytes 4 v) b h) refl
u32-put_u32_other off off' v b (inr h) =
    rw (slice-copy_at_behind off off' 4 (le_bytes 4 v) b (omega (arith, length-le_bytes 4 v))) refl
