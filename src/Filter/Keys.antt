-- ===== src/Filter/Keys.antt =====
-- `Filter::muxKey` and `Filter::demuxKey` of src/backend/filter.cpp over unsigned ints of 32 bits.
use depict_isosurfaces.Prelude.{
  ℕ, zero, suc, ◌+◌, ◌*◌, ◌/◌, ◌%◌, ◌^◌, ◌<◌, ◌≡◌, ap, ap₂, ◌∙◌, max, arith,
}
use native.Mathlib.Nat.{mul_assoc}

-- `|` on the lowest `n` bits.
unfoldable pub bit_or : ℕ → ℕ → ℕ → ℕ
bit_or zero a b = 0
bit_or (suc n) a b = max (a % 2) (b % 2) + 2 * bit_or n (a / 2) (b / 2)

-- The type and the offset.
unfoldable pub demux_key : ℕ → ℕ × ℕ
demux_key key = (key / 2 ^ 16, key % 2 ^ 16)

unfoldable pub mux_key : ℕ → ℕ → ℕ
unfolding bit_or
mux_key key_type ion_offset = bit_or 32 (key_type * 2 ^ 16 % 2 ^ 32) ion_offset

bit_or-zero : (n a : ℕ) → a < 2 ^ n → bit_or n a 0 ≡ a
unfolding bit_or
bit_or-zero zero a h = omega arith
bit_or-zero (suc n) a h =
    let half = bit_or-zero n (a / 2) (omega arith) in
    let zero_half : 0 / 2 ≡ 0 = omega arith in rw (zero_half, half) (omega arith)

-- Bits below those of the other number.
bit_or-shift : (k n a b : ℕ) → a < 2 ^ n → b < 2 ^ k → bit_or (k + n) (2 ^ k * a) b ≡ 2 ^ k * a + b
unfolding bit_or
bit_or-shift zero n a b h l =
    let none : b ≡ 0 = omega arith in
    let width : 0 + n ≡ n = omega arith in
    let one : 2 ^ 0 * a ≡ a = omega arith in rw (none, width, one) (bit_or-zero n a h ∙ omega arith)
bit_or-shift (suc k) n a b h l =
    let m = 2 ^ k * a in
    let double : 2 ^ suc k * a ≡ 2 * m = ap (λ p. p * a) (omega arith) ∙ mul_assoc 2 (2 ^ k) a in
    let width : suc k + n ≡ suc (k + n) = omega arith in
    let half : 2 * m / 2 ≡ m = omega arith in
    let rest = bit_or-shift k n a (b / 2) h (omega arith) in
    rw (double, width, half, rest) (omega arith)

mux_key_lem :
    (key_type ion_offset : ℕ)
    → key_type < 2 ^ 16
    → ion_offset < 2 ^ 16
    → mux_key key_type ion_offset ≡ 2 ^ 16 * key_type + ion_offset
unfolding mux_key
mux_key_lem key_type ion_offset h k =
    let shifted : key_type * 2 ^ 16 % 2 ^ 32 ≡ 2 ^ 16 * key_type = omega arith in
    rw shifted (bit_or-shift 16 16 key_type ion_offset h k)

-- A type and an offset below 2^16 come back from the key that they are joined to, and a key of 32 bits
-- is the join of its two parts.
pub demux_key-mux_key :
    (key_type ion_offset key : ℕ)
    → key_type < 2 ^ 16
    → ion_offset < 2 ^ 16
    → key < 2 ^ 32
    → (demux_key (mux_key key_type ion_offset) ≡ (key_type, ion_offset))
      × (let parts = demux_key key in mux_key parts.0 parts.1 ≡ key)
unfolding demux_key mux_key
demux_key-mux_key key_type ion_offset key h k l =
    let joined = mux_key_lem key_type ion_offset h k in
    let back = mux_key_lem (key / 2 ^ 16) (key % 2 ^ 16) (omega arith) (omega arith) in
    (rw joined (ap₂ (λ (m n : ℕ). (m, n)) (omega arith) (omega arith)), back ∙ omega arith)
