-- ===== src/Wire/Ints/Endian.antt =====
-- Little-endian bytes and two's complement, as arithmetic.
use zewif_zcashd.Base.{
  ℕ, zero, suc, ◌+◌, ◌-◌, ◌*◌, ◌/◌, ◌%◌, ◌^◌, ◌<◌, ◌≡◌, refl, ap, [], ◌∷◌, length, All, arith, ℤ,
  pos, negsuc,
}
use native.Mathlib.Nat.{pow-suc}
use zewif_zcashd.Wire.Parser.{Bytes}
use zewif_zcashd.Wire.Ints.{from_le_bytes, to_le_bytes, to_signed, to_unsigned}

abbrev pub IsByte : ℕ → Type 0
IsByte b = b < 256

-- The range of a signed integer of `bits` bits.
abbrev pub IsSigned : ℕ → ℤ → Type 0
IsSigned bits (pos n) = n < 2 ^ (bits - 1)
IsSigned bits (negsuc n) = n < 2 ^ (bits - 1)

pub length-to_le_bytes : (n v : ℕ) → length (to_le_bytes n v) ≡ n
unfolding to_le_bytes
length-to_le_bytes zero v = refl
length-to_le_bytes (suc n) v = ap suc (length-to_le_bytes n (v / 256))

pub to_le_bytes-IsByte : (n v : ℕ) → All IsByte (to_le_bytes n v)
unfolding to_le_bytes
to_le_bytes-IsByte zero v = tt
to_le_bytes-IsByte (suc n) v = (omega arith, to_le_bytes-IsByte n (v / 256))

pub from_le_bytes-to_le_bytes : (n v : ℕ) → v < 256 ^ n → from_le_bytes (to_le_bytes n v) ≡ v
unfolding from_le_bytes to_le_bytes
from_le_bytes-to_le_bytes zero v h = omega arith
from_le_bytes-to_le_bytes (suc n) v h =
    omega
      (arith, pow-suc 256 n, from_le_bytes-to_le_bytes n (v / 256) (omega (arith, pow-suc 256 n)))

pub from_le_bytes-lt : (bs : Bytes) → All IsByte bs → from_le_bytes bs < 256 ^ length bs
unfolding from_le_bytes
from_le_bytes-lt [] h = omega arith
from_le_bytes-lt (b ∷ bs) (hb, hbs) =
    omega (arith, pow-suc 256 (length bs), from_le_bytes-lt bs hbs)

pub to_le_bytes-from_le_bytes :
    (bs : Bytes) → All IsByte bs → to_le_bytes (length bs) (from_le_bytes bs) ≡ bs
unfolding from_le_bytes to_le_bytes
to_le_bytes-from_le_bytes [] h = refl
to_le_bytes-from_le_bytes (b ∷ bs) (hb, hbs) =
    let low : (b + 256 * from_le_bytes bs) % 256 ≡ b = omega arith in
    let high : (b + 256 * from_le_bytes bs) / 256 ≡ from_le_bytes bs = omega arith in
    cc (low, high, to_le_bytes-from_le_bytes bs hbs)

pub to_signed-to_unsigned :
    (bits : ℕ) (z : ℤ)
    → 2 * 2 ^ (bits - 1) ≡ 2 ^ bits
    → IsSigned bits z
    → to_signed bits (to_unsigned bits z) ≡ z
unfolding to_signed to_unsigned
to_signed-to_unsigned bits (pos n) e h = ground arith
to_signed-to_unsigned bits (negsuc n) e h = ground arith

pub to_unsigned-to_signed : (bits v : ℕ) → v < 2 ^ bits → to_unsigned bits (to_signed bits v) ≡ v
unfolding to_signed to_unsigned
to_unsigned-to_signed bits v h = ground arith

pub to_unsigned-lt :
    (bits : ℕ) (z : ℤ)
    → 2 * 2 ^ (bits - 1) ≡ 2 ^ bits
    → IsSigned bits z
    → to_unsigned bits z < 2 ^ bits
unfolding to_unsigned
to_unsigned-lt bits (pos n) e h = omega arith
to_unsigned-lt bits (negsuc n) e h = omega arith

pub to_signed-IsSigned :
    (bits v : ℕ) → 2 * 2 ^ (bits - 1) ≡ 2 ^ bits → v < 2 ^ bits → IsSigned bits (to_signed bits v)
unfolding to_signed
to_signed-IsSigned bits v e h = ground arith
