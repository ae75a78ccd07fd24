-- ===== src/Wire/Ints.antt =====
-- src/zcashd_wallet/parseable_types.rs: the integers and `bool`.
pub mod Endian
pub mod Laws
use zewif_zcashd.Base.{
  ℕ, zero, suc, ◌+◌, ◌-◌, ◌*◌, ◌/◌, ◌%◌, ◌^◌, ◌<◌, ◌≡◌, refl, List, [], ◌∷◌, ok, pure, raise, ◌>>=◌,
  if◌then◌else◌, ltb, ◌==◌, Bool, true, false, length, All, arith, ℤ, pos, negsuc,
}
use zewif_zcashd.Wire.Error.{with_frame, text, of_kind, invalid_bool}
use zewif_zcashd.Wire.Parser.{Bytes, P, next, index}

-- `from_le_bytes`
unfoldable pub from_le_bytes : Bytes → ℕ
from_le_bytes [] = 0
from_le_bytes (b ∷ bs) = b + 256 * from_le_bytes bs

-- `to_le_bytes`, at a width of `n` bytes.
unfoldable pub to_le_bytes : ℕ → ℕ → Bytes
to_le_bytes zero v = []
to_le_bytes (suc n) v = (v % 256) ∷ to_le_bytes n (v / 256)

-- Two's complement at a width of `bits`: `as i8`, and `from_le_bytes` of the signed types.
unfoldable pub to_signed : ℕ → ℕ → ℤ
to_signed bits v = if ltb v (2 ^ (bits - 1)) then pos v else negsuc (2 ^ bits - 1 - v)

-- The bit pattern of a signed value.
unfoldable pub to_unsigned : ℕ → ℤ → ℕ
to_unsigned bits (pos n) = n
to_unsigned bits (negsuc n) = 2 ^ bits - 1 - n

unfoldable pub u8 : P ℕ
u8 = do bytes ← with_frame (text "u8") (next 1); index 0 bytes

unfoldable pub u16 : P ℕ
u16 = do bytes ← with_frame (text "u16") (next 2); pure (from_le_bytes bytes)

unfoldable pub u32 : P ℕ
u32 = do bytes ← with_frame (text "u32") (next 4); pure (from_le_bytes bytes)

unfoldable pub u64 : P ℕ
u64 = do bytes ← with_frame (text "u64") (next 8); pure (from_le_bytes bytes)

unfoldable pub i8 : P ℤ
i8 = do bytes ← with_frame (text "i8") (next 1); b ← index 0 bytes; pure (to_signed 8 b)

unfoldable pub i16 : P ℤ
i16 = do bytes ← with_frame (text "i16") (next 2); pure (to_signed 16 (from_le_bytes bytes))

unfoldable pub i32 : P ℤ
i32 = do bytes ← with_frame (text "i32") (next 4); pure (to_signed 32 (from_le_bytes bytes))

unfoldable pub i64 : P ℤ
i64 = do bytes ← with_frame (text "i64") (next 8); pure (to_signed 64 (from_le_bytes bytes))

unfoldable pub bool : P Bool
bool = do
  byte ← with_frame (text "bool") u8
  if byte == 0
      then pure false
      else if byte == 1
      then pure true
      else raise (of_kind (invalid_bool byte))
