-- ===== src/Wallet/Words.antt =====
-- src/zcashd_wallet/u160_type.rs, u252_type.rs and u256_type.rs: integers kept as byte arrays.
pub mod Laws
use Prim.Native.Nat.{bit_and}
use zewif_zcashd.Base.{
  ℕ, List, [], ◌∷◌, Result, ok, err, panic, ◌>>=◌, lift, pure, if◌then◌else◌, ◌==◌, length, not,
  Bool, map_err, bind, get_elem?, none, some, Option,
}
use zewif_zcashd.Wire.Error.{
  ParseError, with_frame, push_frame, text, of_kind, invalid_length, u252_overflow,
}
use zewif_zcashd.Wire.Parser.{Bytes, P}
use zewif_zcashd.Wire.Ints.{u8}
use zewif_zcashd.Wire.Collections.{parse_fixed_length_array}

abbrev pub u160_size : ℕ
u160_size = 20

abbrev pub u252_size : ℕ
u252_size = 32

abbrev pub u256_size : ℕ
u256_size = 32

-- `Parse for [u8; N]`
unfoldable pub byte_array : ℕ → P Bytes
byte_array n = parse_fixed_length_array 1 u8 n

-- `TryFrom<&[u8]>` of each of the three types, with its size.
unfoldable pub try_from : (size : ℕ) → Bytes → Result ParseError Bytes
try_from size bytes =
    if not (length bytes == size)
    then err (of_kind (invalid_length size (length bytes)))
    else ok bytes

-- `u160::from_slice`
unfoldable pub u160_from_slice : Bytes → Result ParseError Bytes
u160_from_slice bytes = map_err (push_frame (text "u160")) (try_from u160_size bytes)

-- `bytes[0]`
abbrev first : Bytes → Result ParseError ℕ
first [] = panic
first (b ∷ bs) = ok b

-- `u252::from_slice`: the four high bits of the first byte are to be zero.
unfoldable pub u252_from_slice : Bytes → Result ParseError Bytes
u252_from_slice bytes =
    if not (length bytes == u252_size)
    then err (of_kind (invalid_length u252_size (length bytes)))
    else bind (first bytes)
        (λ b. if not (bit_and b 0xf0 == 0) then err (of_kind u252_overflow) else ok bytes)

unfoldable pub u160 : P Bytes
unfolding byte_array
u160 = do bytes ← with_frame (text "u160") (byte_array 20); pure bytes

unfoldable pub u256 : P Bytes
unfolding byte_array
u256 = do bytes ← with_frame (text "u256") (byte_array u256_size); pure bytes

-- `u252::from_bytes` is `from_slice` of the array.
unfoldable pub u252 : P Bytes
unfolding byte_array
u252 = do bytes ← with_frame (text "u252") (byte_array u252_size); lift (u252_from_slice bytes)
