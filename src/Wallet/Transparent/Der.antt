-- ===== src/Wallet/Transparent/Der.antt =====
-- `PrivKey::secp256k1_scalar` of src/zcashd_wallet/transparent/priv_key.rs.
pub mod Sec1
pub mod Sound
use Prim.Native.Nat.{bit_and, min}
use zewif_zcashd.Base.{
  ℕ, ◌+◌, ◌-◌, ◌*◌, ◌&&◌, not, List, [], ◌∷◌, Option, none, some, Result, ok, err, bind,
  if◌then◌else◌, ◌==◌, ltb, leb, length, take, drop, get_elem?, Bool, false,
}
use zewif_zcashd.Base.Bytes.{bytes_eq}
use zewif_zcashd.Wire.Error.{
  ParseError, DerPrivKeyError, of_kind, der_priv_key, expected_sequence, truncated_length,
  truncated_long_form_length, length_overflow, end_overflow, truncated_body, expected_version,
  expected_scalar, scalar_offset_overflow, truncated_scalar,
}
use zewif_zcashd.Wire.Parser.{Bytes, usize_size}

abbrev pub R : Type 0 → Type 0
R A = Result ParseError A

abbrev pub fail : {A : Type 0} → DerPrivKeyError → R A
fail e = err (of_kind (der_priv_key e))

-- `ok_or`
abbrev pub ok_or : {A : Type 0} → DerPrivKeyError → Option A → R A
ok_or e none = fail e
ok_or e (some a) = ok a

-- Arithmetic on `usize`, and `bytes.get(a..b)`.
abbrev pub checked : ℕ → Option ℕ
checked n = if ltb n usize_size then some n else none

abbrev pub saturating_add : ℕ → ℕ → ℕ
saturating_add a b = min (a + b) (usize_size - 1)

abbrev pub get_range : ℕ → ℕ → Bytes → Option Bytes
get_range a b bytes =
    if leb a b && leb b (length bytes) then some (take (b - a) (drop a bytes)) else none

-- `bytes.get(a..b) == Some(expected)`
abbrev pub range_is : ℕ → ℕ → Bytes → Bytes → Bool
range_is a b bytes expected = elim (get_range a b bytes) [
  | none ↦ false
  | some r ↦ bytes_eq r expected
]

abbrev pub elem_is : ℕ → Bytes → ℕ → Bool
elem_is i bytes v = elim (get_elem? bytes i) [ none ↦ false | some b ↦ b == v ]

-- The octets of a long-form length, most significant first.
unfoldable pub length_octets : ℕ → Bytes → R ℕ
length_octets acc [] = ok acc
length_octets acc (b ∷ bs) = bind (ok_or length_overflow (checked (acc * 256))) (λ shifted.
    bind (ok_or length_overflow (checked (shifted + b))) (λ acc'. length_octets acc' bs))

-- The declared length of the body, and the position behind the length.
unfoldable pub body_length : Bytes → R (ℕ × ℕ)
unfolding length_octets
body_length bytes = bind (ok_or truncated_length (get_elem? bytes 1)) (λ len_first.
    if bit_and len_first 0x80 == 0
    then ok (len_first, 2)
    else let n = bit_and len_first 0x7f in
      bind (ok_or truncated_long_form_length (get_range 2 (saturating_add 2 n) bytes))
        (λ len_bytes. bind (length_octets 0 len_bytes) (λ acc. ok (acc, 2 + n))))

-- What follows the length: the version, the octet string and the scalar.
unfoldable pub body_scalar : Bytes → ℕ → R Bytes
body_scalar bytes cursor =
    if not (range_is cursor (saturating_add cursor 3) bytes (0x02 ∷ 0x01 ∷ 0x01 ∷ []))
    then fail expected_version
    else let cursor' = cursor + 3 in
      if not (range_is cursor' (saturating_add cursor' 2) bytes (0x04 ∷ 0x20 ∷ []))
      then fail expected_scalar
      else let cursor'' = cursor' + 2 in
        bind (ok_or scalar_offset_overflow (checked (cursor'' + 32)))
          (λ end. ok_or truncated_scalar (get_range cursor'' end bytes))

unfoldable pub secp256k1_scalar : Bytes → R Bytes
unfolding body_length body_scalar
secp256k1_scalar bytes =
    if not (elem_is 0 bytes 0x30)
    then fail expected_sequence
    else bind (body_length bytes) (λ (body_len, cursor).
      bind (ok_or end_overflow (checked (cursor + body_len))) (λ body_end.
        if not (body_end == length bytes) then fail truncated_body else body_scalar bytes cursor))
