-- ===== src/Wallet/Transparent/Der/Sec1.antt =====
-- The SEC1 layout, described without positions, and that each such encoding gives its scalar.
use Prim.Native.Nat.{bit_and}
use zewif_zcashd.Base.{
  ℕ, ◌+◌, ◌-◌, ◌*◌, ◌≤◌, ◌<◌, ◌≡◌, refl, ap, ◌∙◌, subst, [], ◌∷◌, ◌++◌, some, ok, ◌==◌, ltb, leb,
  ◌&&◌, true, false, if◌then◌else◌, length, drop, arith, length-append, take-append, drop-append,
  append_assoc, append-nil,
}
use zewif_zcashd.Base.Bits.{high_bit, low_bits}
use zewif_zcashd.Base.Bytes.{bytes_eq_refl}
use zewif_zcashd.Wire.Error.{length_overflow}
use zewif_zcashd.Wire.Parser.{Bytes, usize_size, isize_max}
use zewif_zcashd.Wallet.Transparent.{der_blob_from_scalar}
use zewif_zcashd.Wallet.Transparent.Der.{
  fail, saturating_add, get_range, range_is, length_octets, body_length, body_scalar,
  secp256k1_scalar,
}

-- The number that octets spell, most significant first, behind `acc`.
unfoldable pub big_endian : ℕ → Bytes → ℕ
big_endian acc [] = acc
big_endian acc (b ∷ bs) = big_endian (acc * 256 + b) bs

-- The octets of a length, short or long form.
pub data LengthForm : Type 0 where
  short : ℕ → LengthForm
  long : Bytes → LengthForm

abbrev pub form_bytes : LengthForm → Bytes
form_bytes (short n) = n ∷ []
form_bytes (long octets) = (128 + length octets) ∷ octets

abbrev pub Declares : LengthForm → ℕ → Type 0
Declares (short n) m = (n ≡ m) × (n < 128)
Declares (long octets) m = (big_endian 0 octets ≡ m) × (length octets < 128)

abbrev pub body_prefix : Bytes
body_prefix = 0x02 ∷ 0x01 ∷ 0x01 ∷ 0x04 ∷ 0x20 ∷ []

-- The encoding: the tag, the length of the body, and the body: version 1, an octet string with the
-- scalar, and any further fields.
abbrev pub sec1 : LengthForm → (scalar tail : Bytes) → Bytes
sec1 form scalar tail = 0x30 ∷ (form_bytes form ++ (body_prefix ++ (scalar ++ tail)))

big_endian-grows : (acc : ℕ) (bs : Bytes) → acc ≤ big_endian acc bs
unfolding big_endian
big_endian-grows acc [] = omega arith
big_endian-grows acc (b ∷ bs) = omega (arith, big_endian-grows (acc * 256 + b) bs)

-- The loop over the octets gives their number, or an overflow if it is no `usize`.
pub length_octets-big_endian :
    (acc : ℕ) (bs : Bytes)
    → acc < usize_size
    → length_octets acc bs ≡ (
        if ltb (big_endian acc bs) usize_size then ok (big_endian acc bs) else fail length_overflow)
unfolding length_octets big_endian
length_octets-big_endian acc [] h = ground arith
length_octets-big_endian acc (b ∷ bs) h =
    ground (arith, length_octets-big_endian (acc * 256 + b) bs, big_endian-grows (acc * 256 + b) bs)

-- A range behind a prefix.
pub get_range-append :
    (pre mid post : Bytes) (a b : ℕ)
    → length pre ≡ a
    → a + length mid ≡ b
    → get_range a b (pre ++ (mid ++ post)) ≡ some mid
get_range-append pre mid post a b ea eb =
    let size : length (pre ++ (mid ++ post)) ≡ length pre + (length mid + length post) =
      length-append pre (mid ++ post) ∙ ap (λ k. length pre + k) (length-append mid post) in
    let fits : (leb a b && leb b (length (pre ++ (mid ++ post)))) ≡ true = ground (arith, size) in
    let found : drop a (pre ++ (mid ++ post)) ≡ mid ++ post =
      subst (λ k. drop k (pre ++ (mid ++ post)) ≡ mid ++ post) ea (drop-append pre (mid ++ post)) in
    let wide : b - a ≡ length mid = omega arith in rw (fits, found, wide, take-append mid post)

range_is-append :
    (pre mid post : Bytes) (a b : ℕ)
    → length pre ≡ a
    → a + length mid ≡ b
    → range_is a b (pre ++ (mid ++ post)) mid ≡ true
range_is-append pre mid post a b ea eb =
    rw (get_range-append pre mid post a b ea eb, range_is) (bytes_eq_refl mid)

pub body_scalar-sec1 :
    (pre scalar tail : Bytes) (cursor : ℕ)
    → length pre ≡ cursor
    → length scalar ≡ 32
    → cursor + 64 < usize_size
    → body_scalar (pre ++ (body_prefix ++ (scalar ++ tail))) cursor ≡ ok scalar
unfolding body_scalar
body_scalar-sec1 pre scalar tail cursor e size bound =
    let version : Bytes = 0x02 ∷ 0x01 ∷ 0x01 ∷ [] in
    let octets : Bytes = 0x04 ∷ 0x20 ∷ [] in
    let whole : Bytes = pre ++ (body_prefix ++ (scalar ++ tail)) in
    let sat₁ : saturating_add cursor 3 ≡ cursor + 3 = omega arith in
    let sat₂ : saturating_add (cursor + 3) 2 ≡ cursor + 3 + 2 = omega arith in
    let fits : ltb (cursor + 3 + 2 + 32) usize_size ≡ true = ground arith in
    let first : range_is cursor (cursor + 3) whole version ≡ true =
      range_is-append pre version (octets ++ (scalar ++ tail)) cursor (cursor + 3) e refl in
    let second : range_is (cursor + 3) (cursor + 3 + 2) whole octets ≡ true =
      subst (λ w. range_is (cursor + 3) (cursor + 3 + 2) w octets ≡ true)
        (append_assoc pre version (octets ++ (scalar ++ tail)))
        (range_is-append (pre ++ version) octets (scalar ++ tail) (cursor + 3) (cursor + 3 + 2)
          (omega (arith, length-append pre version)) refl) in
    let third : get_range (cursor + 3 + 2) (cursor + 3 + 2 + 32) whole ≡ some scalar =
      subst (λ w. get_range (cursor + 3 + 2) (cursor + 3 + 2 + 32) w ≡ some scalar)
        (append_assoc pre body_prefix (scalar ++ tail))
        (get_range-append (pre ++ body_prefix) scalar tail (cursor + 3 + 2) (cursor + 3 + 2 + 32)
          (omega (arith, length-append pre body_prefix)) (omega arith)) in
    rw (sat₁, first, sat₂, second, fits, third)

-- The length octets are read back, with the position behind them.
pub body_length-form :
    (form : LengthForm) (m : ℕ) (rest : Bytes)
    → Declares form m
    → m < usize_size
    → body_length (0x30 ∷ (form_bytes form ++ rest)) ≡ ok (m, 1 + length (form_bytes form))
unfolding body_length
body_length-form (short n) m rest (e, h) bound =
    let flag : (bit_and n 0x80 == 0) ≡ true = ground (arith, high_bit n) in rw flag (cc (e))
body_length-form (long octets) m rest (e, h) bound =
    let n = length octets in
    let flag : (bit_and (128 + n) 0x80 == 0) ≡ false = ground (arith, high_bit (128 + n)) in
    let count : bit_and (128 + n) 0x7f ≡ n = omega (arith, low_bits (128 + n)) in
    let sat : saturating_add 2 n ≡ 2 + n = omega arith in
    let found : get_range 2 (2 + n) (0x30 ∷ (128 + n) ∷ (octets ++ rest)) ≡ some octets =
      get_range-append (0x30 ∷ (128 + n) ∷ []) octets rest 2 (2 + n) refl refl in
    let fits : ltb (big_endian 0 octets) usize_size ≡ true = ground arith in
    rw (flag, count, sat, found, length_octets-big_endian 0 octets (omega arith), fits, e)
      (ground arith)

-- A SEC1 encoding of 32 bytes, with length octets in the short or the long form that declare its
-- body and any further fields behind the scalar, gives these bytes, where it is no longer than an
-- allocation holds.
pub secp256k1_scalar-sec1 :
    (form : LengthForm) (scalar tail : Bytes)
    → length scalar ≡ 32
    → Declares form (length (body_prefix ++ (scalar ++ tail)))
    → length (sec1 form scalar tail) ≤ isize_max
    → secp256k1_scalar (sec1 form scalar tail) ≡ ok scalar
unfolding secp256k1_scalar
secp256k1_scalar-sec1 form scalar tail size declared fits =
    let body : Bytes = body_prefix ++ (scalar ++ tail) in
    let m = length body in
    let whole : length (sec1 form scalar tail) ≡ 1 + (length (form_bytes form) + m) =
      omega (arith, length-append (form_bytes form) body) in
    let room : ltb (1 + length (form_bytes form) + m) usize_size ≡ true = ground arith in
    let exact : (1 + length (form_bytes form) + m == length (sec1 form scalar tail)) ≡ true =
      ground arith in
    rw (body_length-form form m body declared (omega arith), room, exact)
      (body_scalar-sec1 (0x30 ∷ form_bytes form) scalar tail (1 + length (form_bytes form))
        (omega arith) size (omega arith))

-- The blob that a decrypted scalar is wrapped in gives the scalar again.
pub secp256k1_scalar-der_blob_from_scalar :
    (scalar : Bytes)
    → length scalar ≡ 32
    → secp256k1_scalar (der_blob_from_scalar scalar) ≡ ok scalar
unfolding der_blob_from_scalar
secp256k1_scalar-der_blob_from_scalar scalar size =
    subst (λ s. secp256k1_scalar (0x30 ∷ 0x25 ∷ (body_prefix ++ s)) ≡ ok scalar) (append-nil scalar)
      (secp256k1_scalar-sec1 (short 0x25) scalar [] size
        (omega (arith, length-append scalar []), omega arith)
        (omega (arith, length-append scalar [])))
