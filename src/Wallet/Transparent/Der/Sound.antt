-- ===== src/Wallet/Transparent/Der/Sound.antt =====
-- Whatever gives a scalar is a SEC1 encoding of it.
use Prim.Native.Nat.{bit_and}
use zewif_zcashd.Base.{
  ℕ, ◌+◌, ◌-◌, ◌%◌, ◌≤◌, ◌<◌, ◌≡◌, ap, ◌∙◌, subst, inl, inr, [], ◌∷◌, ◌++◌, some, ok, ◌==◌, ==_iff,
  true, false, Bool-cases, Option-cases, length, take, drop, arith, bind, bind-eq-ok, length-take,
  length-drop, take-append-drop, drop-drop, All,
}
use zewif_zcashd.Base.Bits.{high_bit, low_bits}
use zewif_zcashd.Base.Bytes.{bytes_eq, bytes_eq_iff}
use zewif_zcashd.Wire.Error.{DerPrivKeyError}
use zewif_zcashd.Wire.Parser.{Bytes, isize_max}
use zewif_zcashd.Wire.Ints.Endian.{IsByte}
use zewif_zcashd.Wallet.Transparent.Der.{
  saturating_add, get_range, range_is, length_octets, body_length, body_scalar, secp256k1_scalar,
  ok_or,
}
use zewif_zcashd.Wallet.Transparent.Der.Sec1.{
  big_endian, LengthForm, short, long, form_bytes, Declares, body_prefix, sec1,
  length_octets-big_endian,
}

get_range-eq-some :
    (a b : ℕ) (bytes r : Bytes)
    → get_range a b bytes ≡ some r
    → (drop a bytes ≡ r ++ drop b bytes) × (a + length r ≡ b) × (b ≤ length bytes)
get_range-eq-some a b bytes r e =
    let ordered : (a ≤ b) × (b ≤ length bytes) = (ground arith, ground arith) in
    let is : r ≡ take (b - a) (drop a bytes) = ground arith in
    let there : drop b bytes ≡ drop (b - a) (drop a bytes) =
      subst (λ k. drop k bytes ≡ drop (b - a) (drop a bytes)) (omega arith)
        (drop-drop a (b - a) bytes) in
    (
      rw (there, is, take-append-drop (b - a) (drop a bytes)),
      omega (arith, ap length is, length-take (b - a) (drop a bytes), length-drop a bytes),
      ordered.1,
    )

range_is→get_range :
    (a b : ℕ) (bytes expected : Bytes)
    → range_is a b bytes expected ≡ true
    → get_range a b bytes ≡ some expected
range_is→get_range a b bytes expected e = elim (Option-cases (get_range a b bytes)) [
  | inl nothing ↦ let bad : false ≡ true = rw (nothing, range_is) at e in absurd (cc)
  | inr (r, found) ↦
      let same : bytes_eq r expected ≡ true = rw (found, range_is) at e in
      cc (found, (bytes_eq_iff r expected).0 same)
]

body_scalar-eq-ok :
    (bytes scalar : Bytes) (cursor : ℕ)
    → length bytes ≤ isize_max
    → cursor ≤ length bytes
    → body_scalar bytes cursor ≡ ok scalar
    → (tail : Bytes) × (drop cursor bytes ≡ body_prefix ++ (scalar ++ tail)) × (length scalar ≡ 32)
unfolding body_scalar
body_scalar-eq-ok bytes scalar cursor fits inside e =
    let version : Bytes = 0x02 ∷ 0x01 ∷ 0x01 ∷ [] in
    let octets : Bytes = 0x04 ∷ 0x20 ∷ [] in
    let sat₁ : saturating_add cursor 3 ≡ cursor + 3 = omega arith in
    let sat₂ : saturating_add (cursor + 3) 2 ≡ cursor + 3 + 2 = omega arith in
    let plain = rw (sat₁, sat₂) at e in
    let first : range_is cursor (cursor + 3) bytes version ≡ true = ground arith in
    let second : range_is (cursor + 3) (cursor + 3 + 2) bytes octets ≡ true = ground arith in
    let third : get_range (cursor + 3 + 2) (cursor + 3 + 2 + 32) bytes ≡ some scalar =
      ground arith in
    let a = get_range-eq-some _ _ bytes version (range_is→get_range _ _ bytes version first) in
    let b = get_range-eq-some _ _ bytes octets (range_is→get_range _ _ bytes octets second) in
    let c = get_range-eq-some _ _ bytes scalar third in
    (
      drop (cursor + 3 + 2 + 32) bytes,
      a.0 ∙ ap (λ x. version ++ x) (b.0 ∙ ap (λ x. octets ++ x) c.0),
      omega arith,
    )

-- What the parser says of a long form.
long_form-eq-ok :
    (t f : ℕ) (rest : Bytes) (m cursor : ℕ)
    → IsByte f
    → length rest ≤ isize_max
    → 128 ≤ f
    → (bind {B = ℕ × ℕ}
        (ok_or DerPrivKeyError.truncated_long_form_length
          (get_range 2 (saturating_add 2 (bit_and f 0x7f)) (t ∷ f ∷ rest)))
        (λ len_bytes.
          bind {B = ℕ × ℕ} (length_octets 0 len_bytes) (λ acc. ok (acc, 2 + bit_and f 0x7f))))
      ≡ ok (m, cursor)
    → (octets : Bytes) × (f ∷ rest ≡ form_bytes (long octets) ++ drop cursor (t ∷ f ∷ rest))
      × Declares (long octets) m
      × (cursor ≡ 2 + length octets)
long_form-eq-ok t f rest m cursor byte fits high e =
    let count : bit_and f 0x7f ≡ f % 128 = low_bits f byte in
    let sat : saturating_add 2 (f % 128) ≡ 2 + f % 128 = omega arith in
    let plain = rw (count, sat) at e in
    elim (Option-cases (get_range 2 (2 + f % 128) (t ∷ f ∷ rest))) [
      | inl nothing ↦ let bad = rw nothing at plain in absurd (cc)
      | inr (octets, found) ↦
          let (split, size, end) = get_range-eq-some 2 (2 + f % 128) (t ∷ f ∷ rest) octets found in
          let (acc, e₁, e₂) = bind-eq-ok (length_octets 0 octets) _ (rw found at plain) in
          let value : big_endian 0 octets ≡ acc =
            ground (arith, length_octets-big_endian 0 octets (omega arith)) in
          let done₀ : acc ≡ m = cc in
          let done₁ : 2 + f % 128 ≡ cursor = cc in
          let first : f ≡ 128 + length octets = omega arith in
          (octets, rw (← done₁) (cc (split, first)), (value ∙ done₀, omega arith), omega arith)
    ]

body_length-eq-ok :
    (t : ℕ) (rest : Bytes) (m cursor : ℕ)
    → All IsByte rest
    → length rest ≤ isize_max
    → body_length (t ∷ rest) ≡ ok (m, cursor)
    → (form : LengthForm) × (rest ≡ form_bytes form ++ drop cursor (t ∷ rest))
      × Declares form m
      × (cursor ≡ 1 + length (form_bytes form))
unfolding body_length
body_length-eq-ok t [] m cursor bytes fits e = absurd (cc)
body_length-eq-ok t (f ∷ rest) m cursor (byte, bytes) fits e =
    elim (Bool-cases (bit_and f 0x80 == 0)) [
      | inl low ↦
          let done : ok (f, 2) ≡ ok (m, cursor) = rw low at e in
          let at : cursor ≡ 2 = cc in
          let small : f < 128 = ground (arith, high_bit f byte) in
          (short f, rw at, (cc, small), omega arith)
      | inr high ↦
          let (octets, split, declared, at) =
            long_form-eq-ok t f rest m cursor byte (omega arith) (ground (arith, high_bit f byte))
              (rw high at e) in
          (long octets, split, declared, omega arith)
    ]

-- Bytes, no more of them than an allocation holds, that give a scalar are a SEC1 encoding of it:
-- the sequence tag, length octets that declare exactly the bytes that follow them, the version, an
-- octet string of 32 bytes that is the scalar, and a tail.
pub secp256k1_scalar-eq-ok :
    (bytes scalar : Bytes)
    → All IsByte bytes
    → length bytes ≤ isize_max
    → secp256k1_scalar bytes ≡ ok scalar
    → (form : LengthForm) × (tail : Bytes) × (bytes ≡ sec1 form scalar tail)
      × (length scalar ≡ 32)
      × Declares form (length (body_prefix ++ (scalar ++ tail)))
unfolding secp256k1_scalar
secp256k1_scalar-eq-ok [] scalar bytes fits e = absurd (cc)
secp256k1_scalar-eq-ok (t ∷ rest) scalar (byte, bytes) fits e =
    let tag : (t == 0x30) ≡ true = ground arith in
    let ((m, cursor), e₁, e₂) = bind-eq-ok (body_length (t ∷ rest)) _ (rw tag at e) in
    let (form, split, declared, at) = body_length-eq-ok t rest m cursor bytes (omega arith) e₁ in
    let exact : cursor + m ≡ length (t ∷ rest) = ground arith in
    let body : body_scalar (t ∷ rest) cursor ≡ ok scalar = ground arith in
    let (tail, found, size) = body_scalar-eq-ok (t ∷ rest) scalar cursor fits (omega arith) body in
    let covers : m ≡ length (body_prefix ++ (scalar ++ tail)) =
      omega (arith, ap length found, length-drop cursor (t ∷ rest)) in
    (
      form,
      tail,
      ap (λ k. k ∷ rest) ((==_iff t 0x30).0 tag)
          ∙ ap (λ r. 0x30 ∷ r) (split ∙ ap (λ r. form_bytes form ++ r) found),
      size,
      subst (Declares form) covers declared,
    )
