-- ===== src/Wire/Ints/Laws.antt =====
-- What the integer parsers read.
use zewif_zcashd.Base.{
  ℕ, String, ◌^◌, ◌<◌, ◌≡◌, refl, subst, [], ◌∷◌, ◌++◌, ok, length, All, All-append_left, arith, ℤ,
  bind-eq-ok, map_err-eq-ok, Bool, true, false, pure, ◌>>=◌,
}
use zewif_zcashd.Wire.Error.{with_frame, text}
use zewif_zcashd.Wire.Parser.{Bytes, Parser, next, peek_rest, index}
use zewif_zcashd.Wire.Reads.{Reads, Reads-map, Reads-pure, Reads-with_frame, Reads-next}
use zewif_zcashd.Wire.Local.{IsLocal, local, next-split}
use zewif_zcashd.Wire.Ints.{
  from_le_bytes, to_le_bytes, to_signed, to_unsigned, u8, u16, u32, u64, i8, i16, i32, i64, bool,
}
use zewif_zcashd.Wire.Ints.Endian.{
  IsByte, from_le_bytes-lt, to_le_bytes-from_le_bytes, IsSigned, length-to_le_bytes,
  from_le_bytes-to_le_bytes, to_signed-to_unsigned, to_unsigned-lt,
}

pub Reads-u8 : (b : ℕ) → Reads u8 (b ∷ []) b
unfolding u8
Reads-u8 b = Reads-map _ (Reads-with_frame _ (Reads-next (b ∷ []))) (Reads-pure b)

-- A fixed number of bytes, and a value made of them.
Reads-word {ℓ} :
    {A : Type ℓ} (n v : ℕ) (f : ℕ → A) (name : String)
    → v < 256 ^ n
    → Reads
        (do bytes ← with_frame (text name) (next n); pure (f (from_le_bytes bytes)))
        (to_le_bytes n v)
        (f v)
Reads-word n v f name h =
    Reads-map _
      (Reads-with_frame _ (
        subst (λ k. Reads (next k) (to_le_bytes n v) (to_le_bytes n v)) (length-to_le_bytes n v)
          (Reads-next (to_le_bytes n v))))
      (subst (λ k. Reads (pure (f (from_le_bytes (to_le_bytes n v)))) [] (f k))
        (from_le_bytes-to_le_bytes n v h) (Reads-pure _))

pub Reads-u16 : (v : ℕ) → v < 2 ^ 16 → Reads u16 (to_le_bytes 2 v) v
unfolding u16
Reads-u16 v h = Reads-word 2 v (λ k. k) "u16" h

pub Reads-u32 : (v : ℕ) → v < 2 ^ 32 → Reads u32 (to_le_bytes 4 v) v
unfolding u32
Reads-u32 v h = Reads-word 4 v (λ k. k) "u32" h

pub Reads-u64 : (v : ℕ) → v < 2 ^ 64 → Reads u64 (to_le_bytes 8 v) v
unfolding u64
Reads-u64 v h = Reads-word 8 v (λ k. k) "u64" h

pub Reads-i32 : (z : ℤ) → IsSigned 32 z → Reads i32 (to_le_bytes 4 (to_unsigned 32 z)) z
unfolding i32
Reads-i32 z h =
    subst (λ y. Reads i32 (to_le_bytes 4 (to_unsigned 32 z)) y) (to_signed-to_unsigned 32 z refl h)
      (Reads-word 4 (to_unsigned 32 z) (to_signed 32) "i32" (to_unsigned-lt 32 z refl h))

-- A number in the range of a signed 64-bit integer is read off the eight bytes of its two's
-- complement, least significant first.
pub Reads-i64 : (z : ℤ) → IsSigned 64 z → Reads i64 (to_le_bytes 8 (to_unsigned 64 z)) z
unfolding i64
Reads-i64 z h =
    subst (λ y. Reads i64 (to_le_bytes 8 (to_unsigned 64 z)) y) (to_signed-to_unsigned 64 z refl h)
      (Reads-word 8 (to_unsigned 64 z) (to_signed 64) "i64" (to_unsigned-lt 64 z refl h))

pub bool_byte : Bool → ℕ
bool_byte true = 1
bool_byte false = 0

pub Reads-bool : (b : Bool) → Reads bool (bool_byte b ∷ []) b
unfolding bool bool_byte
Reads-bool true = Reads-map _ (Reads-with_frame _ (Reads-u8 1)) (Reads-pure true)
Reads-bool false = Reads-map _ (Reads-with_frame _ (Reads-u8 0)) (Reads-pure false)

pub IsLocal-u8 : IsLocal u8
unfolding u8
IsLocal-u8 = search local

pub IsLocal-u16 : IsLocal u16
unfolding u16
IsLocal-u16 = search local

pub IsLocal-u32 : IsLocal u32
unfolding u32
IsLocal-u32 = search local

pub IsLocal-u64 : IsLocal u64
unfolding u64
IsLocal-u64 = search local

pub IsLocal-i8 : IsLocal i8
unfolding i8
IsLocal-i8 = search local

pub IsLocal-i16 : IsLocal i16
unfolding i16
IsLocal-i16 = search local

pub IsLocal-i32 : IsLocal i32
unfolding i32
IsLocal-i32 = search local

pub IsLocal-i64 : IsLocal i64
unfolding i64
IsLocal-i64 = search local

pub IsLocal-bool : IsLocal bool
unfolding bool
IsLocal-bool = search (local, IsLocal-u8)

-- What a successful read of an integer found in the input.
pub u8-split : (s s' : Parser) (b : ℕ) → u8 s ≡ ok (b, s') → peek_rest s ≡ b ∷ peek_rest s'
unfolding u8
u8-split s s' b e =
    let ((a, t), e₁, e₂) = bind-eq-ok (with_frame (text "u8") (next 1) s) _ e in
    let (split, size) = next-split 1 s t a (map_err-eq-ok _ (next 1 s) e₁) in
    first_byte a t split size e₂
  where
    first_byte :
        (a : Bytes) (t : Parser)
        → peek_rest s ≡ a ++ peek_rest t
        → length a ≡ 1
        → index 0 a t ≡ ok (b, s')
        → peek_rest s ≡ b ∷ peek_rest s'
    first_byte [] t split size e = cc
    first_byte (x ∷ []) t split size e = cc
    first_byte (x ∷ y ∷ a) t split size e = absurd (omega arith)

word-split :
    (n : ℕ) (name : String) (s s' : Parser) (v : ℕ)
    → All IsByte (peek_rest s)
    → (do bytes ← with_frame (text name) (next n); pure (from_le_bytes bytes)) s ≡ ok (v, s')
    → (peek_rest s ≡ to_le_bytes n v ++ peek_rest s') × (v < 256 ^ n)
word-split n name s s' v bytes e =
    let ((a, t), e₁, e₂) = bind-eq-ok (with_frame (text name) (next n) s) _ e in
    let (split, size) = next-split n s t a (map_err-eq-ok _ (next n s) e₁) in
    let here : All IsByte a = All-append_left IsByte a _ (subst (All IsByte) split bytes) in
    let value : from_le_bytes a ≡ v = cc in
    let whole : to_le_bytes n v ≡ a = cc (to_le_bytes-from_le_bytes a here) in
    (
      rw whole (cc),
      subst (λ k. k < 256 ^ n) value
          (subst (λ k. from_le_bytes a < 256 ^ k) size (from_le_bytes-lt a here)),
    )

pub u16-split :
    (s s' : Parser) (v : ℕ)
    → All IsByte (peek_rest s)
    → u16 s ≡ ok (v, s')
    → (peek_rest s ≡ to_le_bytes 2 v ++ peek_rest s') × (v < 2 ^ 16)
unfolding u16
u16-split = word-split 2 "u16"

pub u32-split :
    (s s' : Parser) (v : ℕ)
    → All IsByte (peek_rest s)
    → u32 s ≡ ok (v, s')
    → (peek_rest s ≡ to_le_bytes 4 v ++ peek_rest s') × (v < 2 ^ 32)
unfolding u32
u32-split = word-split 4 "u32"

pub u64-split :
    (s s' : Parser) (v : ℕ)
    → All IsByte (peek_rest s)
    → u64 s ≡ ok (v, s')
    → (peek_rest s ≡ to_le_bytes 8 v ++ peek_rest s') × (v < 2 ^ 64)
unfolding u64
u64-split = word-split 8 "u64"

pub ruleset ints_local = (
  local, IsLocal-u8, IsLocal-u16, IsLocal-u32, IsLocal-u64, IsLocal-i32, IsLocal-i64, IsLocal-bool,
)
