-- ===== src/Wire/CompactSize/Canonical.antt =====
-- The compact encoding: what is written is read, and nothing else is.
use zewif_zcashd.Base.{
  ℕ, ◌^◌, ◌≤◌, ◌<◌, ◌≡◌, ◌∙◌, subst, [], ◌∷◌, ◌++◌, ok, All, arith, tests, bind-eq-ok,
  map_err-eq-ok, if◌then◌else◌, ltb, ◌==◌, ==_iff, false, Bool-cases, inl, inr, pure, ◌>>=◌,
}
use zewif_zcashd.Wire.Error.{text, with_frame}
use zewif_zcashd.Wire.Parser.{Bytes, P, Parser, peek_rest}
use zewif_zcashd.Wire.Reads.{Reads, Reads-bind, Reads-map, Reads-pure, Reads-with_frame}
use zewif_zcashd.Wire.Local.{IsLocal}
use zewif_zcashd.Wire.Ints.{u8, u16, u32, u64, to_le_bytes}
use zewif_zcashd.Wire.Ints.Endian.{IsByte}
use zewif_zcashd.Wire.Ints.Laws.{
  Reads-u8, Reads-u16, Reads-u32, Reads-u64, u8-split, u16-split, u32-split, u64-split, ints_local,
}
use zewif_zcashd.Wire.CompactSize.{checked, parse_compact_size}

-- The shortest form of a number below 2 ^ 64.
unfoldable pub compact_size_bytes : ℕ → Bytes
compact_size_bytes n =
    if ltb n 253
    then n ∷ []
    else if ltb n 0x10000
    then 0xfd ∷ to_le_bytes 2 n
    else if ltb n 0x100000000
    then 0xfe ∷ to_le_bytes 4 n
    else 0xff ∷ to_le_bytes 8 n

pub IsLocal-parse_compact_size : IsLocal parse_compact_size
unfolding parse_compact_size checked
IsLocal-parse_compact_size = search ints_local depth 12

Reads-checked : (prefix least n : ℕ) → least ≤ n → Reads (checked prefix least n) [] n
unfolding checked
Reads-checked prefix least n h =
    let fits : ltb n least ≡ false = ground arith in rw fits (Reads-pure n)

-- The number after a prefix byte.
Reads-parse_compact_size_short : (n : ℕ) → n < 253 → Reads parse_compact_size (n ∷ []) n
unfolding parse_compact_size
Reads-parse_compact_size_short n h =
    let fd : (n == 0xfd) ≡ false = ground arith in
    let fe : (n == 0xfe) ≡ false = ground arith in
    let ff : (n == 0xff) ≡ false = ground arith in
    Reads-map _ (Reads-with_frame _ (Reads-u8 n)) (rw (fd, fe, ff) (Reads-pure n))

-- The shortest form of any number below 2 ^ 64, at any place of a buffer, is read as that number,
-- and the parser then stands behind it.
pub Reads-parse_compact_size :
    (n : ℕ) → n < 2 ^ 64 → Reads parse_compact_size (compact_size_bytes n) n
unfolding parse_compact_size compact_size_bytes
Reads-parse_compact_size n h = elim (Bool-cases (ltb n 253)) [
  | inl small ↦ rw small (Reads-parse_compact_size_short n (omega tests))
  | inr e₁ ↦ rw e₁ (elim (Bool-cases (ltb n 0x10000)) [
    | inl e₂ ↦ rw e₂ (
        Reads-bind _ (Reads-with_frame _ (Reads-u8 0xfd)) (
          Reads-map _ (Reads-with_frame _ (Reads-u16 n (omega tests)))
            (Reads-checked 0xfd 253 n (omega tests))))
    | inr e₂ ↦ rw e₂ (elim (Bool-cases (ltb n 0x100000000)) [
      | inl e₃ ↦ rw e₃ (
          Reads-bind _ (Reads-with_frame _ (Reads-u8 0xfe)) (
            Reads-map _ (Reads-with_frame _ (Reads-u32 n (omega tests)))
              (Reads-checked 0xfe 0x10000 n (omega tests))))
      | inr e₃ ↦ rw e₃ (
          Reads-bind _ (Reads-with_frame _ (Reads-u8 0xff)) (
            Reads-map _ (Reads-with_frame _ (Reads-u64 n h))
              (Reads-checked 0xff 0x100000000 n (omega tests))))
    ])
  ])
]

checked-eq-ok :
    (prefix least n v : ℕ) (s s' : Parser)
    → checked prefix least n s ≡ ok (v, s')
    → (least ≤ n) × (n ≡ v) × (s ≡ s')
unfolding checked
checked-eq-ok prefix least n v s s' e = elim (Bool-cases (ltb n least)) [
  | inl short ↦ let bad = rw short at e in absurd (cc)
  | inr fits ↦ let good = rw fits at e in (omega tests, cc, cc)
]

-- The arm of one prefix: `width` bytes of a number that no shorter form holds.
long_form-split :
    (prefix least width : ℕ) (word : P ℕ)
    → ((s s' : Parser) (v : ℕ)
        → All IsByte (peek_rest s)
        → word s ≡ ok (v, s')
        → (peek_rest s ≡ to_le_bytes width v ++ peek_rest s') × (v < 256 ^ width))
    → (s s' : Parser) (n : ℕ) → All IsByte (peek_rest s)
    → (do v ← with_frame (text "compact size") word; checked prefix least v) s ≡ ok (n, s')
    → (peek_rest s ≡ to_le_bytes width n ++ peek_rest s') × (n < 256 ^ width) × (least ≤ n)
long_form-split prefix least width word word-split s s' n bytes e =
    let ((v, t), e₁, e₂) = bind-eq-ok (with_frame (text "compact size") word s) _ e in
    let (split, bound) = word-split s t v bytes (map_err-eq-ok _ (word s) e₁) in
    let (fits, same, done) = checked-eq-ok prefix least v n t s' e₂ in
    (
      rw (← same, ← done) split,
      subst (λ k. k < 256 ^ width) same bound,
      subst (λ k. least ≤ k) same fits,
    )

compact_size_bytes_forms :
    (n : ℕ)
    → (n < 253 → compact_size_bytes n ≡ n ∷ [])
      × (253 ≤ n → n < 0x10000 → compact_size_bytes n ≡ 0xfd ∷ to_le_bytes 2 n)
      × (0x10000 ≤ n → n < 0x100000000 → compact_size_bytes n ≡ 0xfe ∷ to_le_bytes 4 n)
      × (0x100000000 ≤ n → compact_size_bytes n ≡ 0xff ∷ to_le_bytes 8 n)
unfolding compact_size_bytes
compact_size_bytes_forms n =
    (λ h. ground arith, λ h k. ground arith, λ h k. ground arith, λ h. ground arith)

-- The arms after the first byte.
arms-split :
    (b : ℕ) (t s' : Parser) (n : ℕ)
    → IsByte b
    → All IsByte (peek_rest t)
    → (if b == 0xfd
          then (do v ← with_frame (text "compact size") u16; checked 0xfd 253 v)
          else if b == 0xfe
          then (do v ← with_frame (text "compact size") u32; checked 0xfe 0x10000 v)
          else if b == 0xff
          then (do v ← with_frame (text "compact size") u64; checked 0xff 0x100000000 v)
          else pure b)
        t
      ≡ ok (n, s')
    → (b ∷ peek_rest t ≡ compact_size_bytes n ++ peek_rest s') × (n < 2 ^ 64)
arms-split b t s' n byte bytes e = elim (Bool-cases (b == 0xfd)) [
  | inl is_fd ↦
      let (split, bound, least) =
        long_form-split 0xfd 253 2 u16 u16-split t s' n bytes (rw is_fd at e) in
      (rw ((compact_size_bytes_forms n).1 least bound, (==_iff b 0xfd).0 is_fd, split), omega arith)
  | inr e₁ ↦ elim (Bool-cases (b == 0xfe)) [
    | inl is_fe ↦
        let (split, bound, least) =
          long_form-split 0xfe 0x10000 4 u32 u32-split t s' n bytes (rw (e₁, is_fe) at e) in
        (
          rw ((compact_size_bytes_forms n).2 least bound, (==_iff b 0xfe).0 is_fe, split),
          omega arith,
        )
    | inr e₂ ↦ elim (Bool-cases (b == 0xff)) [
      | inl is_ff ↦
          let (split, bound, least) =
            long_form-split 0xff 0x100000000 8 u64 u64-split t s' n bytes
              (rw (e₁, e₂, is_ff) at e) in
          (rw ((compact_size_bytes_forms n).3 least, (==_iff b 0xff).0 is_ff, split), bound)
      | inr e₃ ↦
          let done : ok (b, t) ≡ ok (n, s') = rw (e₁, e₂, e₃) at e in
          let same : b ≡ n = cc in
          let small : n < 253 = ground arith in
          (rw ((compact_size_bytes_forms n).0 small) (cc), omega arith)
    ]
  ]
]

-- Where the input consists of bytes and parse_compact_size accepts a number, the input starts with
-- the shortest form of that number, the parser stands behind it, and the number is below 2 ^ 64.
pub parse_compact_size-canonical :
    (s s' : Parser) (n : ℕ)
    → All IsByte (peek_rest s)
    → parse_compact_size s ≡ ok (n, s')
    → (peek_rest s ≡ compact_size_bytes n ++ peek_rest s') × (n < 2 ^ 64)
unfolding parse_compact_size
parse_compact_size-canonical s s' n bytes e =
    let ((b, t), e₁, e₂) = bind-eq-ok (with_frame (text "compact size") u8 s) _ e in
    let split = u8-split s t b (map_err-eq-ok _ (u8 s) e₁) in
    let (byte, rest) = subst (All IsByte) split bytes in
    let (whole, bound) = arms-split b t s' n byte rest e₂ in (split ∙ whole, bound)
