-- ===== src/Wire/Utf8.antt =====
-- UTF-8, as `String::from_utf8` of the standard library checks it (The Unicode Standard, table 3-7).
use zewif_zcashd.Base.{ℕ, Bool, true, ◌&&◌, ◌||◌, ◌==◌, [], ◌∷◌, leb, ltb, if◌then◌else◌}
use zewif_zcashd.Wire.Parser.{Bytes}

abbrev between : ℕ → ℕ → ℕ → Bool
between lo hi b = leb lo b && leb b hi

abbrev tail_byte : ℕ → Bool
tail_byte = between 0x80 0xbf

abbrev two_bytes : (b c : ℕ) → Bool
two_bytes b c = between 0xc2 0xdf b && tail_byte c

abbrev three_bytes : (b c d : ℕ) → Bool
three_bytes b c d =
    tail_byte d
    && (b == 0xe0 && between 0xa0 0xbf c
        || between 0xe1 0xec b && tail_byte c
        || b == 0xed && between 0x80 0x9f c
        || between 0xee 0xef b && tail_byte c)

abbrev four_bytes : (b c d e : ℕ) → Bool
four_bytes b c d e =
    tail_byte d
    && tail_byte e
    && (b == 0xf0 && between 0x90 0xbf c
        || between 0xf1 0xf3 b && tail_byte c
        || b == 0xf4 && between 0x80 0x8f c)

-- Whether the bytes are well-formed UTF-8.
unfoldable pub is_utf8 : Bytes → Bool
is_utf8 [] = true
is_utf8 (b ∷ []) = ltb b 0x80
is_utf8 (b ∷ c ∷ []) = let one = is_utf8 (c ∷ []) in if ltb b 0x80 then one else two_bytes b c
is_utf8 (b ∷ c ∷ d ∷ []) =
    let one = is_utf8 (c ∷ d ∷ []) in
    let two = is_utf8 (d ∷ []) in
    if ltb b 0x80 then one else if two_bytes b c then two else three_bytes b c d
is_utf8 (b ∷ c ∷ d ∷ e ∷ r) =
    let one = is_utf8 (c ∷ d ∷ e ∷ r) in
    let two = is_utf8 (d ∷ e ∷ r) in
    let three = is_utf8 (e ∷ r) in
    let four = is_utf8 r in
    if ltb b 0x80
    then one
    else if two_bytes b c
    then two
    else if three_bytes b c d
    then three
    else four_bytes b c d e && four
