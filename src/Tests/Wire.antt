-- ===== src/Tests/Wire.antt =====
-- The binary parser, run on small inputs.
use zewif_zcashd.Base.{
  ◌≡◌, refl, [], ◌∷◌, ◌++◌, Result, ok, err, arith, ◌<◌, ◌^◌, ◌≤◌, ◌+◌, false, ◌⊎◌, take,
}
use zewif_zcashd.Wire.Error.{of_kind, trailing_data, unexpected_eof, push_frame, text}
use zewif_zcashd.Wire.Parser.{Parser, new, next, advance, parse_buf, check_finished, usize_size}
use zewif_zcashd.Wire.Reads.{Reads}
use zewif_zcashd.Wire.Ints.{u8, u16, to_le_bytes}
use zewif_zcashd.Wire.Ints.Laws.{Reads-u8, Reads-u16}
use zewif_zcashd.Wire.CompactSize.{parse_compact_size}
use zewif_zcashd.Wire.CompactSize.Canonical.{
  compact_size_bytes, parse_compact_size-canonical, Reads-parse_compact_size,
}
use zewif_zcashd.Wire.Utf8.{is_utf8}
use zewif_zcashd.Wire.Collections.{string, parse_vec, from_utf8, compact_size, data_bytes}
use zewif_zcashd.Wire.Collections.Laws.{Reads-parse_vec, IsLocal-string, concat}
use zewif_zcashd.Wire.Buffer.{parse_buf-whole, parse_buf-trailing}
use zewif_zcashd.Wire.Collections.Outcome.{data_bytes-outcome}

parse_compact_size-canonical_example :
    (0x07 ∷ 0x09 ∷ [] ≡ compact_size_bytes 7 ++ 0x09 ∷ []) × (7 < 2 ^ 64)
unfolding parse_compact_size u8 next
parse_compact_size-canonical_example =
    parse_compact_size-canonical (new (0x07 ∷ 0x09 ∷ [])) (advance 1 (new (0x07 ∷ 0x09 ∷ []))) 7
      (omega arith, (omega arith, tt)) refl

Reads-parse_compact_size_example : Reads parse_compact_size (compact_size_bytes 300) 300
Reads-parse_compact_size_example = Reads-parse_compact_size 300 (omega arith)

abbrev short_data : Parser
short_data = new (compact_size_bytes 5 ++ (1 ∷ 2 ∷ []))

data_bytes-outcome_example :
    ((5 ≤ 2) × (data_bytes short_data ≡ ok (take 5 (1 ∷ 2 ∷ []), advance 5 (advance 1 short_data))))
    ⊎ (((2 < 5)
          × (1 + 5 < usize_size)
          × (data_bytes short_data
              ≡ err (push_frame (text "Data") (of_kind (unexpected_eof 1 5 2)))))
        ⊎ ((usize_size ≤ 1 + 5) × (data_bytes short_data ≡ Result.panic)))
unfolding compact_size_bytes
data_bytes-outcome_example =
    data_bytes-outcome 5 short_data (1 ∷ 2 ∷ []) (omega arith, omega arith) refl (omega arith)

Reads-parse_vec_example :
    Reads
      (parse_vec 2 u16)
      (compact_size_bytes 2 ++ concat u16 (to_le_bytes 2) (5 ∷ 600 ∷ []))
      (5 ∷ 600 ∷ [])
Reads-parse_vec_example =
    Reads-parse_vec u16 (to_le_bytes 2) 2 (5 ∷ 600 ∷ []) (omega arith) (omega arith)
      (Reads-u16 5 (omega arith), (Reads-u16 600 (omega arith), tt))

parse_buf-whole_example : Reads string (2 ∷ 0x68 ∷ 0x69 ∷ []) (0x68 ∷ 0x69 ∷ [])
unfolding parse_buf string from_utf8 is_utf8 compact_size parse_compact_size next check_finished u8
parse_buf-whole_example =
    parse_buf-whole (2 ∷ 0x68 ∷ 0x69 ∷ []) false (0x68 ∷ 0x69 ∷ []) IsLocal-string (omega arith)
      refl

parse_buf-trailing_example : parse_buf u8 (1 ∷ 2 ∷ 3 ∷ []) false ≡ err (of_kind (trailing_data 2))
parse_buf-trailing_example = parse_buf-trailing (Reads-u8 1) false 2 (3 ∷ []) (omega arith)
