-- ===== src/Tests/Bdb.antt =====
-- The reader of dumps on the text of a small dump.
use zewif_zcashd.Base.{
  ◌≡◌, refl, [], ◌∷◌, ◌++◌, Option, none, some, ok, err, if◌then◌else◌, ◌==◌, length, ◌+◌, ◌*◌, ◌-◌,
}
use zewif_zcashd.Base.Bytes.{codes, bytes_eq, eq_bytes}
use zewif_zcashd.Base.HashMap.{collect}
use zewif_zcashd.Wire.Parser.{Bytes}
use zewif_zcashd.Dump.Bdb.{
  Text, lines, trim, trim_start, trim_end, starts_with, non_unique_keys, from_output,
}
use zewif_zcashd.Dump.Bdb.Laws.{Entry, records, add_headers, from_output-records}

-- Hexadecimal digits of numbers below ten only.
abbrev digits : Text → Option Bytes
digits [] = some []
digits (a ∷ []) = none
digits (a ∷ b ∷ cs) = elim (digits cs) [
  | none ↦ none
  | some bytes ↦ some (((a - b'0') * 16 + (b - b'0')) ∷ bytes)
]

abbrev header : Text
header = codes "VERSION=3"

abbrev entry : Entry
entry = ((codes " 0102", codes " 03"), (1 ∷ 2 ∷ [], 3 ∷ []))

abbrev newline : Text
newline = 10 ∷ []

abbrev dumped : Text
dumped =
    header
    ++ (newline
        ++ (codes "HEADER=END"
            ++ (newline
                ++ (codes " 0102"
                    ++ (newline ++ (codes " 03" ++ (newline ++ (codes "DATA=END" ++ newline))))))))

from_output-records_example : from_output digits dumped ≡ (
    if length (entry ∷ []) == length (collect (records (entry ∷ [])) [])
    then ok (record {
      header_records = add_headers (header ∷ []) [];
      data_records = collect (records (entry ∷ [])) [];
    })
    else err non_unique_keys)
unfolding lines trim trim_start trim_end starts_with bytes_eq
from_output-records_example =
    from_output-records digits dumped (header ∷ []) (codes "HEADER=END") (entry ∷ [])
      (codes "DATA=END") [] refl (refl, tt) refl (((refl, refl, refl), (refl, refl, refl)), tt)
      (refl, refl)
