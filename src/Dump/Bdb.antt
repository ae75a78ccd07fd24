-- ===== src/Dump/Bdb.antt =====
-- src/bdb_dump.rs: the reader of what Berkeley DB's `db_dump` writes. A text is its code points.
pub mod Laws
use zewif_zcashd.Base.{
  ℕ, ◌+◌, Bool, true, false, not, ◌&&◌, ◌||◌, List, [], ◌∷◌, Option, none, some, Result, ok, err,
  bind, if◌then◌else◌, leb, ◌==◌, length,
}
use zewif_zcashd.Base.Bytes.{codes, bytes_eq, eq_bytes}
use zewif_zcashd.Base.HashMap
use zewif_zcashd.Wire.Parser.{Bytes}

abbrev pub Text : Type 0
Text = List ℕ

-- `char::is_whitespace`
abbrev pub is_whitespace : ℕ → Bool
is_whitespace c =
    (leb 9 c && leb c 13)
    || c == 32
    || c == 0x85
    || c == 0xa0
    || c == 0x1680
    || (leb 0x2000 c && leb c 0x200a)
    || c == 0x2028
    || c == 0x2029
    || c == 0x202f
    || c == 0x205f
    || c == 0x3000

unfoldable pub trim_start : (ℕ → Bool) → Text → Text
trim_start p [] = []
trim_start p (c ∷ cs) = let rest = trim_start p cs in if p c then rest else c ∷ cs

unfoldable pub trim_end : (ℕ → Bool) → Text → Text
trim_end p [] = []
trim_end p (c ∷ cs) = elim (trim_end p cs) [ [] ↦ if p c then [] else c ∷ [] | d ∷ ds ↦ c ∷ d ∷ ds ]

unfoldable pub trim : Text → Text
unfolding trim_start trim_end
trim line = trim_end is_whitespace (trim_start is_whitespace line)

unfoldable pub starts_with : Text → Text → Bool
starts_with [] line = true
starts_with (p ∷ prefix) [] = false
starts_with (p ∷ prefix) (c ∷ cs) = c == p && starts_with prefix cs

-- `str::lines`: a line ends in a line feed, which a carriage return may precede.
abbrev pub starts_newline : Text → Bool
starts_newline [] = false
starts_newline (c ∷ cs) = c == 10

abbrev pub onto_first : ℕ → List Text → List Text
onto_first c [] = (c ∷ []) ∷ []
onto_first c (line ∷ lines) = (c ∷ line) ∷ lines

unfoldable pub lines : Text → List Text
lines [] = []
lines (c ∷ cs) =
    let rest = lines cs in
    if c == 10 then [] ∷ rest else if c == 13 && starts_newline cs then rest else onto_first c rest

-- `find('=')` and the two slices around it.
unfoldable pub split_at_equals : Text → Option (Text × Text)
split_at_equals [] = none
split_at_equals (c ∷ cs) =
    let rest = split_at_equals cs in
    if c == b'='
    then some ([], cs)
    else elim rest [ none ↦ none | some (key, value) ↦ some (c ∷ key, value) ]

-- The errors that do not come from running `db_dump`; what `zewif` says of bad hexadecimal is left out.
pub data BdbDumpError : Type 0 where
  invalid_hex unmatched_key non_unique_keys : BdbDumpError

pub record BdbDump : Type 0 where
  pub header_records : List (Text × Text)
  pub data_records : List (Bytes × Bytes)

-- The variables of the loop.
pub record Reading : Type 0 where
  pub header_records : List (Text × Text)
  pub data_records : List (Bytes × Bytes)
  pub in_data_section : Bool
  pub current_key : Option Bytes
  pub records_count : ℕ

abbrev pub start_reading : Reading
start_reading = record {
  header_records = [];
  data_records = [];
  in_data_section = false;
  current_key = none;
  records_count = 0;
}

-- A line that is no header is passed over.
abbrev pub header_line : Reading → Option (Text × Text) → Reading
header_line r none = r
header_line r (some (key, value)) = record r {
  header_records = HashMap.insert key value r.header_records;
}

-- Alternate between key and value.
abbrev pub data_line : Reading → Option Bytes → (bytes : Bytes) → Reading
data_line r none bytes = record r { current_key = some bytes }
data_line r (some key) bytes = record r {
  data_records = HashMap.insert key bytes r.data_records;
  current_key = none;
  records_count = r.records_count + 1;
}

-- `Data::from_hex` is of the crate zewif.
module _ (from_hex : Text → Option Bytes) where
  abbrev pub decoded : Text → Result BdbDumpError Bytes
  decoded line = elim (from_hex (trim_start (λ c. c == 32) (trim line))) [
    | none ↦ err invalid_hex
    | some bytes ↦ ok bytes
  ]

  -- What a line does to the loop: the variables after it, and whether the loop goes on.
  unfoldable pub read_line : Reading → Text → Result BdbDumpError (Reading × Bool)
  unfolding trim trim_start starts_with split_at_equals
  read_line r line =
      if bytes_eq (trim line) (codes "HEADER=END")
      then ok (record r { in_data_section = true }, true)
      else if not r.in_data_section
      then ok (header_line r (split_at_equals (trim line)), true)
      else if starts_with (codes "DATA=END") line
      then ok (r, false)
      else bind (decoded line) (λ bytes. ok (data_line r r.current_key bytes, true))

  unfoldable pub read_lines : List Text → Reading → Result BdbDumpError Reading
  unfolding read_line
  read_lines [] r = ok r
  read_lines (line ∷ rest) r =
      bind (read_line r line)
        (λ (r', more). let after = read_lines rest r' in if more then after else ok r')

  abbrev pub no_key : Option Bytes → Bool
  no_key none = true
  no_key (some key) = false

  -- What is checked after the loop.
  unfoldable pub finish : Reading → Result BdbDumpError BdbDump
  finish r =
      if not (no_key r.current_key)
      then err unmatched_key
      else if not (r.records_count == length r.data_records)
      then err non_unique_keys
      else ok (record { header_records = r.header_records; data_records = r.data_records })

  -- The part of `from_file_with_path` behind the run of `db_dump`, whose output is `stdout`.
  unfoldable pub from_output : (stdout : Text) → Result BdbDumpError BdbDump
  unfolding lines read_lines finish
  from_output stdout = bind (read_lines (lines stdout) start_reading) finish
