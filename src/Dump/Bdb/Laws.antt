-- ===== src/Dump/Bdb/Laws.antt =====
-- The reader of dumps on what db_dump writes.
use zewif_zcashd.Base.{
  ℕ, ◌+◌, ◌≡◌, refl, ap, ◌∙◌, Bool, true, false, List, [], ◌∷◌, ◌++◌, map, Option, none, some, ok,
  err, if◌then◌else◌, ◌==◌, length, inl, inr, Bool-cases, All, arith,
}
use zewif_zcashd.Base.Bytes.{codes, bytes_eq, eq_bytes}
use zewif_zcashd.Base.HashMap
use zewif_zcashd.Base.HashMap.{collect}
use zewif_zcashd.Wire.Parser.{Bytes}
use zewif_zcashd.Dump.Bdb.{
  Text, trim, starts_with, lines, split_at_equals, non_unique_keys, Reading, header_line, decoded,
  read_line, read_lines, finish, from_output,
}

-- Two lines and the record that they stand for.
abbrev pub Entry : Type 0
Entry = (Text × Text) × (Bytes × Bytes)

abbrev pub data_lines : List Entry → List Text
data_lines [] = []
data_lines (((l, m), record_of) ∷ entries) = l ∷ m ∷ data_lines entries

abbrev pub records : List Entry → List (Bytes × Bytes)
records entries = map (λ e. e.1) entries

-- The headers that lines stand for.
abbrev pub add_header : Option (Text × Text) → List (Text × Text) → List (Text × Text)
add_header none headers = headers
add_header (some (key, value)) headers = HashMap.insert key value headers

abbrev pub add_headers : List Text → List (Text × Text) → List (Text × Text)
add_headers [] headers = headers
add_headers (line ∷ rest) headers =
    add_headers rest (add_header (split_at_equals (trim line)) headers)

-- A line that does not end the header, and one that does.
abbrev pub IsPlain : Text → Type 0
IsPlain line = bytes_eq (trim line) (codes "HEADER=END") ≡ false

abbrev pub IsMark : Text → Type 0
IsMark line = bytes_eq (trim line) (codes "HEADER=END") ≡ true

abbrev pub IsStop : Text → Type 0
IsStop line = IsPlain line × (starts_with (codes "DATA=END") line ≡ true)

module _ (from_hex : Text → Option Bytes) where
  -- A data line of some bytes.
  abbrev pub IsData : Text → Bytes → Type 0
  IsData line bytes =
      IsPlain line
      × (starts_with (codes "DATA=END") line ≡ false)
      × (decoded from_hex line ≡ ok bytes)

  abbrev pub IsEntry : Entry → Type 0
  IsEntry ((l, m), (key, value)) = IsData l key × IsData m value

  abbrev state : Bool → List (Text × Text) → List (Bytes × Bytes) → ℕ → Option Bytes → Reading
  state in_data headers m n key = record {
    header_records = headers;
    data_records = m;
    in_data_section = in_data;
    current_key = key;
    records_count = n;
  }

  header_line-state :
      (headers : List (Text × Text)) (o : Option (Text × Text))
      → header_line (state false headers [] 0 none) o ≡ state false (add_header o headers) [] 0 none
  header_line-state headers none = refl
  header_line-state headers (some (key, value)) = refl

  read_lines-headers :
      (hs rest : List Text) (headers : List (Text × Text))
      → All IsPlain hs
      → read_lines from_hex (hs ++ rest) (state false headers [] 0 none)
        ≡ read_lines from_hex rest (state false (add_headers hs headers) [] 0 none)
  unfolding read_lines read_line
  read_lines-headers [] rest headers h = refl
  read_lines-headers (line ∷ hs) rest headers (plain, h) =
      rw (plain, header_line-state headers (split_at_equals (trim line)))
        (read_lines-headers hs rest (add_header (split_at_equals (trim line)) headers) h)

  read_lines-data :
      (entries : List Entry) (stop : Text) (rest : List Text) (headers : List (Text × Text))
      (m : List (Bytes × Bytes)) (n : ℕ)
      → All IsEntry entries
      → IsStop stop
      → read_lines from_hex (data_lines entries ++ (stop ∷ rest)) (state true headers m n none)
        ≡ ok (state true headers (collect (records entries) m) (n + length entries) none)
  unfolding read_lines read_line collect
  read_lines-data [] stop rest headers m n h (plain, ends) =
      rw (plain, ends) (ap (λ k. ok (state true headers m k none)) (omega arith))
  read_lines-data (((l, v), (key, value)) ∷ entries) stop rest headers m n
        (((p, s, e), (p', s', e')), h) z =
      rw (p, s, e, p', s', e')
        (read_lines-data entries stop rest headers (HashMap.insert key value m) (n + 1) h z
          ∙ ap
              (λ k. ok (
                state true headers (collect (records entries) (HashMap.insert key value m)) k none))
              (omega arith))

  -- Where the lines of the output are lines that do not end the header, one that does, pairs of
  -- data lines that stand for records, one that starts with DATA=END and any others, the reader
  -- returns the headers and the map of the records, if the map has as many entries as there are
  -- pairs, and NonUniqueKeys otherwise.
  pub from_output-records :
      (stdout : Text) (hs : List Text) (mark : Text) (entries : List Entry) (stop : Text)
      (rest : List Text)
      → lines stdout ≡ hs ++ (mark ∷ (data_lines entries ++ (stop ∷ rest)))
      → All IsPlain hs
      → IsMark mark
      → All IsEntry entries
      → IsStop stop
      → from_output from_hex stdout ≡ (
          if length entries == length (collect (records entries) [])
          then ok (record {
            header_records = add_headers hs [];
            data_records = collect (records entries) [];
          })
          else err non_unique_keys)
  unfolding from_output finish read_lines read_line
  from_output-records stdout hs mark entries stop rest text h m es z =
      let all : 0 + length entries ≡ length entries = omega arith in
      let headers = read_lines-headers hs (mark ∷ (data_lines entries ++ (stop ∷ rest))) [] h in
      let data_part = read_lines-data entries stop rest (add_headers hs []) [] 0 es z in
      rw (text, headers, m, data_part, all)
        (elim (Bool-cases (length entries == length (collect (records entries) []))) [
          | inl same ↦ rw same refl
          | inr differ ↦ rw differ refl
        ])
