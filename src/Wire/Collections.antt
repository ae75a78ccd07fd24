-- ===== src/Wire/Collections.antt =====
-- src/zcashd_wallet/parseable_types.rs: pairs, sequences, maps, sets, options, strings and data.
pub mod Laws
pub mod Outcome
use zewif_zcashd.Base.{
  ℕ, zero, suc, ◌+◌, ◌-◌, ◌*◌, Bool, List, [], ◌∷◌, Option, none, some, pure, raise, abort, ◌>>=◌,
  ◌>>◌, if◌then◌else◌, ltb, ◌==◌, length,
}
use zewif_zcashd.Base.HashMap.{Eq, insert_item, collect}
use zewif_zcashd.Wire.Error.{
  with_frame, text, array_item, of_kind, invalid_utf8, string_length_overflow,
  invalid_optional_discriminant, Frame,
}
use zewif_zcashd.Wire.Parser.{Bytes, P, next, isize_max}
use zewif_zcashd.Wire.Ints.{u8}
use zewif_zcashd.Wire.CompactSize.{parse_compact_size}
use zewif_zcashd.Wire.Utf8.{is_utf8}

-- `Vec::with_capacity(n)` for elements of `size` bytes panics on a capacity overflow.
unfoldable pub with_capacity : (size n : ℕ) → P (Unit {0})
with_capacity size n = if ltb isize_max (size * n) then abort else pure tt

unfoldable pub compact_size : P ℕ
compact_size = parse_compact_size

-- `String::from_utf8`
unfoldable pub from_utf8 : Bytes → P Bytes
unfolding is_utf8
from_utf8 bytes = if is_utf8 bytes then pure bytes else raise (of_kind invalid_utf8)

-- A string is the list of its UTF-8 bytes.
unfoldable pub string : P Bytes
unfolding compact_size
string = do
  length ← with_frame (text "string length") compact_size
  bytes ← with_frame (text "string") (next length)
  with_frame (text "string") (from_utf8 bytes)

abbrev converted : Option ℕ → P ℕ
converted none = raise (of_kind string_length_overflow)
converted (some n) = pure n

-- A length of another type `T`; `none` is a failed conversion to `usize`.
unfoldable pub parse_string : {T : Type 0} → P T → (T → Option ℕ) → P Bytes
parse_string parse try_into = do
  parsed ← with_frame (text "string length") parse
  length ← converted (try_into parsed)
  bytes ← with_frame (text "string data") (next length)
  with_frame (text "string") (from_utf8 bytes)

unfoldable pub data_bytes : P Bytes
unfolding compact_size
data_bytes = do
  len ← with_frame (text "Data length") compact_size
  with_frame (text "Data") (next len)

module _ {T U : Type 0} where
  unfoldable pub parse_pair : P T → P U → P (T × U)
  parse_pair parse_first parse_second = do
    first ← with_frame (text "first item of pair") parse_first
    second ← with_frame (text "second item of pair") parse_second
    pure (first, second)

-- `rounds` calls of `parse`, each in the frame of its index.
unfoldable pub parse_items {ℓ} : {T : Type ℓ} → (ℕ → Frame) → P T → (rounds i : ℕ) → P (List T)
parse_items frame parse zero i = pure []
parse_items frame parse (suc rounds) i = do
  item ← with_frame (frame i) parse
  items ← parse_items frame parse rounds (i + 1)
  pure (item ∷ items)

module _ {T : Type 0} where
  unfoldable pub parse_fixed_length_vec : (size : ℕ) → P T → (length : ℕ) → P (List T)
  unfolding with_capacity
  parse_fixed_length_vec size parse length = do
    with_capacity size length
    parse_items (λ i. array_item i (length - 1)) parse length 0

  -- `try_into` an array of `n` items.
  unfoldable pub parse_fixed_length_array : (size : ℕ) → P T → (n : ℕ) → P (List T)
  parse_fixed_length_array size parse n = do
    items ← parse_fixed_length_vec size parse n
    if length items == n then pure items else abort

  unfoldable pub parse_vec : (size : ℕ) → P T → P (List T)
  unfolding compact_size
  parse_vec size parse = do
    length ← with_frame (text "array length") compact_size
    parse_fixed_length_vec size parse length

  -- The forms for parsers that take a parameter, of which each item gets a clone.
  unfoldable pub parse_fixed_length_vec_with_param :
      {U : Type 0} → (size : ℕ) → (U → P T) → (length : ℕ) → U → P (List T)
  parse_fixed_length_vec_with_param size parse length param =
      parse_fixed_length_vec size (parse param) length

  unfoldable pub parse_fixed_length_array_with_param :
      {U : Type 0} → (size : ℕ) → (U → P T) → (n : ℕ) → U → P (List T)
  parse_fixed_length_array_with_param size parse n param = do
    items ← parse_fixed_length_vec_with_param size parse n param
    if length items == n then pure items else abort

  unfoldable pub parse_vec_with_param : {U : Type 0} → (size : ℕ) → (U → P T) → U → P (List T)
  unfolding compact_size
  parse_vec_with_param size parse param = do
    length ← with_frame (text "array length") compact_size
    parse_fixed_length_vec_with_param size parse length param

  unfoldable pub parse_optional : P T → P (Option T)
  parse_optional parse = do
    discriminant ← with_frame (text "optional discriminant") u8
    if discriminant == 0x00
        then pure none
        else if discriminant == 0x01
        then (do value ← with_frame (text "optional value") parse; pure (some value))
        else raise (of_kind (invalid_optional_discriminant discriminant))

-- `fits` says whether the hash table's own capacity computation does not overflow.
module _ {T : Type 0} ⦃e : Eq T⦄ (fits : ℕ → Bool) where
  unfoldable pub insert_items : List T → List T → List T
  unfolding insert_item
  insert_items [] set = set
  insert_items (x ∷ xs) set = insert_items xs (insert_item x set)

  unfoldable pub parse_hashset : P T → P (List T)
  unfolding compact_size
  parse_hashset parse = do
    length ← with_frame (text "set length") compact_size
    if fits length then pure tt else abort
    items ← parse_items (λ i. text "set item") parse length 0
    pure (insert_items items [])

module _ {K V : Type 0} where
  unfoldable pub parse_map : (size : ℕ) → P K → P V → P (List (K × V))
  unfolding compact_size with_capacity
  parse_map size parse_key parse_value = do
    length ← with_frame (text "map length") compact_size
    with_capacity size length
    parse_items (λ i. text "map item") (parse_pair parse_key parse_value) length 0

  unfoldable pub parse_hashmap : ⦃e : Eq K⦄ → (size : ℕ) → P K → P V → P (List (K × V))
  parse_hashmap size parse_key parse_value = do
    items ← parse_map size parse_key parse_value
    pure (collect items [])
