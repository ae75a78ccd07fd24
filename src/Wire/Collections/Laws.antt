-- ===== src/Wire/Collections/Laws.antt =====
-- What the parsers of collections read, given what the parser of an item reads.
use zewif_zcashd.Base.{
  ℕ, zero, suc, ◌+◌, ◌*◌, ◌^◌, ◌≤◌, ◌<◌, ◌≡◌, Bool, true, false, List, [], ◌∷◌, ◌++◌, none, some,
  ltb, length, All, arith,
}
use zewif_zcashd.Base.HashMap.{Eq}
use zewif_zcashd.Wire.Error.{Frame}
use zewif_zcashd.Wire.Parser.{Bytes, P, isize_max}
use zewif_zcashd.Wire.Reads.{Reads, Reads-bind, Reads-map, Reads-pure, Reads-with_frame, Reads-next}
use zewif_zcashd.Wire.Local.{IsLocal, local, IsLocal-bind, IsLocal-with_frame, IsLocal-pure}
use zewif_zcashd.Wire.Ints.Laws.{Reads-u8, ints_local}
use zewif_zcashd.Wire.CompactSize.Canonical.{
  compact_size_bytes, Reads-parse_compact_size, IsLocal-parse_compact_size,
}
use zewif_zcashd.Wire.Utf8.{is_utf8}
use zewif_zcashd.Wire.Collections.{
  with_capacity, compact_size, from_utf8, string, data_bytes, parse_pair, parse_items,
  parse_fixed_length_vec, parse_fixed_length_array, parse_vec, parse_optional, parse_map,
  parse_hashset,
}

pub IsLocal-compact_size : IsLocal compact_size
unfolding compact_size
IsLocal-compact_size = IsLocal-parse_compact_size

pub IsLocal-with_capacity : (size n : ℕ) → IsLocal (with_capacity size n)
unfolding with_capacity
IsLocal-with_capacity size n = search local

pub IsLocal-from_utf8 : (bytes : Bytes) → IsLocal (from_utf8 bytes)
unfolding from_utf8
IsLocal-from_utf8 bytes = search local

ruleset parts_local = (
  ints_local, IsLocal-parse_compact_size, IsLocal-compact_size, IsLocal-with_capacity,
  IsLocal-from_utf8,
)

pub IsLocal-string : IsLocal string
unfolding string
IsLocal-string = search parts_local

pub IsLocal-data_bytes : IsLocal data_bytes
unfolding data_bytes
IsLocal-data_bytes = search parts_local

module _ {T : Type 0} (parse : P T) (h : IsLocal parse) where
  pub IsLocal-parse_items :
      (frame : ℕ → Frame) (rounds i : ℕ) → IsLocal (parse_items frame parse rounds i)
  unfolding parse_items
  IsLocal-parse_items frame zero i = IsLocal-pure []
  IsLocal-parse_items frame (suc rounds) i =
      IsLocal-bind _ (IsLocal-with_frame _ h)
        λ item. IsLocal-bind _ (IsLocal-parse_items frame rounds (i + 1)) λ items. IsLocal-pure _

  pub IsLocal-parse_fixed_length_vec : (size n : ℕ) → IsLocal (parse_fixed_length_vec size parse n)
  unfolding parse_fixed_length_vec
  IsLocal-parse_fixed_length_vec size n =
      search (IsLocal-bind, IsLocal-with_capacity, IsLocal-parse_items)

  pub IsLocal-parse_fixed_length_array :
      (size n : ℕ) → IsLocal (parse_fixed_length_array size parse n)
  unfolding parse_fixed_length_array
  IsLocal-parse_fixed_length_array size n = search (local, IsLocal-parse_fixed_length_vec)

  pub IsLocal-parse_vec : (size : ℕ) → IsLocal (parse_vec size parse)
  unfolding parse_vec
  IsLocal-parse_vec size = search (parts_local, IsLocal-parse_fixed_length_vec)

  pub IsLocal-parse_optional : IsLocal (parse_optional parse)
  unfolding parse_optional
  IsLocal-parse_optional = search parts_local

  pub IsLocal-parse_hashset : ⦃e : Eq T⦄ (fits : ℕ → Bool) → IsLocal (parse_hashset fits parse)
  unfolding parse_hashset
  IsLocal-parse_hashset fits = search (parts_local, IsLocal-parse_items)

module _ {T U : Type 0} (p : P T) (q : P U) (hp : IsLocal p) (hq : IsLocal q) where
  pub IsLocal-parse_pair : IsLocal (parse_pair p q)
  unfolding parse_pair
  IsLocal-parse_pair = search local

  pub IsLocal-parse_map : (size : ℕ) → IsLocal (parse_map size p q)
  unfolding parse_map
  IsLocal-parse_map size = search (parts_local, IsLocal-parse_items, IsLocal-parse_pair)

Reads-with_capacity : (size n : ℕ) → size * n ≤ isize_max → Reads (with_capacity size n) [] tt
unfolding with_capacity
Reads-with_capacity size n h =
    let fits : ltb isize_max (size * n) ≡ false = ground arith in rw fits (Reads-pure tt)

pub Reads-compact_size : (n : ℕ) → n < 2 ^ 64 → Reads compact_size (compact_size_bytes n) n
unfolding compact_size
Reads-compact_size = Reads-parse_compact_size

-- UTF-8 bytes, fewer than 2 ^ 64, behind their number as a compact size are read as the string of
-- these bytes.
pub Reads-string :
    (s : Bytes)
    → length s < 2 ^ 64
    → is_utf8 s ≡ true
    → Reads string (compact_size_bytes (length s) ++ s) s
unfolding string from_utf8
Reads-string s h u =
    Reads-bind _ (Reads-with_frame _ (Reads-compact_size (length s) h))
      (Reads-map _ (Reads-with_frame _ (Reads-next s)) (Reads-with_frame _ (rw u (Reads-pure s))))

pub Reads-data_bytes :
    (s : Bytes) → length s < 2 ^ 64 → Reads data_bytes (compact_size_bytes (length s) ++ s) s
unfolding data_bytes
Reads-data_bytes s h =
    Reads-bind _ (Reads-with_frame _ (Reads-compact_size (length s) h))
      (Reads-with_frame _ (Reads-next s))

module _ {T U : Type 0} {p : P T} {q : P U} {bs cs : Bytes} {a : T} {b : U} where
  pub Reads-parse_pair : Reads p bs a → Reads q cs b → Reads (parse_pair p q) (bs ++ cs) (a, b)
  unfolding parse_pair
  Reads-parse_pair ha hb =
      Reads-bind _ (Reads-with_frame _ ha) (Reads-map _ (Reads-with_frame _ hb) (Reads-pure (a, b)))

module _ {T : Type 0} (parse : P T) (encode : T → Bytes) where
  unfoldable pub concat : List T → Bytes
  concat [] = []
  concat (x ∷ xs) = encode x ++ concat xs

  pub Reads-parse_items :
      (frame : ℕ → Frame) (xs : List T) (i : ℕ)
      → All (λ x. Reads parse (encode x) x) xs
      → Reads (parse_items frame parse (length xs) i) (concat xs) xs
  unfolding parse_items concat
  Reads-parse_items frame [] i h = Reads-pure []
  Reads-parse_items frame (x ∷ xs) i (hx, hxs) =
      Reads-bind _ (Reads-with_frame _ hx)
        (Reads-map _ (Reads-parse_items frame xs (i + 1) hxs) (Reads-pure (x ∷ xs)))

  pub Reads-parse_fixed_length_vec :
      (size : ℕ) (xs : List T)
      → size * length xs ≤ isize_max
      → All (λ x. Reads parse (encode x) x) xs
      → Reads (parse_fixed_length_vec size parse (length xs)) (concat xs) xs
  unfolding parse_fixed_length_vec
  Reads-parse_fixed_length_vec size xs fits h =
      Reads-bind _ (Reads-with_capacity size (length xs) fits) (Reads-parse_items _ xs 0 h)

  -- Where each item is read off its encoding, the items' number as a compact size and their
  -- encodings one after the other are read as the vector of the items, if there are fewer than 2 ^
  -- 64 and they fit an allocation.
  pub Reads-parse_vec :
      (size : ℕ) (xs : List T)
      → size * length xs ≤ isize_max
      → length xs < 2 ^ 64
      → All (λ x. Reads parse (encode x) x) xs
      → Reads (parse_vec size parse) (compact_size_bytes (length xs) ++ concat xs) xs
  unfolding parse_vec
  Reads-parse_vec size xs fits short h =
      Reads-bind _ (Reads-with_frame _ (Reads-compact_size (length xs) short))
        (Reads-parse_fixed_length_vec size xs fits h)

  pub Reads-parse_optional-some :
      (x : T) → Reads parse (encode x) x → Reads (parse_optional parse) (1 ∷ encode x) (some x)
  unfolding parse_optional
  Reads-parse_optional-some x h =
      Reads-bind _ (Reads-with_frame _ (Reads-u8 1))
        (Reads-map _ (Reads-with_frame _ h) (Reads-pure (some x)))

  pub Reads-parse_optional-none : Reads (parse_optional parse) (0 ∷ []) none
  unfolding parse_optional
  Reads-parse_optional-none = Reads-map _ (Reads-with_frame _ (Reads-u8 0)) (Reads-pure none)
