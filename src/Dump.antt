-- ===== src/Dump.antt =====
-- src/zcashd_dump.rs: the records of a wallet, by key and by key name.
pub mod Bdb
pub mod Index
pub mod Keys
pub mod Records
use zewif_zcashd.Base.{
  ℕ, ◌+◌, ◌≡◌, refl, Bool, true, false, ◌&&◌, ◌||◌, Option, none, some, List, [], ◌∷◌, Result, ok,
  err, panic, bind, map_err, if◌then◌else◌, ◌==◌, length, ◌>>=◌, ◌>>◌, pure, lift, map,
}
use zewif_zcashd.Base.BTreeMap.{Ord, get, insert, contains_key}
use zewif_zcashd.Wire.Error.{ParseError, with_frame, text}
use zewif_zcashd.Wire.Parser.{Bytes, Parser, P, new, rest, check_finished}
use zewif_zcashd.Wire.Collections.{string}

pub record DbKey : Type 0 where
  pub keyname : Bytes
  pub key_data : Bytes

-- A key is kept as it is, in place of its text.
pub data DumpError : Type 0 where
  record_not_found : (key : DbKey) → DumpError
  keyname_not_found : (keyname : Bytes) → DumpError
  multiple_records : (keyname : Bytes) (count : ℕ) → DumpError

-- `DbValue` is its bytes.
abbrev pub DbValue : Type 0
DbValue = Bytes

unfoldable pub parse_key : P DbKey
parse_key = do
  keyname ← with_frame (text "keyname") string
  key_data ← rest
  check_finished
  pure (record { keyname = keyname; key_data = key_data })

unfoldable pub parse_data : Bytes → Result ParseError DbKey
unfolding parse_key
parse_data key_data = bind (parse_key (new key_data)) (λ (key, s). ok key)

pub record ZcashdDump : Type 0 where
  pub records : List (DbKey × DbValue)
  pub keys_by_keyname : List (Bytes × List (DbKey × Unit {0}))

abbrev pub or_default {ℓ} : {A : Type ℓ} → Option (List A) → List A
or_default none = []
or_default (some l) = l

abbrev pub or_else {ℓ} : {E : Type 0} {A : Type ℓ} → E → Option A → Result E A
or_else e none = err e
or_else e (some a) = ok a

-- The orders of strings and of keys.
module _ (names : Ord Bytes) (keys : Ord DbKey) where
  unfoldable pub keys_of : ZcashdDump → Bytes → List (DbKey × Unit {0})
  keys_of d keyname = or_default (get names keyname d.keys_by_keyname)

  -- One round of the loop for a key that parses.
  unfoldable pub add_record : DbKey → DbValue → ZcashdDump → ZcashdDump
  unfolding keys_of
  add_record key value d = record {
    records = insert keys key value d.records;
    keys_by_keyname =
        insert names key.keyname (insert keys key tt (keys_of d key.keyname)) d.keys_by_keyname;
  }

  abbrev pub add_parsed :
      Bool → Result ParseError DbKey → DbValue → ZcashdDump → Result ParseError ZcashdDump
  add_parsed strict (ok key) value d = ok (add_record key value d)
  add_parsed strict (err e) value d = if strict then err e else ok d
  add_parsed strict panic value d = panic

  unfoldable pub add_records :
      Bool → List (Bytes × Bytes) → ZcashdDump → Result ParseError ZcashdDump
  add_records strict [] d = ok d
  add_records strict ((key_data, value_data) ∷ more) d =
      bind (add_parsed strict (parse_data key_data) value_data d) (λ d'. add_records strict more d')

  unfoldable pub from_bdb_dump : List (Bytes × Bytes) → Bool → Result ParseError ZcashdDump
  unfolding add_records
  from_bdb_dump data_records strict =
      add_records strict data_records (record { records = []; keys_by_keyname = [] })

  unfoldable pub value_for_key : ZcashdDump → DbKey → Result DumpError DbValue
  value_for_key d key = or_else (record_not_found key) (get keys key d.records)

  abbrev pub key_for_keyname : Bytes → DbKey
  key_for_keyname keyname = record { keyname = keyname; key_data = [] }

  unfoldable pub value_for_keyname : ZcashdDump → Bytes → Result DumpError DbValue
  unfolding value_for_key
  value_for_keyname d keyname = value_for_key d (key_for_keyname keyname)

  unfoldable pub has_value_for_keyname : ZcashdDump → Bytes → Bool
  has_value_for_keyname d keyname = contains_key keys (key_for_keyname keyname) d.records

  -- The loop over the keys of a name.
  unfoldable pub collect_records :
      ZcashdDump
      → List (DbKey × Unit {0})
      → List (DbKey × DbValue)
      → Result DumpError (List (DbKey × DbValue))
  unfolding value_for_key
  collect_records d [] records = ok records
  collect_records d ((key, u) ∷ more) records =
      bind (value_for_key d key) (λ value. collect_records d more (insert keys key value records))

  unfoldable pub records_for_keyname :
      ZcashdDump → Bytes → Result DumpError (List (DbKey × DbValue))
  unfolding collect_records
  records_for_keyname d keyname =
      bind (or_else (keyname_not_found keyname) (get names keyname d.keys_by_keyname))
        (λ ks. collect_records d ks [])

  unfoldable pub has_keys_for_keyname : ZcashdDump → Bytes → Bool
  has_keys_for_keyname d keyname = contains_key names keyname d.keys_by_keyname

  abbrev pub only_record :
      ZcashdDump → Bytes → List (DbKey × Unit {0}) → Result DumpError (DbKey × DbValue)
  only_record d keyname ((key, u) ∷ []) = bind (value_for_key d key) (λ value. ok (key, value))
  only_record d keyname ks = err (multiple_records keyname (length ks))

  unfoldable pub record_for_keyname : ZcashdDump → Bytes → Result DumpError (DbKey × DbValue)
  record_for_keyname d keyname =
      bind (or_else (keyname_not_found keyname) (get names keyname d.keys_by_keyname))
        (λ ks. only_record d keyname ks)
