-- ===== src/Tests/Zcashd.antt =====
-- The dump and the wallet parser, run on two small dumps.
use zewif_zcashd.Base.{
  ◌≡◌, ◌≢◌, refl, List, [], ◌∷◌, ◌++◌, true, false, ok, err, none, some, replicate, if◌then◌else◌,
  arith, ◌⊎◌,
}
use zewif_zcashd.Base.Bytes.{codes, bytes_eq}
use zewif_zcashd.Base.HashMap
use zewif_zcashd.Base.BTreeMap.{Ord, same, get, insert, contains_key}
use zewif_zcashd.Wire.Parser.{Bytes, next, rest, check_finished, parse_buf}
use zewif_zcashd.Wire.Ints.{u8, from_le_bytes}
use zewif_zcashd.Wire.CompactSize.{parse_compact_size}
use zewif_zcashd.Wire.CompactSize.Canonical.{compact_size_bytes}
use zewif_zcashd.Wire.Collections.{string, compact_size, from_utf8, data_bytes}
use zewif_zcashd.Wallet.Transparent.WatchScript.{WatchScript, other, watch_script, classify}
use zewif_zcashd.Wire.Utf8.{is_utf8}
use zewif_zcashd.Dump.{
  DbKey, DbValue, ZcashdDump, parse_data, parse_key, keys_of, add_record, add_records,
  from_bdb_dump, has_keys_for_keyname, records_for_keyname, record_for_keyname, keyname_not_found,
  value_for_key, collect_records,
}
use zewif_zcashd.Dump.Keys.{ord_key, lt_key, parse_data-encoding}
use zewif_zcashd.Dump.Index.{
  IsIndexed, IsIndexed-empty, IsIndexed-add_record, from_bdb_dump-IsIndexed,
}
use zewif_zcashd.Dump.Records.{records_for_keyname-exact, record_for_keyname-exact}
use zewif_zcashd.Zcashd.Records.{sort_by_data, watch_script_round, parse_watch_scripts}
use zewif_zcashd.Zcashd.State.{eq_key, for_records, mark_key_parsed}
use zewif_zcashd.Zcashd.Records.Sorting.{Ascending, Rearranged}
use zewif_zcashd.Zcashd.Records.WatchScripts.{Decoded, parse_watch_scripts-Decoded}
use zewif_zcashd.Tests.Orders.{lt_bytes, ord_bytes}

abbrev pub keys : Ord DbKey
keys = ord_key ord_bytes ord_bytes

abbrev pub script_key : DbKey
script_key = record { keyname = codes "cscript"; key_data = replicate 20 1 }

abbrev pub seed_key : DbKey
seed_key = record { keyname = codes "hdseed"; key_data = [] }

abbrev pub sample : ZcashdDump
sample = record {
  records = (script_key, 1 ∷ 0x51 ∷ []) ∷ (seed_key, 1 ∷ 7 ∷ []) ∷ [];
  keys_by_keyname =
      (codes "cscript", (script_key, tt) ∷ []) ∷ (codes "hdseed", (seed_key, tt) ∷ []) ∷ [];
}

abbrev sample_records : List (Bytes × Bytes)
sample_records =
    ((6 ∷ codes "hdseed"), 1 ∷ 7 ∷ [])
    ∷ ((7 ∷ codes "cscript" ++ replicate 20 1), 1 ∷ 0x51 ∷ [])
    ∷ []

pub sample-IsIndexed : IsIndexed ord_bytes keys sample
unfolding add_record keys_of insert get lt_key lt_bytes
sample-IsIndexed =
    IsIndexed-add_record ord_bytes keys script_key (1 ∷ 0x51 ∷ []) _
      (IsIndexed-add_record ord_bytes keys seed_key (1 ∷ 7 ∷ []) _ (IsIndexed-empty ord_bytes keys))

from_bdb_dump-IsIndexed_example : IsIndexed ord_bytes keys sample
unfolding from_bdb_dump add_records add_record parse_data parse_key keys_of insert get lt_key
    lt_bytes string compact_size parse_compact_size from_utf8 is_utf8 next rest check_finished u8
from_bdb_dump-IsIndexed_example =
    from_bdb_dump-IsIndexed ord_bytes keys sample_records true sample refl

parse_data-encoding_example :
    parse_data ((compact_size_bytes 7 ++ codes "cscript") ++ replicate 20 1) ≡ ok script_key
unfolding is_utf8 compact_size_bytes
parse_data-encoding_example = parse_data-encoding script_key refl (omega arith)

record_for_keyname-exact_example :
    (codes "hdseed" ≡ codes "hdseed")
    × (get keys seed_key sample.records ≡ some (1 ∷ 7 ∷ []))
    × ((other : DbKey)
        → other.keyname ≡ codes "hdseed"
        → other ≢ seed_key
        → get keys other sample.records ≡ none)
unfolding record_for_keyname value_for_key get lt_bytes lt_key
record_for_keyname-exact_example =
    record_for_keyname-exact ord_bytes keys sample (codes "hdseed") seed_key (1 ∷ 7 ∷ [])
      sample-IsIndexed refl

records_for_keyname-exact_example :
    ((records_for_keyname ord_bytes keys sample (codes "tx") ≡ err (keyname_not_found (codes "tx")))
      × (has_keys_for_keyname ord_bytes keys sample (codes "tx") ≡ false)
      × ((key : DbKey) → key.keyname ≡ codes "tx" → get keys key sample.records ≡ none))
    ⊎ ((records : List (DbKey × DbValue)) × (records_for_keyname ord_bytes keys sample (codes "tx")
          ≡ ok records)
        × (has_keys_for_keyname ord_bytes keys sample (codes "tx") ≡ true)
        × ((key : DbKey)
            → get keys key records ≡ (
                if same ord_bytes key.keyname (codes "tx")
                then get keys key sample.records
                else none)))
records_for_keyname-exact_example =
    records_for_keyname-exact ord_bytes keys sample (codes "tx") sample-IsIndexed

abbrev watched : (script : Bytes) → DbKey
watched script = record { keyname = codes "watchs"; key_data = script }

abbrev watch_records : List (DbKey × DbValue)
watch_records = (watched (1 ∷ 7 ∷ []), 49 ∷ []) ∷ (watched (2 ∷ 7 ∷ 8 ∷ []), 49 ∷ []) ∷ []

abbrev watch_dump : ZcashdDump
watch_dump = record {
  records = watch_records;
  keys_by_keyname =
      (codes "watchs", (watched (1 ∷ 7 ∷ []), tt) ∷ (watched (2 ∷ 7 ∷ 8 ∷ []), tt) ∷ []) ∷ [];
}

abbrev watch_scripts : List WatchScript
watch_scripts =
    record { script = 7 ∷ []; kind = other (7 ∷ []) }
    ∷ record { script = 7 ∷ 8 ∷ []; kind = other (7 ∷ 8 ∷ []) }
    ∷ []

parse_watch_scripts-Decoded_example :
    ((has_keys_for_keyname ord_bytes keys watch_dump (codes "watchs") ≡ false)
      × (watch_scripts ≡ []))
    ⊎ ((has_keys_for_keyname ord_bytes keys watch_dump (codes "watchs") ≡ true)
        × ((found : List (DbKey × DbValue)) × ((sorted : List (DbKey × DbValue))
              × (records_for_keyname ord_bytes keys watch_dump (codes "watchs") ≡ ok found)
              × Rearranged found sorted
              × Ascending ord_bytes sorted
              × Decoded sorted watch_scripts)))
unfolding parse_watch_scripts has_keys_for_keyname records_for_keyname collect_records value_for_key
    keys_of get insert contains_key lt_key lt_bytes for_records sort_by_data watch_script_round
    mark_key_parsed HashMap.remove_item bytes_eq parse_buf check_finished next u8 from_le_bytes
    compact_size parse_compact_size data_bytes watch_script classify
parse_watch_scripts-Decoded_example =
    parse_watch_scripts-Decoded ord_bytes keys watch_dump ord_bytes [] [] watch_scripts refl
