-- ===== src/Tests/Sapling.antt =====
-- An encrypted Sapling key, decrypted.
use zewif_zcashd.Base.{refl, [], ◌∷◌, none, ok, pos, take, replicate, All}
use zewif_zcashd.Base.Bytes.{codes, bytes_eq, eq_bytes}
use zewif_zcashd.Base.HashMap
use zewif_zcashd.Base.BTreeMap.{get, insert}
use zewif_zcashd.Wire.Parser.{Bytes, next, check_finished, parse_buf}
use zewif_zcashd.Wire.Ints.{u8, u64, i32, from_le_bytes, to_signed}
use zewif_zcashd.Wire.CompactSize.{parse_compact_size}
use zewif_zcashd.Wire.Collections.{
  compact_size, data_bytes, parse_fixed_length_array, parse_fixed_length_vec, parse_items,
  with_capacity,
}
use zewif_zcashd.Wallet.Words.{byte_array, u256}
use zewif_zcashd.Wallet.Meta.{
  key_metadata, has_hd_data, is_blank, all_zero, hd_data, seconds_since_epoch,
}
use zewif_zcashd.Wallet.Addresses.{sapling_ivk}
use zewif_zcashd.Wallet.Crypto.{decrypt_secret, aes256_cbc_decrypt}
use zewif_zcashd.Dump.{
  DbKey, ZcashdDump, value_for_key, records_for_keyname, collect_records, add_record, keys_of,
}
use zewif_zcashd.Dump.Index.{IsIndexed, IsIndexed-empty, IsIndexed-add_record}
use zewif_zcashd.Dump.Keys.{lt_key}
use zewif_zcashd.Zcashd.State.{eq_key, for_records, mark_key_parsed}
use zewif_zcashd.Zcashd.Sapling.{
  SaplingLibrary, SaplingKey, sapling_fvk_fingerprint, csapzkey_value, encrypted_sapling_round,
  parse_encrypted_sapling_keys,
}
use zewif_zcashd.Zcashd.Sapling.Laws.{IsUnsealed, parse_encrypted_sapling_keys-IsUnsealed}
use zewif_zcashd.Tests.Orders.{lt_bytes, ord_bytes}
use zewif_zcashd.Tests.Zcashd.{keys}
use zewif_zcashd.Tests.Policy.{lib}

-- A key is 32 bytes, and its viewing key takes 169.
abbrev sapling : SaplingLibrary Bytes (Unit {0})
sapling = record {
  read_extsk = byte_array 32;
  read_extfvk = λ s. ok (tt, s);
  to_extfvk = λ k. tt;
  extfvk_bytes = λ k. replicate 169 6;
  external_ivk = λ k. [];
  blake2b = λ personal message. take 32 message;
}

abbrev secret : DbKey
secret = record { keyname = codes "csapzkey"; key_data = replicate 32 1 }

abbrev meta : DbKey
meta = record { keyname = codes "sapzkeymeta"; key_data = replicate 32 1 }

abbrev sealed : ZcashdDump
sealed = record {
  records = (secret, 48 ∷ replicate 48 7) ∷ (meta, 1 ∷ replicate 11 0) ∷ [];
  keys_by_keyname =
      (codes "csapzkey", (secret, tt) ∷ []) ∷ (codes "sapzkeymeta", (meta, tt) ∷ []) ∷ [];
}

abbrev key : SaplingKey Bytes
key = record {
  ivk = replicate 32 1;
  extsk = replicate 32 7;
  metadata = record { version = pos 1; create_time = none; hd_keypath = none; seed_fp = none };
}

sealed-IsIndexed : IsIndexed ord_bytes keys sealed
unfolding add_record keys_of insert get lt_key lt_bytes
sealed-IsIndexed = IsIndexed-add_record ord_bytes keys secret (48 ∷ replicate 48 7) _ (
    IsIndexed-add_record ord_bytes keys meta (1 ∷ replicate 11 0) _
      (IsIndexed-empty ord_bytes keys))

parse_encrypted_sapling_keys-IsUnsealed_example :
    All (IsUnsealed sapling lib (replicate 32 9) ord_bytes keys sealed) ((replicate 32 1, key) ∷ [])
unfolding parse_encrypted_sapling_keys encrypted_sapling_round csapzkey_value
    sapling_fvk_fingerprint for_records aes256_cbc_decrypt decrypt_secret records_for_keyname
    collect_records value_for_key get insert lt_bytes lt_key mark_key_parsed HashMap.remove_item
    HashMap.insert bytes_eq data_bytes compact_size parse_compact_size next u8 u64 i32 from_le_bytes
    parse_buf check_finished key_metadata has_hd_data hd_data is_blank all_zero seconds_since_epoch
    to_signed sapling_ivk u256 byte_array parse_fixed_length_array parse_fixed_length_vec
    parse_items with_capacity
parse_encrypted_sapling_keys-IsUnsealed_example =
    parse_encrypted_sapling_keys-IsUnsealed sapling lib (replicate 32 9) ord_bytes keys sealed [] []
      ((replicate 32 1, key) ∷ []) sealed-IsIndexed refl
