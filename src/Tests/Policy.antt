-- ===== src/Tests/Policy.antt =====
-- The wallet parser on an encrypted wallet of one key, and on the sample dump.
use zewif_zcashd.Base.{
  ◌≡◌, ◌≢◌, refl, List, [], ◌∷◌, ◌++◌, true, false, ◌&&◌, ok, none, some, pos, take, All, replicate,
  if◌then◌else◌,
}
use zewif_zcashd.Base.Bytes.{codes, bytes_eq, eq_bytes}
use zewif_zcashd.Base.HashMap
use zewif_zcashd.Base.BTreeMap.{same, get, insert, contains_key}
use zewif_zcashd.Wire.Parser.{Bytes, next, check_finished, parse_buf}
use zewif_zcashd.Wire.Ints.{u8, u32, u64, i32, from_le_bytes, to_signed}
use zewif_zcashd.Wire.CompactSize.{parse_compact_size}
use zewif_zcashd.Wire.Collections.{
  compact_size, data_bytes, parse_fixed_length_array, parse_fixed_length_vec, with_capacity,
  parse_items,
}
use zewif_zcashd.Wallet.Words.{u160, byte_array}
use zewif_zcashd.Wallet.Meta.{
  key_metadata, has_hd_data, is_blank, all_zero, hd_data, seconds_since_epoch,
}
use zewif_zcashd.Wallet.Addresses.{script}
use zewif_zcashd.Wallet.Transparent.{KeyPair, pub_key, script_id, from_decrypted_scalar}
use zewif_zcashd.Wallet.Crypto.{
  decrypt_secret, decrypt_master_key, aes256_cbc_decrypt, bytes_to_key_sha512, rehash,
}
use zewif_zcashd.Dump.{
  DbKey, DbValue, ZcashdDump, keys_of, add_record, has_keys_for_keyname, has_value_for_keyname,
  records_for_keyname, value_for_key, collect_records,
}
use zewif_zcashd.Dump.Keys.{lt_key}
use zewif_zcashd.Dump.Index.{IsIndexed, IsIndexed-empty, IsIndexed-add_record}
use zewif_zcashd.Zcashd.State.{
  reject, skip, eq_key, for_records, mark_key_parsed, mark_keys_parsed, mark_records_parsed,
  duplicate_script_id,
}
use zewif_zcashd.Zcashd.Keys.{
  Libraries, derived_pubkey_matches, sha256d, recovered, encrypted_key_round, parse_encrypted_keys,
  parse_keys,
}
use zewif_zcashd.Zcashd.Keys.Laws.{
  among, mark_records_parsed-exact, parse_keys-skip, IsRecovered, parse_encrypted_keys-IsRecovered,
}
use zewif_zcashd.Zcashd.MasterKey.{
  derive_master_key, try_records, candidate, accept, master_key_verifies, first_verifies,
  scalar_matches, master_key_params,
}
use zewif_zcashd.Zcashd.MasterKey.Laws.{Accepted, derive_master_key-skip, derive_master_key-decrypt}
use zewif_zcashd.Zcashd.Records.{parse_cscripts, unique_entry}
use zewif_zcashd.Zcashd.Records.Laws.{IsHeld, parse_cscripts_complete}
use zewif_zcashd.Zcashd.Seeds.{SeedLibrary, parse_hdseed}
use zewif_zcashd.Zcashd.Seeds.Laws.{parse_hdseed-plain}
use zewif_zcashd.Tests.Orders.{lt_bytes, ord_bytes}
use zewif_zcashd.Tests.Zcashd.{keys, script_key, sample, sample-IsIndexed}

abbrev pub pubkey : Bytes
pubkey = 2 ∷ replicate 32 5

-- Stand-ins: the cipher gives the first 32 bytes of a ciphertext, and one public key derives from all.
abbrev pub lib : Libraries
lib = record {
  sha256 = take 32;
  sha512 = λ b. b;
  decrypt_padded = λ key iv ciphertext. some (take 32 ciphertext);
  public_key = λ scalar compressed. some pubkey;
}

abbrev secret_key : DbKey
secret_key = record { keyname = codes "ckey"; key_data = 33 ∷ pubkey }

abbrev meta : DbKey
meta = record { keyname = codes "keymeta"; key_data = 33 ∷ pubkey }

abbrev master : DbKey
master = record { keyname = codes "mkey"; key_data = 1 ∷ [] }

abbrev secret_value : Bytes
secret_value = 48 ∷ replicate 48 7

abbrev meta_value : Bytes
meta_value = 1 ∷ replicate 11 0

abbrev master_value : Bytes
master_value =
    48 ∷ (replicate 48 9 ++ (8 ∷ (replicate 8 1 ++ (replicate 4 0 ++ (1 ∷ 0 ∷ 0 ∷ 0 ∷ [])))))

abbrev sealed : ZcashdDump
sealed = record {
  records = (secret_key, secret_value) ∷ (meta, meta_value) ∷ (master, master_value) ∷ [];
  keys_by_keyname =
      (codes "ckey", (secret_key, tt) ∷ [])
      ∷ (codes "keymeta", (meta, tt) ∷ [])
      ∷ (codes "mkey", (master, tt) ∷ [])
      ∷ [];
}

sealed-IsIndexed : IsIndexed ord_bytes keys sealed
unfolding add_record keys_of insert get lt_key lt_bytes
sealed-IsIndexed = IsIndexed-add_record ord_bytes keys secret_key secret_value _ (
    IsIndexed-add_record ord_bytes keys meta meta_value _
      (IsIndexed-add_record ord_bytes keys master master_value _ (IsIndexed-empty ord_bytes keys)))

derive_master_key-skip_example :
    (s' : List DbKey) × (derive_master_key lib ord_bytes keys sealed skip (master ∷ [])
      ≡ ok (none, s'))
    × ((k : DbKey)
        → HashMap.contains k s' ≡ (
            if same ord_bytes k.keyname (codes "mkey") && contains_key keys k sealed.records
            then false
            else HashMap.contains k (master ∷ [])))
unfolding has_keys_for_keyname contains_key lt_bytes
derive_master_key-skip_example =
    derive_master_key-skip lib ord_bytes keys sealed (master ∷ []) sealed-IsIndexed refl

mark_records_parsed-exact_example :
    (s' : List DbKey) × (mark_records_parsed ord_bytes keys sealed
        (codes "ckey" ∷ [])
        (secret_key ∷ [])
      ≡ ok (tt, s'))
    × ((k : DbKey)
        → HashMap.contains k s' ≡ (
            if among ord_bytes keys sealed k.keyname (codes "ckey" ∷ [])
              && contains_key keys k sealed.records
            then false
            else HashMap.contains k (secret_key ∷ [])))
mark_records_parsed-exact_example =
    mark_records_parsed-exact ord_bytes keys sealed (codes "ckey" ∷ []) (secret_key ∷ [])
      sealed-IsIndexed

parse_keys-skip_example :
    (s' : List DbKey) × (parse_keys lib ord_bytes keys sealed skip none (secret_key ∷ meta ∷ [])
      ≡ ok ([], s'))
    × ((k : DbKey)
        → HashMap.contains k s' ≡ (
            if among ord_bytes keys sealed k.keyname (codes "ckey" ∷ codes "keymeta" ∷ [])
              && contains_key keys k sealed.records
            then false
            else HashMap.contains k (secret_key ∷ meta ∷ [])))
unfolding has_keys_for_keyname contains_key lt_bytes
parse_keys-skip_example =
    parse_keys-skip ord_bytes keys sealed lib (secret_key ∷ meta ∷ []) sealed-IsIndexed refl refl

abbrev pub seeds : SeedLibrary (Unit {0}) (Unit {0}) (Unit {0})
seeds = record {
  encode_seed_fingerprint = λ b. b;
  legacy_seed = λ b. some tt;
  from_u32 = λ n. ok tt;
  new_mnemonic = λ b l. tt;
}

parse_hdseed-plain_example :
    parse_hdseed seeds lib ord_bytes keys sample reject none [] ≢ ok (some tt, [])
unfolding has_value_for_keyname contains_key lt_bytes lt_key
parse_hdseed-plain_example =
    parse_hdseed-plain seeds lib ord_bytes keys sample reject none [] [] (some tt) sample-IsIndexed
      refl

abbrev cipher_key : Bytes
cipher_key = replicate 32 9

derive_master_key-decrypt_example :
    (mk : Bytes) × (some cipher_key ≡ some mk) × Accepted lib ord_bytes keys sealed (5 ∷ []) mk
unfolding derive_master_key try_records candidate accept master_key_verifies first_verifies
    scalar_matches master_key_params derived_pubkey_matches sha256d decrypt_master_key
    aes256_cbc_decrypt bytes_to_key_sha512 rehash decrypt_secret has_keys_for_keyname
    records_for_keyname collect_records value_for_key contains_key get insert lt_bytes lt_key
    mark_keys_parsed mark_key_parsed HashMap.remove_item bytes_eq data_bytes compact_size
    parse_compact_size next u8 u32 from_le_bytes parse_buf check_finished pub_key
derive_master_key-decrypt_example =
    derive_master_key-decrypt lib ord_bytes keys sealed (5 ∷ []) (master ∷ []) [] (some cipher_key)
      refl refl

abbrev pair : KeyPair
pair =
    from_decrypted_scalar lib.sha256 pubkey (replicate 32 7)
      (record { version = pos 1; create_time = none; hd_keypath = none; seed_fp = none })

parse_encrypted_keys-IsRecovered_example : All (IsRecovered lib) ((pubkey, pair) ∷ [])
unfolding parse_encrypted_keys encrypted_key_round recovered for_records derived_pubkey_matches
    sha256d aes256_cbc_decrypt decrypt_secret records_for_keyname collect_records value_for_key get
    insert lt_bytes lt_key mark_key_parsed HashMap.remove_item HashMap.insert bytes_eq data_bytes
    compact_size parse_compact_size next u8 u64 i32 from_le_bytes parse_buf check_finished pub_key
    key_metadata has_hd_data hd_data is_blank all_zero seconds_since_epoch to_signed
parse_encrypted_keys-IsRecovered_example =
    parse_encrypted_keys-IsRecovered lib ord_bytes keys sealed cipher_key [] []
      ((pubkey, pair) ∷ []) refl

parse_cscripts_complete_example :
    ((records : List (DbKey × DbValue)) × (records_for_keyname ord_bytes keys sample
          (codes "cscript")
        ≡ ok records)
      × All
          (IsHeld "cscript ScriptID" "cscript redeem script" script_id script duplicate_script_id
            ((replicate 20 1, 0x51 ∷ []) ∷ []))
          records)
    × ((k : DbKey)
        → k.keyname ≡ codes "cscript"
        → contains_key keys k sample.records ≡ true
        → HashMap.contains k [] ≡ false)
unfolding parse_cscripts unique_entry for_records has_keys_for_keyname contains_key
    records_for_keyname collect_records value_for_key get insert lt_bytes lt_key mark_key_parsed
    HashMap.remove_item HashMap.insert HashMap.contains_key bytes_eq data_bytes compact_size
    parse_compact_size next u8 parse_buf check_finished script script_id u160 byte_array
    parse_fixed_length_array parse_fixed_length_vec with_capacity parse_items
parse_cscripts_complete_example =
    parse_cscripts_complete ord_bytes keys sample (script_key ∷ []) []
      ((replicate 20 1, 0x51 ∷ []) ∷ []) sample-IsIndexed refl refl
