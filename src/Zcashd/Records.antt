-- ===== src/Zcashd/Records.antt =====
-- src/zcashd_parser.rs: the records that are not encrypted.
pub mod Single
pub mod Laws
pub mod Sorting
pub mod WatchScripts
use zewif_zcashd.Base.{
  ℕ, ℤ, String, Bool, true, false, not, List, [], ◌∷◌, ◌++◌, Option, none, some, Result, ok, err,
  pure, raise, lift, ◌>>=◌, ◌>>◌, if◌then◌else◌, ◌==◌, length, bind, map_err, panic,
}
use zewif_zcashd.Base.Bytes.{codes, eq_bytes}
use zewif_zcashd.Base.HashMap.{Eq, contains_key, insert}
use zewif_zcashd.Base.BTreeMap.{Ord}
use zewif_zcashd.Wire.Error.{ParseError, with_frame, text, for_keyname, push_frame}
use zewif_zcashd.Wire.Parser.{Bytes, P, parse_buf, new}
use zewif_zcashd.Wire.Ints.{i64}
use zewif_zcashd.Wire.Collections.{string, data_bytes}
use zewif_zcashd.Wallet.Words.{u252, u256}
use zewif_zcashd.Wallet.Meta.{
  ClientVersion, client_version, BlockLocator, block_locator, KeyMetadata, key_metadata,
  MnemonicHdChain, mnemonic_hd_chain, NetworkInfo, network_info, seconds_since_epoch,
}
use zewif_zcashd.Wallet.Addresses.{
  sapling_ivk, script, SaplingZPaymentAddress, sapling_z_payment_address,
}
use zewif_zcashd.Wallet.Transparent.{
  pub_key, priv_key, PrivKey, KeyPoolEntry, key_pool_entry, WalletKey, script_id,
}
use zewif_zcashd.Wallet.Transparent.WatchScript.{WatchScript, watch_script}
use zewif_zcashd.Dump.{DbKey, DbValue, ZcashdDump, value_for_key, has_value_for_keyname}
use zewif_zcashd.Zcashd.State.{
  Error, Z, parse_in, of_parse, of_dump, mark_key_parsed, mark_records_parsed, for_records,
  has_keys, records_of, marked_value, EncryptedKeyPolicy, skip_encrypted, mismatched_key_metadata,
  inconsistent_key_encryption, encrypted_sprout_unsupported, duplicate_address_name,
  duplicate_address_purpose, duplicate_sapling_address, duplicate_script_id,
}

-- One round of the loops that refuse a second record of the same decoded key: `parse_address_names`,
-- `parse_address_purposes`, `parse_sapling_z_addresses` and `parse_cscripts`.
module _ {K V : Type 0} ⦃e : Eq K⦄ where
  abbrev pub insert_unique : (K → Error) → K → V → List (K × V) → Z (List (K × V))
  insert_unique duplicate k v m =
      if contains_key k m then raise (duplicate k) else pure (insert k v m)

  unfoldable pub unique_entry :
      String → P K → String → P V → (K → Error) → List (K × V) → DbKey → DbValue → Z (List (K × V))
  unique_entry key_context parse_key value_context parse_value duplicate m key value = do
    k ← parse_in key_context parse_key key.key_data
    v ← parse_in value_context parse_value value
    m' ← insert_unique duplicate k v m
    mark_key_parsed key
    pure m'

-- A parser run over a value, from its start, which does not have to read it all.
abbrev parse_start {ℓ} : {A : Type ℓ} → P A → Bytes → Z A
parse_start parse buf = of_parse (bind (parse (new buf)) (λ (a, s). ok a))

unfoldable pub key_pool_round :
    List (ℤ × KeyPoolEntry) → DbKey → DbValue → ⦃e : Eq ℤ⦄ → Z (List (ℤ × KeyPoolEntry))
key_pool_round m key value = do
  index ← parse_in "key pool index" i64 key.key_data
  entry ← parse_in "key pool entry" key_pool_entry value
  mark_key_parsed key
  pure (insert index entry m)

-- The four fields of a `wkey` value.
unfoldable pub wallet_key : Bytes → P WalletKey
wallet_key pubkey = do
  privkey ← with_frame (text "privkey") priv_key
  time_created ← with_frame (text "time_created") seconds_since_epoch
  time_expires ← with_frame (text "time_expires") seconds_since_epoch
  comment ← with_frame (text "comment") string
  pure (record {
    pubkey = pubkey;
    privkey = privkey;
    time_created = time_created;
    time_expires = time_expires;
    comment = comment;
  })

unfoldable pub wallet_key_round :
    List (Bytes × WalletKey) → DbKey → DbValue → Z (List (Bytes × WalletKey))
unfolding wallet_key
wallet_key_round m key value = do
  pubkey ← parse_in "pubkey" pub_key key.key_data
  entry ← parse_start (wallet_key pubkey) value
  mark_key_parsed key
  pure (insert pubkey entry m)

unfoldable pub watch_script_round : List WatchScript → DbKey → DbValue → Z (List WatchScript)
watch_script_round scripts key value = do
  script ← parse_in "watch-only script" watch_script key.key_data
  mark_key_parsed key
  pure (scripts ++ (script ∷ []))

-- `sort_by(|(a, _), (b, _)| a.data.cmp(&b.data))`, a stable sort.
module _ (datas : Ord Bytes) where
  abbrev pub place : DbKey × DbValue → List (DbKey × DbValue) → List (DbKey × DbValue)
  place r [] = r ∷ []
  place r (x ∷ xs) =
      let rest = place r xs in
      if datas.lt (x.0).key_data (r.0).key_data then x ∷ rest else r ∷ x ∷ xs

  unfoldable pub sort_by_data : List (DbKey × DbValue) → List (DbKey × DbValue)
  sort_by_data [] = []
  sort_by_data (r ∷ records) = place r (sort_by_data records)

module _ (names : Ord Bytes) (keys : Ord DbKey) (d : ZcashdDump) where
  -- An `Address` is its text.
  unfoldable pub parse_address_names : Z (List (Bytes × Bytes))
  unfolding unique_entry for_records
  parse_address_names = do
    records ← records_of names keys d (codes "name")
    for_records (unique_entry "address" string "name" string duplicate_address_name) records []

  unfoldable pub parse_address_purposes : Z (List (Bytes × Bytes))
  unfolding unique_entry for_records
  parse_address_purposes = do
    records ← records_of names keys d (codes "purpose")
    for_records (unique_entry "address" string "purpose" string duplicate_address_purpose) records
        []

  -- A `SaplingIncomingViewingKey` is its bytes.
  unfoldable pub parse_sapling_z_addresses :
      ⦃e : Eq SaplingZPaymentAddress⦄ → Z (List (SaplingZPaymentAddress × Bytes))
  unfolding unique_entry for_records
  parse_sapling_z_addresses =
      if not (has_keys names keys d (codes "sapzaddr")) then pure [] else (do
        records ← records_of names keys d (codes "sapzaddr")
        for_records
            (unique_entry "payment address" sapling_z_payment_address "viewing key" sapling_ivk
              duplicate_sapling_address)
            records [])

  unfoldable pub parse_cscripts : Z (List (Bytes × Bytes))
  unfolding unique_entry for_records
  parse_cscripts = if not (has_keys names keys d (codes "cscript")) then pure [] else (do
    records ← records_of names keys d (codes "cscript")
    for_records
        (unique_entry "cscript ScriptID" script_id "cscript redeem script" script
          duplicate_script_id)
        records [])

  unfoldable pub parse_key_pool : ⦃e : Eq ℤ⦄ → Z (List (ℤ × KeyPoolEntry))
  unfolding key_pool_round for_records
  parse_key_pool = do
    records ← records_of names keys d (codes "pool")
    for_records (λ m key value. key_pool_round m key value) records []

  -- `datas` is the order of `Data`.
  unfoldable pub parse_watch_scripts : (datas : Ord Bytes) → Z (List WatchScript)
  unfolding watch_script_round for_records sort_by_data
  parse_watch_scripts datas = if not (has_keys names keys d (codes "watchs")) then pure [] else (do
    records ← records_of names keys d (codes "watchs")
    for_records watch_script_round (sort_by_data datas records) [])

  unfoldable pub parse_wallet_keys : Z (Option (List (Bytes × WalletKey)))
  unfolding wallet_key_round for_records
  parse_wallet_keys = if not (has_keys names keys d (codes "wkey")) then pure none else (do
    records ← records_of names keys d (codes "wkey")
    if length records == 0
        then pure none
        else (do m ← for_records wallet_key_round records []; pure (some m)))
