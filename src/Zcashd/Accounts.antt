-- ===== src/Zcashd/Accounts.antt =====
-- src/zcashd_parser.rs: the unified accounts and the recipients of sent outputs.
-- src/zcashd_wallet/unified_accounts.rs and recipient_mapping.rs.
use zewif_zcashd.Base.{
  ℕ, Bool, not, List, [], ◌∷◌, ◌++◌, Result, ok, pure, raise, lift, ◌>>=◌, ◌>>◌, if◌then◌else◌,
  ◌==◌, bind,
}
use zewif_zcashd.Base.Bytes.{codes, eq_bytes}
use zewif_zcashd.Base.HashMap.{insert, get}
use zewif_zcashd.Base.BTreeMap.{Ord}
use zewif_zcashd.Wire.Error.{ParseError, with_frame, text}
use zewif_zcashd.Wire.Parser.{Bytes, P, new, check_finished}
use zewif_zcashd.Wire.Ints.{u32}
use zewif_zcashd.Wire.Collections.{string}
use zewif_zcashd.Wallet.Addresses.{
  UnifiedAddressMetadata, unified_address_metadata, UnifiedAccountMetadata,
  unified_account_metadata, ufvk_fingerprint, RecipientAddress, recipient_address,
}
use zewif_zcashd.Wallet.Equality.{eq_receiver}
use zewif_zcashd.Dump.{DbKey, DbValue, ZcashdDump, or_default}
use zewif_zcashd.Zcashd.State.{
  Z, parse_in, of_parse, mark_key_parsed, for_records, has_keys, records_of,
  unexpected_unified_address_metadata_value, unexpected_unified_account_metadata_value,
}

-- Other crates: Bech32m, the decoding of a unified viewing key's text, and whether the standard
-- library's hash table of a given capacity can be allocated.
pub record AccountLibrary (Ufvk : Type 0) : Type 0 where
  pub encode_seed_fingerprint : Bytes → Bytes
  pub decode_ufvk : Bytes → Result ParseError Ufvk
  pub fits : ℕ → Bool

pub record UnifiedAccounts (Ufvk : Type 0) : Type 0 where
  pub address_metadata : List UnifiedAddressMetadata
  pub full_viewing_keys : List (Bytes × Ufvk)
  pub account_metadata : List (Bytes × UnifiedAccountMetadata)

-- `UnifiedAccounts::none`
abbrev pub no_accounts : {Ufvk : Type 0} → UnifiedAccounts Ufvk
no_accounts = record { address_metadata = []; full_viewing_keys = []; account_metadata = [] }

-- A unified address is its text.
pub record RecipientMapping : Type 0 where
  pub recipient_address : RecipientAddress
  pub unified_address : Bytes

module _ {Ufvk : Type 0} (accounts : AccountLibrary Ufvk) where
  unfoldable pub unified_full_viewing_key : P Ufvk
  unified_full_viewing_key = do
    ufvk_str ← with_frame (text "ufvk string") string
    lift (accounts.decode_ufvk ufvk_str)

  unfoldable pub address_metadata_round :
      List UnifiedAddressMetadata → DbKey → DbValue → Z (List UnifiedAddressMetadata)
  address_metadata_round l key value = do
    metadata ←
        parse_in "UnifiedAddressMetadata key" (unified_address_metadata accounts.fits) key.key_data
    v ← parse_in "UnifiedAddressMetadata value" u32 value
    if not (v == 0)
        then raise (unexpected_unified_address_metadata_value v)
        else (do mark_key_parsed key; pure (l ++ (metadata ∷ [])))

  unfoldable pub account_metadata_round :
      List (Bytes × UnifiedAccountMetadata)
      → DbKey
      → DbValue
      → Z (List (Bytes × UnifiedAccountMetadata))
  account_metadata_round m key value = do
    metadata ←
        parse_in "UnifiedAccountMetadata key"
          (unified_account_metadata accounts.encode_seed_fingerprint) key.key_data
    v ← parse_in "UnifiedAccountMetadata value" u32 value
    if not (v == 0)
        then raise (unexpected_unified_account_metadata_value v)
        else (do mark_key_parsed key; pure (insert metadata.ufvk_fingerprint metadata m))

  unfoldable pub full_viewing_key_round :
      List (Bytes × Ufvk) → DbKey → DbValue → Z (List (Bytes × Ufvk))
  unfolding unified_full_viewing_key
  full_viewing_key_round m key value = do
    key_id ← parse_in "UnifiedFullViewingKey key" ufvk_fingerprint key.key_data
    fvk ← parse_in "UnifiedFullViewingKey value" unified_full_viewing_key value
    mark_key_parsed key
    pure (insert key_id fvk m)

  unfoldable pub parse_unified_accounts :
      (names : Ord Bytes) (keys : Ord DbKey) (d : ZcashdDump) → Z (UnifiedAccounts Ufvk)
  unfolding address_metadata_round account_metadata_round full_viewing_key_round for_records
  parse_unified_accounts names keys d =
      if not (has_keys names keys d (codes "unifiedaddrmeta")) then pure no_accounts else (do
        address_records ← records_of names keys d (codes "unifiedaddrmeta")
        address_metadata ← for_records address_metadata_round address_records []
        account_records ← records_of names keys d (codes "unifiedaccount")
        account_metadata ← for_records account_metadata_round account_records []
        key_records ← records_of names keys d (codes "unifiedfvk")
        full_viewing_keys ← for_records full_viewing_key_round key_records []
        pure (record {
          address_metadata = address_metadata;
          full_viewing_keys = full_viewing_keys;
          account_metadata = account_metadata;
        }))

-- `TxId::read` is of another crate.
module _ (read_txid : P Bytes) where
  -- The key of a `recipientmapping` record.
  unfoldable pub recipient_key : P (Bytes × RecipientAddress)
  recipient_key = do
    txid ← with_frame (text "txid") read_txid
    recipient ← with_frame (text "recipient_address") recipient_address
    check_finished
    pure (txid, recipient)

  unfoldable pub send_recipient_round :
      List (Bytes × List RecipientMapping)
      → DbKey
      → DbValue
      → Z (List (Bytes × List RecipientMapping))
  unfolding recipient_key
  send_recipient_round m key value = do
    (txid, recipient) ← of_parse (bind (recipient_key (new key.key_data)) (λ (a, s). ok a))
    unified_address ← parse_in "unified_address" string value
    mark_key_parsed key
    pure (
        insert txid
          (or_default (get txid m)
            ++ (record { recipient_address = recipient; unified_address = unified_address } ∷ []))
          m)

  unfoldable pub parse_send_recipients :
      (names : Ord Bytes) (keys : Ord DbKey) (d : ZcashdDump)
      → Z (List (Bytes × List RecipientMapping))
  unfolding send_recipient_round for_records
  parse_send_recipients names keys d =
      if not (has_keys names keys d (codes "recipientmapping")) then pure [] else (do
        records ← records_of names keys d (codes "recipientmapping")
        for_records send_recipient_round records [])
