-- ===== src/Zcashd/Sapling.antt =====
-- src/zcashd_parser.rs: the Sapling spending keys, in the clear or encrypted, and the imported viewing
-- keys. src/zcashd_wallet/sapling/sapling_key.rs and sapling_keys.rs.
pub mod Laws
use zewif_zcashd.Base.{
  ℕ, Bool, true, false, not, ◌&&◌, List, [], ◌∷◌, Option, none, some, ok, pure, raise, abort, ◌>>=◌,
  ◌>>◌, if◌then◌else◌, ◌==◌, ltb, length, take, drop, bind,
}
use zewif_zcashd.Base.Bytes.{codes, bytes_eq, eq_bytes}
use zewif_zcashd.Base.HashMap.{insert, contains_key}
use zewif_zcashd.Base.BTreeMap.{Ord}
use zewif_zcashd.Wire.Error.{with_frame, text}
use zewif_zcashd.Wire.Parser.{Bytes, P, new}
use zewif_zcashd.Wire.Ints.{u8}
use zewif_zcashd.Wire.Collections.{data_bytes}
use zewif_zcashd.Wallet.Meta.{KeyMetadata}
use zewif_zcashd.Wallet.Addresses.{sapling_ivk}
use zewif_zcashd.Wallet.Crypto.{decrypt_secret}
use zewif_zcashd.Dump.{DbKey, DbValue, ZcashdDump, value_for_key}
use zewif_zcashd.Zcashd.State.{
  Z, parse_in, of_parse, of_dump, of_decryption, mark_key_parsed, skip_or_reject_encrypted,
  for_records, has_keys, records_of, EncryptedKeyPolicy, mismatched_key_metadata,
  inconsistent_key_encryption, corrupted_encrypted_key, unexpected_sap_ext_fvk_marker,
  duplicate_sapling_ext_fvk,
}
use zewif_zcashd.Zcashd.Keys.{Libraries, meta_key, mark_both}
use zewif_zcashd.Wallet.Meta.{key_metadata}

-- The Sapling keys and BLAKE2b of other crates. `extfvk_bytes` is the serialisation of a viewing key,
-- `external_ivk` the bytes of its incoming viewing key of external scope, and `blake2b` takes the
-- personalisation and the message.
pub record SaplingLibrary (ExtSk ExtFvk : Type 0) : Type 0 where
  pub read_extsk : P ExtSk
  pub read_extfvk : P ExtFvk
  pub to_extfvk : ExtSk → ExtFvk
  pub extfvk_bytes : ExtFvk → Bytes
  pub external_ivk : ExtFvk → Bytes
  pub blake2b : (personal message : Bytes) → Bytes

-- `SaplingKey::new` never fails.
pub record SaplingKey (ExtSk : Type 0) : Type 0 where
  pub ivk : Bytes
  pub extsk : ExtSk
  pub metadata : KeyMetadata

module _ {ExtSk ExtFvk : Type 0} (sapling : SaplingLibrary ExtSk ExtFvk) where
  -- A slice out of bounds panics.
  unfoldable pub sapling_fvk_fingerprint : ExtFvk → Z Bytes
  sapling_fvk_fingerprint extfvk =
      if ltb (length (sapling.extfvk_bytes extfvk)) 137
      then abort
      else pure (
          sapling.blake2b (codes "ZcashSaplingFVFP")
            (take 96 (drop 41 (sapling.extfvk_bytes extfvk))))

  -- The value of a `csapzkey` record, which does not have to be read to its end.
  unfoldable pub csapzkey_value : P (ExtFvk × Bytes)
  csapzkey_value = do
    extfvk ← with_frame (text "csapzkey extfvk") sapling.read_extfvk
    ciphertext ← with_frame (text "csapzkey ciphertext") data_bytes
    pure (extfvk, ciphertext)

  module _ (lib : Libraries) (names : Ord Bytes) (keys : Ord DbKey) (d : ZcashdDump) where
    abbrev pub sapling_metadata : DbKey → Z KeyMetadata
    sapling_metadata key = do
      metadata_binary ← of_dump (value_for_key names keys d (meta_key (codes "sapzkeymeta") key))
      parse_in "sapzkeymeta metadata" key_metadata metadata_binary

    abbrev pub keep_key :
        Bytes
        → ExtSk
        → KeyMetadata
        → DbKey
        → List (Bytes × SaplingKey ExtSk)
        → Z (List (Bytes × SaplingKey ExtSk))
    keep_key ivk extsk metadata key m = do
      mark_both lib names keys d (codes "sapzkeymeta") key
      pure (insert ivk (record { ivk = ivk; extsk = extsk; metadata = metadata }) m)

    unfoldable pub sapling_key_round :
        List (Bytes × SaplingKey ExtSk) → DbKey → DbValue → Z (List (Bytes × SaplingKey ExtSk))
    sapling_key_round m key value = do
      ivk ← parse_in "ivk" sapling_ivk key.key_data
      spending_key ← parse_in "spending_key" sapling.read_extsk value
      metadata ← sapling_metadata key
      keep_key ivk spending_key metadata key m

    unfoldable pub encrypted_sapling_round :
        (master_key : Bytes)
        → List (Bytes × SaplingKey ExtSk)
        → DbKey
        → DbValue
        → Z (List (Bytes × SaplingKey ExtSk))
    unfolding sapling_fvk_fingerprint csapzkey_value
    encrypted_sapling_round master_key m key value = do
      ivk ← parse_in "ivk" sapling_ivk key.key_data
      (extfvk, ciphertext) ← of_parse (bind (csapzkey_value (new value)) (λ (a, s). ok a))
      metadata ← sapling_metadata key
      iv ← sapling_fvk_fingerprint extfvk
      plaintext ← of_decryption (decrypt_secret lib.decrypt_padded master_key ciphertext iv)
      extsk ← parse_in "sapling extended spending key" sapling.read_extsk plaintext
      if not (
            bytes_eq (sapling.extfvk_bytes (sapling.to_extfvk extsk)) (sapling.extfvk_bytes extfvk))
          then raise (corrupted_encrypted_key (codes "csapzkey"))
          else keep_key ivk extsk metadata key m

    unfoldable pub parse_encrypted_sapling_keys :
        (master_key : Bytes) → Z (List (Bytes × SaplingKey ExtSk))
    unfolding encrypted_sapling_round for_records
    parse_encrypted_sapling_keys master_key = do
      records ← records_of names keys d (codes "csapzkey")
      for_records (encrypted_sapling_round master_key) records []

    unfoldable pub encrypted_sapling_keys :
        EncryptedKeyPolicy → Option Bytes → Z (List (Bytes × SaplingKey ExtSk))
    unfolding parse_encrypted_sapling_keys skip_or_reject_encrypted
    encrypted_sapling_keys policy (some master_key) = parse_encrypted_sapling_keys master_key
    encrypted_sapling_keys policy none = do
      skip_or_reject_encrypted names keys d policy (codes "csapzkey" ∷ codes "sapzkeymeta" ∷ [])
      pure []

    unfoldable pub plain_sapling_keys : Z (List (Bytes × SaplingKey ExtSk))
    unfolding sapling_key_round for_records
    plain_sapling_keys = do
      key_records ← records_of names keys d (codes "sapzkey")
      keymeta_records ← records_of names keys d (codes "sapzkeymeta")
      if not (length key_records == length keymeta_records)
          then raise (mismatched_key_metadata (codes "sapzkey") (codes "sapzkeymeta"))
          else for_records sapling_key_round key_records []

    unfoldable pub parse_sapling_keys :
        EncryptedKeyPolicy → Option Bytes → Z (List (Bytes × SaplingKey ExtSk))
    unfolding plain_sapling_keys encrypted_sapling_keys
    parse_sapling_keys policy master_key =
        if has_keys names keys d (codes "sapzkey") && has_keys names keys d (codes "csapzkey")
        then raise (inconsistent_key_encryption (codes "sapzkey"))
        else if not (has_keys names keys d (codes "sapzkey"))
        then (if has_keys names keys d (codes "csapzkey")
            then encrypted_sapling_keys policy master_key
            else pure [])
        else plain_sapling_keys

  unfoldable pub viewing_key_round :
      List (Bytes × ExtFvk) → DbKey → DbValue → Z (List (Bytes × ExtFvk))
  viewing_key_round m key value = do
    extfvk ← parse_in "sapextfvk extended full viewing key" sapling.read_extfvk key.key_data
    marker ← parse_in "sapextfvk marker byte" u8 value
    if not (marker == b'1')
        then raise (unexpected_sap_ext_fvk_marker marker)
        else if contains_key (sapling.external_ivk extfvk) m
        then raise (duplicate_sapling_ext_fvk (sapling.external_ivk extfvk))
        else (do mark_key_parsed key; pure (insert (sapling.external_ivk extfvk) extfvk m))

  unfoldable pub parse_sapling_extended_full_viewing_keys :
      (names : Ord Bytes) (keys : Ord DbKey) (d : ZcashdDump) → Z (List (Bytes × ExtFvk))
  unfolding viewing_key_round for_records
  parse_sapling_extended_full_viewing_keys names keys d =
      if not (has_keys names keys d (codes "sapextfvk")) then pure [] else (do
        records ← records_of names keys d (codes "sapextfvk")
        for_records viewing_key_round records [])
