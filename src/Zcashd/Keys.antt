-- ===== src/Zcashd/Keys.antt =====
-- src/zcashd_parser.rs: the transparent and the Sprout keys, in the clear or encrypted.
pub mod Laws
pub mod Sprout
use zewif_zcashd.Base.{
  ℕ, Bool, true, false, not, ◌&&◌, List, [], ◌∷◌, Option, none, some, Result, pure, raise, ◌>>=◌,
  ◌>>◌, if◌then◌else◌, ◌==◌, length,
}
use zewif_zcashd.Base.Bytes.{codes, bytes_eq, eq_bytes}
use zewif_zcashd.Base.HashMap.{Eq, insert}
use zewif_zcashd.Base.BTreeMap.{Ord}
use zewif_zcashd.Wire.Parser.{Bytes}
use zewif_zcashd.Wire.Collections.{data_bytes}
use zewif_zcashd.Wallet.Words.{u252}
use zewif_zcashd.Wallet.Meta.{KeyMetadata, key_metadata}
use zewif_zcashd.Wallet.Addresses.{SproutPaymentAddress, sprout_payment_address}
use zewif_zcashd.Wallet.Transparent.{
  pub_key, priv_key, is_compressed, KeyPair, key_pair, from_decrypted_scalar, hash256,
}
use zewif_zcashd.Wallet.Crypto.{decrypt_secret}
use zewif_zcashd.Dump.{DbKey, DbValue, ZcashdDump, value_for_key}
use zewif_zcashd.Zcashd.State.{
  Z, parse_in, of_parse, of_dump, of_decryption, mark_key_parsed, mark_records_parsed,
  skip_or_reject_encrypted, for_records, has_keys, records_of, EncryptedKeyPolicy, skip_encrypted,
  mismatched_key_metadata, inconsistent_key_encryption, corrupted_encrypted_key,
  wrong_wallet_passphrase, encrypted_sprout_unsupported,
}

-- Other crates: SHA-256, AES-256-CBC, and secp256k1's derivation of a public key from a scalar, in the
-- compressed form or not, which fails on what is no scalar.
pub record Libraries : Type 0 where
  pub sha256 : Bytes → Bytes
  pub sha512 : Bytes → Bytes
  pub decrypt_padded : (key iv ciphertext : Bytes) → Option Bytes
  pub public_key : (scalar : Bytes) → (compressed : Bool) → Option Bytes

unfoldable pub sha256d : Libraries → Bytes → Bytes
sha256d lib bytes = lib.sha256 (lib.sha256 bytes)

unfoldable pub derived_pubkey_matches : Libraries → (scalar pubkey : Bytes) → Bool
derived_pubkey_matches lib scalar pubkey = elim (lib.public_key scalar (is_compressed pubkey)) [
  | none ↦ false
  | some derived_bytes ↦ bytes_eq derived_bytes pubkey
]

pub record SproutSpendingKey : Type 0 where
  pub spending_key : Bytes
  pub metadata : KeyMetadata

abbrev pub meta_key : Bytes → DbKey → DbKey
meta_key keyname key = record { keyname = keyname; key_data = key.key_data }

module _ (lib : Libraries) (names : Ord Bytes) (keys : Ord DbKey) (d : ZcashdDump) where
  abbrev pub metadata_of : Bytes → DbKey → Z KeyMetadata
  metadata_of keyname key = do
    metadata_binary ← of_dump (value_for_key names keys d (meta_key keyname key))
    parse_in "metadata" key_metadata metadata_binary

  abbrev pub mark_both : Bytes → DbKey → Z (Unit {0})
  mark_both keyname key = mark_key_parsed key >> mark_key_parsed (meta_key keyname key)

  unfoldable pub key_round : List (Bytes × KeyPair) → DbKey → DbValue → Z (List (Bytes × KeyPair))
  key_round m key value = do
    pubkey ← parse_in "pubkey" pub_key key.key_data
    privkey ← parse_in "privkey" priv_key value
    metadata ← metadata_of (codes "keymeta") key
    keypair ← of_parse (key_pair lib.sha256 pubkey privkey metadata)
    mark_both (codes "keymeta") key
    pure (insert pubkey keypair m)

  -- What is done with a decrypted scalar.
  unfoldable pub recovered :
      (pubkey scalar : Bytes)
      → KeyMetadata
      → DbKey
      → List (Bytes × KeyPair)
      → Z (List (Bytes × KeyPair))
  unfolding derived_pubkey_matches
  recovered pubkey scalar metadata key m =
      if not (length scalar == 32)
      then raise wrong_wallet_passphrase
      else if not (derived_pubkey_matches lib scalar pubkey)
      then raise (corrupted_encrypted_key (codes "ckey"))
      else (do
        mark_both (codes "keymeta") key
        pure (insert pubkey (from_decrypted_scalar lib.sha256 pubkey scalar metadata) m))

  unfoldable pub encrypted_key_round :
      (master_key : Bytes) → List (Bytes × KeyPair) → DbKey → DbValue → Z (List (Bytes × KeyPair))
  unfolding sha256d recovered
  encrypted_key_round master_key m key value = do
    pubkey ← parse_in "pubkey" pub_key key.key_data
    ciphertext ← parse_in "ckey ciphertext" data_bytes value
    metadata ← metadata_of (codes "keymeta") key
    scalar ←
        of_decryption (decrypt_secret lib.decrypt_padded master_key ciphertext (sha256d lib pubkey))
    recovered pubkey scalar metadata key m

  unfoldable pub parse_encrypted_keys : (master_key : Bytes) → Z (List (Bytes × KeyPair))
  unfolding encrypted_key_round for_records
  parse_encrypted_keys master_key = do
    records ← records_of names keys d (codes "ckey")
    for_records (encrypted_key_round master_key) records []

  -- With a master key the encrypted keys are parsed, without one they are skipped or refused.
  unfoldable pub encrypted_keys : EncryptedKeyPolicy → Option Bytes → Z (List (Bytes × KeyPair))
  unfolding parse_encrypted_keys skip_or_reject_encrypted
  encrypted_keys policy (some master_key) = parse_encrypted_keys master_key
  encrypted_keys policy none = do
    skip_or_reject_encrypted names keys d policy (codes "ckey" ∷ codes "keymeta" ∷ [])
    pure []

  unfoldable pub plain_keys : Z (List (Bytes × KeyPair))
  unfolding key_round for_records
  plain_keys = do
    key_records ← records_of names keys d (codes "key")
    keymeta_records ← records_of names keys d (codes "keymeta")
    if not (length key_records == length keymeta_records)
        then raise (mismatched_key_metadata (codes "key") (codes "keymeta"))
        else for_records key_round key_records []

  unfoldable pub parse_keys : EncryptedKeyPolicy → Option Bytes → Z (List (Bytes × KeyPair))
  unfolding encrypted_keys plain_keys
  parse_keys policy master_key =
      if has_keys names keys d (codes "key") && has_keys names keys d (codes "ckey")
      then raise (inconsistent_key_encryption (codes "key"))
      else if not (has_keys names keys d (codes "key")) && has_keys names keys d (codes "ckey")
      then encrypted_keys policy master_key
      else plain_keys

  module _ ⦃e : Eq SproutPaymentAddress⦄ where
    unfoldable pub sprout_key_round :
        List (SproutPaymentAddress × SproutSpendingKey)
        → DbKey
        → DbValue
        → Z (List (SproutPaymentAddress × SproutSpendingKey))
    sprout_key_round m key value = do
      payment_address ← parse_in "payment_address" sprout_payment_address key.key_data
      spending_key ← parse_in "spending_key" u252 value
      metadata ← metadata_of (codes "zkeymeta") key
      mark_both (codes "zkeymeta") key
      pure (insert payment_address (record { spending_key = spending_key; metadata = metadata }) m)

    unfoldable pub plain_sprout_keys : Z (Option (List (SproutPaymentAddress × SproutSpendingKey)))
    unfolding sprout_key_round for_records
    plain_sprout_keys = do
      zkey_records ← records_of names keys d (codes "zkey")
      zkeymeta_records ← records_of names keys d (codes "zkeymeta")
      if not (length zkey_records == length zkeymeta_records)
          then raise (mismatched_key_metadata (codes "zkey") (codes "zkeymeta"))
          else (do m ← for_records sprout_key_round zkey_records []; pure (some m))

    -- The `czkey` records are never decrypted.
    unfoldable pub encrypted_sprout_keys :
        EncryptedKeyPolicy → Z (Option (List (SproutPaymentAddress × SproutSpendingKey)))
    unfolding mark_records_parsed
    encrypted_sprout_keys policy =
        if skip_encrypted policy
        then (do
          mark_records_parsed names keys d (codes "czkey" ∷ codes "zkeymeta" ∷ [])
          pure none)
        else raise encrypted_sprout_unsupported

    unfoldable pub parse_sprout_keys :
        EncryptedKeyPolicy → Z (Option (List (SproutPaymentAddress × SproutSpendingKey)))
    unfolding plain_sprout_keys encrypted_sprout_keys
    parse_sprout_keys policy =
        if has_keys names keys d (codes "zkey") && has_keys names keys d (codes "czkey")
        then raise (inconsistent_key_encryption (codes "zkey"))
        else if has_keys names keys d (codes "zkey")
        then plain_sprout_keys
        else if has_keys names keys d (codes "czkey")
        then encrypted_sprout_keys policy
        else pure none
