-- ===== src/Zcashd/Seeds.antt =====
-- src/zcashd_parser.rs: the legacy seed and the mnemonic phrase.
pub mod Laws
use zewif_zcashd.Base.{
  ℕ, lift, Bool, not, List, [], ◌∷◌, Option, none, some, Result, ok, err, pure, raise, ◌>>=◌, ◌>>◌,
  if◌then◌else◌, ◌==◌, length,
}
use zewif_zcashd.Base.Bytes.{codes}
use zewif_zcashd.Base.BTreeMap.{Ord}
use zewif_zcashd.Wire.Parser.{Bytes, P}
use zewif_zcashd.Wire.Error.{ParseError, with_frame, text}
use zewif_zcashd.Wire.Ints.{u32}
use zewif_zcashd.Wire.Collections.{data_bytes, string}
use zewif_zcashd.Wallet.Addresses.{seed_fingerprint}
use zewif_zcashd.Wallet.Crypto.{decrypt_secret}
use zewif_zcashd.Dump.{DbKey, DbValue, ZcashdDump, has_value_for_keyname, record_for_keyname}
use zewif_zcashd.Zcashd.State.{
  Z, parse_in, of_dump, of_decryption, mark_key_parsed, skip_or_reject_encrypted, has_keys,
  EncryptedKeyPolicy, invalid_legacy_seed_length,
}
use zewif_zcashd.Zcashd.Keys.{Libraries}

-- `LegacySeed::from_vec`, `MnemonicLanguage::from_u32` and `Bip39Mnemonic::new` are of another crate, as
-- is Bech32m.
pub record SeedLibrary (LegacySeed MnemonicLanguage Bip39Mnemonic : Type 0) : Type 0 where
  pub encode_seed_fingerprint : Bytes → Bytes
  pub legacy_seed : Bytes → Option LegacySeed
  pub from_u32 : ℕ → Result ParseError MnemonicLanguage
  pub new_mnemonic : Bytes → Option MnemonicLanguage → Bip39Mnemonic

-- The parsers of src/zcashd_wallet/parseable_types.rs on these types.
module _ {LegacySeed MnemonicLanguage Bip39Mnemonic : Type 0}
    (seeds : SeedLibrary LegacySeed MnemonicLanguage Bip39Mnemonic) where
  unfoldable pub mnemonic_language : P MnemonicLanguage
  mnemonic_language = do value ← with_frame (text "language value") u32; lift (seeds.from_u32 value)

  unfoldable pub bip39_mnemonic : P Bip39Mnemonic
  unfolding mnemonic_language
  bip39_mnemonic = do
    language ← with_frame (text "language") mnemonic_language
    mnemonic ← with_frame (text "mnemonic") string
    pure (seeds.new_mnemonic mnemonic (some language))

module _ {LegacySeed MnemonicLanguage Bip39Mnemonic : Type 0}
    (seeds : SeedLibrary LegacySeed MnemonicLanguage Bip39Mnemonic) (lib : Libraries)
    (names : Ord Bytes) (keys : Ord DbKey) (d : ZcashdDump) (policy : EncryptedKeyPolicy) where
  abbrev pub fingerprint : Bytes → Z Bytes
  fingerprint buf = parse_in "seed fingerprint" (seed_fingerprint seeds.encode_seed_fingerprint) buf

  abbrev pub legacy_seed_of : Bytes → Z (Option LegacySeed)
  legacy_seed_of bytes = elim (seeds.legacy_seed bytes) [
    | none ↦ raise invalid_legacy_seed_length
    | some seed ↦ pure (some seed)
  ]

  unfoldable pub plain_hdseed : Z (Option LegacySeed)
  plain_hdseed = do
    (key, value) ← of_dump (record_for_keyname names keys d (codes "hdseed"))
    unused ← fingerprint key.key_data
    seed_data ← parse_in "legacy seed data" data_bytes value
    mark_key_parsed key
    legacy_seed_of seed_data

  unfoldable pub encrypted_hdseed : Option Bytes → Z (Option LegacySeed)
  unfolding skip_or_reject_encrypted
  encrypted_hdseed none = do
    skip_or_reject_encrypted names keys d policy (codes "chdseed" ∷ [])
    pure none
  encrypted_hdseed (some master_key) = do
    (key, value) ← of_dump (record_for_keyname names keys d (codes "chdseed"))
    unused ← fingerprint key.key_data
    ciphertext ← parse_in "chdseed ciphertext" data_bytes value
    seed_bytes ←
        of_decryption (decrypt_secret lib.decrypt_padded master_key ciphertext key.key_data)
    mark_key_parsed key
    legacy_seed_of seed_bytes

  unfoldable pub parse_hdseed : Option Bytes → Z (Option LegacySeed)
  unfolding plain_hdseed encrypted_hdseed
  parse_hdseed master_key =
      if has_value_for_keyname names keys d (codes "hdseed")
      then plain_hdseed
      else if has_keys names keys d (codes "chdseed")
      then encrypted_hdseed master_key
      else pure none

  unfoldable pub plain_mnemonic : Z (Option Bip39Mnemonic)
  unfolding bip39_mnemonic
  plain_mnemonic = do
    (key, value) ← of_dump (record_for_keyname names keys d (codes "mnemonicphrase"))
    unused ← fingerprint key.key_data
    mnemonic ← parse_in "mnemonic phrase" (bip39_mnemonic seeds) value
    mark_key_parsed key
    pure (some mnemonic)

  unfoldable pub encrypted_mnemonic : Option Bytes → Z (Option Bip39Mnemonic)
  unfolding skip_or_reject_encrypted bip39_mnemonic
  encrypted_mnemonic none = do
    skip_or_reject_encrypted names keys d policy (codes "cmnemonicphrase" ∷ [])
    pure none
  encrypted_mnemonic (some master_key) = do
    (key, value) ← of_dump (record_for_keyname names keys d (codes "cmnemonicphrase"))
    unused ← fingerprint key.key_data
    ciphertext ← parse_in "cmnemonicphrase ciphertext" data_bytes value
    plaintext ← of_decryption (decrypt_secret lib.decrypt_padded master_key ciphertext key.key_data)
    mnemonic ← parse_in "mnemonic phrase" (bip39_mnemonic seeds) plaintext
    mark_key_parsed key
    pure (some mnemonic)

  unfoldable pub parse_mnemonic_phrase : Option Bytes → Z (Option Bip39Mnemonic)
  unfolding plain_mnemonic encrypted_mnemonic
  parse_mnemonic_phrase master_key =
      if has_keys names keys d (codes "mnemonicphrase")
      then plain_mnemonic
      else if has_keys names keys d (codes "cmnemonicphrase")
      then encrypted_mnemonic master_key
      else pure none
