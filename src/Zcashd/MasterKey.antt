-- ===== src/Zcashd/MasterKey.antt =====
-- src/zcashd_parser.rs: the master key of an encrypted wallet.
pub mod Laws
use zewif_zcashd.Base.{
  ℕ, Bool, true, false, not, List, [], ◌∷◌, Option, none, some, Result, ok, err, panic, pure, raise,
  abort, ◌>>=◌, ◌>>◌, if◌then◌else◌, ◌==◌, length, bind,
}
use zewif_zcashd.Base.Bytes.{codes}
use zewif_zcashd.Base.BTreeMap.{Ord}
use zewif_zcashd.Wire.Error.{with_frame, text}
use zewif_zcashd.Wire.Parser.{Bytes, P, new}
use zewif_zcashd.Wire.Ints.{u32}
use zewif_zcashd.Wire.Collections.{data_bytes}
use zewif_zcashd.Wallet.Transparent.{pub_key}
use zewif_zcashd.Wallet.Crypto.{
  DecryptionError, MasterKeyParams, decrypt_secret, decrypt_master_key,
  unsupported_derivation_method,
}
use zewif_zcashd.Dump.{DbKey, DbValue, ZcashdDump}
use zewif_zcashd.Zcashd.State.{
  Z, parse_in, of_parse, mark_keys_parsed, has_keys, records_of, EncryptedKeyPolicy, reject,
  decrypt_with, skip, encrypted_wallet_requires_passphrase, wrong_wallet_passphrase, decryption,
}
use zewif_zcashd.Zcashd.Keys.{Libraries, sha256d, derived_pubkey_matches}

-- The fields of an `mkey` value that are read; what follows them is not.
unfoldable pub master_key_params : P MasterKeyParams
master_key_params = do
  encrypted_key ← with_frame (text "mkey vchCryptedKey") data_bytes
  salt ← with_frame (text "mkey vchSalt") data_bytes
  derivation_method ← with_frame (text "mkey nDerivationMethod") u32
  derive_iterations ← with_frame (text "mkey nDeriveIterations") u32
  pure (record {
    encrypted_key = encrypted_key;
    salt = salt;
    derivation_method = derivation_method;
    derive_iterations = derive_iterations;
  })

module _ (lib : Libraries) (names : Ord Bytes) (keys : Ord DbKey) (d : ZcashdDump) where
  -- Whether the scalar that comes out derives the public key.
  unfoldable pub scalar_matches : (pubkey : Bytes) → Result DecryptionError Bytes → Z Bool
  unfolding derived_pubkey_matches
  scalar_matches pubkey (ok scalar) =
      pure (if length scalar == 32 then derived_pubkey_matches lib scalar pubkey else false)
  scalar_matches pubkey (err e) = pure false
  scalar_matches pubkey panic = abort

  -- The check of the first record.
  unfoldable pub first_verifies : (master_key : Bytes) → List (DbKey × DbValue) → Z Bool
  unfolding scalar_matches sha256d
  first_verifies master_key [] = pure true
  first_verifies master_key ((key, value) ∷ records) = do
    pubkey ← parse_in "pubkey" pub_key key.key_data
    ciphertext ← parse_in "ckey ciphertext" data_bytes value
    scalar_matches pubkey
        (decrypt_secret lib.decrypt_padded master_key ciphertext (sha256d lib pubkey))

  unfoldable pub master_key_verifies : (master_key : Bytes) → Z Bool
  unfolding first_verifies
  master_key_verifies master_key =
      if not (has_keys names keys d (codes "ckey"))
      then pure true
      else (do records ← records_of names keys d (codes "ckey"); first_verifies master_key records)

  -- One candidate: its key where it decrypts and verifies, and `none` to try the next.
  unfoldable pub candidate : Result DecryptionError Bytes → Z (Option Bytes)
  unfolding master_key_verifies
  candidate (ok master_key) = do
    verified ← master_key_verifies master_key
    pure (if verified then some master_key else none)
  candidate (err (unsupported_derivation_method m)) =
      raise (decryption (unsupported_derivation_method m))
  candidate (err e) = pure none
  candidate panic = abort

  -- A found key is returned, and otherwise the loop goes on.
  unfoldable pub accept :
      List (DbKey × DbValue) → Option Bytes → Z (Option Bytes) → Z (Option Bytes)
  unfolding mark_keys_parsed
  accept all none next = next
  accept all (some master_key) next = do mark_keys_parsed all; pure (some master_key)

  -- `all` are the records, of which the loop has the rest left.
  unfoldable pub try_records :
      (passphrase : Bytes) → (all rest : List (DbKey × DbValue)) → Z (Option Bytes)
  unfolding master_key_params candidate accept
  try_records passphrase all [] = raise wrong_wallet_passphrase
  try_records passphrase all ((key, value) ∷ rest) = do
    params ← of_parse (bind (master_key_params (new value)) (λ (p, s). ok p))
    found ← candidate (decrypt_master_key lib.decrypt_padded lib.sha512 params passphrase)
    accept all found (try_records passphrase all rest)

  unfoldable pub derive_master_key : EncryptedKeyPolicy → Z (Option Bytes)
  unfolding try_records mark_keys_parsed
  derive_master_key policy =
      if not (has_keys names keys d (codes "mkey")) then pure none else elim policy [
        | reject ↦ raise encrypted_wallet_requires_passphrase
        | skip ↦ (do
          records ← records_of names keys d (codes "mkey")
          mark_keys_parsed records
          pure none)
        | decrypt_with passphrase ↦ (do
          records ← records_of names keys d (codes "mkey")
          try_records passphrase records records)
      ]
