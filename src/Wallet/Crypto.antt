-- ===== src/Wallet/Crypto.antt =====
-- src/zcashd_wallet/crypto.rs: the decryption of `zcashd` key material. SHA-512 and AES-256-CBC with
-- its PKCS#7 padding are of other crates, and parameters.
pub mod Laws
use zewif_zcashd.Base.{
  ℕ, zero, suc, ◌+◌, ◌-◌, ◌*◌, ◌%◌, String, Bool, ◌||◌, not, List, [], ◌∷◌, ◌++◌, Option, none,
  some, Result, ok, err, bind, if◌then◌else◌, ◌==◌, ltb, length, take, drop,
}
use zewif_zcashd.Wire.Parser.{Bytes}

abbrev pub key_size : ℕ
key_size = 32

abbrev pub iv_size : ℕ
iv_size = 16

abbrev pub salt_size : ℕ
salt_size = 8

pub data DecryptionError : Type 0 where
  unsupported_derivation_method : ℕ → DecryptionError
  invalid_master_key_params : String → DecryptionError
  short_initialization_vector : ℕ → DecryptionError
  decrypt : DecryptionError
  master_key_length : ℕ → DecryptionError

pub record MasterKeyParams : Type 0 where
  pub encrypted_key : Bytes
  pub salt : Bytes
  pub derivation_method : ℕ
  pub derive_iterations : ℕ

module _ (sha512 : Bytes → Bytes) where
  -- The loop over `0..count.saturating_sub(1)`.
  unfoldable pub rehash : ℕ → Bytes → Bytes
  rehash zero buf = buf
  rehash (suc n) buf = rehash n (sha512 buf)

  unfoldable pub bytes_to_key_sha512 : (salt passphrase : Bytes) → ℕ → Bytes × Bytes
  unfolding rehash
  bytes_to_key_sha512 salt passphrase count =
      let buf = rehash (count - 1) (sha512 (passphrase ++ salt)) in
      (take key_size buf, take iv_size (drop key_size buf))

-- `decrypt_padded key iv ciphertext` is the plaintext, or `none` for a bad padding.
module _ (decrypt_padded : (key iv ciphertext : Bytes) → Option Bytes) where
  unfoldable pub aes256_cbc_decrypt : (key iv ciphertext : Bytes) → Result DecryptionError Bytes
  aes256_cbc_decrypt key iv ciphertext =
      if length ciphertext == 0 || not (length ciphertext % iv_size == 0)
      then err decrypt
      else elim (decrypt_padded key iv ciphertext) [
        | none ↦ err decrypt
        | some plaintext ↦ ok plaintext
      ]

  unfoldable pub decrypt_secret :
      (master_key ciphertext iv_source : Bytes) → Result DecryptionError Bytes
  unfolding aes256_cbc_decrypt
  decrypt_secret master_key ciphertext iv_source =
      if ltb (length iv_source) iv_size
      then err (short_initialization_vector (length iv_source))
      else aes256_cbc_decrypt master_key (take iv_size iv_source) ciphertext

  unfoldable pub decrypt_master_key :
      (sha512 : Bytes → Bytes)
      → MasterKeyParams
      → (passphrase : Bytes) → Result DecryptionError Bytes
  unfolding aes256_cbc_decrypt bytes_to_key_sha512
  decrypt_master_key sha512 params passphrase =
      if not (params.derivation_method == 0)
      then err (unsupported_derivation_method params.derivation_method)
      else if ltb params.derive_iterations 1
      then err (invalid_master_key_params "iteration count must be at least 1")
      else if not (length params.salt == salt_size)
      then err (invalid_master_key_params "salt must be 8 bytes")
      else let (key, iv) =
          bytes_to_key_sha512 sha512 params.salt passphrase params.derive_iterations in
        bind (aes256_cbc_decrypt key iv params.encrypted_key) (λ plaintext.
          if not (length plaintext == key_size)
          then err (master_key_length (length plaintext))
          else ok plaintext)
