-- ===== src/Tests/Wallet.antt =====
-- The wallet's records, run on small inputs.
use zewif_zcashd.Base.{
  true, ◌≡◌, refl, [], ◌∷◌, ◌++◌, ok, Option, none, some, length, take, drop, arith, ◌≤◌, replicate,
  pos,
}
use zewif_zcashd.Base.Bytes.{bytes_eq}
use zewif_zcashd.Wire.Parser.{Bytes}
use zewif_zcashd.Wire.Reads.{Reads}
use zewif_zcashd.Wire.Ints.{to_unsigned, to_le_bytes}
use zewif_zcashd.Wire.Utf8.{is_utf8}
use zewif_zcashd.Wallet.Meta.{key_metadata, has_hd_data, is_blank, all_zero}
use zewif_zcashd.Wallet.Meta.Chain.{IsInRange, chain_bytes, Reads-mnemonic_hd_chain}
use zewif_zcashd.Wallet.Meta.{MnemonicHdChain, mnemonic_hd_chain}
use zewif_zcashd.Wallet.Meta.Laws.{Reads-key_metadata_hd, hd_bytes}
use zewif_zcashd.Wallet.Crypto.{
  MasterKeyParams, bytes_to_key_sha512, decrypt_master_key, aes256_cbc_decrypt,
}
use zewif_zcashd.Wallet.Crypto.Laws.{iterate, bytes_to_key_sha512-iterate, decrypt_master_key-eq-ok}
use zewif_zcashd.Wallet.Addresses.{to_key_id, recipient_address}
use zewif_zcashd.Wallet.Addresses.Laws.{Reads-recipient_address, recipient_bytes}
use zewif_zcashd.Wallet.Transparent.WatchScript.{classify, p2pkh}
use zewif_zcashd.Wallet.Transparent.WatchScript.Inverse.{script_of, script_of-classify}
use zewif_zcashd.Wallet.Transparent.WatchScript.Standard.{classify-script_of}
use zewif_zcashd.Wallet.Transparent.Der.{secp256k1_scalar, body_length, body_scalar}
use zewif_zcashd.Wallet.Transparent.Der.Sec1.{
  secp256k1_scalar-sec1, sec1, short, LengthForm, body_prefix, Declares,
}
use zewif_zcashd.Wallet.Transparent.Der.Sound.{secp256k1_scalar-eq-ok}

-- A scalar of 32 bytes.
abbrev scalar : Bytes
scalar = replicate 32 7

abbrev reversed : Bytes → Bytes
reversed [] = []
reversed (b ∷ bs) = reversed bs ++ (b ∷ [])

-- A stand-in for the cipher: the ciphertext is padded to whole blocks of 16 with a last block.
abbrev unpad : (key iv ciphertext : Bytes) → Option Bytes
unpad key iv ciphertext = some (take 32 ciphertext)

abbrev master : Bytes
master = replicate 32 9

abbrev params : MasterKeyParams
params = record {
  encrypted_key = replicate 48 9;
  salt = replicate 8 1;
  derivation_method = 0;
  derive_iterations = 3;
}

Reads-key_metadata_hd_example :
    Reads key_metadata
      (to_le_bytes 4 (to_unsigned 32 (pos 10)) ++ (to_le_bytes 8 0 ++ hd_bytes (0x6d ∷ []) scalar))
      (record {
        version = pos 10;
        create_time = none;
        hd_keypath = some (0x6d ∷ []);
        seed_fp = some scalar;
      })
unfolding has_hd_data is_utf8 is_blank all_zero
Reads-key_metadata_hd_example =
    Reads-key_metadata_hd (pos 10) 0 (0x6d ∷ []) scalar (omega arith) refl (omega arith)
      (omega arith) refl refl

Reads-recipient_address_example :
    Reads recipient_address
      (recipient_bytes (to_key_id (replicate 20 3)))
      (to_key_id (replicate 20 3))
Reads-recipient_address_example = Reads-recipient_address (to_key_id (replicate 20 3)) refl

script_of-classify_example : script_of (classify (0x51 ∷ 0x87 ∷ [])) ≡ 0x51 ∷ 0x87 ∷ []
script_of-classify_example = script_of-classify (0x51 ∷ 0x87 ∷ [])

classify-script_of_example : classify (script_of (p2pkh (replicate 20 3))) ≡ p2pkh (replicate 20 3)
classify-script_of_example = classify-script_of (p2pkh (replicate 20 3)) refl

secp256k1_scalar-sec1_example : secp256k1_scalar (sec1 (short 37) scalar []) ≡ ok scalar
secp256k1_scalar-sec1_example =
    secp256k1_scalar-sec1 (short 37) scalar [] refl (refl, omega arith) (omega arith)

secp256k1_scalar-eq-ok_example :
    (form : LengthForm) × (tail : Bytes) × (sec1 (short 37) scalar [] ≡ sec1 form scalar tail)
    × (length scalar ≡ 32)
    × Declares form (length (body_prefix ++ (scalar ++ tail)))
unfolding secp256k1_scalar body_length body_scalar bytes_eq
secp256k1_scalar-eq-ok_example =
    secp256k1_scalar-eq-ok (sec1 (short 37) scalar []) scalar (omega arith) (omega arith) refl

bytes_to_key_sha512-iterate_example :
    let digest = iterate 3 reversed ((5 ∷ []) ++ (6 ∷ 7 ∷ [])) in
    bytes_to_key_sha512 reversed (6 ∷ 7 ∷ []) (5 ∷ []) 3
    ≡ (take 32 digest, take 16 (drop 32 digest))
bytes_to_key_sha512-iterate_example =
    bytes_to_key_sha512-iterate reversed (6 ∷ 7 ∷ []) (5 ∷ []) 3 (omega arith)

decrypt_master_key-eq-ok_example :
    let (k, iv) = bytes_to_key_sha512 reversed params.salt (5 ∷ []) params.derive_iterations in
    (length master ≡ 32)
    × (unpad k iv params.encrypted_key ≡ some master)
    × (params.derivation_method ≡ 0)
    × (1 ≤ params.derive_iterations)
    × (length params.salt ≡ 8)
unfolding decrypt_master_key aes256_cbc_decrypt
decrypt_master_key-eq-ok_example =
    decrypt_master_key-eq-ok reversed unpad params (5 ∷ []) master refl

abbrev chain : MnemonicHdChain
chain = record {
  version = pos 1;
  seed_fp = scalar;
  create_time = 1_650_000_000;
  account_counter = 1;
  legacy_tkey_external_counter = 2;
  legacy_tkey_internal_counter = 3;
  legacy_sapling_key_counter = 4;
  mnemonic_seed_backup_confirmed = true;
}

chain-IsInRange : IsInRange chain
chain-IsInRange = record {
  version = omega arith;
  seed_fp = refl;
  create_time = omega arith;
  account_counter = omega arith;
  legacy_tkey_external_counter = omega arith;
  legacy_tkey_internal_counter = omega arith;
  legacy_sapling_key_counter = omega arith;
}

Reads-mnemonic_hd_chain_example : Reads mnemonic_hd_chain (chain_bytes chain) chain
Reads-mnemonic_hd_chain_example = Reads-mnemonic_hd_chain chain chain-IsInRange
