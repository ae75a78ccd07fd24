-- ===== src/Wallet/Transparent.antt =====
-- src/zcashd_wallet/transparent: public and private keys, key pairs, and ids.
pub mod Der
pub mod WatchScript
pub mod Laws
use zewif_zcashd.Base.{
  ℕ, ◌≡◌, ◌&&◌, not, List, [], ◌∷◌, ◌++◌, Result, ok, err, pure, raise, ◌>>=◌, if◌then◌else◌, ◌==◌,
  length, Bool,
}
use zewif_zcashd.Base.Bytes.{bytes_eq}
use zewif_zcashd.Wire.Error.{
  ParseError, with_frame, text, of_kind, invalid_pub_key_length, invalid_priv_key_length,
  key_pair_mismatch,
}
use zewif_zcashd.Wire.Parser.{Bytes, P, next}
use zewif_zcashd.Wire.Ints.{u32}
use zewif_zcashd.Wire.Collections.{compact_size}
use zewif_zcashd.Wallet.Words.{u160, u256}
use zewif_zcashd.Wallet.Meta.{ClientVersion, client_version, seconds_since_epoch, KeyMetadata}

-- A `PubKey` is its bytes.
unfoldable pub pub_key : P Bytes
pub_key = do
  size ← with_frame (text "PubKey size") compact_size
  if not (size == 33) && not (size == 65)
      then raise (of_kind (invalid_pub_key_length size))
      else with_frame (text "PubKey") (next size)

abbrev pub is_compressed : Bytes → Bool
is_compressed key = length key == 33

pub record PrivKey : Type 0 where
  pub der : Bytes
  pub hash : Bytes

unfoldable pub priv_key : P PrivKey
priv_key = do
  length ← with_frame (text "PrivKey size") compact_size
  if not (length == 214) && not (length == 279)
      then raise (of_kind (invalid_priv_key_length length))
      else (do
        der ← with_frame (text "PrivKey") (next length)
        hash ← with_frame (text "PrivKey hash") u256
        pure (record { der = der; hash = hash }))

unfoldable pub key_id : P Bytes
key_id = do id ← with_frame (text "key_id") u160; pure id

unfoldable pub script_id : P Bytes
script_id = do id ← with_frame (text "script_id") u160; pure id

pub record KeyPoolEntry : Type 0 where
  pub version : ClientVersion
  pub timestamp : ℕ
  pub key : Bytes

unfoldable pub key_pool_entry : P KeyPoolEntry
key_pool_entry = do
  version ← with_frame (text "version") client_version
  timestamp ← with_frame (text "timestamp") seconds_since_epoch
  key ← with_frame (text "key") pub_key
  pure (record { version = version; timestamp = timestamp; key = key })

pub record WalletKey : Type 0 where
  pub pubkey : Bytes
  pub privkey : PrivKey
  pub time_created : ℕ
  pub time_expires : ℕ
  pub comment : Bytes

pub record KeyPair : Type 0 where
  pub pubkey : Bytes
  pub privkey : PrivKey
  pub metadata : KeyMetadata

-- `der_blob_from_scalar`
unfoldable pub der_blob_from_scalar : Bytes → Bytes
der_blob_from_scalar scalar = (0x30 ∷ 0x25 ∷ 0x02 ∷ 0x01 ∷ 0x01 ∷ 0x04 ∷ 0x20 ∷ []) ++ scalar

-- SHA-256 comes from another crate.
module _ (sha256 : Bytes → Bytes) where
  unfoldable pub hash256 : Bytes → Bytes
  hash256 bytes = sha256 (sha256 bytes)

  -- `KeyPair::new`
  unfoldable pub key_pair : Bytes → PrivKey → KeyMetadata → Result ParseError KeyPair
  unfolding hash256
  key_pair pubkey privkey metadata =
      if not (bytes_eq (hash256 (pubkey ++ privkey.der)) privkey.hash)
      then err (of_kind key_pair_mismatch)
      else ok (record { pubkey = pubkey; privkey = privkey; metadata = metadata })

  -- `KeyPair::from_decrypted_scalar`
  unfoldable pub from_decrypted_scalar : Bytes → Bytes → KeyMetadata → KeyPair
  unfolding hash256 der_blob_from_scalar
  from_decrypted_scalar pubkey scalar metadata =
      let blob = der_blob_from_scalar scalar in
      record {
        pubkey = pubkey;
        privkey = record { der = blob; hash = hash256 (pubkey ++ blob) };
        metadata = metadata;
      }
