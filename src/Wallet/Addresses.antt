-- ===== src/Wallet/Addresses.antt =====
-- Addresses and what is recorded of them: src/zcashd_wallet/receiver_type.rs, recipient_address.rs,
-- unified_address_metadata.rs, unified_account_metadata.rs, sprout/sprout_payment_address.rs,
-- sapling/sapling_z_payment_address.rs and orchard/orchard_raw_address.rs;
-- and the keys and scripts of parseable_types.rs.
pub mod Laws
use zewif_zcashd.Base.{
  ◌%◌, ◌^◌, ℕ, Bool, true, false, List, [], ◌∷◌, Result, ok, err, pure, raise, ◌>>=◌, if◌then◌else◌,
  ◌==◌, ==_iff, ◌≡◌, refl, ◌↔◌,
}
use zewif_zcashd.Base.Bytes.{codes, bytes_eq}
use zewif_zcashd.Base.HashMap.{Eq}
use zewif_zcashd.Wire.Error.{
  ParseError, with_frame, text, of_kind, invalid_receiver_type_value, invalid_receiver_type_name,
}
use zewif_zcashd.Wire.Parser.{Bytes, P}
use zewif_zcashd.Wire.Ints.{u32}
use zewif_zcashd.Wire.Collections.{compact_size, data_bytes, parse_hashset}
use zewif_zcashd.Wallet.Words.{byte_array, u256}
use zewif_zcashd.Wallet.Transparent.{key_id, script_id}

pub data ReceiverType : Type 0 where
  p2pkh p2sh sapling orchard : ReceiverType

-- `#[repr(u8)]`
abbrev pub discriminant : ReceiverType → ℕ
discriminant p2pkh = 0x00
discriminant p2sh = 0x01
discriminant sapling = 0x02
discriminant orchard = 0x03

unfoldable pub receiver_type_of : ℕ → P ReceiverType
receiver_type_of byte =
    if byte == 0x00
    then pure p2pkh
    else if byte == 0x01
    then pure p2sh
    else if byte == 0x02
    then pure sapling
    else if byte == 0x03
    then pure orchard
    else raise (of_kind (invalid_receiver_type_value (byte % 2 ^ 32)))

unfoldable pub receiver_type : P ReceiverType
receiver_type = do byte ← with_frame (text "ReceiverType") compact_size; receiver_type_of byte

-- `From<ReceiverType> for String`
abbrev pub name : ReceiverType → Bytes
name p2pkh = codes "P2PKH"
name p2sh = codes "P2SH"
name sapling = codes "Sapling"
name orchard = codes "Orchard"

-- `TryFrom<String> for ReceiverType`
unfoldable pub of_name : Bytes → Result ParseError ReceiverType
unfolding bytes_eq
of_name value =
    if bytes_eq value (codes "P2PKH")
    then ok p2pkh
    else if bytes_eq value (codes "P2SH")
    then ok p2sh
    else if bytes_eq value (codes "Sapling")
    then ok sapling
    else if bytes_eq value (codes "Orchard")
    then ok orchard
    else err (of_kind (invalid_receiver_type_name value))

pub record SproutPaymentAddress : Type 0 where
  pub a_pk : Bytes
  pub pk_enc : Bytes

unfoldable pub sprout_payment_address : P SproutPaymentAddress
sprout_payment_address = do
  a_pk ← with_frame (text "sprout payment address a_pk") u256
  pk_enc ← with_frame (text "sprout payment address pk_enc") u256
  pure (record { a_pk = a_pk; pk_enc = pk_enc })

pub record SaplingZPaymentAddress : Type 0 where
  pub diversifier : Bytes
  pub pk : Bytes

unfoldable pub sapling_z_payment_address : P SaplingZPaymentAddress
sapling_z_payment_address = do
  diversifier ← with_frame (text "diversifier") (byte_array 11)
  pk ← with_frame (text "pk") (byte_array 32)
  pure (record { diversifier = diversifier; pk = pk })

-- A `SaplingIncomingViewingKey` is its bytes.
unfoldable pub sapling_ivk : P Bytes
sapling_ivk = do bytes ← with_frame (text "sapling ivk") u256; pure bytes

-- A `Script` is its bytes.
unfoldable pub script : P Bytes
script = do bytes ← with_frame (text "Script") data_bytes; pure bytes

pub record OrchardRawAddress : Type 0 where
  pub diversifier : Bytes
  pub pk_d : Bytes

unfoldable pub orchard_raw_address : P OrchardRawAddress
orchard_raw_address = do
  diversifier ← with_frame (text "diversifier") (byte_array 11)
  pk_d ← with_frame (text "pk_d") (byte_array 32)
  pure (record { diversifier = diversifier; pk_d = pk_d })

pub data RecipientAddress : Type 0 where
  to_key_id : Bytes → RecipientAddress
  to_script_id : Bytes → RecipientAddress
  to_sapling : SaplingZPaymentAddress → RecipientAddress
  to_orchard : OrchardRawAddress → RecipientAddress

-- The match on the receiver type.
unfoldable pub recipient_of : ReceiverType → P RecipientAddress
recipient_of p2pkh = do a ← with_frame (text "key_id") key_id; pure (to_key_id a)
recipient_of p2sh = do a ← with_frame (text "script_id") script_id; pure (to_script_id a)
recipient_of sapling = do
  a ← with_frame (text "sapling_z_payment_address") sapling_z_payment_address
  pure (to_sapling a)
recipient_of orchard = do
  a ← with_frame (text "orchard_raw_address") orchard_raw_address
  pure (to_orchard a)

unfoldable pub recipient_address : P RecipientAddress
unfolding recipient_of
recipient_address = do
  receiver_type ← with_frame (text "receiver_type") receiver_type
  recipient_of receiver_type

pub record UnifiedAccountMetadata : Type 0 where
  pub seed_fingerprint : Bytes
  pub ufvk_fingerprint : Bytes
  pub bip_44_coin_type : ℕ
  pub zip32_account_id : ℕ

pub record UnifiedAddressMetadata : Type 0 where
  pub key_id : Bytes
  pub diversifier_index : Bytes
  pub receiver_types : List ReceiverType

-- A `UfvkFingerprint` is its bytes.
unfoldable pub ufvk_fingerprint : P Bytes
ufvk_fingerprint = do bytes ← with_frame (text "ufvk_fingerprint") (byte_array 32); pure bytes

-- Bech32m comes from another crate.
module _ (encode_seed_fingerprint : Bytes → Bytes) where
  unfoldable pub seed_fingerprint : P Bytes
  seed_fingerprint = do
    bytes ← with_frame (text "seed_fingerprint") (byte_array 32)
    pure (encode_seed_fingerprint bytes)

  unfoldable pub unified_account_metadata : P UnifiedAccountMetadata
  unfolding seed_fingerprint ufvk_fingerprint
  unified_account_metadata = do
    seed ← with_frame (text "seed_fingerprint") seed_fingerprint
    bip_44_coin_type ← with_frame (text "bip_44_coin_type") u32
    zip32_account_id ← with_frame (text "account_id") u32
    ufvk ← with_frame (text "key_id") ufvk_fingerprint
    pure (record {
      seed_fingerprint = seed;
      ufvk_fingerprint = ufvk;
      bip_44_coin_type = bip_44_coin_type;
      zip32_account_id = zip32_account_id;
    })

module _ ⦃e : Eq ReceiverType⦄ (fits : ℕ → Bool) where
  unfoldable pub unified_address_metadata : P UnifiedAddressMetadata
  unfolding ufvk_fingerprint
  unified_address_metadata = do
    key ← with_frame (text "key_id") ufvk_fingerprint
    diversifier_index ← with_frame (text "diversifier_index") (byte_array 11)
    receiver_types ← with_frame (text "receiver_types") (parse_hashset fits receiver_type)
    pure (record {
      key_id = key;
      diversifier_index = diversifier_index;
      receiver_types = receiver_types;
    })
