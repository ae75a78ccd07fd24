-- ===== src/Wallet/Addresses/Laws.antt =====
-- Round trips of the addresses.
use zewif_zcashd.Base.{◌≡◌, refl, [], ◌∷◌, ◌++◌, ok, length, arith}
use zewif_zcashd.Base.Bytes.{bytes_eq}
use zewif_zcashd.Wire.Parser.{Bytes}
use zewif_zcashd.Wire.Reads.{Reads, Reads-pure, Reads-bind, Reads-map, Reads-with_frame}
use zewif_zcashd.Wire.CompactSize.Canonical.{compact_size_bytes}
use zewif_zcashd.Wire.Collections.Laws.{Reads-compact_size}
use zewif_zcashd.Wallet.Words.Laws.{Reads-byte_array_of, Reads-u160, Reads-u256}
use zewif_zcashd.Wallet.Transparent.{key_id, script_id}
use zewif_zcashd.Wallet.Addresses.{
  ReceiverType, p2pkh, p2sh, sapling, orchard, discriminant, receiver_type_of, receiver_type, name,
  of_name, RecipientAddress, to_key_id, to_script_id, to_sapling, to_orchard, recipient_of,
  recipient_address, SaplingZPaymentAddress, OrchardRawAddress, SproutPaymentAddress,
  sapling_z_payment_address, orchard_raw_address, sprout_payment_address,
}

-- Every receiver type is given back by the conversion of its name.
pub of_name-name : (t : ReceiverType) → of_name (name t) ≡ ok t
unfolding of_name bytes_eq
of_name-name p2pkh = refl
of_name-name p2sh = refl
of_name-name sapling = refl
of_name-name orchard = refl

pub Reads-receiver_type : (t : ReceiverType) → Reads receiver_type (discriminant t ∷ []) t
unfolding receiver_type receiver_type_of compact_size_bytes
Reads-receiver_type p2pkh =
    Reads-map _ (Reads-with_frame _ (Reads-compact_size 0 (omega arith))) (Reads-pure p2pkh)
Reads-receiver_type p2sh =
    Reads-map _ (Reads-with_frame _ (Reads-compact_size 1 (omega arith))) (Reads-pure p2sh)
Reads-receiver_type sapling =
    Reads-map _ (Reads-with_frame _ (Reads-compact_size 2 (omega arith))) (Reads-pure sapling)
Reads-receiver_type orchard =
    Reads-map _ (Reads-with_frame _ (Reads-compact_size 3 (omega arith))) (Reads-pure orchard)

pub Reads-sprout_payment_address :
    (a : SproutPaymentAddress)
    → length a.a_pk ≡ 32
    → length a.pk_enc ≡ 32
    → Reads sprout_payment_address (a.a_pk ++ a.pk_enc) a
unfolding sprout_payment_address
Reads-sprout_payment_address a h k =
    Reads-bind _ (Reads-with_frame _ (Reads-u256 a.a_pk h))
      (Reads-map _ (Reads-with_frame _ (Reads-u256 a.pk_enc k)) (Reads-pure a))

pub Reads-sapling_z_payment_address :
    (a : SaplingZPaymentAddress)
    → length a.diversifier ≡ 11
    → length a.pk ≡ 32
    → Reads sapling_z_payment_address (a.diversifier ++ a.pk) a
unfolding sapling_z_payment_address
Reads-sapling_z_payment_address a h k =
    Reads-bind _ (Reads-with_frame _ (Reads-byte_array_of 11 a.diversifier h (omega arith))) (
      Reads-map _ (Reads-with_frame _ (Reads-byte_array_of 32 a.pk k (omega arith))) (Reads-pure a))

pub Reads-orchard_raw_address :
    (a : OrchardRawAddress)
    → length a.diversifier ≡ 11
    → length a.pk_d ≡ 32
    → Reads orchard_raw_address (a.diversifier ++ a.pk_d) a
unfolding orchard_raw_address
Reads-orchard_raw_address a h k =
    Reads-bind _ (Reads-with_frame _ (Reads-byte_array_of 11 a.diversifier h (omega arith))) (
      Reads-map _ (Reads-with_frame _ (Reads-byte_array_of 32 a.pk_d k (omega arith)))
        (Reads-pure a))

-- The widths of an address's parts, and the address as bytes behind its receiver type.
abbrev pub IsSized : RecipientAddress → Type 0
IsSized (to_key_id a) = length a ≡ 20
IsSized (to_script_id a) = length a ≡ 20
IsSized (to_sapling a) = (length a.diversifier ≡ 11) × (length a.pk ≡ 32)
IsSized (to_orchard a) = (length a.diversifier ≡ 11) × (length a.pk_d ≡ 32)

abbrev pub recipient_bytes : RecipientAddress → Bytes
recipient_bytes (to_key_id a) = discriminant p2pkh ∷ a
recipient_bytes (to_script_id a) = discriminant p2sh ∷ a
recipient_bytes (to_sapling a) = discriminant sapling ∷ (a.diversifier ++ a.pk)
recipient_bytes (to_orchard a) = discriminant orchard ∷ (a.diversifier ++ a.pk_d)

-- A recipient of any of the four kinds, with parts of the right widths, is read off the byte of its
-- receiver type and its parts behind it.
pub Reads-recipient_address :
    (a : RecipientAddress) → IsSized a → Reads recipient_address (recipient_bytes a) a
unfolding recipient_address recipient_of key_id script_id
Reads-recipient_address (to_key_id a) h =
    Reads-bind _ (Reads-with_frame _ (Reads-receiver_type p2pkh)) (
      Reads-map _
        (Reads-with_frame _ (Reads-map _ (Reads-with_frame _ (Reads-u160 a h)) (Reads-pure a)))
        (Reads-pure (to_key_id a)))
Reads-recipient_address (to_script_id a) h =
    Reads-bind _ (Reads-with_frame _ (Reads-receiver_type p2sh)) (
      Reads-map _
        (Reads-with_frame _ (Reads-map _ (Reads-with_frame _ (Reads-u160 a h)) (Reads-pure a)))
        (Reads-pure (to_script_id a)))
Reads-recipient_address (to_sapling a) (h, k) =
    Reads-bind _ (Reads-with_frame _ (Reads-receiver_type sapling)) (
      Reads-map _ (Reads-with_frame _ (Reads-sapling_z_payment_address a h k))
        (Reads-pure (to_sapling a)))
Reads-recipient_address (to_orchard a) (h, k) =
    Reads-bind _ (Reads-with_frame _ (Reads-receiver_type orchard)) (
      Reads-map _ (Reads-with_frame _ (Reads-orchard_raw_address a h k))
        (Reads-pure (to_orchard a)))
