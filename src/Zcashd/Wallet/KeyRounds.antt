-- ===== src/Zcashd/Wallet/KeyRounds.antt =====
-- What one round of the loops over keys with metadata does to the set of unparsed keys.
use zewif_zcashd.Base.{List}
use zewif_zcashd.Base.Bytes.{codes, eq_bytes}
use zewif_zcashd.Base.BTreeMap.{Ord}
use zewif_zcashd.Wire.Parser.{Bytes}
use zewif_zcashd.Wallet.Addresses.{SproutPaymentAddress}
use zewif_zcashd.Wallet.Meta.{KeyMetadata}
use zewif_zcashd.Wallet.Transparent.{KeyPair}
use zewif_zcashd.Wallet.Equality.{eq_int, eq_sprout_address}
use zewif_zcashd.Dump.{DbKey, DbValue, ZcashdDump}
use zewif_zcashd.Zcashd.Keys.{
  Libraries, SproutSpendingKey, meta_key, key_round, recovered, encrypted_key_round,
  sprout_key_round,
}
use zewif_zcashd.Zcashd.Sapling.{
  SaplingLibrary, SaplingKey, sapling_key_round, encrypted_sapling_round, sapling_fvk_fingerprint,
}
use zewif_zcashd.Zcashd.Effects.{
  Handles, handling, Handles-then, Shrinks-bind, Shrinks-mark_key_parsed,
}
use zewif_zcashd.Zcashd.Effects.Marks.{Marks}
use zewif_zcashd.Zcashd.Wallet.Known.{IsKnown, marking}

-- Where two keys are marked, the first stays so.
ruleset handling_both = (handling, Shrinks-bind, Shrinks-mark_key_parsed)

-- The rounds over keys mark the record of the key's metadata too.
module _ (lib : Libraries) (names : Ord Bytes) (keys : Ord DbKey) (d : ZcashdDump) where
  Marks-recovered :
      (pubkey scalar : Bytes) (metadata : KeyMetadata) (key : DbKey) (m : List (Bytes × KeyPair))
      → IsKnown key
      → IsKnown (meta_key (codes "keymeta") key)
      → Marks IsKnown (recovered lib names keys d pubkey scalar metadata key m)
  unfolding recovered
  Marks-recovered pubkey scalar metadata key m known meta = search marking depth 12

  Handles-recovered :
      (pubkey scalar : Bytes) (metadata : KeyMetadata) (key : DbKey) (m : List (Bytes × KeyPair))
      → Handles key (recovered lib names keys d pubkey scalar metadata key m)
  unfolding recovered
  Handles-recovered pubkey scalar metadata key m = search handling_both depth 12

  pub Marks-key_round :
      (m : List (Bytes × KeyPair)) (key : DbKey) (value : DbValue)
      → IsKnown key
      → IsKnown (meta_key (codes "keymeta") key)
      → Marks IsKnown (key_round lib names keys d m key value)
  unfolding key_round
  Marks-key_round m key value known meta = search marking depth 16

  pub Handles-key_round :
      (m : List (Bytes × KeyPair)) (key : DbKey) (value : DbValue)
      → Handles key (key_round lib names keys d m key value)
  unfolding key_round
  Handles-key_round m key value = search handling_both depth 16

  module _ (master_key : Bytes) where
    pub Marks-encrypted_key_round :
        (m : List (Bytes × KeyPair)) (key : DbKey) (value : DbValue)
        → IsKnown key
        → IsKnown (meta_key (codes "keymeta") key)
        → Marks IsKnown (encrypted_key_round lib names keys d master_key m key value)
    unfolding encrypted_key_round
    Marks-encrypted_key_round m key value known meta = search (marking, Marks-recovered) depth 16

    pub Handles-encrypted_key_round :
        (m : List (Bytes × KeyPair)) (key : DbKey) (value : DbValue)
        → Handles key (encrypted_key_round lib names keys d master_key m key value)
    unfolding encrypted_key_round
    Handles-encrypted_key_round m key value = search (Handles-then, Handles-recovered) depth 16

  pub Marks-sprout_key_round :
      (m : List (SproutPaymentAddress × SproutSpendingKey)) (key : DbKey) (value : DbValue)
      → IsKnown key
      → IsKnown (meta_key (codes "zkeymeta") key)
      → Marks IsKnown (sprout_key_round lib names keys d m key value)
  unfolding sprout_key_round
  Marks-sprout_key_round m key value known meta = search marking depth 16

  pub Handles-sprout_key_round :
      (m : List (SproutPaymentAddress × SproutSpendingKey)) (key : DbKey) (value : DbValue)
      → Handles key (sprout_key_round lib names keys d m key value)
  unfolding sprout_key_round
  Handles-sprout_key_round m key value = search handling_both depth 16

  module _ {ExtSk ExtFvk : Type 0} (sapling : SaplingLibrary ExtSk ExtFvk) where
    pub Marks-sapling_key_round :
        (m : List (Bytes × SaplingKey ExtSk)) (key : DbKey) (value : DbValue)
        → IsKnown key
        → IsKnown (meta_key (codes "sapzkeymeta") key)
        → Marks IsKnown (sapling_key_round sapling lib names keys d m key value)
    unfolding sapling_key_round
    Marks-sapling_key_round m key value known meta = search marking depth 16

    pub Handles-sapling_key_round :
        (m : List (Bytes × SaplingKey ExtSk)) (key : DbKey) (value : DbValue)
        → Handles key (sapling_key_round sapling lib names keys d m key value)
    unfolding sapling_key_round
    Handles-sapling_key_round m key value = search handling_both depth 16

    Marks-sapling_fvk_fingerprint :
        (extfvk : ExtFvk) → Marks IsKnown (sapling_fvk_fingerprint sapling extfvk)
    unfolding sapling_fvk_fingerprint
    Marks-sapling_fvk_fingerprint extfvk = search marking

    pub Marks-encrypted_sapling_round :
        (master_key : Bytes) (m : List (Bytes × SaplingKey ExtSk)) (key : DbKey) (value : DbValue)
        → IsKnown key
        → IsKnown (meta_key (codes "sapzkeymeta") key)
        → Marks IsKnown (encrypted_sapling_round sapling lib names keys d master_key m key value)
    unfolding encrypted_sapling_round
    Marks-encrypted_sapling_round master_key m key value known meta =
        search (marking, Marks-sapling_fvk_fingerprint) depth 20

    pub Handles-encrypted_sapling_round :
        (master_key : Bytes) (m : List (Bytes × SaplingKey ExtSk)) (key : DbKey) (value : DbValue)
        → Handles key (encrypted_sapling_round sapling lib names keys d master_key m key value)
    unfolding encrypted_sapling_round
    Handles-encrypted_sapling_round master_key m key value = search handling_both depth 20
