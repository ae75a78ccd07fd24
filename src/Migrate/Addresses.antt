-- ===== src/Migrate/Addresses.antt =====
-- src/migrate/addresses.rs: the Sapling, Sprout and unified addresses.
pub mod Attach
pub mod Laws
use zewif_zcashd.Base.{
  Bool, true, false, List, [], ◌∷◌, ◌++◌, Option, none, some, Result, ok, err, bind, if◌then◌else◌,
  ℕ,
}
use zewif_zcashd.Base.Bytes.{eq_bytes}
use zewif_zcashd.Base.HashMap
use zewif_zcashd.Base.BTreeMap.{Ord}
use zewif_zcashd.Wire.Parser.{Bytes}
use zewif_zcashd.Wallet.Addresses.{
  ReceiverType, p2pkh, sapling, orchard, SaplingZPaymentAddress, SproutPaymentAddress,
  UnifiedAddressMetadata,
}
use zewif_zcashd.Wallet.Equality.{eq_receiver}
use zewif_zcashd.Zcashd.Keys.{SproutSpendingKey}
use zewif_zcashd.Migrate.State.{
  MigrateError, WalletAccounts, update_at, missing_address_ufvk, invalid_receiver_types,
  unified_address_derivation,
}
use zewif_zcashd.Migrate.Transparent.{KeyScope, external, foreign}

-- The encodings of addresses for the wallet's network, the addresses of viewing keys, and the accounts,
-- of other crates. `custom` makes a request for an address out of whether it has an Orchard, a Sapling
-- and a transparent part.
pub record AddressLibrary (Account Ufvk ExtFvk Request : Type 0) : Type 0 where
  pub sapling_string : Bytes → Bytes
  pub sprout_string : Bytes → Bytes
  pub default_address : ExtFvk → Bytes
  pub custom : (orchard_part sapling_part transparent_part : Bool) → Option Request
  pub address : Ufvk → (diversifier_index : Bytes) → Request → Option Bytes
  pub add_sapling_address : Bytes → KeyScope → Account → Account
  pub add_sprout_address : Bytes → KeyScope → Account → Account
  pub add_unified_address : Bytes → (diversifier_index : Bytes) → KeyScope → Account → Account

-- `collected.sort_by` and `addrs.sort()`, by the address; `texts` is the order of strings.
module _ {A : Type 0} (texts : Ord Bytes) where
  unfoldable pub place_address : Bytes × A → List (Bytes × A) → List (Bytes × A)
  place_address e [] = e ∷ []
  place_address e (x ∷ addresses) =
      let rest = place_address e addresses in
      if texts.lt (x.0) (e.0) then x ∷ rest else e ∷ x ∷ addresses

  unfoldable pub sort_addresses : List (Bytes × A) → List (Bytes × A)
  unfolding place_address
  sort_addresses [] = []
  sort_addresses (e ∷ addresses) = place_address e (sort_addresses addresses)

module _ {Account Ufvk ExtFvk Request : Type 0}
    (lib : AddressLibrary Account Ufvk ExtFvk Request) where
  -- The records with an address, and the viewing keys that they belong to.
  unfoldable pub collect_z_addresses :
      List (SaplingZPaymentAddress × Bytes)
      → (emitted : List Bytes) → List (Bytes × KeyScope) × List Bytes
  collect_z_addresses [] emitted = ([], emitted)
  collect_z_addresses ((z_address, ivk) ∷ rest) emitted =
      let (collected, all) = collect_z_addresses rest (HashMap.insert_item ivk emitted) in
      ((lib.sapling_string (z_address.diversifier ++ z_address.pk), external) ∷ collected, all)

  -- The imported viewing keys without one, at their default address.
  unfoldable pub collect_view_only :
      List (Bytes × ExtFvk) → (emitted : List Bytes) → List (Bytes × KeyScope)
  collect_view_only [] emitted = []
  collect_view_only ((ivk, extfvk) ∷ rest) emitted =
      let others = collect_view_only rest (HashMap.insert_item ivk emitted) in
      if HashMap.contains ivk emitted
      then others
      else (lib.sapling_string (lib.default_address extfvk), foreign) ∷ others

  unfoldable pub add_sapling_addresses :
      (legacy_index : ℕ)
      → List (Bytes × KeyScope)
      → List Account
      → Result MigrateError (List Account)
  unfolding update_at
  add_sapling_addresses legacy_index [] accounts = ok accounts
  add_sapling_addresses legacy_index ((text, scope) ∷ rest) accounts =
      bind (update_at legacy_index (lib.add_sapling_address text scope) accounts)
        (λ accounts'. add_sapling_addresses legacy_index rest accounts')

  unfoldable pub attach_sapling_addresses :
      (texts : Ord Bytes)
      → List (SaplingZPaymentAddress × Bytes)
      → List (Bytes × ExtFvk)
      → WalletAccounts Account Ufvk
      → Result MigrateError (WalletAccounts Account Ufvk)
  unfolding collect_z_addresses collect_view_only sort_addresses add_sapling_addresses
  attach_sapling_addresses texts z_addresses viewing_keys accounts =
      let (collected, emitted) = collect_z_addresses z_addresses [] in
      bind
        (add_sapling_addresses accounts.legacy_index
          (sort_addresses texts (collected ++ collect_view_only viewing_keys emitted))
          accounts.accounts)
        (λ l. ok (record accounts { accounts = l }))

  abbrev pub sprout_address_string : SproutPaymentAddress → Bytes
  sprout_address_string address = lib.sprout_string (address.a_pk ++ address.pk_enc)

  abbrev pub sprout_texts :
      List (SproutPaymentAddress × SproutSpendingKey) → List (Bytes × Unit {0})
  sprout_texts [] = []
  sprout_texts ((address, key) ∷ rest) = (sprout_address_string address, tt) ∷ sprout_texts rest

  unfoldable pub add_sprout_addresses :
      (legacy_index : ℕ)
      → List (Bytes × Unit {0})
      → List Account
      → Result MigrateError (List Account)
  unfolding update_at
  add_sprout_addresses legacy_index [] accounts = ok accounts
  add_sprout_addresses legacy_index ((text, u) ∷ rest) accounts =
      bind (update_at legacy_index (lib.add_sprout_address text external) accounts)
        (λ accounts'. add_sprout_addresses legacy_index rest accounts')

  unfoldable pub attach_sprout_addresses :
      (texts : Ord Bytes)
      → Option (List (SproutPaymentAddress × SproutSpendingKey))
      → WalletAccounts Account Ufvk
      → Result MigrateError (WalletAccounts Account Ufvk)
  unfolding sort_addresses add_sprout_addresses
  attach_sprout_addresses texts none accounts = ok accounts
  attach_sprout_addresses texts (some sprout_keys) accounts =
      bind
        (add_sprout_addresses accounts.legacy_index
          (sort_addresses texts (sprout_texts sprout_keys)) accounts.accounts)
        (λ l. ok (record accounts { accounts = l }))

  abbrev pub or_error {ℓ} : {A : Type ℓ} → MigrateError → Option A → Result MigrateError A
  or_error e none = err e
  or_error e (some a) = ok a

  -- The text of a unified address.
  unfoldable pub unified_text :
      (full_viewing_keys : List (Bytes × Ufvk)) → UnifiedAddressMetadata → Result MigrateError Bytes
  unified_text full_viewing_keys metadata =
      bind
        (or_error (missing_address_ufvk metadata.key_id)
          (HashMap.get metadata.key_id full_viewing_keys))
        (λ ufvk.
          bind
            (or_error invalid_receiver_types (
              lib.custom (HashMap.contains orchard metadata.receiver_types)
                (HashMap.contains sapling metadata.receiver_types)
                (HashMap.contains p2pkh metadata.receiver_types)))
            (λ request.
              or_error unified_address_derivation
                (lib.address ufvk metadata.diversifier_index request)))

  -- The account of a fingerprint, or the legacy account.
  abbrev pub place_of : ℕ → Option ℕ → ℕ
  place_of legacy_index none = legacy_index
  place_of legacy_index (some index) = index

  unfoldable pub add_unified_addresses :
      (full_viewing_keys : List (Bytes × Ufvk))
      → (ufvk_index : List (Bytes × ℕ)) → (legacy_index : ℕ) → List UnifiedAddressMetadata
      → List Account
      → Result MigrateError (List Account)
  unfolding unified_text update_at
  add_unified_addresses full_viewing_keys ufvk_index legacy_index [] accounts = ok accounts
  add_unified_addresses full_viewing_keys ufvk_index legacy_index (metadata ∷ rest) accounts =
      bind (unified_text full_viewing_keys metadata) (λ text.
        bind
          (update_at (place_of legacy_index (HashMap.get metadata.key_id ufvk_index))
            (lib.add_unified_address text metadata.diversifier_index external) accounts)
          (λ accounts'.
            add_unified_addresses full_viewing_keys ufvk_index legacy_index rest accounts'))

  unfoldable pub attach_unified_addresses :
      (full_viewing_keys : List (Bytes × Ufvk))
      → List UnifiedAddressMetadata
      → WalletAccounts Account Ufvk
      → Result MigrateError (WalletAccounts Account Ufvk)
  unfolding add_unified_addresses
  attach_unified_addresses full_viewing_keys address_metadata accounts =
      bind
        (add_unified_addresses full_viewing_keys accounts.ufvk_index accounts.legacy_index
          address_metadata accounts.accounts)
        (λ l. ok (record accounts { accounts = l }))
