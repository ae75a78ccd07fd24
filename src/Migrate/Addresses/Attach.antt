-- ===== src/Migrate/Addresses/Attach.antt =====
-- src/migrate/addresses.rs: `attach_addresses`.
use zewif_zcashd.Base.{Result, bind}
use zewif_zcashd.Base.BTreeMap.{Ord}
use zewif_zcashd.Wire.Parser.{Bytes}
use zewif_zcashd.Base.{map}
use zewif_zcashd.Zcashd.Wallet.{Crates, ZcashdWallet}
use zewif_zcashd.Migrate.State.{MigrateError, WalletAccounts}
use zewif_zcashd.Migrate.Transparent.{TransparentLibrary, attach_transparent_addresses}
use zewif_zcashd.Migrate.Addresses.{
  AddressLibrary, attach_sapling_addresses, attach_sprout_addresses, attach_unified_addresses,
}

module _ {Account Address PublicKey PubKey Request : Type 0} (c : Crates)
    (transparent : TransparentLibrary Account Address PublicKey PubKey)
    (lib : AddressLibrary Account c.Ufvk c.ExtFvk Request) (texts : Ord Bytes) where
  unfoldable pub attach_addresses :
      ZcashdWallet c
      → WalletAccounts Account c.Ufvk
      → Result MigrateError (WalletAccounts Account c.Ufvk)
  unfolding attach_transparent_addresses attach_sapling_addresses attach_sprout_addresses
      attach_unified_addresses
  attach_addresses wallet accounts =
      bind
        (attach_transparent_addresses transparent texts (map (λ e. e.1) wallet.keys)
          wallet.watch_scripts wallet.cscripts accounts)
        (λ a.
          bind
            (attach_sapling_addresses lib texts wallet.sapling_z_addresses
              wallet.sapling_extended_full_viewing_keys a)
            (λ b. bind (attach_sprout_addresses lib texts wallet.sprout_keys b) (λ d.
              attach_unified_addresses lib wallet.unified_accounts.full_viewing_keys
                wallet.unified_accounts.address_metadata d)))
