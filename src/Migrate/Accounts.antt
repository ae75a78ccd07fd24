-- ===== src/Migrate/Accounts.antt =====
-- src/migrate/accounts.rs, and the seeds of src/migrate/secrets.rs: the accounts of a wallet.
pub mod Laws
use zewif_zcashd.Base.{
  ℕ, ◌^◌, ◌-◌, Bool, List, [], ◌∷◌, ◌++◌, Option, none, some, Result, ok, err, bind, if◌then◌else◌,
  ltb, ◌==◌, length,
}
use zewif_zcashd.Base.Bytes.{codes, eq_bytes}
use zewif_zcashd.Base.HashMap
use zewif_zcashd.Wire.Parser.{Bytes}
use zewif_zcashd.Wallet.Meta.{MnemonicHdChain}
use zewif_zcashd.Wallet.Addresses.{UnifiedAccountMetadata}
use zewif_zcashd.Migrate.State.{
  MigrateError, WalletAccounts, missing_account_ufvk, invalid_legacy_seed_length,
}

-- Seeds, mnemonics and accounts of other crates. `from_seed` is the ZIP 32 fingerprint of a seed, and
-- `new_mnemonic` an English mnemonic of a phrase. `ufvk_account` is the account of an encoded viewing
-- key, and `account_name` the name with an account's number.
pub record AccountsLibrary (Account Ufvk LegacySeed Bip39Mnemonic Mnemonic : Type 0) : Type 0 where
  pub mnemonic_text : Bip39Mnemonic → Bytes
  pub encode_seed_fingerprint : Bytes → Bytes
  pub legacy_seed_bytes : LegacySeed → Bytes
  pub derive_mnemonic : Bytes → Option Mnemonic
  pub to_seed : Mnemonic → Bytes
  pub phrase : Mnemonic → Bytes
  pub from_seed : Bytes → Option Bytes
  pub new_mnemonic : Bytes → Bip39Mnemonic
  pub ufvk_account : Ufvk → Account
  pub transparent_account : Account
  pub account_name : ℕ → Bytes
  pub set_name : Bytes → Account → Account
  pub set_derived : (seed_fingerprint : Bytes) → (account_index : ℕ) → Account → Account
  pub set_imported : Account → Account
  pub set_provenance : Bytes → Account → Account
  pub set_spending : Account → Account

-- `ZCASHD_LEGACY_ACCOUNT`
abbrev pub zcashd_legacy_account : ℕ
zcashd_legacy_account = 2 ^ 31 - 1

module _ {Account Ufvk LegacySeed Bip39Mnemonic Mnemonic : Type 0}
    (lib : AccountsLibrary Account Ufvk LegacySeed Bip39Mnemonic Mnemonic) where
  unfoldable pub mnemonic_seed_fingerprint :
      Option Bip39Mnemonic → Option MnemonicHdChain → Option Bytes
  mnemonic_seed_fingerprint none chain = none
  mnemonic_seed_fingerprint (some mnemonic) none = none
  mnemonic_seed_fingerprint (some mnemonic) (some chain) =
      if length (lib.mnemonic_text mnemonic) == 0
      then none
      else if length chain.seed_fp == 32
      then some (lib.encode_seed_fingerprint chain.seed_fp)
      else none

  -- `ok_or(MigrateError::InvalidLegacySeedLength)`
  abbrev pub or_invalid_length : {A : Type 0} → Option A → Result MigrateError A
  or_invalid_length none = err invalid_legacy_seed_length
  or_invalid_length (some a) = ok a

  unfoldable pub derive_legacy_mnemonic_seed :
      LegacySeed → Result MigrateError (Bip39Mnemonic × Bytes)
  derive_legacy_mnemonic_seed seed =
      bind (or_invalid_length (lib.derive_mnemonic (lib.legacy_seed_bytes seed))) (λ mnemonic.
        bind (or_invalid_length (lib.from_seed (lib.to_seed mnemonic)))
          (λ fp. ok (lib.new_mnemonic (lib.phrase mnemonic), lib.encode_seed_fingerprint fp)))

  unfoldable pub legacy_mnemonic_seed :
      Option LegacySeed → Result MigrateError (Option (Bip39Mnemonic × Bytes))
  unfolding derive_legacy_mnemonic_seed
  legacy_mnemonic_seed none = ok none
  legacy_mnemonic_seed (some seed) = bind (derive_legacy_mnemonic_seed seed) (λ r. ok (some r))

  unfoldable pub legacy_seed_fingerprint : Option LegacySeed → Result MigrateError (Option Bytes)
  legacy_seed_fingerprint none = ok none
  legacy_seed_fingerprint (some seed) =
      bind (or_invalid_length (lib.from_seed (lib.legacy_seed_bytes seed)))
        (λ fp. ok (some (lib.encode_seed_fingerprint fp)))

  -- `sort_by_key(|(_, m)| m.zip32_account_id())`, a stable sort.
  unfoldable pub place_meta :
      Bytes × UnifiedAccountMetadata
      → List (Bytes × UnifiedAccountMetadata)
      → List (Bytes × UnifiedAccountMetadata)
  place_meta m [] = m ∷ []
  place_meta m (x ∷ metas) =
      let rest = place_meta m metas in
      if ltb (x.1).zip32_account_id (m.1).zip32_account_id then x ∷ rest else m ∷ x ∷ metas

  unfoldable pub sort_metas :
      List (Bytes × UnifiedAccountMetadata) → List (Bytes × UnifiedAccountMetadata)
  unfolding place_meta
  sort_metas [] = []
  sort_metas (m ∷ metas) = place_meta m (sort_metas metas)

  abbrev pub unified_account : UnifiedAccountMetadata → Ufvk → Account
  unified_account meta ufvk = lib.set_spending (
      lib.set_provenance (codes "zcashd_mnemonic") (
        lib.set_derived meta.seed_fingerprint meta.zip32_account_id
          (lib.set_name (lib.account_name meta.zip32_account_id) (lib.ufvk_account ufvk))))

  -- The viewing key of a fingerprint, or the error.
  abbrev pub ufvk_of : Bytes → Option Ufvk → Result MigrateError Ufvk
  ufvk_of ufvk_fp none = err (missing_account_ufvk ufvk_fp)
  ufvk_of ufvk_fp (some ufvk) = ok ufvk

  -- The loop over the unified accounts.
  unfoldable pub add_unified :
      (full_viewing_keys : List (Bytes × Ufvk))
      → List (Bytes × UnifiedAccountMetadata)
      → WalletAccounts Account Ufvk
      → Result MigrateError (WalletAccounts Account Ufvk)
  add_unified full_viewing_keys [] w = ok w
  add_unified full_viewing_keys ((ufvk_fp, meta) ∷ metas) w =
      bind (ufvk_of ufvk_fp (HashMap.get ufvk_fp full_viewing_keys)) (λ ufvk.
        add_unified full_viewing_keys metas (record {
          accounts = w.accounts ++ (unified_account meta ufvk ∷ []);
          ufvk_index = HashMap.insert ufvk_fp (length w.accounts) w.ufvk_index;
          unified = w.unified ++ ((length w.accounts, ufvk) ∷ []);
          legacy_index = w.legacy_index;
        }))

  -- The fingerprint of the legacy account's seed: the mnemonic's, or what zcashd would derive.
  abbrev pub legacy_seed_fp : Option Bytes → Option LegacySeed → Result MigrateError (Option Bytes)
  legacy_seed_fp (some fp) seed = ok (some fp)
  legacy_seed_fp none seed = bind (legacy_mnemonic_seed seed) (λ r. ok (fp_of r))
    where
      fp_of : Option (Bip39Mnemonic × Bytes) → Option Bytes
      fp_of none = none
      fp_of (some (mnemonic, fp)) = some fp

  abbrev pub legacy_account : Option Bytes → Account
  legacy_account seed_fp = lib.set_spending (
      lib.set_provenance (codes "zcashd_legacy")
        (source seed_fp (lib.set_name (codes "Legacy") lib.transparent_account)))
    where
      source : Option Bytes → Account → Account
      source none account = lib.set_imported account
      source (some fp) account = lib.set_derived fp zcashd_legacy_account account

  -- `legacy_index` is set at the end.
  unfoldable pub build_accounts :
      (full_viewing_keys : List (Bytes × Ufvk))
      → (account_metadata : List (Bytes × UnifiedAccountMetadata)) → Option Bip39Mnemonic
      → Option MnemonicHdChain
      → Option LegacySeed
      → Result MigrateError (WalletAccounts Account Ufvk)
  unfolding sort_metas add_unified mnemonic_seed_fingerprint legacy_mnemonic_seed
  build_accounts full_viewing_keys account_metadata mnemonic chain seed =
      bind
        (add_unified full_viewing_keys (sort_metas account_metadata)
          (record { accounts = []; ufvk_index = []; unified = []; legacy_index = 0 }))
        (λ w. bind (legacy_seed_fp (mnemonic_seed_fingerprint mnemonic chain) seed) (λ fp.
          ok (record w {
            accounts = w.accounts ++ (legacy_account fp ∷ []);
            legacy_index = length w.accounts;
          })))
