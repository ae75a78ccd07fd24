-- ===== src/Migrate/State.antt =====
-- src/migrate/accounts.rs and error.rs: the accounts of a migration, and its errors.
use zewif_zcashd.Base.{
  ℕ, ◌-◌, List, [], ◌∷◌, Result, ok, panic, bind, if◌then◌else◌, ◌==◌, ◌<◌, length, All,
}
use zewif_zcashd.Wire.Error.{ParseError}
use zewif_zcashd.Wire.Parser.{Bytes}

-- What other crates say of an error is left out. A fingerprint and a transaction id are their bytes.
pub data MigrateError : Type 0 where
  missing_account_ufvk : (fingerprint : Bytes) → MigrateError
  missing_address_ufvk : (fingerprint : Bytes) → MigrateError
  invalid_receiver_types : MigrateError
  unified_address_derivation : MigrateError
  invalid_public_key : MigrateError
  invalid_transparent_pub_key : MigrateError
  invalid_private_key : ParseError → MigrateError
  invalid_legacy_seed_length : MigrateError
  transaction_conversion : (txid : Bytes) (source : MigrateError) → MigrateError
  transaction_serialization : MigrateError
  parse_error : ParseError → MigrateError
  zewif_error : MigrateError

-- `ufvk_index` maps the fingerprint of a unified account to its place in `accounts`.
pub record WalletAccounts (Account Ufvk : Type 0) : Type 0 where
  pub accounts : List Account
  pub ufvk_index : List (Bytes × ℕ)
  pub unified : List (ℕ × Ufvk)
  pub legacy_index : ℕ

-- `accounts[index]`, to change it; out of bounds is a panic.
unfoldable pub update_at {ℓ} : {A : Type ℓ} → ℕ → (A → A) → List A → Result MigrateError (List A)
update_at index f [] = panic
update_at index f (x ∷ xs) =
    let rest = update_at (index - 1) f xs in
    if index == 0 then ok (f x ∷ xs) else bind rest (λ ys. ok (x ∷ ys))

-- The places of accounts below a number of them.
abbrev pub AreBelow : {A : Type 0} → ℕ → List (ℕ × A) → Type 0
AreBelow n m = All (λ (i, a). i < n) m

-- The places that the accounts name are in bounds.
abbrev pub IsInBounds : {Account Ufvk : Type 0} → WalletAccounts Account Ufvk → Type 0
IsInBounds accounts =
    (accounts.legacy_index < length accounts.accounts)
    × AreBelow (length accounts.accounts) accounts.unified
    × All (λ (fingerprint, index). index < length accounts.accounts) accounts.ufvk_index
