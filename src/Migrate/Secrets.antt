-- ===== src/Migrate/Secrets.antt =====
-- src/migrate/secrets.rs: the secret keys of a document.
use zewif_zcashd.Base.{
  Bool, List, [], ◌∷◌, ◌++◌, Option, none, some, Result, ok, err, panic, bind, map_err,
  if◌then◌else◌,
}
use zewif_zcashd.Wire.Parser.{Bytes}
use zewif_zcashd.Wallet.Meta.{Network, mainnet, testnet, regtest}
use zewif_zcashd.Wallet.Transparent.{PrivKey}
use zewif_zcashd.Wallet.Transparent.Der.{secp256k1_scalar}
use zewif_zcashd.Zcashd.Keys.{SproutSpendingKey}
use zewif_zcashd.Migrate.State.{MigrateError, invalid_transparent_pub_key, invalid_private_key}

-- Base58Check and the public keys and entries of the crate zewif.
pub record SecretLibrary (PubKey Store : Type 0) : Type 0 where
  pub with_check : Bytes → Bytes
  pub pub_key_from_bytes : Bytes → Option PubKey
  pub is_compressed : PubKey → Bool
  pub add_transparent_key : PubKey → (wif : Bytes) → Store → Store
  pub add_sprout_key : (address key : Bytes) → Store → Store

module _ {PubKey Store : Type 0} (lib : SecretLibrary PubKey Store) where
  abbrev pub or_invalid_pub_key : Option PubKey → Result MigrateError PubKey
  or_invalid_pub_key none = err invalid_transparent_pub_key
  or_invalid_pub_key (some pubkey) = ok pubkey

  unfoldable pub wif_version : Network → Bytes
  wif_version mainnet = 0x80 ∷ []
  wif_version testnet = 0xef ∷ []
  wif_version regtest = 0xef ∷ []

  -- The public key of an entry, and its private key in the WIF encoding.
  unfoldable pub transparent_key_entry :
      Bytes → PrivKey → Network → Result MigrateError (PubKey × Bytes)
  unfolding wif_version
  transparent_key_entry pubkey privkey network =
      bind (or_invalid_pub_key (lib.pub_key_from_bytes pubkey)) (λ key.
        bind (map_err invalid_private_key (secp256k1_scalar privkey.der)) (λ scalar. ok (
          key,
          lib.with_check (
              wif_version network ++ (scalar ++ (if lib.is_compressed key then 0x01 ∷ [] else []))),
        )))

  -- What does not convert is left out, with a warning.
  abbrev pub keep_entry : Result MigrateError (PubKey × Bytes) → Store → Result MigrateError Store
  keep_entry (ok (pubkey, wif)) store = ok (lib.add_transparent_key pubkey wif store)
  keep_entry (err e) store = ok store
  keep_entry panic store = panic

  unfoldable pub add_transparent_keys :
      Network → List (Bytes × PrivKey) → Store → Result MigrateError Store
  unfolding transparent_key_entry
  add_transparent_keys network [] store = ok store
  add_transparent_keys network ((pubkey, privkey) ∷ sources) store =
      bind (keep_entry (transparent_key_entry pubkey privkey network) store)
        (λ store'. add_transparent_keys network sources store')

  unfoldable pub sprout_prefix : Network → Bytes
  sprout_prefix mainnet = 0xab ∷ 0x36 ∷ []
  sprout_prefix testnet = 0xac ∷ 0x08 ∷ []
  sprout_prefix regtest = 0xac ∷ 0x08 ∷ []

  unfoldable pub add_sprout_keys : Network → List (Bytes × SproutSpendingKey) → Store → Store
  unfolding sprout_prefix
  add_sprout_keys network [] store = store
  add_sprout_keys network ((address, key) ∷ keys) store = add_sprout_keys network keys (
      lib.add_sprout_key address (lib.with_check (sprout_prefix network ++ key.spending_key)) store)
