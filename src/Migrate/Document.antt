-- ===== src/Migrate/Document.antt =====
-- src/migrate/transactions.rs and migrate_to_zewif.rs: the transactions, their heights, and what the
-- document says of the chain.
pub mod Laws
use zewif_zcashd.Base.{
  ℕ, ℤ, pos, negsuc, Bool, true, false, not, ◌&&◌, List, [], ◌∷◌, Option, none, some, Result, ok,
  err, bind, map_err, if◌then◌else◌, ltb, ◌==◌, replicate,
}
use zewif_zcashd.Base.Bytes.{bytes_eq, eq_bytes}
use zewif_zcashd.Base.HashMap
use zewif_zcashd.Base.BTreeMap
use zewif_zcashd.Base.BTreeMap.{Ord}
use zewif_zcashd.Wire.Parser.{Bytes}
use zewif_zcashd.Wallet.Meta.{BlockLocator, Network, mainnet, testnet, regtest}
use zewif_zcashd.Wallet.Tx.{WalletTx}
use zewif_zcashd.Zcashd.Transactions.{NotePositions}
use zewif_zcashd.Migrate.State.{MigrateError, transaction_serialization, transaction_conversion}

-- Transactions of the document and of the chain, and accounts, of other crates.
pub record DocumentLibrary (Account Tx Transaction : Type 0) : Type 0 where
  pub new : (txid : Bytes) → Tx
  pub write : Transaction → Option Bytes
  pub expiry_height : Transaction → ℕ
  pub set_tx_data : Bytes → Tx → Tx
  pub set_block_position : (block_hash : Bytes) → (index : ℕ) → Tx → Tx
  pub set_mined_height : ℕ → Tx → Tx
  pub set_expiry_height : ℕ → Tx → Tx
  pub set_created_time : ℕ → Tx → Tx
  pub relevant_transactions : Account → List Bytes
  pub set_birthday_height : ℕ → Account → Account

abbrev pub zero_hash : Bytes
zero_hash = replicate 32 0

-- The network upgrades, and the local parameters of the crate zcash_protocol.
pub data Upgrade : Type 0 where
  overwinter sapling blossom heartwood canopy nu5 nu6 nu6_1 nu6_2 : Upgrade

abbrev pub LocalNetwork : Type 0
LocalNetwork = Upgrade → Option ℕ

-- The network of a document: the schedule of a regtest network maps branch ids to heights.
pub data ExportNetwork : Type 0 where
  main test : ExportNetwork
  local_test : (activations : List (ℕ × ℕ)) → ExportNetwork

-- `branch_id` is `u32::from(BranchId)`, and `ids` the order of `u32`.
module _ (branch_id : Upgrade → ℕ) (ids : Ord ℕ) where
  unfoldable pub add_activations : LocalNetwork → List Upgrade → List (ℕ × ℕ) → List (ℕ × ℕ)
  add_activations local [] activations = activations
  add_activations local (upgrade ∷ upgrades) activations = elim (local upgrade) [
    | none ↦ add_activations local upgrades activations
    | some height ↦
        add_activations local upgrades (BTreeMap.insert ids (branch_id upgrade) height activations)
  ]

  abbrev pub upgrades_in_order : List Upgrade
  upgrades_in_order =
      overwinter ∷ sapling ∷ blossom ∷ heartwood ∷ canopy ∷ nu5 ∷ nu6 ∷ nu6_1 ∷ nu6_2 ∷ []

  unfoldable pub regtest_params_from_local : LocalNetwork → List (ℕ × ℕ)
  unfolding add_activations
  regtest_params_from_local local = add_activations local upgrades_in_order []

  -- The parser's regtest network has no schedule.
  unfoldable pub export_network : Network → Option LocalNetwork → ExportNetwork
  unfolding regtest_params_from_local
  export_network mainnet local = main
  export_network testnet local = test
  export_network regtest none = local_test []
  export_network regtest (some local) = local_test (regtest_params_from_local local)

-- The first block of the locator, or the zero hash.
unfoldable pub best_block_hash : BlockLocator → Bytes
best_block_hash locator = elim locator.blocks [ [] ↦ zero_hash | block ∷ blocks ↦ block ]

-- `collect_tx_heights`, from what is collected so far.
unfoldable pub collect_tx_heights :
    List (Bytes × NotePositions) → List (Bytes × ℕ) → List (Bytes × ℕ)
collect_tx_heights [] heights = heights
collect_tx_heights ((txid, positions) ∷ transactions) heights =
    collect_tx_heights transactions (HashMap.insert txid positions.tx_height heights)

-- `filter_map(…).min()`
abbrev pub smaller : Option ℕ → Option ℕ → Option ℕ
smaller none rest = rest
smaller (some h) none = some h
smaller (some h) (some k) = if ltb k h then some k else some h

unfoldable pub earliest : List (Bytes × ℕ) → List Bytes → Option ℕ
earliest heights [] = none
earliest heights (txid ∷ txids) = smaller (HashMap.get txid heights) (earliest heights txids)

abbrev pub or_unserialized : Option Bytes → Result MigrateError Bytes
or_unserialized none = err transaction_serialization
or_unserialized (some raw) = ok raw

module _ {Account Tx Transaction : Type 0} (lib : DocumentLibrary Account Tx Transaction) where
  -- Block linkage: a hash that is not zero and an index that is not negative.
  abbrev pub with_block : (block_hash : Bytes) → (index : ℤ) → Tx → Tx
  with_block block_hash (negsuc n) tx = tx
  with_block block_hash (pos n) tx =
      if not (bytes_eq block_hash zero_hash) then lib.set_block_position block_hash n tx else tx

  abbrev pub with_height : Option ℕ → Tx → Tx
  with_height none tx = tx
  with_height (some height) tx = lib.set_mined_height height tx

  abbrev pub with_expiry : ℕ → Tx → Tx
  with_expiry expiry tx = if not (expiry == 0) then lib.set_expiry_height expiry tx else tx

  abbrev pub with_time : ℤ → Tx → Tx
  with_time (negsuc n) tx = tx
  with_time (pos n) tx = if ltb 0 n then lib.set_created_time n tx else tx

module _ {Account Tx Transaction OrchardIvk : Type 0}
    (lib : DocumentLibrary Account Tx Transaction) where
  unfoldable pub convert_transaction :
      Bytes → WalletTx Transaction OrchardIvk → List (Bytes × ℕ) → Result MigrateError Tx
  convert_transaction txid wtx tx_heights =
      bind (or_unserialized (lib.write wtx.transaction)) (λ raw. ok (
        with_time lib wtx.time_received (
          with_expiry lib (lib.expiry_height wtx.transaction) (
            with_height lib (HashMap.get txid tx_heights)
              (with_block lib wtx.hash_block wtx.index (lib.set_tx_data raw (lib.new txid)))))))

  unfoldable pub convert_transactions :
      (tx_heights : List (Bytes × ℕ))
      → List (Bytes × WalletTx Transaction OrchardIvk)
      → List (Bytes × Tx)
      → Result MigrateError (List (Bytes × Tx))
  unfolding convert_transaction
  convert_transactions tx_heights [] transactions = ok transactions
  convert_transactions tx_heights ((txid, wtx) ∷ rest) transactions =
      bind (map_err (transaction_conversion txid) (convert_transaction txid wtx tx_heights))
        (λ tx. convert_transactions tx_heights rest (HashMap.insert txid tx transactions))

module _ {Account Tx Transaction : Type 0} (lib : DocumentLibrary Account Tx Transaction) where
  abbrev pub with_birthday : Option ℕ → Account → Account
  with_birthday none account = account
  with_birthday (some height) account = lib.set_birthday_height height account

  unfoldable pub set_account_birthdays :
      (tx_heights : List (Bytes × ℕ)) → List Account → List Account
  unfolding earliest
  set_account_birthdays tx_heights [] = []
  set_account_birthdays tx_heights (account ∷ accounts) =
      with_birthday (earliest tx_heights (lib.relevant_transactions account)) account
      ∷ set_account_birthdays tx_heights accounts
