-- ===== src/Zcashd/Wallet.antt =====
-- src/zcashd_parser.rs: `parse`, the composition of all parsers, and the wallet of
-- src/zcashd_wallet.rs.
pub mod Known
pub mod Singles
pub mod Unlocking
pub mod Rounds
pub mod KeyRounds
pub mod Loops
pub mod KeyLoops
pub mod KeyParsers
pub mod Laws
use zewif_zcashd.Base.{ℕ, ℤ, Bool, List, [], ◌∷◌, Option, Result, ok, pure, ◌>>=◌, bind}
use zewif_zcashd.Base.Bytes.{codes, eq_bytes}
use zewif_zcashd.Base.BTreeMap.{Ord}
use zewif_zcashd.Wire.Parser.{Bytes}
use zewif_zcashd.Wallet.Meta.{ClientVersion, BlockLocator, MnemonicHdChain, NetworkInfo}
use zewif_zcashd.Wallet.Addresses.{SaplingZPaymentAddress, SproutPaymentAddress}
use zewif_zcashd.Wallet.Transparent.{KeyPair, KeyPoolEntry, WalletKey}
use zewif_zcashd.Wallet.Transparent.WatchScript.{WatchScript}
use zewif_zcashd.Wallet.Tx.{TxLibrary, WalletTx}
use zewif_zcashd.Wallet.Equality.{eq_int, eq_sprout_address, eq_sapling_address}
use zewif_zcashd.Dump.{DbKey, DbValue, ZcashdDump}
use zewif_zcashd.Zcashd.State.{Error, Z, EncryptedKeyPolicy, reject}
use zewif_zcashd.Zcashd.Records.{
  parse_address_names, parse_address_purposes, parse_sapling_z_addresses, parse_cscripts,
  parse_key_pool, parse_watch_scripts, parse_wallet_keys,
}
use zewif_zcashd.Zcashd.Records.Single.{
  parse_i64, parse_opt_i64, parse_client_version, parse_block_locator, parse_opt_block_locator,
  parse_default_key, parse_mnemonic_hd_chain, parse_network_info,
}
use zewif_zcashd.Zcashd.Keys.{Libraries, SproutSpendingKey, parse_keys, parse_sprout_keys}
use zewif_zcashd.Zcashd.MasterKey.{derive_master_key}
use zewif_zcashd.Zcashd.Seeds.{SeedLibrary, parse_hdseed, parse_mnemonic_phrase}
use zewif_zcashd.Zcashd.Sapling.{
  SaplingLibrary, SaplingKey, parse_sapling_keys, parse_sapling_extended_full_viewing_keys,
}
use zewif_zcashd.Zcashd.Accounts.{
  AccountLibrary, UnifiedAccounts, parse_unified_accounts, RecipientMapping, parse_send_recipients,
}
use zewif_zcashd.Zcashd.Transactions.{
  parse_transactions, TreeLibrary, OrchardNoteCommitmentTree, parse_orchard_note_commitment_tree,
}

-- All that other crates provide: their types, and what the parsers call.
pub record Crates : Type 1 where
  pub LegacySeed : Type 0
  pub MnemonicLanguage : Type 0
  pub Bip39Mnemonic : Type 0
  pub ExtSk : Type 0
  pub ExtFvk : Type 0
  pub Ufvk : Type 0
  pub Transaction : Type 0
  pub OrchardIvk : Type 0
  pub BridgeTree : Type 0
  pub lib : Libraries
  pub seeds : SeedLibrary LegacySeed MnemonicLanguage Bip39Mnemonic
  pub sapling : SaplingLibrary ExtSk ExtFvk
  pub accounts : AccountLibrary Ufvk
  pub txs : TxLibrary Transaction OrchardIvk
  pub trees : TreeLibrary BridgeTree

pub record ZcashdWallet (c : Crates) : Type 0 where
  pub address_names : List (Bytes × Bytes)
  pub address_purposes : List (Bytes × Bytes)
  pub bestblock_nomerkle : Option BlockLocator
  pub bestblock : BlockLocator
  pub client_version : ClientVersion
  pub cscripts : List (Bytes × Bytes)
  pub default_key : Bytes
  pub key_pool : List (ℤ × KeyPoolEntry)
  pub keys : List (Bytes × KeyPair)
  pub min_version : ClientVersion
  pub legacy_hd_seed : Option c.LegacySeed
  pub mnemonic_hd_chain : Option MnemonicHdChain
  pub bip39_mnemonic : Option c.Bip39Mnemonic
  pub network_info : NetworkInfo
  pub orchard_note_commitment_tree : OrchardNoteCommitmentTree c.BridgeTree
  pub orderposnext : Option ℤ
  pub sapling_extended_full_viewing_keys : List (Bytes × c.ExtFvk)
  pub sapling_keys : List (Bytes × SaplingKey c.ExtSk)
  pub sapling_z_addresses : List (SaplingZPaymentAddress × Bytes)
  pub send_recipients : List (Bytes × List RecipientMapping)
  pub sprout_keys : Option (List (SproutPaymentAddress × SproutSpendingKey))
  pub wallet_keys : Option (List (Bytes × WalletKey))
  pub transactions : List (Bytes × WalletTx c.Transaction c.OrchardIvk)
  pub unified_accounts : UnifiedAccounts c.Ufvk
  pub watch_scripts : List WatchScript
  pub witnesscachesize : ℤ

-- `self.dump.records().keys()`, with which a parser starts.
unfoldable pub all_keys : List (DbKey × DbValue) → List DbKey
all_keys [] = []
all_keys ((key, value) ∷ records) = key ∷ all_keys records

-- `datas` is the order of `Data`.
module _ (c : Crates) (names : Ord Bytes) (keys : Ord DbKey) (datas : Ord Bytes) (d : ZcashdDump)
    (policy : EncryptedKeyPolicy) (strict : Bool) where
  unfoldable pub parse : Z (ZcashdWallet c)
  parse = do
    master_key ← derive_master_key c.lib names keys d policy
    bestblock ← parse_block_locator names keys d (codes "bestblock")
    cscripts ← parse_cscripts names keys d
    default_key ← parse_default_key names keys d
    legacy_hd_seed ← parse_hdseed c.seeds c.lib names keys d policy master_key
    key_pairs ← parse_keys c.lib names keys d policy master_key
    min_version ← parse_client_version names keys d (codes "minversion")
    address_names ← parse_address_names names keys d
    orderposnext ← parse_opt_i64 names keys d (codes "orderposnext")
    key_pool ← parse_key_pool names keys d
    address_purposes ← parse_address_purposes names keys d
    sapling_z_addresses ← parse_sapling_z_addresses names keys d
    viewing_keys ← parse_sapling_extended_full_viewing_keys c.sapling names keys d
    sapling_keys ← parse_sapling_keys c.sapling c.lib names keys d policy master_key
    transactions ← parse_transactions c.txs names keys d datas strict
    client_version ← parse_client_version names keys d (codes "version")
    watch_scripts ← parse_watch_scripts names keys d datas
    witnesscachesize ← parse_i64 names keys d (codes "witnesscachesize")
    wallet_keys ← parse_wallet_keys names keys d
    sprout_keys ← parse_sprout_keys c.lib names keys d policy
    network_info ← parse_network_info names keys d
    tree ← parse_orchard_note_commitment_tree c.trees names keys d
    unified_accounts ← parse_unified_accounts c.accounts names keys d
    bip39_mnemonic ← parse_mnemonic_phrase c.seeds c.lib names keys d policy master_key
    mnemonic_hd_chain ← parse_mnemonic_hd_chain names keys d
    send_recipients ← parse_send_recipients c.txs.read_txid names keys d
    bestblock_nomerkle ← parse_opt_block_locator names keys d (codes "bestblock_nomerkle")
    pure (record {
      address_names = address_names;
      address_purposes = address_purposes;
      bestblock_nomerkle = bestblock_nomerkle;
      bestblock = bestblock;
      client_version = client_version;
      cscripts = cscripts;
      default_key = default_key;
      key_pool = key_pool;
      keys = key_pairs;
      min_version = min_version;
      legacy_hd_seed = legacy_hd_seed;
      mnemonic_hd_chain = mnemonic_hd_chain;
      bip39_mnemonic = bip39_mnemonic;
      network_info = network_info;
      orchard_note_commitment_tree = tree;
      orderposnext = orderposnext;
      sapling_extended_full_viewing_keys = viewing_keys;
      sapling_keys = sapling_keys;
      sapling_z_addresses = sapling_z_addresses;
      send_recipients = send_recipients;
      sprout_keys = sprout_keys;
      wallet_keys = wallet_keys;
      transactions = transactions;
      unified_accounts = unified_accounts;
      watch_scripts = watch_scripts;
      witnesscachesize = witnesscachesize;
    })

  -- `parse_dump_with_policy`: the wallet, and the keys that stayed unparsed.
  unfoldable pub parse_dump_with_policy : Result Error (ZcashdWallet c × List DbKey)
  unfolding parse all_keys
  parse_dump_with_policy = parse (all_keys d.records)

-- `parse_dump`
unfoldable pub parse_dump :
    (c : Crates) (names : Ord Bytes) (keys : Ord DbKey) (datas : Ord Bytes)
    → ZcashdDump
    → (strict : Bool) → Result Error (ZcashdWallet c × List DbKey)
unfolding parse_dump_with_policy
parse_dump c names keys datas d strict = parse_dump_with_policy c names keys datas d reject strict
