-- ===== src/Zcashd/Wallet/Rounds.antt =====
-- What one round of each loop does to the set of unparsed keys.
use zewif_zcashd.Base.{Bool, List, Result, ok, err, String, ℤ}
use zewif_zcashd.Base.Bytes.{eq_bytes}
use zewif_zcashd.Base.HashMap.{Eq}
use zewif_zcashd.Wire.Error.{ParseError}
use zewif_zcashd.Wire.Parser.{Bytes, P}
use zewif_zcashd.Wallet.Transparent.{KeyPoolEntry, WalletKey}
use zewif_zcashd.Wallet.Transparent.WatchScript.{WatchScript}
use zewif_zcashd.Wallet.Equality.{eq_int, eq_sprout_address}
use zewif_zcashd.Wallet.Tx.{TxLibrary, WalletTx}
use zewif_zcashd.Dump.{DbKey, DbValue}
use zewif_zcashd.Zcashd.State.{Error}
use zewif_zcashd.Zcashd.Records.{unique_entry, key_pool_round, wallet_key_round, watch_script_round}
use zewif_zcashd.Zcashd.Sapling.{SaplingLibrary, viewing_key_round}
use zewif_zcashd.Zcashd.Accounts.{
  AccountLibrary, address_metadata_round, account_metadata_round, full_viewing_key_round,
  RecipientMapping, send_recipient_round,
}
use zewif_zcashd.Zcashd.Transactions.{Transactions, keep_transaction, transaction_round}
use zewif_zcashd.Zcashd.Effects.{Handles, handling}
use zewif_zcashd.Zcashd.Effects.Marks.{Marks}
use zewif_zcashd.Zcashd.Wallet.Known.{IsKnown, marking}

module _ {K V : Type 0} ⦃eq : Eq K⦄ (kc vc : String) (pk : P K) (pv : P V)
    (duplicate : K → Error) where
  pub Marks-unique_entry :
      (m : List (K × V)) (key : DbKey) (value : DbValue)
      → IsKnown key
      → Marks IsKnown (unique_entry kc pk vc pv duplicate m key value)
  unfolding unique_entry
  Marks-unique_entry m key value known = search marking depth 12

pub Marks-key_pool_round :
    (m : List (ℤ × KeyPoolEntry)) (key : DbKey) (value : DbValue)
    → IsKnown key
    → Marks IsKnown (key_pool_round m key value)
unfolding key_pool_round
Marks-key_pool_round m key value known = search marking depth 12

pub Handles-key_pool_round :
    (m : List (ℤ × KeyPoolEntry)) (key : DbKey) (value : DbValue)
    → Handles key (key_pool_round m key value)
unfolding key_pool_round
Handles-key_pool_round m key value = search handling depth 12

pub Marks-wallet_key_round :
    (m : List (Bytes × WalletKey)) (key : DbKey) (value : DbValue)
    → IsKnown key
    → Marks IsKnown (wallet_key_round m key value)
unfolding wallet_key_round
Marks-wallet_key_round m key value known = search marking depth 12

pub Handles-wallet_key_round :
    (m : List (Bytes × WalletKey)) (key : DbKey) (value : DbValue)
    → Handles key (wallet_key_round m key value)
unfolding wallet_key_round
Handles-wallet_key_round m key value = search handling depth 12

pub Marks-watch_script_round :
    (l : List WatchScript) (key : DbKey) (value : DbValue)
    → IsKnown key
    → Marks IsKnown (watch_script_round l key value)
unfolding watch_script_round
Marks-watch_script_round l key value known = search marking depth 12

pub Handles-watch_script_round :
    (l : List WatchScript) (key : DbKey) (value : DbValue)
    → Handles key (watch_script_round l key value)
unfolding watch_script_round
Handles-watch_script_round l key value = search handling depth 12

module _ {ExtSk ExtFvk : Type 0} (sapling : SaplingLibrary ExtSk ExtFvk) where
  pub Marks-viewing_key_round :
      (m : List (Bytes × ExtFvk)) (key : DbKey) (value : DbValue)
      → IsKnown key
      → Marks IsKnown (viewing_key_round sapling m key value)
  unfolding viewing_key_round
  Marks-viewing_key_round m key value known = search marking depth 12

  pub Handles-viewing_key_round :
      (m : List (Bytes × ExtFvk)) (key : DbKey) (value : DbValue)
      → Handles key (viewing_key_round sapling m key value)
  unfolding viewing_key_round
  Handles-viewing_key_round m key value = search handling depth 12

module _ {Ufvk : Type 0} (accounts : AccountLibrary Ufvk) where
  pub Marks-address_metadata_round :
      (l : _) (key : DbKey) (value : DbValue)
      → IsKnown key
      → Marks IsKnown (address_metadata_round accounts l key value)
  unfolding address_metadata_round
  Marks-address_metadata_round l key value known = search marking depth 12

  pub Handles-address_metadata_round :
      (l : _) (key : DbKey) (value : DbValue)
      → Handles key (address_metadata_round accounts l key value)
  unfolding address_metadata_round
  Handles-address_metadata_round l key value = search handling depth 12

  pub Marks-account_metadata_round :
      (m : _) (key : DbKey) (value : DbValue)
      → IsKnown key
      → Marks IsKnown (account_metadata_round accounts m key value)
  unfolding account_metadata_round
  Marks-account_metadata_round m key value known = search marking depth 12

  pub Handles-account_metadata_round :
      (m : _) (key : DbKey) (value : DbValue)
      → Handles key (account_metadata_round accounts m key value)
  unfolding account_metadata_round
  Handles-account_metadata_round m key value = search handling depth 12

  pub Marks-full_viewing_key_round :
      (m : List (Bytes × Ufvk)) (key : DbKey) (value : DbValue)
      → IsKnown key
      → Marks IsKnown (full_viewing_key_round accounts m key value)
  unfolding full_viewing_key_round
  Marks-full_viewing_key_round m key value known = search marking depth 12

  pub Handles-full_viewing_key_round :
      (m : List (Bytes × Ufvk)) (key : DbKey) (value : DbValue)
      → Handles key (full_viewing_key_round accounts m key value)
  unfolding full_viewing_key_round
  Handles-full_viewing_key_round m key value = search handling depth 12

module _ (read_txid : P Bytes) where
  pub Marks-send_recipient_round :
      (m : List (Bytes × List RecipientMapping)) (key : DbKey) (value : DbValue)
      → IsKnown key
      → Marks IsKnown (send_recipient_round read_txid m key value)
  unfolding send_recipient_round
  Marks-send_recipient_round m key value known = search marking depth 12

  pub Handles-send_recipient_round :
      (m : List (Bytes × List RecipientMapping)) (key : DbKey) (value : DbValue)
      → Handles key (send_recipient_round read_txid m key value)
  unfolding send_recipient_round
  Handles-send_recipient_round m key value = search handling depth 12

module _ {Transaction OrchardIvk : Type 0} (txs : TxLibrary Transaction OrchardIvk)
    (strict : Bool) where
  Marks-keep_transaction :
      (r : Result ParseError (WalletTx Transaction OrchardIvk)) (txid : Bytes)
      (m : Transactions txs)
      → Marks IsKnown (keep_transaction txs strict r txid m)
  unfolding keep_transaction
  Marks-keep_transaction (ok transaction) txid m = search marking
  Marks-keep_transaction (err e) txid m = search marking
  Marks-keep_transaction Result.panic txid m = search marking

  pub Marks-transaction_round :
      (m : Transactions txs) (key : DbKey) (value : DbValue)
      → IsKnown key
      → Marks IsKnown (transaction_round txs strict m key value)
  unfolding transaction_round
  Marks-transaction_round m key value known = search (marking, Marks-keep_transaction) depth 12

  pub Handles-transaction_round :
      (m : Transactions txs) (key : DbKey) (value : DbValue)
      → Handles key (transaction_round txs strict m key value)
  unfolding transaction_round
  Handles-transaction_round m key value = search handling depth 12
