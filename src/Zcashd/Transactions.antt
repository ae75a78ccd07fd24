-- ===== src/Zcashd/Transactions.antt =====
-- src/zcashd_parser.rs: the transactions and the Orchard note commitment tree.
-- src/zcashd_wallet/orchard/orchard_note_commitment_tree.rs.
use zewif_zcashd.Base.{
  ℕ, Bool, false, List, [], Option, Result, ok, err, panic, pure, raise, abort, ◌>>=◌, ◌>>◌,
  if◌then◌else◌, ◌==◌, ltb, length, drop, map_err,
}
use zewif_zcashd.Base.Bytes.{codes, eq_bytes}
use zewif_zcashd.Base.HashMap.{insert, contains_key}
use zewif_zcashd.Base.BTreeMap.{Ord}
use zewif_zcashd.Wire.Error.{ParseError, push_frame, text, of_kind, external}
use zewif_zcashd.Wire.Parser.{Bytes, P, parse_buf}
use zewif_zcashd.Wallet.Tx.{TxLibrary, WalletTx, wallet_tx}
use zewif_zcashd.Wallet.Equality.{eq_nat, eq_out_point, eq_js_out_point}
use zewif_zcashd.Dump.{DbKey, DbValue, ZcashdDump}
use zewif_zcashd.Zcashd.State.{
  Z, parse_in, parse_error, mark_key_parsed, marked_value, for_records, has_keys, records_of,
  duplicate_transaction,
}
use zewif_zcashd.Zcashd.Records.{sort_by_data}

module _ {Transaction OrchardIvk : Type 0} (lib : TxLibrary Transaction OrchardIvk) where
  abbrev pub Transactions : Type 0
  Transactions = List (Bytes × WalletTx Transaction OrchardIvk)

  -- The match on the parsed transaction. What does not parse is left out, unless `strict`.
  unfoldable pub keep_transaction :
      (strict : Bool)
      → Result ParseError (WalletTx Transaction OrchardIvk)
      → (txid : Bytes) → Transactions
      → Z Transactions
  keep_transaction strict (ok transaction) txid m =
      if contains_key txid m
      then raise (duplicate_transaction txid)
      else pure (insert txid transaction m)
  keep_transaction strict (err e) txid m = if strict then raise (parse_error e) else pure m
  keep_transaction strict panic txid m = abort

  abbrev pub parsed_transaction : Bytes → Result ParseError (WalletTx Transaction OrchardIvk)
  parsed_transaction value =
      map_err (push_frame (text "transaction")) (parse_buf (wallet_tx lib) value false)

  unfoldable pub transaction_round :
      (strict : Bool) → Transactions → DbKey → DbValue → Z Transactions
  unfolding keep_transaction
  transaction_round strict m key value = do
    txid ← parse_in "transaction ID" lib.read_txid key.key_data
    m' ← keep_transaction strict (parsed_transaction value) txid m
    mark_key_parsed key
    pure m'

  -- `datas` is the order of `Data`. The records are sorted as the watch-only scripts are.
  unfoldable pub parse_transactions :
      (names : Ord Bytes) (keys : Ord DbKey) (d : ZcashdDump)
      → (datas : Ord Bytes) (strict : Bool) → Z Transactions
  unfolding transaction_round for_records sort_by_data
  parse_transactions names keys d datas strict =
      if has_keys names keys d (codes "tx")
      then (do
        records ← records_of names keys d (codes "tx")
        for_records (transaction_round strict) (sort_by_data datas records) [])
      else pure []

-- A position in the tree is a number.
pub record NotePositions : Type 0 where
  pub tx_height : ℕ
  pub note_positions : List (ℕ × ℕ)

pub record OrchardNoteCommitmentTree (BridgeTree : Type 0) : Type 0 where
  pub last_checkpoint : Option ℕ
  pub commitment_tree : BridgeTree
  pub note_positions : List (Bytes × NotePositions)

-- The readers of other crates, of which `read_tree` stands for the copy of zcashd's reader of bridge
-- trees. `read_optional` and `read_collected` are `Optional::read` and `Vector::read_collected`; a
-- `BTreeMap` is collected by the order of its keys.
pub record TreeLibrary (BridgeTree : Type 0) : Type 1 where
  pub read_u8 : P ℕ
  pub read_u32 : P ℕ
  pub read_optional : {A : Type 0} → P A → P (Option A)
  pub read_collected : {A : Type 0} → P A → P (List A)
  pub read_tree : P BridgeTree
  pub read_position : P ℕ
  pub read_txid : P Bytes
  pub to_btree_map : List (ℕ × ℕ) → List (ℕ × ℕ)

module _ {BridgeTree : Type 0} (trees : TreeLibrary BridgeTree) where
  unfoldable pub note_positions_of : P (Bytes × NotePositions)
  note_positions_of = do
    txid ← trees.read_txid
    tx_height ← trees.read_u32
    positions ←
        trees.read_collected
          (do index ← trees.read_u32; position ← trees.read_position; pure (index, position))
    pure (txid, record { tx_height = tx_height; note_positions = trees.to_btree_map positions })

  -- `NOTE_STATE_V1`; the error is an `io::Error`.
  unfoldable pub orchard_note_commitment_tree : P (OrchardNoteCommitmentTree BridgeTree)
  unfolding note_positions_of
  orchard_note_commitment_tree = do
    version ← trees.read_u8
    if version == 1
        then (do
          last_checkpoint ← trees.read_optional trees.read_u32
          commitment_tree ← trees.read_tree
          note_positions ← trees.read_collected note_positions_of
          pure (record {
            last_checkpoint = last_checkpoint;
            commitment_tree = commitment_tree;
            note_positions = note_positions;
          }))
        else raise (of_kind (external 0))

  -- `value[4..]` of a shorter value panics.
  unfoldable pub parse_orchard_note_commitment_tree :
      (names : Ord Bytes) (keys : Ord DbKey) (d : ZcashdDump)
      → Z (OrchardNoteCommitmentTree BridgeTree)
  unfolding marked_value
  parse_orchard_note_commitment_tree names keys d = do
    value ← marked_value names keys d (codes "orchard_note_commitment_tree")
    if ltb (length value) 4
        then abort
        else parse_in "orchard note commitment tree" orchard_note_commitment_tree (drop 4 value)
