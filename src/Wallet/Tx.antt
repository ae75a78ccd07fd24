-- ===== src/Wallet/Tx.antt =====
-- Wallet transactions: src/zcashd_wallet/wallet_tx.rs and orchard/orchard_tx_meta.rs, and the parsers of
-- src/zcashd_wallet/parseable_types.rs that they use.
use zewif_zcashd.Base.{
  ℕ, ℤ, Bool, true, false, List, Option, none, some, pure, raise, abort, ◌>>=◌, ◌>>◌, ◌==◌, length,
}
use zewif_zcashd.Base.Bytes.{eq_bytes}
use zewif_zcashd.Base.HashMap.{Eq}
use zewif_zcashd.Wire.Error.{with_frame, text, of_kind, invalid_orchard_ivk}
use zewif_zcashd.Wire.Parser.{Bytes, P, rest}
use zewif_zcashd.Wire.Ints.{u32, i32, bool}
use zewif_zcashd.Wire.Collections.{compact_size, string, parse_pair, parse_vec, parse_hashmap}
use zewif_zcashd.Wallet.Words.{byte_array, u256}
use zewif_zcashd.Wallet.Meta.{ClientVersion, client_version}
use zewif_zcashd.Wallet.Trees.{
  JsOutPoint, js_out_point, OutPoint, out_point, SproutNoteData, sprout_note_data, SaplingNoteData,
  sapling_note_data,
}

-- What other crates read and say of transactions and Orchard keys. Transaction ids and block hashes are
-- their bytes. The `size` fields are the `size_of` entries of maps, whose layout the compiler chooses.
pub record TxLibrary (Transaction OrchardIvk : Type 0) : Type 0 where
  pub read_txid : P Bytes
  pub read_block_hash : P Bytes
  pub read_transaction : P Transaction
  pub has_sapling : Transaction → Bool
  pub has_orchard : Transaction → Bool
  pub orchard_ivk_from_bytes : Bytes → Option OrchardIvk
  pub witness_size : ℕ
  pub sprout_entry_size : ℕ
  pub sapling_entry_size : ℕ
  pub orchard_entry_size : ℕ

pub record OrchardTxMeta (OrchardIvk : Type 0) : Type 0 where
  pub version : ClientVersion
  pub receiving_keys : List (ℕ × OrchardIvk)
  pub actions_spending_my_nodes : List ℕ

pub record WalletTx (Transaction OrchardIvk : Type 0) : Type 0 where
  pub transaction : Transaction
  pub hash_block : Bytes
  pub merkle_branch : List Bytes
  pub index : ℤ
  pub map_value : List (Bytes × Bytes)
  pub map_sprout_note_data : List (JsOutPoint × SproutNoteData)
  pub order_form : List (Bytes × Bytes)
  pub time_received_is_tx_time : ℤ
  pub time_received : ℤ
  pub is_from_me : Bool
  pub is_spent : Bool
  pub sapling_note_data : Option (List (OutPoint × SaplingNoteData))
  pub orchard_tx_meta : Option (OrchardTxMeta OrchardIvk)
  pub unparsed_data : Bytes

-- A field that only some versions of a transaction hold.
abbrev pub when {ℓ} : {A : Type ℓ} → Bool → P A → P (Option A)
when true parse = do value ← parse; pure (some value)
when false parse = pure none

-- `assert!`
abbrev pub assert : Bool → P (Unit {0})
assert true = pure tt
assert false = abort

module _ {Transaction OrchardIvk : Type 0} (lib : TxLibrary Transaction OrchardIvk) where
  abbrev orchard_ivk_of : Option OrchardIvk → P OrchardIvk
  orchard_ivk_of none = raise (of_kind invalid_orchard_ivk)
  orchard_ivk_of (some ivk) = pure ivk

  unfoldable pub orchard_ivk : P OrchardIvk
  orchard_ivk = do
    bytes ← with_frame (text "orchard IVK") (byte_array 64)
    orchard_ivk_of (lib.orchard_ivk_from_bytes bytes)

  module _ ⦃eq_action : Eq ℕ⦄ where
    unfoldable pub orchard_tx_meta : P (OrchardTxMeta OrchardIvk)
    unfolding orchard_ivk
    orchard_tx_meta = do
      version ← with_frame (text "version") client_version
      receiving_keys ←
          with_frame (text "receiving_keys") (parse_hashmap lib.orchard_entry_size u32 orchard_ivk)
      actions ← with_frame (text "actions_spending_my_nodes") (parse_vec 4 u32)
      pure (record {
        version = version;
        receiving_keys = receiving_keys;
        actions_spending_my_nodes = actions;
      })

    module _ ⦃eq_js : Eq JsOutPoint⦄ ⦃eq_out : Eq OutPoint⦄ where
      -- A string takes 24 bytes, and so a pair of strings 48.
      unfoldable pub wallet_tx : P (WalletTx Transaction OrchardIvk)
      unfolding orchard_tx_meta
      wallet_tx = do
        transaction ← with_frame (text "wallet_transaction") lib.read_transaction
        hash_block ← with_frame (text "hash_block") lib.read_block_hash
        merkle_branch ← with_frame (text "merkle_branch") (parse_vec 32 u256)
        index ← with_frame (text "index") i32
        unused_vt_prev ← with_frame (text "unused_vt_prev") compact_size
        assert (unused_vt_prev == 0)
        map_value ← with_frame (text "map_value") (parse_hashmap 48 string string)
        map_sprout_note_data ←
            with_frame (text "map_sprout_note_data")
              (parse_hashmap lib.sprout_entry_size js_out_point (sprout_note_data lib.witness_size))
        order_form ← with_frame (text "order_form") (parse_vec 48 (parse_pair string string))
        time_received_is_tx_time ← with_frame (text "time_received_is_tx_time") i32
        time_received ← with_frame (text "time_received") i32
        from_me ← with_frame (text "from_me") bool
        is_spent ← with_frame (text "is_spent") bool
        sapling ← when (lib.has_sapling transaction) (
            with_frame (text "sapling_note_data") (
              parse_hashmap lib.sapling_entry_size (out_point lib.read_txid)
                (sapling_note_data lib.witness_size)))
        orchard ←
            when (lib.has_orchard transaction) (with_frame (text "orchard_tx_meta") orchard_tx_meta)
        unparsed_data ← rest
        assert (length unparsed_data == 0)
        pure (record {
          transaction = transaction;
          hash_block = hash_block;
          merkle_branch = merkle_branch;
          index = index;
          map_value = map_value;
          map_sprout_note_data = map_sprout_note_data;
          order_form = order_form;
          time_received_is_tx_time = time_received_is_tx_time;
          time_received = time_received;
          is_from_me = from_me;
          is_spent = is_spent;
          sapling_note_data = sapling;
          orchard_tx_meta = orchard;
          unparsed_data = unparsed_data;
        })
