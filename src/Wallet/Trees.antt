-- ===== src/Wallet/Trees.antt =====
-- Note commitment trees and notes: src/zcashd_wallet/incremental_merkle_tree.rs,
-- incremental_witness.rs, sapling/sapling_note_data.rs, sprout/sprout_note_data.rs,
-- sprout/js_out_point.rs and transparent/out_point.rs.
pub mod Laws
use zewif_zcashd.Base.{ℕ, ℤ, List, [], ◌∷◌, ◌++◌, Option, none, some, pure, ◌>>=◌}
use zewif_zcashd.Wire.Error.{with_frame, text}
use zewif_zcashd.Wire.Parser.{Bytes, P}
use zewif_zcashd.Wire.Ints.{u8, u32, u64, i32}
use zewif_zcashd.Wire.Collections.{parse_optional, parse_vec}
use zewif_zcashd.Wallet.Words.{byte_array, u256}
use zewif_zcashd.Wallet.Addresses.{SproutPaymentAddress, sprout_payment_address, sapling_ivk}

-- A hash is its bytes.
pub record IncrementalMerkleTree : Type 0 where
  pub left : Option Bytes
  pub right : Option Bytes
  pub parents : List (Option Bytes)

-- `IncrementalMerkleTree::new`
abbrev pub empty_tree : IncrementalMerkleTree
empty_tree = record { left = none; right = none; parents = [] }

abbrev pub set_left : Bytes → IncrementalMerkleTree → IncrementalMerkleTree
set_left left t = record t { left = some left }

abbrev pub set_right : Bytes → IncrementalMerkleTree → IncrementalMerkleTree
set_right right t = record t { right = some right }

abbrev pub push_parent : Option Bytes → IncrementalMerkleTree → IncrementalMerkleTree
push_parent parent t = record t { parents = t.parents ++ (parent ∷ []) }

-- An `Option<u256>` takes 33 bytes.
unfoldable pub incremental_merkle_tree : P IncrementalMerkleTree
incremental_merkle_tree = do
  left ← with_frame (text "left") (parse_optional u256)
  right ← with_frame (text "right") (parse_optional u256)
  parents ← with_frame (text "parents") (parse_vec 33 (parse_optional u256))
  pure (record { left = left; right = right; parents = parents })

pub record IncrementalWitness : Type 0 where
  pub tree : IncrementalMerkleTree
  pub filled : List Bytes
  pub cursor : Option IncrementalMerkleTree

-- `hash` reads a hash of 32 bytes: `u256` in a Sprout witness, `[u8; 32]` in a Sapling witness.
unfoldable pub incremental_witness : (hash : P Bytes) → P IncrementalWitness
unfolding incremental_merkle_tree
incremental_witness hash = do
  tree ← with_frame (text "tree") incremental_merkle_tree
  filled ← with_frame (text "filled") (parse_vec 32 hash)
  cursor ← with_frame (text "cursor") (parse_optional incremental_merkle_tree)
  pure (record { tree = tree; filled = filled; cursor = cursor })

pub record SaplingNoteData : Type 0 where
  pub version : ℤ
  pub incoming_viewing_key : Bytes
  pub nullifier : Option Bytes
  pub witnesses : List IncrementalWitness
  pub witness_height : ℤ

pub record SproutNoteData : Type 0 where
  pub address : SproutPaymentAddress
  pub nullifer : Option Bytes
  pub witnesses : List IncrementalWitness
  pub witness_height : ℤ

-- `witness_size` is the `size_of` a witness, whose layout the compiler chooses.
module _ (witness_size : ℕ) where
  unfoldable pub sapling_note_data : P SaplingNoteData
  unfolding incremental_witness
  sapling_note_data = do
    version ← with_frame (text "version") i32
    incoming_viewing_key ← with_frame (text "incoming_viewing_key") sapling_ivk
    nullifier ← with_frame (text "nullifier") (parse_optional (byte_array 32))
    witnesses ←
        with_frame (text "witnesses") (parse_vec witness_size (incremental_witness (byte_array 32)))
    witness_height ← with_frame (text "witness_height") i32
    pure (record {
      version = version;
      incoming_viewing_key = incoming_viewing_key;
      nullifier = nullifier;
      witnesses = witnesses;
      witness_height = witness_height;
    })

  unfoldable pub sprout_note_data : P SproutNoteData
  unfolding incremental_witness
  sprout_note_data = do
    address ← with_frame (text "address") sprout_payment_address
    nullifer ← with_frame (text "nullifer") (parse_optional u256)
    witnesses ← with_frame (text "witnesses") (parse_vec witness_size (incremental_witness u256))
    witness_height ← with_frame (text "witness_height") i32
    pure (record {
      address = address;
      nullifer = nullifer;
      witnesses = witnesses;
      witness_height = witness_height;
    })

pub record JsOutPoint : Type 0 where
  pub hash : Bytes
  pub js : ℕ
  pub n : ℕ

unfoldable pub js_out_point : P JsOutPoint
js_out_point = do
  hash ← with_frame (text "hash") u256
  js ← with_frame (text "js") u64
  n ← with_frame (text "n") u8
  pure (record { hash = hash; js = js; n = n })

-- A transaction id is its bytes.
pub record OutPoint : Type 0 where
  pub txid : Bytes
  pub vout : ℕ

-- `TxId::read` is of another crate.
unfoldable pub out_point : (read_txid : P Bytes) → P OutPoint
out_point read_txid = do
  txid ← with_frame (text "txid") read_txid
  vout ← with_frame (text "vout") u32
  pure (record { txid = txid; vout = vout })
