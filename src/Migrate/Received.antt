-- ===== src/Migrate/Received.antt =====
-- src/migrate/received_outputs.rs: the received shielded outputs go to the accounts that can view them.
pub mod Attach
pub mod Returns
pub mod Laws
use zewif_zcashd.Base.{
  ℕ, ◌+◌, ◌-◌, ◌*◌, ◌%◌, ◌^◌, Bool, true, false, ◌&&◌, ◌||◌, List, [], ◌∷◌, ◌++◌, Option, none,
  some, Result, ok, panic, bind, if◌then◌else◌, leb, ltb, ◌==◌,
}
use zewif_zcashd.Base.Bytes.{eq_bytes}
use zewif_zcashd.Base.HashMap
use zewif_zcashd.Base.HashMap.{Eq}
use zewif_zcashd.Base.BTreeMap
use zewif_zcashd.Base.BTreeMap.{Ord}
use zewif_zcashd.Wire.Parser.{Bytes}
use zewif_zcashd.Wallet.Trees.{OutPoint, SaplingNoteData, JsOutPoint, SproutNoteData}
use zewif_zcashd.Wallet.Tx.{WalletTx, OrchardTxMeta}
use zewif_zcashd.Wallet.Equality.{eq_nat}
use zewif_zcashd.Dump.{or_default}
use zewif_zcashd.Zcashd.Transactions.{NotePositions}
use zewif_zcashd.Migrate.State.{MigrateError, WalletAccounts, update_at}
use zewif_zcashd.Migrate.Trees.{sapling_note_position}

-- The variants that `pool_rank` tells apart.
pub data ReceivedOutputPool : Type 0 where
  transparent sprout sapling orchard other : ReceivedOutputPool

-- The received outputs and the accounts of the crate zewif. The outputs are made of an output index, a
-- position in a tree and a nullifier; `orchard_ivks` are the external and the internal incoming viewing
-- key of a unified viewing key, if it has an Orchard part.
pub record ReceivedLibrary (Account Output Ufvk OrchardIvk : Type 0) : Type 0 where
  pub sapling_output : ℕ → Option ℕ → Option Bytes → Output
  pub orchard_output : ℕ → Option ℕ → Output
  pub sprout_output : ℕ → Option Bytes → Output
  pub output_index : Output → ℕ
  pub pool : Output → ReceivedOutputPool
  pub add_relevant_transaction : (txid : Bytes) → List Output → Account → Account
  pub orchard_ivks : Ufvk → Option (OrchardIvk × OrchardIvk)

unfoldable pub pool_rank : ReceivedOutputPool → ℕ
pool_rank transparent = 0
pool_rank sprout = 1
pool_rank sapling = 2
pool_rank orchard = 3
pool_rank other = 255

module _ {OrchardIvk : Type 0} ⦃ivks : Eq OrchardIvk⦄ where
  unfoldable pub route_orchard : List (ℕ × List OrchardIvk) → OrchardIvk → Option ℕ
  route_orchard [] ivk = none
  route_orchard ((index, keys) ∷ routes) ivk =
      if HashMap.contains ivk keys then some index else route_orchard routes ivk

-- The positions of each transaction, by the index of the action.
unfoldable pub add_positions : List (ℕ × ℕ) → List (ℕ × ℕ) → List (ℕ × ℕ)
add_positions [] entry = entry
add_positions ((action_index, position) ∷ positions) entry =
    add_positions positions (HashMap.insert action_index position entry)

unfoldable pub orchard_note_positions :
    List (Bytes × NotePositions) → List (Bytes × List (ℕ × ℕ)) → List (Bytes × List (ℕ × ℕ))
unfolding add_positions
orchard_note_positions [] out = out
orchard_note_positions ((txid, positions) ∷ transactions) out =
    orchard_note_positions transactions (
      HashMap.insert txid
        (add_positions positions.note_positions (or_default (HashMap.get txid out))) out)

abbrev keys_of_pair : {OrchardIvk : Type 0} → Option (OrchardIvk × OrchardIvk) → List OrchardIvk
keys_of_pair none = []
keys_of_pair (some (external, internal)) = external ∷ internal ∷ []

abbrev pub or_legacy : ℕ → Option ℕ → ℕ
or_legacy legacy_index none = legacy_index
or_legacy legacy_index (some index) = index

abbrev pub position_in : ℕ → Option (List (ℕ × ℕ)) → Option ℕ
position_in action_index none = none
position_in action_index (some positions) = HashMap.get action_index positions

-- `checks` says whether the build checks for overflow.
module _ (checks : Bool) where
  -- A `u32`, where arithmetic passes it.
  abbrev pub in_u32 : ℕ → Result MigrateError ℕ
  in_u32 v = if leb (2 ^ 32) v then (if checks then panic else ok (v % 2 ^ 32)) else ok v

  -- `2 * outpoint.js() as u32 + outpoint.n() as u32`; the cast truncates.
  unfoldable pub sprout_output_index : JsOutPoint → Result MigrateError ℕ
  sprout_output_index outpoint =
      bind (in_u32 (2 * (outpoint.js % 2 ^ 32))) (λ double. in_u32 (double + outpoint.n))

-- Outputs under an account and a transaction.
abbrev pub ByAccount : Type 0 → Type 0
ByAccount Output = List (ℕ × List (Bytes × List Output))

-- `txids` is the order of transaction ids.
module _ {Output : Type 0} (txids : Ord Bytes) where
  -- `by_account.entry(…).or_default().entry(…).or_default().push(…)`
  unfoldable pub push_output : ℕ → (txid : Bytes) → Output → ByAccount Output → ByAccount Output
  push_output account txid output by_account =
      let txns = or_default (HashMap.get account by_account) in
      HashMap.insert account
        (BTreeMap.insert txids txid (or_default (BTreeMap.get txids txid txns) ++ (output ∷ []))
          txns)
        by_account

module _ {Account Output Ufvk OrchardIvk : Type 0}
    (lib : ReceivedLibrary Account Output Ufvk OrchardIvk) where
  unfoldable pub orchard_ivk_routes : List (ℕ × Ufvk) → List (ℕ × List OrchardIvk)
  orchard_ivk_routes [] = []
  orchard_ivk_routes ((index, ufvk) ∷ unified) =
      (index, keys_of_pair (lib.orchard_ivks ufvk)) ∷ orchard_ivk_routes unified

module _ {Account Output Ufvk OrchardIvk : Type 0}
    (lib : ReceivedLibrary Account Output Ufvk OrchardIvk) (txids : Ord Bytes) where
  unfoldable pub add_orchard_actions :
      ⦃ivks : Eq OrchardIvk⦄
      → (legacy_index : ℕ) (routes : List (ℕ × List OrchardIvk))
      → (tx_positions : Option (List (ℕ × ℕ))) (txid : Bytes) → List (ℕ × OrchardIvk)
      → ByAccount Output
      → ByAccount Output
  unfolding push_output route_orchard
  add_orchard_actions legacy_index routes tx_positions txid [] by_account = by_account
  add_orchard_actions legacy_index routes tx_positions txid ((action_index, ivk) ∷ actions)
        by_account =
      add_orchard_actions legacy_index routes tx_positions txid actions (
        push_output txids (or_legacy legacy_index (route_orchard routes ivk)) txid
          (lib.orchard_output action_index (position_in action_index tx_positions)) by_account)

module _ {Account Output Ufvk OrchardIvk : Type 0}
    (lib : ReceivedLibrary Account Output Ufvk OrchardIvk) (txids : Ord Bytes) (checks : Bool) where
  unfoldable pub add_sapling_notes :
      (legacy_index : ℕ)
      → List (OutPoint × SaplingNoteData)
      → ByAccount Output
      → Result MigrateError (ByAccount Output)
  unfolding push_output
  add_sapling_notes legacy_index [] by_account = ok by_account
  add_sapling_notes legacy_index ((outpoint, nd) ∷ notes) by_account =
      bind (sapling_note_position checks nd) (λ position. add_sapling_notes legacy_index notes (
        push_output txids legacy_index outpoint.txid
          (lib.sapling_output outpoint.vout position nd.nullifier) by_account))

  unfoldable pub add_sprout_notes :
      (legacy_index : ℕ)
      → List (JsOutPoint × SproutNoteData)
      → ByAccount Output
      → Result MigrateError (ByAccount Output)
  unfolding push_output sprout_output_index
  add_sprout_notes legacy_index [] by_account = ok by_account
  add_sprout_notes legacy_index ((outpoint, nd) ∷ notes) by_account =
      bind (sprout_output_index checks outpoint) (λ output_index.
        add_sprout_notes legacy_index notes (
          push_output txids legacy_index outpoint.hash (lib.sprout_output output_index nd.nullifer)
            by_account))
