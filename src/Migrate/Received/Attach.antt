-- ===== src/Migrate/Received/Attach.antt =====
-- src/migrate/received_outputs.rs: `attach_received_outputs`, which collects the outputs of all
-- transactions, sorts them and gives them to the accounts.
use zewif_zcashd.Base.{
  ℕ, Bool, ◌&&◌, ◌||◌, List, [], ◌∷◌, Option, none, some, Result, ok, bind, if◌then◌else◌, ltb,
  ◌==◌,
}
use zewif_zcashd.Base.Bytes.{eq_bytes}
use zewif_zcashd.Base.HashMap
use zewif_zcashd.Base.HashMap.{Eq}
use zewif_zcashd.Base.BTreeMap.{Ord}
use zewif_zcashd.Wire.Parser.{Bytes}
use zewif_zcashd.Wallet.Trees.{OutPoint, SaplingNoteData}
use zewif_zcashd.Wallet.Tx.{WalletTx, OrchardTxMeta}
use zewif_zcashd.Zcashd.Transactions.{NotePositions}
use zewif_zcashd.Migrate.State.{MigrateError, WalletAccounts, update_at}
use zewif_zcashd.Migrate.Received.{
  ReceivedLibrary, ByAccount, pool_rank, orchard_note_positions, orchard_ivk_routes,
  add_sapling_notes, add_orchard_actions, add_sprout_notes,
}

module _ {Account Output Ufvk OrchardIvk : Type 0}
    (lib : ReceivedLibrary Account Output Ufvk OrchardIvk) where
  -- The order of the keys `(pool_rank(o), o.output_index())`.
  unfoldable pub output_lt : Output → Output → Bool
  unfolding pool_rank
  output_lt o p =
      ltb (pool_rank (lib.pool o)) (pool_rank (lib.pool p))
      || (pool_rank (lib.pool o) == pool_rank (lib.pool p)
          && ltb (lib.output_index o) (lib.output_index p))

  -- `sort_by_key`, a stable sort.
  unfoldable pub place_output : Output → List Output → List Output
  unfolding output_lt
  place_output o [] = o ∷ []
  place_output o (p ∷ outputs) =
      let rest = place_output o outputs in if output_lt p o then p ∷ rest else o ∷ p ∷ outputs

  unfoldable pub sort_outputs : List Output → List Output
  unfolding place_output
  sort_outputs [] = []
  sort_outputs (o ∷ outputs) = place_output o (sort_outputs outputs)

  -- The loop over the transactions of one account.
  unfoldable pub add_transactions :
      ℕ → List (Bytes × List Output) → List Account → Result MigrateError (List Account)
  unfolding sort_outputs update_at
  add_transactions account_index [] accounts = ok accounts
  add_transactions account_index ((txid, outputs) ∷ txns) accounts =
      bind
        (update_at account_index (lib.add_relevant_transaction txid (sort_outputs outputs))
          accounts)
        (λ accounts'. add_transactions account_index txns accounts')

  unfoldable pub add_accounts : ByAccount Output → List Account → Result MigrateError (List Account)
  unfolding add_transactions
  add_accounts [] accounts = ok accounts
  add_accounts ((account_index, txns) ∷ by_account) accounts =
      bind (add_transactions account_index txns accounts)
        (λ accounts'. add_accounts by_account accounts')

  module _ (txids : Ord Bytes) (checks : Bool) ⦃ivks : Eq OrchardIvk⦄ where
    abbrev pub add_sapling :
        ℕ
        → Option (List (OutPoint × SaplingNoteData))
        → ByAccount Output
        → Result MigrateError (ByAccount Output)
    add_sapling legacy_index none by_account = ok by_account
    add_sapling legacy_index (some notes) by_account =
        add_sapling_notes lib txids checks legacy_index notes by_account

    abbrev pub add_orchard :
        ℕ
        → List (ℕ × List OrchardIvk)
        → Option (List (ℕ × ℕ))
        → Bytes
        → Option (OrchardTxMeta OrchardIvk)
        → ByAccount Output
        → ByAccount Output
    add_orchard legacy_index routes tx_positions txid none by_account = by_account
    add_orchard legacy_index routes tx_positions txid (some meta) by_account =
        add_orchard_actions lib txids legacy_index routes tx_positions txid meta.receiving_keys
          by_account

  module _ {Transaction : Type 0} (txids : Ord Bytes) (checks : Bool) ⦃ivks : Eq OrchardIvk⦄ where
    -- The loop over the transactions of the wallet.
    unfoldable pub collect_outputs :
        ℕ
        → List (ℕ × List OrchardIvk)
        → List (Bytes × List (ℕ × ℕ))
        → List (Bytes × WalletTx Transaction OrchardIvk)
        → ByAccount Output
        → Result MigrateError (ByAccount Output)
    unfolding add_sapling_notes add_orchard_actions add_sprout_notes
    collect_outputs legacy_index routes positions [] by_account = ok by_account
    collect_outputs legacy_index routes positions ((txid, wtx) ∷ transactions) by_account =
        bind (add_sapling txids checks legacy_index wtx.sapling_note_data by_account)
          (λ with_sapling.
            let with_orchard =
              add_orchard txids checks legacy_index routes (HashMap.get txid positions) txid
                wtx.orchard_tx_meta with_sapling in
            bind
              (add_sprout_notes lib txids checks legacy_index wtx.map_sprout_note_data with_orchard)
              (λ with_sprout.
                collect_outputs legacy_index routes positions transactions with_sprout))

    unfoldable pub attach_received_outputs :
        (transactions : List (Bytes × WalletTx Transaction OrchardIvk))
        → (note_positions : List (Bytes × NotePositions)) → WalletAccounts Account Ufvk
        → Result MigrateError (WalletAccounts Account Ufvk)
    unfolding collect_outputs orchard_ivk_routes orchard_note_positions add_accounts
    attach_received_outputs transactions note_positions accounts =
        bind
          (collect_outputs accounts.legacy_index (orchard_ivk_routes lib accounts.unified)
            (orchard_note_positions note_positions []) transactions [])
          (λ by_account.
            bind (add_accounts by_account accounts.accounts)
              (λ l. ok (record accounts { accounts = l })))
