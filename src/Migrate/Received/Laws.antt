-- ===== src/Migrate/Received/Laws.antt =====
-- Attaching the received outputs succeeds, and keeps the accounts in their places.
use zewif_zcashd.Base.{
  ℕ, ◌<◌, ◌≡◌, refl, ◌∙◌, false, List, [], ◌∷◌, Option, none, some, ok, length, arith,
}
use zewif_zcashd.Base.Bytes.{eq_bytes}
use zewif_zcashd.Base.HashMap
use zewif_zcashd.Base.HashMap.{Eq}
use zewif_zcashd.Base.BTreeMap.{Ord}
use zewif_zcashd.Wire.Parser.{Bytes}
use zewif_zcashd.Wallet.Equality.{eq_nat}
use zewif_zcashd.Wallet.Trees.{OutPoint, SaplingNoteData, JsOutPoint, SproutNoteData}
use zewif_zcashd.Wallet.Tx.{WalletTx, OrchardTxMeta}
use zewif_zcashd.Zcashd.Transactions.{NotePositions}
use zewif_zcashd.Migrate.State.{AreBelow, IsInBounds, WalletAccounts}
use zewif_zcashd.Migrate.Received.{
  ReceivedLibrary, ByAccount, orchard_note_positions, orchard_ivk_routes, push_output,
  add_sapling_notes, add_orchard_actions, add_sprout_notes,
}
use zewif_zcashd.Migrate.Received.Attach.{
  add_transactions, add_accounts, add_sapling, add_orchard, collect_outputs,
  attach_received_outputs, sort_outputs,
}
use zewif_zcashd.Migrate.Received.Returns.{
  Succeeds, Succeeds-bind, position-Returns, sprout_output_index-Returns, insert-AreBelow,
  route_orchard-below, update_at-Succeeds,
}

module _ {Account Output Ufvk OrchardIvk : Type 0}
    (lib : ReceivedLibrary Account Output Ufvk OrchardIvk) (txids : Ord Bytes) where
  orchard_ivk_routes-AreBelow :
      (n : ℕ) (unified : List (ℕ × Ufvk))
      → AreBelow n unified
      → AreBelow n (orchard_ivk_routes lib unified)
  unfolding orchard_ivk_routes
  orchard_ivk_routes-AreBelow n [] h = tt
  orchard_ivk_routes-AreBelow n ((i, ufvk) ∷ unified) (first, h) =
      (first, orchard_ivk_routes-AreBelow n unified h)

  add_transactions-Succeeds :
      (i : ℕ) (txns : List (Bytes × List Output)) (accounts : List Account)
      → i < length accounts
      → Succeeds (λ l. length l ≡ length accounts) (add_transactions lib i txns accounts)
  unfolding add_transactions
  add_transactions-Succeeds i [] accounts less = (accounts, refl, refl)
  add_transactions-Succeeds i ((txid, outputs) ∷ txns) accounts less =
      Succeeds-bind (λ l. length l ≡ length accounts) (λ l. length l ≡ length accounts) _ _
        (update_at-Succeeds i (lib.add_relevant_transaction txid (sort_outputs lib outputs))
          accounts less)
        λ l e.
          let (l', e', same) = add_transactions-Succeeds i txns l (omega arith) in
          (l', e', same ∙ e)

  add_accounts-Succeeds :
      (by_account : ByAccount Output) (accounts : List Account)
      → AreBelow (length accounts) by_account
      → Succeeds (λ l. length l ≡ length accounts) (add_accounts lib by_account accounts)
  unfolding add_accounts
  add_accounts-Succeeds [] accounts h = (accounts, refl, refl)
  add_accounts-Succeeds ((i, txns) ∷ by_account) accounts (first, h) =
      Succeeds-bind (λ l. length l ≡ length accounts) (λ l. length l ≡ length accounts) _ _
        (add_transactions-Succeeds i txns accounts first)
        λ l e.
          let (l', e', same) = add_accounts-Succeeds by_account l (rw e h) in (l', e', same ∙ e)

  module _ (n legacy_index : ℕ) (l : legacy_index < n) where
    add_sapling_notes-Succeeds :
        (notes : List (OutPoint × SaplingNoteData)) (by_account : ByAccount Output)
        → AreBelow n by_account
        → Succeeds
            (λ m. AreBelow n m)
            (add_sapling_notes lib txids false legacy_index notes by_account)
    unfolding add_sapling_notes push_output
    add_sapling_notes-Succeeds [] by_account h = (by_account, refl, h)
    add_sapling_notes-Succeeds ((outpoint, nd) ∷ notes) by_account h =
        Succeeds-bind (λ n. Unit {0}) (λ m. AreBelow n m) _ _ (position-Returns nd)
          λ position u.
            add_sapling_notes-Succeeds notes _ (insert-AreBelow n legacy_index _ by_account l h)

    add_sprout_notes-Succeeds :
        (notes : List (JsOutPoint × SproutNoteData)) (by_account : ByAccount Output)
        → AreBelow n by_account
        → Succeeds
            (λ m. AreBelow n m)
            (add_sprout_notes lib txids false legacy_index notes by_account)
    unfolding add_sprout_notes push_output
    add_sprout_notes-Succeeds [] by_account h = (by_account, refl, h)
    add_sprout_notes-Succeeds ((outpoint, nd) ∷ notes) by_account h =
        Succeeds-bind (λ n. Unit {0}) (λ m. AreBelow n m) _ _ (sprout_output_index-Returns outpoint)
          λ index u.
            add_sprout_notes-Succeeds notes _ (insert-AreBelow n legacy_index _ by_account l h)

    module _ ⦃ivks : Eq OrchardIvk⦄ (routes : List (ℕ × List OrchardIvk))
        (r : AreBelow n routes) where
      add_orchard_actions-AreBelow :
          (positions : Option (List (ℕ × ℕ))) (txid : Bytes) (actions : List (ℕ × OrchardIvk))
          (by_account : ByAccount Output)
          → AreBelow n by_account
          → AreBelow n
              (add_orchard_actions lib txids legacy_index routes positions txid actions by_account)
      unfolding add_orchard_actions push_output
      add_orchard_actions-AreBelow positions txid [] by_account h = h
      add_orchard_actions-AreBelow positions txid ((action_index, ivk) ∷ actions) by_account h =
          add_orchard_actions-AreBelow positions txid actions _
            (insert-AreBelow n _ _ by_account (route_orchard-below n legacy_index routes ivk l r) h)

      add_sapling-Succeeds :
          (notes : Option (List (OutPoint × SaplingNoteData))) (by_account : ByAccount Output)
          → AreBelow n by_account
          → Succeeds (λ m. AreBelow n m) (add_sapling lib txids false legacy_index notes by_account)
      add_sapling-Succeeds none by_account h = (by_account, refl, h)
      add_sapling-Succeeds (some notes) by_account h = add_sapling_notes-Succeeds notes by_account h

      add_orchard-AreBelow :
          (positions : Option (List (ℕ × ℕ))) (txid : Bytes)
          (meta : Option (OrchardTxMeta OrchardIvk)) (by_account : ByAccount Output)
          → AreBelow n by_account
          → AreBelow n
              (add_orchard lib txids false legacy_index routes positions txid meta by_account)
      add_orchard-AreBelow positions txid none by_account h = h
      add_orchard-AreBelow positions txid (some meta) by_account h =
          add_orchard_actions-AreBelow positions txid meta.receiving_keys by_account h

      collect_outputs-Succeeds :
          {Transaction : Type 0} (positions : List (Bytes × List (ℕ × ℕ)))
          (transactions : List (Bytes × WalletTx Transaction OrchardIvk))
          (by_account : ByAccount Output)
          → AreBelow n by_account
          → Succeeds
              (λ m. AreBelow n m)
              (collect_outputs lib txids false legacy_index routes positions transactions
                by_account)
      unfolding collect_outputs
      collect_outputs-Succeeds positions [] by_account h = (by_account, refl, h)
      collect_outputs-Succeeds positions ((txid, wtx) ∷ transactions) by_account h =
          Succeeds-bind (λ m. AreBelow n m) (λ m. AreBelow n m) _ _
            (add_sapling-Succeeds wtx.sapling_note_data by_account h)
            λ m₁ h₁.
              Succeeds-bind (λ m. AreBelow n m) (λ m. AreBelow n m) _ _
                (add_sprout_notes-Succeeds wtx.map_sprout_note_data _ (
                  add_orchard-AreBelow (HashMap.get txid positions) txid wtx.orchard_tx_meta m₁ h₁))
                λ m₂ h₂. collect_outputs-Succeeds positions transactions m₂ h₂

  -- In a build without overflow checks, where the places that the accounts name are in bounds,
  -- attach_received_outputs returns accounts for any transactions and note positions, neither
  -- failing nor panicking; there are as many accounts as before and the places are in bounds again.
  pub attach_received_outputs-IsInBounds :
      ⦃ivks : Eq OrchardIvk⦄ {Transaction : Type 0}
      (transactions : List (Bytes × WalletTx Transaction OrchardIvk))
      (note_positions : List (Bytes × NotePositions)) (accounts : WalletAccounts Account Ufvk)
      → IsInBounds accounts
      → (accounts' : WalletAccounts Account Ufvk) × (attach_received_outputs lib txids false
            transactions note_positions accounts
          ≡ ok accounts')
        × IsInBounds accounts'
        × (length accounts'.accounts ≡ length accounts.accounts)
  unfolding attach_received_outputs
  attach_received_outputs-IsInBounds transactions note_positions accounts (l, unified, index) =
      let (m, e₁, h) =
        collect_outputs-Succeeds (length accounts.accounts) accounts.legacy_index l
          (orchard_ivk_routes lib accounts.unified)
          (orchard_ivk_routes-AreBelow (length accounts.accounts) accounts.unified unified)
          (orchard_note_positions note_positions []) transactions [] tt in
      let (accs, e₂, same) = add_accounts-Succeeds m accounts.accounts h in
      (record accounts { accounts = accs }, rw (e₁, e₂) refl, rw same (l, unified, index), same)
