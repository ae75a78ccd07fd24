-- ===== src/Migrate/Sent.antt =====
-- src/migrate/sent_outputs.rs: the transparent outputs that the wallet sent.
pub mod Laws
pub mod Outputs
use zewif_zcashd.Base.{
  ℕ, ◌+◌, ◌%◌, ◌^◌, ◌&&◌, Bool, true, false, List, [], ◌∷◌, ◌++◌, Option, none, some, Result, ok,
  err, bind, if◌then◌else◌, length, ◌==◌,
}
use zewif_zcashd.Base.Bytes.{bytes_eq, eq_bytes}
use zewif_zcashd.Base.HashMap
use zewif_zcashd.Wire.Parser.{Bytes}
use zewif_zcashd.Wallet.Addresses.{
  RecipientAddress, to_key_id, to_script_id, to_sapling, to_orchard,
}
use zewif_zcashd.Wallet.Tx.{WalletTx}
use zewif_zcashd.Zcashd.Accounts.{RecipientMapping}
use zewif_zcashd.Migrate.State.{MigrateError, WalletAccounts, update_at, zewif_error}

-- The variants of a transparent address.
pub data Target : Type 0 where
  public_key_hash script_hash : Bytes → Target

abbrev pub same_target : Target → Target → Bool
same_target (public_key_hash a) (public_key_hash b) = bytes_eq a b
same_target (public_key_hash a) (script_hash b) = false
same_target (script_hash a) (public_key_hash b) = false
same_target (script_hash a) (script_hash b) = bytes_eq a b

-- Transactions and the document's sent outputs, of other crates. `outputs` are those of the transparent
-- bundle, `amount` the amount of an output's value, and `recipient_string` the text of a recipient.
pub record SentLibrary (Account Transaction TxOut SentOutput : Type 0) : Type 0 where
  pub outputs : Transaction → Option (List TxOut)
  pub recipient_address : TxOut → Option Target
  pub amount : TxOut → Option ℕ
  pub recipient_string : RecipientAddress → Bytes
  pub from_parts : (output_index : ℕ) → (recipient : Bytes) → (value : ℕ) → SentOutput
  pub add_sent_outputs : (txid : Bytes) → List SentOutput → Account → Account

unfoldable pub transparent_target : RecipientAddress → Option Target
transparent_target (to_key_id key_id) = some (public_key_hash key_id)
transparent_target (to_script_id script_id) = some (script_hash script_id)
transparent_target (to_sapling address) = none
transparent_target (to_orchard address) = none

module _ {Account Transaction TxOut SentOutput : Type 0}
    (lib : SentLibrary Account Transaction TxOut SentOutput) where
  abbrev pub is_target : Target → Option Target → Bool
  is_target target none = false
  is_target target (some other) = same_target other target

  abbrev pub amount_of : Option ℕ → Result MigrateError ℕ
  amount_of none = err zewif_error
  amount_of (some value) = ok value

  abbrev pub sent_recipient : RecipientMapping → Bytes
  sent_recipient mapping =
      if length mapping.unified_address == 0
      then lib.recipient_string mapping.recipient_address
      else mapping.unified_address

  -- The loop over the outputs of the transaction, which ends at the first match.
  unfoldable pub find_output :
      Target
      → RecipientMapping
      → ℕ
      → List TxOut
      → List SentOutput
      → Result MigrateError (List SentOutput)
  find_output target mapping idx [] sent = ok sent
  find_output target mapping idx (tx_out ∷ vout) sent =
      let rest = find_output target mapping (idx + 1) vout sent in
      if is_target target (lib.recipient_address tx_out)
      then bind (amount_of (lib.amount tx_out)) (λ value.
        ok (sent ++ (lib.from_parts (idx % 2 ^ 32) (sent_recipient mapping) value ∷ [])))
      else rest

  -- The loop over the mappings of a transaction.
  abbrev pub from_target :
      Option Target
      → RecipientMapping
      → List TxOut
      → List SentOutput
      → Result MigrateError (List SentOutput)
  from_target none mapping vout sent = ok sent
  from_target (some target) mapping vout sent = find_output target mapping 0 vout sent

  unfoldable pub sent_outputs :
      List RecipientMapping → List TxOut → List SentOutput → Result MigrateError (List SentOutput)
  unfolding find_output transparent_target
  sent_outputs [] vout sent = ok sent
  sent_outputs (mapping ∷ mappings) vout sent =
      bind (from_target (transparent_target mapping.recipient_address) mapping vout sent)
        (λ sent'. sent_outputs mappings vout sent')

  abbrev pub add_unless_empty :
      ℕ → Bytes → List SentOutput → List Account → Result MigrateError (List Account)
  add_unless_empty legacy_index txid [] accounts = ok accounts
  add_unless_empty legacy_index txid (output ∷ outputs) accounts =
      update_at legacy_index (lib.add_sent_outputs txid (output ∷ outputs)) accounts

  abbrev pub add_from :
      ℕ
      → Bytes
      → List RecipientMapping
      → Option (List TxOut)
      → List Account
      → Result MigrateError (List Account)
  add_from legacy_index txid mappings none accounts = ok accounts
  add_from legacy_index txid mappings (some vout) accounts =
      bind (sent_outputs mappings vout [])
        (λ outputs. add_unless_empty legacy_index txid outputs accounts)

  module _ {OrchardIvk : Type 0} where
    abbrev pub outputs_of : Option (WalletTx Transaction OrchardIvk) → Option (List TxOut)
    outputs_of none = none
    outputs_of (some wtx) = lib.outputs wtx.transaction

    unfoldable pub add_sent :
        (transactions : List (Bytes × WalletTx Transaction OrchardIvk))
        → (legacy_index : ℕ) → List (Bytes × List RecipientMapping)
        → List Account
        → Result MigrateError (List Account)
    unfolding sent_outputs update_at
    add_sent transactions legacy_index [] accounts = ok accounts
    add_sent transactions legacy_index ((txid, mappings) ∷ recipients) accounts =
        bind
          (add_from legacy_index txid mappings (outputs_of (HashMap.get txid transactions))
            accounts)
          (λ accounts'. add_sent transactions legacy_index recipients accounts')

    unfoldable pub attach_sent_outputs :
        {Ufvk : Type 0}
        → (transactions : List (Bytes × WalletTx Transaction OrchardIvk))
        → (send_recipients : List (Bytes × List RecipientMapping)) → WalletAccounts Account Ufvk
        → Result MigrateError (WalletAccounts Account Ufvk)
    unfolding add_sent
    attach_sent_outputs transactions send_recipients accounts =
        bind (add_sent transactions accounts.legacy_index send_recipients accounts.accounts)
          (λ l. ok (record accounts { accounts = l }))
