-- ===== src/Migrate/Sent/Laws.antt =====
-- Attaching the sent outputs never panics, and keeps the accounts in their places.
use zewif_zcashd.Base.{
  ℕ, ◌<◌, refl, ◌∙◌, List, [], ◌∷◌, Option, none, some, length, inl, inr, Bool-cases, arith, ◌+◌,
}
use zewif_zcashd.Base.Bytes.{eq_bytes}
use zewif_zcashd.Base.HashMap
use zewif_zcashd.Wire.Parser.{Bytes}
use zewif_zcashd.Wallet.Tx.{WalletTx}
use zewif_zcashd.Zcashd.Accounts.{RecipientMapping}
use zewif_zcashd.Migrate.State.{WalletAccounts, IsInBounds}
use zewif_zcashd.Migrate.Sent.{
  Target, SentLibrary, is_target, amount_of, transparent_target, find_output, from_target,
  sent_outputs, add_unless_empty, add_from, outputs_of, add_sent, attach_sent_outputs,
}
use zewif_zcashd.Migrate.Addresses.Laws.{Ends, Ends-bind, SameLength, update_at-Ends, Keeps, kept}

module _ {Account Transaction TxOut SentOutput : Type 0}
    (lib : SentLibrary Account Transaction TxOut SentOutput) where
  abbrev AnyOutputs : List SentOutput → Type 0
  AnyOutputs sent = Unit {0}

  amount_of-Ends : (o : Option ℕ) → Ends (λ value. Unit {0}) (amount_of lib o)
  amount_of-Ends none = inr (_, refl)
  amount_of-Ends (some value) = inl (value, refl, tt)

  find_output-Ends :
      (target : Target) (mapping : RecipientMapping) (idx : ℕ) (vout : List TxOut)
      (sent : List SentOutput)
      → Ends AnyOutputs (find_output lib target mapping idx vout sent)
  unfolding find_output
  find_output-Ends target mapping idx [] sent = inl (sent, refl, tt)
  find_output-Ends target mapping idx (tx_out ∷ vout) sent =
      elim (Bool-cases (is_target lib target (lib.recipient_address tx_out))) [
        | inl found ↦ rw found (
            Ends-bind (λ value. Unit {0}) AnyOutputs _ _ (amount_of-Ends (lib.amount tx_out))
              λ value u. inl (_, refl, tt))
        | inr other ↦ rw other (find_output-Ends target mapping (idx + 1) vout sent)
      ]

  from_target-Ends :
      (target : Option Target) (mapping : RecipientMapping) (vout : List TxOut)
      (sent : List SentOutput)
      → Ends AnyOutputs (from_target lib target mapping vout sent)
  from_target-Ends none mapping vout sent = inl (sent, refl, tt)
  from_target-Ends (some target) mapping vout sent = find_output-Ends target mapping 0 vout sent

  sent_outputs-Ends :
      (mappings : List RecipientMapping) (vout : List TxOut) (sent : List SentOutput)
      → Ends AnyOutputs (sent_outputs lib mappings vout sent)
  unfolding sent_outputs
  sent_outputs-Ends [] vout sent = inl (sent, refl, tt)
  sent_outputs-Ends (mapping ∷ mappings) vout sent =
      Ends-bind AnyOutputs AnyOutputs _ _
        (from_target-Ends (transparent_target mapping.recipient_address) mapping vout sent)
        λ sent' u. sent_outputs-Ends mappings vout sent'

  add_unless_empty-Ends :
      (legacy_index : ℕ) (txid : Bytes) (outputs : List SentOutput) (accounts : List Account)
      → legacy_index < length accounts
      → Ends (SameLength accounts) (add_unless_empty lib legacy_index txid outputs accounts)
  add_unless_empty-Ends legacy_index txid [] accounts less = inl (accounts, refl, refl)
  add_unless_empty-Ends legacy_index txid (output ∷ outputs) accounts less =
      update_at-Ends legacy_index _ accounts less

  add_from-Ends :
      (legacy_index : ℕ) (txid : Bytes) (mappings : List RecipientMapping)
      (vout : Option (List TxOut)) (accounts : List Account)
      → legacy_index < length accounts
      → Ends (SameLength accounts) (add_from lib legacy_index txid mappings vout accounts)
  add_from-Ends legacy_index txid mappings none accounts less = inl (accounts, refl, refl)
  add_from-Ends legacy_index txid mappings (some vout) accounts less =
      Ends-bind AnyOutputs (SameLength accounts) _ _ (sent_outputs-Ends mappings vout [])
        λ outputs u. add_unless_empty-Ends legacy_index txid outputs accounts less

  add_sent-Ends :
      {OrchardIvk : Type 0} (transactions : List (Bytes × WalletTx Transaction OrchardIvk))
      (legacy_index : ℕ) (recipients : List (Bytes × List RecipientMapping))
      (accounts : List Account)
      → legacy_index < length accounts
      → Ends (SameLength accounts) (add_sent lib transactions legacy_index recipients accounts)
  unfolding add_sent
  add_sent-Ends transactions legacy_index [] accounts less = inl (accounts, refl, refl)
  add_sent-Ends transactions legacy_index ((txid, mappings) ∷ recipients) accounts less =
      Ends-bind (SameLength accounts) (SameLength accounts) _ _
        (add_from-Ends legacy_index txid mappings (outputs_of lib (HashMap.get txid transactions))
          accounts less)
        λ l e. elim (add_sent-Ends transactions legacy_index recipients l (omega arith)) [
          | inl (l', e', same) ↦ inl (l', e', same ∙ e)
          | inr (x, e') ↦ inr (x, e')
        ]

  -- Where the places that the accounts name are in bounds, attach_sent_outputs does not panic on
  -- any transactions and recipients: it returns an error, or accounts, and then there are as many
  -- as before and the places are in bounds again.
  pub attach_sent_outputs-Keeps :
      {OrchardIvk Ufvk : Type 0} (transactions : List (Bytes × WalletTx Transaction OrchardIvk))
      (recipients : List (Bytes × List RecipientMapping)) (w : WalletAccounts Account Ufvk)
      → IsInBounds w
      → Ends (Keeps w) (attach_sent_outputs lib transactions recipients w)
  unfolding attach_sent_outputs
  attach_sent_outputs-Keeps transactions recipients w h =
      kept w _ h (add_sent-Ends transactions w.legacy_index recipients w.accounts h.0)
