-- ===== src/Tests/Sent.antt =====
-- Sent outputs, attached to two accounts.
use zewif_zcashd.Base.{ℕ, refl, [], ◌∷◌, List, none, some, false, pos, replicate, arith}
use zewif_zcashd.Base.Bytes.{bytes_eq}
use zewif_zcashd.Wallet.Addresses.{to_key_id}
use zewif_zcashd.Wallet.Tx.{WalletTx}
use zewif_zcashd.Zcashd.Accounts.{RecipientMapping}
use zewif_zcashd.Migrate.State.{WalletAccounts}
use zewif_zcashd.Migrate.Addresses.Laws.{Ends, Keeps}
use zewif_zcashd.Migrate.Sent.{
  Target, public_key_hash, script_hash, SentLibrary, transparent_target, find_output, sent_outputs,
  attach_sent_outputs,
}
use zewif_zcashd.Migrate.Sent.Laws.{attach_sent_outputs-Keeps}
use zewif_zcashd.Migrate.Sent.Outputs.{Sends, sent_outputs-Sends}

-- A transaction is its outputs, an output its target and its value, and an account its sent outputs.
abbrev lib : SentLibrary (List ℕ) (List (Target × ℕ)) (Target × ℕ) ℕ
lib = record {
  outputs = λ transaction. some transaction;
  recipient_address = λ (target, value). some target;
  amount = λ (target, value). some value;
  recipient_string = λ recipient. [];
  from_parts = λ index recipient value. index;
  add_sent_outputs = λ txid sent account. sent;
}

abbrev paid : Target
paid = public_key_hash (7 ∷ [])

abbrev vout : List (Target × ℕ)
vout = (script_hash (7 ∷ []), 1) ∷ (paid, 2) ∷ (paid, 3) ∷ []

abbrev mapping : RecipientMapping
mapping = record { recipient_address = to_key_id (7 ∷ []); unified_address = [] }

sent_outputs-Sends_example : Sends lib vout (mapping ∷ []) (1 ∷ [])
unfolding sent_outputs find_output transparent_target bytes_eq
sent_outputs-Sends_example = sent_outputs-Sends lib (mapping ∷ []) vout (1 ∷ []) refl

abbrev transaction : WalletTx (List (Target × ℕ)) (Unit {0})
transaction = record {
  transaction = vout;
  hash_block = replicate 32 0;
  merkle_branch = [];
  index = pos 0;
  map_value = [];
  map_sprout_note_data = [];
  order_form = [];
  time_received_is_tx_time = pos 0;
  time_received = pos 0;
  is_from_me = false;
  is_spent = false;
  sapling_note_data = none;
  orchard_tx_meta = none;
  unparsed_data = [];
}

abbrev two_accounts : WalletAccounts (List ℕ) (Unit {0})
two_accounts = record {
  accounts = [] ∷ [] ∷ [];
  ufvk_index = (1 ∷ [], 0) ∷ [];
  unified = (0, tt) ∷ [];
  legacy_index = 1;
}

attach_sent_outputs-Keeps_example : Ends (Keeps two_accounts) (
    attach_sent_outputs lib ((9 ∷ [], transaction) ∷ []) ((9 ∷ [], mapping ∷ []) ∷ []) two_accounts)
attach_sent_outputs-Keeps_example =
    attach_sent_outputs-Keeps lib ((9 ∷ [], transaction) ∷ []) ((9 ∷ [], mapping ∷ []) ∷ [])
      two_accounts (omega arith, (omega arith, tt), (omega arith, tt))
