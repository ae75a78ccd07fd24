-- ===== src/Migrate/AddressBook.antt =====
-- src/migrate/address_book.rs
pub mod Laws
use zewif_zcashd.Base.{
  Bool, not, List, [], ◌∷◌, Option, none, some, map, if◌then◌else◌, ◌==◌, length,
}
use zewif_zcashd.Base.Bytes.{codes}
use zewif_zcashd.Base.BTreeMap.{Ord, get, insert}
use zewif_zcashd.Wire.Parser.{Bytes}
use zewif_zcashd.Zcashd.Accounts.{RecipientMapping}

-- The entries of the address book, of the crate zewif. A text is its bytes.
pub record EntryLibrary (Entry : Type 0) : Type 0 where
  pub new : (address : Bytes) → Entry
  pub set_label : (label : Bytes) → Entry → Entry
  pub set_purpose : (purpose : Bytes) → Entry → Entry
  pub purpose : Entry → Option Bytes

abbrev pub is_empty_string : Bytes → Bool
is_empty_string s = length s == 0

-- `texts` is the order of strings.
module _ {Entry : Type 0} (lib : EntryLibrary Entry) (texts : Ord Bytes) where
  abbrev pub or_new : Bytes → Option Entry → Entry
  or_new address none = lib.new address
  or_new address (some entry) = entry

  -- `entry(address).or_insert_with(…)`, and what is done with the entry.
  unfoldable pub update_entry :
      Bytes → (Entry → Entry) → List (Bytes × Entry) → List (Bytes × Entry)
  update_entry address f entries =
      insert texts address (f (or_new address (get texts address entries))) entries

  abbrev pub with_label : Bytes → Entry → Entry
  with_label name entry = if not (is_empty_string name) then lib.set_label name entry else entry

  abbrev pub with_purpose : Bytes → Entry → Entry
  with_purpose purpose entry =
      if not (is_empty_string purpose) then lib.set_purpose purpose entry else entry

  abbrev pub send_unless : Option Bytes → Entry → Entry
  send_unless none entry = lib.set_purpose (codes "send") entry
  send_unless (some purpose) entry = entry

  abbrev pub as_recipient : Entry → Entry
  as_recipient entry = send_unless (lib.purpose entry) entry

  unfoldable pub add_names : List (Bytes × Bytes) → List (Bytes × Entry) → List (Bytes × Entry)
  unfolding update_entry
  add_names [] entries = entries
  add_names ((address, name) ∷ names) entries =
      add_names names (update_entry address (with_label name) entries)

  unfoldable pub add_purposes : List (Bytes × Bytes) → List (Bytes × Entry) → List (Bytes × Entry)
  unfolding update_entry
  add_purposes [] entries = entries
  add_purposes ((address, purpose) ∷ purposes) entries =
      add_purposes purposes (update_entry address (with_purpose purpose) entries)

  -- The loop over the mappings of one transaction.
  unfoldable pub add_mappings : List RecipientMapping → List (Bytes × Entry) → List (Bytes × Entry)
  unfolding update_entry
  add_mappings [] entries = entries
  add_mappings (mapping ∷ mappings) entries = add_mappings mappings (
      if is_empty_string mapping.unified_address
      then entries
      else update_entry mapping.unified_address as_recipient entries)

  unfoldable pub add_recipients :
      List (Bytes × List RecipientMapping) → List (Bytes × Entry) → List (Bytes × Entry)
  unfolding add_mappings
  add_recipients [] entries = entries
  add_recipients ((txid, mappings) ∷ recipients) entries =
      add_recipients recipients (add_mappings mappings entries)

  -- The entries under their addresses.
  abbrev pub entries_of :
      (address_names address_purposes : List (Bytes × Bytes))
      → (send_recipients : List (Bytes × List RecipientMapping)) → List (Bytes × Entry)
  entries_of address_names address_purposes send_recipients =
      add_recipients send_recipients (add_purposes address_purposes (add_names address_names []))

  abbrev pub values : List (Bytes × Entry) → List Entry
  values entries = map (λ e. e.1) entries

  unfoldable pub build_address_book :
      (address_names address_purposes : List (Bytes × Bytes))
      → (send_recipients : List (Bytes × List RecipientMapping)) → List Entry
  unfolding add_names add_purposes add_recipients
  build_address_book address_names address_purposes send_recipients =
      values (entries_of address_names address_purposes send_recipients)
