-- ===== src/Tests/Migrate.antt =====
-- The migration on concrete inputs.
use zewif_zcashd.Base.{
  ℕ, ◌⊎◌, err, ◌≡◌, refl, List, [], ◌∷◌, ◌++◌, true, false, Option, none, some, ok, pos, take,
  replicate, length, arith, All,
}
use zewif_zcashd.Base.Bytes.{codes, bytes_eq, eq_bytes}
use zewif_zcashd.Base.HashMap
use zewif_zcashd.Base.BTreeMap.{get, Sorted}
use zewif_zcashd.Wire.Parser.{Bytes}
use zewif_zcashd.Wallet.Addresses.{UnifiedAccountMetadata, to_key_id}
use zewif_zcashd.Wallet.Equality.{eq_nat}
use zewif_zcashd.Wallet.Transparent.{KeyPair}
use zewif_zcashd.Wallet.Transparent.WatchScript.{WatchScript, p2pkh}
use zewif_zcashd.Wallet.Trees.{IncrementalWitness, SaplingNoteData, empty_tree}
use zewif_zcashd.Wallet.Tx.{WalletTx}
use zewif_zcashd.Zcashd.Accounts.{RecipientMapping}
use zewif_zcashd.Migrate.State.{MigrateError, WalletAccounts, IsInBounds}
use zewif_zcashd.Migrate.Trees.{sapling_note_position}
use zewif_zcashd.Migrate.Trees.Laws.{append_all, sapling_note_position-last}
use zewif_zcashd.Migrate.AddressBook.{EntryLibrary, values, build_address_book}
use zewif_zcashd.Migrate.AddressBook.Laws.{
  changed, label_changes, purpose_changes, recipient_changes, build_address_book-entries,
}
use zewif_zcashd.Migrate.Received.{ReceivedLibrary, sapling}
use zewif_zcashd.Migrate.Received.Attach.{attach_received_outputs}
use zewif_zcashd.Migrate.Received.Laws.{attach_received_outputs-IsInBounds}
use zewif_zcashd.Migrate.Accounts.{
  AccountsLibrary, build_accounts, add_unified, sort_metas, place_meta, mnemonic_seed_fingerprint,
  legacy_mnemonic_seed,
}
use zewif_zcashd.Migrate.Accounts.Laws.{build_accounts-IsInBounds}
use zewif_zcashd.Migrate.Document.{earliest}
use zewif_zcashd.Migrate.Document.Laws.{AtMost, IsHeightOf, earliest-IsHeightOf}
use zewif_zcashd.Migrate.Transparent.{
  TransparentLibrary, TransparentInfo, add_keypairs, update_info, add_watch_scripts,
  add_redeem_scripts, transparent_spend_info, derivation_info_from_keypath, split_path, last_two,
  parse_u32, digits_value, scope_for_change, external, derived,
}
use zewif_zcashd.Migrate.Transparent.Laws.{authority_at, first_authority, entries-authority}
use zewif_zcashd.Migrate.Addresses.{AddressLibrary}
use zewif_zcashd.Migrate.Addresses.Attach.{attach_addresses}
use zewif_zcashd.Migrate.Addresses.Laws.{attach_addresses-IsInBounds}
use zewif_zcashd.Zcashd.Wallet.{ZcashdWallet}
use zewif_zcashd.Tests.Report.{crates, wallet}
use zewif_zcashd.Tests.Orders.{ord_bytes}
use zewif_zcashd.Tests.Policy.{pubkey}

abbrev five : List Bytes
five = replicate 5 (replicate 32 1)

abbrev first_of : Bytes → Bytes → Bytes
first_of left right = left

abbrev witness : IncrementalWitness
witness = record {
  tree = append_all first_of empty_tree (five ++ (replicate 32 2 ∷ []));
  filled = [];
  cursor = none;
}

abbrev note : SaplingNoteData
note = record {
  version = pos 1;
  incoming_viewing_key = replicate 32 3;
  nullifier = none;
  witnesses = witness ∷ [];
  witness_height = pos 9;
}

sapling_note_position-last_example : sapling_note_position {E = Unit {0}} true note ≡ ok (some 5)
sapling_note_position-last_example =
    sapling_note_position-last {E = Unit {0}} true first_of five (replicate 32 2) note witness []
      (omega arith) refl refl

-- An entry is its address with its label and its purpose.
abbrev Entry : Type 0
Entry = Bytes × Bytes × Option Bytes

abbrev entries : EntryLibrary Entry
entries = record {
  new = λ address. (address, [], none);
  set_label = λ label (address, old, purpose). (address, label, purpose);
  set_purpose = λ purpose (address, label, old). (address, label, some purpose);
  purpose = λ (address, label, purpose). purpose;
}

abbrev book_names : List (Bytes × Bytes)
book_names = (codes "t1", codes "Ann") ∷ []

abbrev book_recipients : List (Bytes × List RecipientMapping)
book_recipients =
    (
      replicate 32 1,
      record { recipient_address = to_key_id (replicate 20 1); unified_address = codes "u1" } ∷ [],
    )
    ∷ []

build_address_book-entries_example :
    (m : List (Bytes × Entry)) × (build_address_book entries ord_bytes book_names [] book_recipients
      ≡ values entries ord_bytes m)
    × Sorted ord_bytes m
    × ((a : Bytes)
        → get ord_bytes a m
          ≡ changed entries ord_bytes a none (
              label_changes entries ord_bytes a book_names
              ++ (purpose_changes entries ord_bytes a []
                  ++ recipient_changes entries ord_bytes a book_recipients)))
build_address_book-entries_example =
    build_address_book-entries entries ord_bytes book_names [] book_recipients

-- An account is the transactions it was given, and an output its index.
abbrev received : ReceivedLibrary (List Bytes) ℕ (Unit {0}) ℕ
received = record {
  sapling_output = λ index position nullifier. index;
  orchard_output = λ index position. index;
  sprout_output = λ index nullifier. index;
  output_index = λ index. index;
  pool = λ index. sapling;
  add_relevant_transaction = λ txid outputs account. txid ∷ account;
  orchard_ivks = λ k. some (1, 2);
}

abbrev two_accounts : WalletAccounts (List Bytes) (Unit {0})
two_accounts = record {
  accounts = [] ∷ [] ∷ [];
  ufvk_index = (replicate 32 7, 0) ∷ [];
  unified = (0, tt) ∷ [];
  legacy_index = 1;
}

abbrev transaction : WalletTx (Unit {0}) ℕ
transaction = record {
  transaction = tt;
  hash_block = replicate 32 0;
  merkle_branch = [];
  index = pos 0;
  map_value = [];
  map_sprout_note_data = [];
  order_form = [];
  time_received_is_tx_time = pos 0;
  time_received = pos 0;
  is_from_me = false;
  is_spent = false;
  sapling_note_data = some ((record { txid = replicate 32 4; vout = 0 }, note) ∷ []);
  orchard_tx_meta = none;
  unparsed_data = [];
}

attach_received_outputs-IsInBounds_example :
    (accounts' : WalletAccounts (List Bytes) (Unit {0})) × (attach_received_outputs received
        ord_bytes false
        ((replicate 32 4, transaction) ∷ [])
        []
        two_accounts
      ≡ ok accounts')
    × IsInBounds accounts'
    × (length accounts'.accounts ≡ 2)
attach_received_outputs-IsInBounds_example =
    attach_received_outputs-IsInBounds received ord_bytes ((replicate 32 4, transaction) ∷ []) []
      two_accounts (omega arith, (omega arith, tt), (omega arith, tt))

-- An account is its name.
abbrev seeds_and_accounts : AccountsLibrary Bytes (Unit {0}) Bytes Bytes Bytes
seeds_and_accounts = record {
  mnemonic_text = λ m. m;
  encode_seed_fingerprint = λ b. b;
  legacy_seed_bytes = λ b. b;
  derive_mnemonic = λ b. some b;
  to_seed = λ m. m;
  phrase = λ m. m;
  from_seed = λ b. some (take 32 b);
  new_mnemonic = λ b. b;
  ufvk_account = λ k. [];
  transparent_account = [];
  account_name = λ n. n ∷ [];
  set_name = λ name account. name;
  set_derived = λ fp index account. account;
  set_imported = λ account. account;
  set_provenance = λ text account. account;
  set_spending = λ account. account;
}

abbrev metadata : UnifiedAccountMetadata
metadata = record {
  seed_fingerprint = [];
  ufvk_fingerprint = replicate 32 7;
  bip_44_coin_type = 133;
  zip32_account_id = 3;
}

abbrev built : WalletAccounts Bytes (Unit {0})
built = record {
  accounts = (3 ∷ []) ∷ codes "Legacy" ∷ [];
  ufvk_index = (replicate 32 7, 0) ∷ [];
  unified = (0, tt) ∷ [];
  legacy_index = 1;
}

build_accounts-IsInBounds_example :
    IsInBounds built × (built.legacy_index ≡ 1) × (length built.accounts ≡ 2)
unfolding build_accounts add_unified sort_metas place_meta mnemonic_seed_fingerprint
    legacy_mnemonic_seed HashMap.get HashMap.insert bytes_eq
build_accounts-IsInBounds_example =
    build_accounts-IsInBounds seeds_and_accounts ((replicate 32 7, tt) ∷ [])
      ((replicate 32 7, metadata) ∷ []) none none none built refl

abbrev heights : List (Bytes × ℕ)
heights = (replicate 32 1, 20) ∷ (replicate 32 2, 10) ∷ []

abbrev mined : List Bytes
mined = replicate 32 1 ∷ replicate 32 2 ∷ replicate 32 3 ∷ []

earliest-IsHeightOf_example :
    (earliest heights mined ≡ none → All (λ txid. HashMap.get txid heights ≡ none) mined)
    × ((h : ℕ)
        → earliest heights mined ≡ some h
        → IsHeightOf heights mined h × All (λ txid. AtMost h (HashMap.get txid heights)) mined)
earliest-IsHeightOf_example = earliest-IsHeightOf heights mined

-- An address is its text, which is the hash or the key behind it.
abbrev transparent : TransparentLibrary (List Bytes) Bytes Bytes Bytes
transparent = record {
  from_slice = λ b. some b;
  p2pkh_of = λ pk. pk;
  key_id_string = λ b. b;
  script_id_string = λ b. b;
  pub_key_from_bytes = λ b. some b;
  new = λ b. b;
  set_spend_authority = λ authority b. b;
  set_pubkey = λ pk b. b;
  set_redeem_script = λ script b. b;
  add_address = λ address scope account. address ∷ account;
}

abbrev keypair : KeyPair
keypair = record {
  pubkey = pubkey;
  privkey = record { der = []; hash = [] };
  metadata = record {
    version = pos 10;
    create_time = none;
    hd_keypath = some (codes "m/44'/133'/0'/0/5");
    seed_fp = none;
  };
}

abbrev watched : WatchScript
watched = record { script = []; kind = p2pkh pubkey }

abbrev watched_entries : List (Bytes × TransparentInfo Bytes)
watched_entries =
    (
      pubkey,
      record {
        spend_authority = some (derived 0 5);
        scope = some external;
        redeem_script = none;
        pubkey = none;
      },
    )
    ∷ []

entries-authority_example :
    authority_at transparent pubkey (
      add_redeem_scripts transparent
        ((pubkey, 1 ∷ []) ∷ [])
        (add_watch_scripts transparent (watched ∷ []) watched_entries))
    ≡ first_authority transparent pubkey (keypair ∷ [])
unfolding add_keypairs update_info transparent_spend_info derivation_info_from_keypath split_path
    last_two parse_u32 digits_value scope_for_change HashMap.get HashMap.insert bytes_eq
entries-authority_example =
    entries-authority transparent (keypair ∷ []) (watched ∷ []) ((pubkey, 1 ∷ []) ∷ [])
      watched_entries refl pubkey

-- An account is the addresses it was given.
abbrev addresses : AddressLibrary (List Bytes) (Unit {0}) (Unit {0}) (Unit {0})
addresses = record {
  sapling_string = λ b. b;
  sprout_string = λ b. b;
  default_address = λ k. replicate 43 1;
  custom = λ orchard_part sapling_part transparent_part. some tt;
  address = λ k index request. some index;
  add_sapling_address = λ text scope account. text ∷ account;
  add_sprout_address = λ text scope account. text ∷ account;
  add_unified_address = λ text index scope account. text ∷ account;
}

abbrev full_wallet : ZcashdWallet crates
full_wallet = record wallet {
  keys = (pubkey, keypair) ∷ [];
  cscripts = (replicate 20 1, 1 ∷ []) ∷ [];
  sapling_z_addresses =
      (record { diversifier = replicate 11 1; pk = replicate 32 2 }, replicate 32 3) ∷ [];
}

attach_addresses-IsInBounds_example :
    ((w' : WalletAccounts (List Bytes) (Unit {0})) × (attach_addresses crates transparent addresses
          ord_bytes full_wallet two_accounts
        ≡ ok w')
      × (IsInBounds w' × (length w'.accounts ≡ 2)))
    ⊎ ((e : MigrateError) × (attach_addresses crates transparent addresses ord_bytes full_wallet
            two_accounts
          ≡ err e))
attach_addresses-IsInBounds_example =
    attach_addresses-IsInBounds crates transparent addresses ord_bytes full_wallet two_accounts
      (omega arith, (omega arith, tt), (omega arith, tt))
