-- ===== src/Tests/Report.antt =====
-- The whole wallet parser, run on a small dump.
use zewif_zcashd.Base.{
  ◌≡◌, refl, List, [], ◌∷◌, ◌++◌, true, false, ok, none, some, pos, take, replicate,
}
use zewif_zcashd.Base.Bytes.{codes, bytes_eq, eq_bytes}
use zewif_zcashd.Base.HashMap
use zewif_zcashd.Base.BTreeMap.{get, insert, contains_key}
use zewif_zcashd.Wire.Parser.{Bytes, next, rest, check_finished, parse_buf}
use zewif_zcashd.Wire.Ints.{u8, u32, u64, i64, from_le_bytes, to_signed}
use zewif_zcashd.Wire.CompactSize.{parse_compact_size}
use zewif_zcashd.Wire.Utf8.{is_utf8}
use zewif_zcashd.Wire.Collections.{
  compact_size, data_bytes, parse_fixed_length_vec, with_capacity, parse_items, parse_optional,
  parse_vec, parse_pair, string, from_utf8,
}
use zewif_zcashd.Wallet.Words.{byte_array}
use zewif_zcashd.Wallet.Meta.{
  seconds_since_epoch, ClientVersion, client_version, from_integer, block_locator, network_info,
  network_of, mainnet,
}
use zewif_zcashd.Wallet.Transparent.{pub_key, key_pool_entry}
use zewif_zcashd.Dump.{
  DbKey, DbValue, ZcashdDump, keys_of, add_record, has_keys_for_keyname, has_value_for_keyname,
  value_for_keyname, records_for_keyname, value_for_key, collect_records,
}
use zewif_zcashd.Dump.Keys.{lt_key}
use zewif_zcashd.Dump.Index.{IsIndexed, IsIndexed-empty, IsIndexed-add_record}
use zewif_zcashd.Zcashd.State.{
  skip, eq_key, for_records, marked_value, mark_key_parsed, mark_keys_parsed, mark_records_parsed,
  skip_or_reject_encrypted,
}
use zewif_zcashd.Zcashd.Accounts.{parse_unified_accounts, parse_send_recipients}
use zewif_zcashd.Zcashd.Sapling.{parse_sapling_extended_full_viewing_keys, parse_sapling_keys}
use zewif_zcashd.Zcashd.Transactions.{
  parse_transactions, orchard_note_commitment_tree, parse_orchard_note_commitment_tree,
}
use zewif_zcashd.Zcashd.MasterKey.{derive_master_key}
use zewif_zcashd.Zcashd.Keys.{parse_keys, encrypted_keys, parse_sprout_keys}
use zewif_zcashd.Zcashd.Seeds.{parse_hdseed, parse_mnemonic_phrase}
use zewif_zcashd.Zcashd.Records.{
  unique_entry, key_pool_round, parse_address_names, parse_address_purposes,
  parse_sapling_z_addresses, parse_cscripts, parse_key_pool, parse_watch_scripts, parse_wallet_keys,
}
use zewif_zcashd.Zcashd.Records.Single.{
  parse_i64, parse_opt_i64, parse_client_version, parse_block_locator, parse_opt_block_locator,
  parse_default_key, parse_mnemonic_hd_chain, parse_network_info,
}
use zewif_zcashd.Zcashd.Wallet.{Crates, ZcashdWallet, all_keys, parse, parse_dump_with_policy}
use zewif_zcashd.Zcashd.Wallet.Known.{known_names}
use zewif_zcashd.Zcashd.Wallet.Laws.{handled_names, parse_dump_with_policy-reports}
use zewif_zcashd.Tests.Orders.{lt_bytes, ord_bytes}
use zewif_zcashd.Tests.Zcashd.{keys}
use zewif_zcashd.Tests.Policy.{lib, seeds, pubkey}

-- Stand-ins of other crates, none of which the dump makes the parser depend on but the reader of trees.
abbrev pub crates : Crates
crates = record {
  LegacySeed = Unit {0};
  MnemonicLanguage = Unit {0};
  Bip39Mnemonic = Unit {0};
  ExtSk = Unit {0};
  ExtFvk = Unit {0};
  Ufvk = Unit {0};
  Transaction = Unit {0};
  OrchardIvk = Unit {0};
  BridgeTree = Unit {0};
  lib = lib;
  seeds = seeds;
  sapling = record {
    read_extsk = λ s. ok (tt, s);
    read_extfvk = λ s. ok (tt, s);
    to_extfvk = λ k. k;
    extfvk_bytes = λ k. [];
    external_ivk = λ k. [];
    blake2b = λ personal message. take 32 message;
  };
  accounts = record {
    encode_seed_fingerprint = λ b. b;
    decode_ufvk = λ b. ok tt;
    fits = λ n. true;
  };
  txs = record {
    read_txid = byte_array 32;
    read_block_hash = byte_array 32;
    read_transaction = λ s. ok (tt, s);
    has_sapling = λ t. false;
    has_orchard = λ t. false;
    orchard_ivk_from_bytes = λ b. some tt;
    witness_size = 1;
    sprout_entry_size = 1;
    sapling_entry_size = 1;
    orchard_entry_size = 1;
  };
  trees = record {
    read_u8 = u8;
    read_u32 = u32;
    read_optional = λ p. parse_optional p;
    read_collected = λ p. parse_vec 1 p;
    read_tree = λ s. ok (tt, s);
    read_position = u64;
    read_txid = byte_array 32;
    to_btree_map = λ l. l;
  };
}

add_all : List (DbKey × DbValue) → ZcashdDump
add_all [] = record { records = []; keys_by_keyname = [] }
add_all ((key, value) ∷ records) = add_record ord_bytes keys key value (add_all records)

IsIndexed-add_all : (records : List (DbKey × DbValue)) → IsIndexed ord_bytes keys (add_all records)
unfolding add_all
IsIndexed-add_all [] = IsIndexed-empty ord_bytes keys
IsIndexed-add_all ((key, value) ∷ records) =
    IsIndexed-add_record ord_bytes keys key value _ (IsIndexed-add_all records)

abbrev named : Bytes → Bytes → DbKey
named keyname key_data = record { keyname = keyname; key_data = key_data }

abbrev unknown : DbKey
unknown = named (codes "acc") (1 ∷ [])

abbrev full_records : List (DbKey × DbValue)
full_records =
    (unknown, 1 ∷ [])
    ∷ (named (codes "bestblock") [], replicate 5 0)
    ∷ (named (codes "ckey") (33 ∷ pubkey), 48 ∷ replicate 48 7)
    ∷ (named (codes "defaultkey") [], 33 ∷ pubkey)
    ∷ (named (codes "minversion") [], replicate 4 0)
    ∷ (named (codes "name") (1 ∷ codes "a"), 1 ∷ codes "b")
    ∷ (named (codes "networkinfo") [], 5 ∷ codes "zcash" ++ (4 ∷ codes "main"))
    ∷ (named (codes "orchard_note_commitment_tree") [], replicate 4 0 ++ (1 ∷ 0 ∷ 0 ∷ []))
    ∷ (named (codes "pool") (replicate 8 0), replicate 12 0 ++ (33 ∷ pubkey))
    ∷ (named (codes "purpose") (1 ∷ codes "a"), 1 ∷ codes "b")
    ∷ (named (codes "version") [], replicate 4 0)
    ∷ (named (codes "witnesscachesize") [], replicate 8 0)
    ∷ []

abbrev full : ZcashdDump
full = add_all full_records

abbrev zero_version : ClientVersion
zero_version = record { version = 0; major = 0; minor = 0; revision = 0; build = 0 }

abbrev pub wallet : ZcashdWallet crates
wallet = record {
  address_names = (codes "a", codes "b") ∷ [];
  address_purposes = (codes "a", codes "b") ∷ [];
  bestblock_nomerkle = none;
  bestblock = record { version = zero_version; blocks = [] };
  client_version = zero_version;
  cscripts = [];
  default_key = pubkey;
  key_pool = (pos 0, record { version = zero_version; timestamp = 0; key = pubkey }) ∷ [];
  keys = [];
  min_version = zero_version;
  legacy_hd_seed = none;
  mnemonic_hd_chain = none;
  bip39_mnemonic = none;
  network_info = record { zcash = codes "zcash"; network = mainnet };
  orchard_note_commitment_tree = record {
    last_checkpoint = none;
    commitment_tree = tt;
    note_positions = [];
  };
  orderposnext = none;
  sapling_extended_full_viewing_keys = [];
  sapling_keys = [];
  sapling_z_addresses = [];
  send_recipients = [];
  sprout_keys = none;
  wallet_keys = none;
  transactions = [];
  unified_accounts = record {
    address_metadata = [];
    full_viewing_keys = [];
    account_metadata = [];
  };
  watch_scripts = [];
  witnesscachesize = pos 0;
}

parse_dump_with_policy-reports_example :
    (HashMap.contains unknown (unknown ∷ []) ≡ true → contains_key keys unknown full.records ≡ true)
    × (HashMap.contains unknown.keyname known_names ≡ false
        → HashMap.contains unknown (unknown ∷ []) ≡ contains_key keys unknown full.records)
    × (HashMap.contains unknown.keyname
            (handled_names (has_keys_for_keyname ord_bytes keys full (codes "unifiedaddrmeta")))
          ≡ true
        → HashMap.contains unknown (unknown ∷ []) ≡ false)
unfolding parse_dump_with_policy add_all has_keys_for_keyname has_value_for_keyname
    value_for_keyname records_for_keyname value_for_key collect_records keys_of add_record get
    insert contains_key lt_key lt_bytes for_records marked_value mark_key_parsed mark_keys_parsed
    mark_records_parsed skip_or_reject_encrypted bytes_eq HashMap.remove_item HashMap.insert
    HashMap.contains_key HashMap.contains parse_buf check_finished next rest parse_compact_size
    is_utf8 from_utf8 u8 u32 u64 i64 from_le_bytes to_signed compact_size data_bytes parse_optional
    parse_vec parse_pair parse_items string with_capacity client_version from_integer block_locator
    network_info network_of pub_key key_pool_entry parse derive_master_key parse_block_locator
    parse_cscripts parse_default_key parse_hdseed parse_keys encrypted_keys parse_client_version
    parse_address_names parse_opt_i64 parse_i64 parse_key_pool key_pool_round unique_entry
    parse_address_purposes parse_sapling_z_addresses parse_sapling_extended_full_viewing_keys
    parse_sapling_keys parse_transactions parse_watch_scripts parse_wallet_keys parse_sprout_keys
    parse_network_info parse_orchard_note_commitment_tree orchard_note_commitment_tree
    parse_unified_accounts parse_mnemonic_phrase parse_mnemonic_hd_chain parse_send_recipients
    parse_opt_block_locator all_keys seconds_since_epoch parse_fixed_length_vec
parse_dump_with_policy-reports_example =
    parse_dump_with_policy-reports crates ord_bytes keys ord_bytes full skip false
      (IsIndexed-add_all full_records) wallet (unknown ∷ []) refl unknown
