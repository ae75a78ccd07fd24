-- ===== src/Lib.antt =====
-- Verification of zewif-zcashd, which reads the `wallet.dat` of zcashd and migrates it to a ZeWIF document.
--
-- The program dumps the Berkeley DB file to pairs of byte strings (src/bdb_dump.rs), makes of them a
-- dump of typed keys with an index by key name (src/zcashd_dump.rs), parses every kind of record of the
-- dump into a wallet, decrypting encrypted keys as a policy says (src/zcashd_parser.rs), and migrates
-- the wallet (src/migrate). The parsers of records are built from one binary parser (src/parser) and the
-- parsers of the wallet's types (src/zcashd_wallet).
--
-- Base        what all modules share: tests, lists, outcomes (`Result`: a value, an error or a panic) and
--             actions on a state (`M`), the maps and sets of the standard library (Base/HashMap: insertion
--             order stands for the unspecified order; Base/BTreeMap: sorted by a total order), byte strings.
-- Wire        src/parser and the basic types of src/zcashd_wallet/parseable_types.rs and compact_size.rs.
--             A parser is a function from the parser's state (`Parser`) to an outcome. `Reads p bs a` says
--             that `p` reads `a` off `bs` wherever these bytes come next, and `IsLocal p` that a success of
--             `p` depends only on the bytes it takes.
-- Wallet      src/zcashd_wallet: Words (u160, u252, u256), Meta (client version, key metadata, mnemonic
--             chain, block locator, network), Transparent (keys, key pairs, DER scalars, watch-only
--             scripts), Addresses (receivers and what is recorded of them), Crypto (crypto.rs), Trees (note
--             commitment trees, witnesses and notes), Tx (wallet transactions), Equality (the equalities of
--             the keys of maps).
-- Dump        src/zcashd_dump.rs: keys, the dump, its index and its queries. `IsIndexed` relates the index
--             to the records. Dump/Bdb is src/bdb_dump.rs behind the run of `db_dump`: a loop over lines with
--             its variables in a record (`Reading`).
-- Zcashd      src/zcashd_parser.rs: an action on the set of unparsed keys for each of its methods. State has
--             the policy, the errors and the marking of keys; Records the records in the clear; Keys the
--             transparent and Sprout keys; MasterKey the master key; Seeds the seed and the mnemonic; Sapling
--             the Sapling keys; Accounts the unified accounts and the recipients; Transactions the
--             transactions and the Orchard tree; Wallet the composition of all (`parse`). Effects and
--             Effects/Marks say which keys an action takes off the unparsed ones: `Marks` that it takes off
--             only some, `Handles` that it takes off a key whenever it succeeds. Wallet/Known and the
--             modules beside it give the first for every parser and the second for the loops over records,
--             and Wallet/Laws puts them together.
-- Migrate     src/migrate: Trees (sizes and positions), AddressBook, Received (received outputs), Accounts
--             (accounts and seeds), Document (transactions, heights, networks), Transparent (key paths and
--             transparent addresses), Addresses (the other addresses, and attach_addresses), Sent (sent
--             outputs), Secrets (transparent and Sprout secret keys). State has the errors and the accounts
--             that are passed along.
-- Tests       runs of the model on concrete inputs.
--
-- Numbers are natural numbers; a usize is 64 bits wide, and a sum or product that passes it is written out
-- as the code has it (a panic, a checked or a saturating operation). Every loop is structural recursion on
-- the list or the count it runs over, so no fuel is needed. A string is the list of its UTF-8 bytes, and
-- in Dump/Bdb of its code points. A build without overflow checks is the value `false` of `checks`.
--
-- Code of other crates is a parameter: SHA-256, SHA-512, AES-256-CBC with its padding, secp256k1, Bech32m,
-- the order of `Data`, the seed and mnemonic types of the zewif crate, the readers of transactions, block
-- hashes and Sapling keys, and the types of the document (accounts, outputs, address book entries). All that
-- `parse` needs is one record, `Crates`. The size of an entry of a map, which the compiler chooses, is a
-- parameter as well. The orders of keys are parameters too; Dump/Keys builds the order that `DBKey` derives
-- from those of its fields.
--
-- Not modelled: the run of `db_dump` and the search for it; orchard/bridgetree_parsing.rs, a copy of zcash's
-- reader of bridge trees, which is a parameter; of the migration the Sapling keys and the
-- seeds of the secret store, and the assembly of the document; display and debug output, warnings, and the
-- wiping of secrets from memory.
pub mod Base
pub mod Wire
pub mod Wallet
pub mod Dump
pub mod Zcashd
pub mod Migrate
mod Tests
