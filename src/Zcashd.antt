-- ===== src/Zcashd.antt =====
-- src/zcashd_parser.rs: from the records of a dump to the wallet.
pub mod State
pub mod Effects
pub mod Records
pub mod Keys
pub mod MasterKey
pub mod Seeds
pub mod Sapling
pub mod Accounts
pub mod Transactions
pub mod Wallet
