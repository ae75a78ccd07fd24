-- ===== src/Migrate.antt =====
-- src/migrate: from the wallet to a ZeWIF document.
pub mod State
pub mod Trees
pub mod AddressBook
pub mod Received
pub mod Accounts
pub mod Document
pub mod Transparent
pub mod Addresses
pub mod Sent
pub mod Secrets
