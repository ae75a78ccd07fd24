-- ===== src/Wallet.antt =====
-- The components of src/zcashd_wallet.
pub mod Crypto
pub mod Words
pub mod Meta
pub mod Transparent
pub mod Addresses
pub mod Trees
pub mod Tx
pub mod Equality
