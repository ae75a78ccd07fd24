-- ===== src/Tests.antt =====
-- Runs of the model on concrete inputs.
mod Wire
mod Wallet
mod Orders
mod Zcashd
mod Policy
mod Sprout
mod Report
mod Migrate
mod Bdb
mod Sapling
mod Sent
