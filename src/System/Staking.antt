-- ===== src/System/Staking.antt =====
-- contracts/eosio.system/src/delegate_bandwidth.cpp: tokens that are staked for bandwidth and votes.
pub mod Power
pub mod Refunds
pub mod Actions
pub mod Quiet
pub mod Backed
pub mod Refunding
pub mod Requests
pub mod Backing
pub mod Stakes
pub mod Repaid
pub mod Calls
pub mod Ledger
mod Tests
