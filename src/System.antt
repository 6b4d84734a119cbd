-- ===== src/System.antt =====
-- contracts/eosio.system: the system contract.
pub mod Float
pub mod State
pub mod Tables
pub mod Host
pub mod Keeping
pub mod Settings
pub mod Resources
pub mod Market
pub mod Rex
pub mod Ram
pub mod Voting
pub mod Staking
pub mod Pay
pub mod Calls
pub mod Names
pub mod Conversion
pub mod Payments
pub mod Owed
pub mod Auction
pub mod Accounts
pub mod Sample
mod Tests
