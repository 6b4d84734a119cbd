-- ===== src/System/Rex.antt =====
-- contracts/eosio.system/src/rex.cpp: the resource exchange.
pub mod Pool
pub mod Fund
pub mod Balance
pub mod Stake
pub mod Orders
pub mod Loans
pub mod Account
pub mod Savings
pub mod Actions
pub mod Frame
pub mod Consistent
pub mod Steps
pub mod Runs
pub mod Pieces
pub mod Price
pub mod Sale
pub mod Keeping
pub mod Buckets
pub mod Draining
pub mod Moving
pub mod Calls
pub mod Purchases
pub mod Trades
pub mod Trading
mod Tests
