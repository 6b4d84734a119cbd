-- ===== src/System/Pay.antt =====
-- contracts/eosio.system/src/producer_pay.cpp: the pay of the producers of blocks.
pub mod Blocks
pub mod Claims
pub mod Voters
pub mod Issue
mod Tests
pub mod Closing
