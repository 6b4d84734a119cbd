-- ===== src/System/Voting.antt =====
-- contracts/eosio.system/src/voting.cpp: votes for producers, and the proxies that cast them.
pub mod Shares
pub mod Proxies
pub mod Deltas
pub mod Votes
pub mod Actions
pub mod Election
pub mod Steps
pub mod Links
pub mod Same
pub mod Rules
pub mod Acyclic
pub mod Depth
pub mod Quiet
pub mod Lookups
pub mod Ballots
pub mod Order
pub mod Voters
pub mod Ranking
pub mod Schedules
mod Tests
