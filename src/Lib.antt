-- ===== src/Lib.antt =====
-- The contracts of the repository: the token contract (contracts/eosio.token), the multi-signature
-- contract (contracts/eosio.msig) and the system contract (contracts/eosio.system), as definitions that
-- run, with theorems about them.
--
-- How a contract is modelled. The state of a contract is a record of its tables; a table
-- (`eosio::multi_index`) is the list of its rows, each with its scope, its primary key and its payer
-- (Chain/Table). An action is a function from a state to a result and a new state, or to the message
-- it aborts with, and then nothing that it wrote is kept (Chain/Action). `check`, `require_auth`,
-- `emplace`, `modify` and `erase` are the functions of those names; the payer 0 is `same_payer`. What
-- an action sends on is a list in the state: inline actions, notified accounts, deferred transactions.
-- The inline transfer of an issue is run by its receiver in Token/Issue, as a second action.
--
-- Names and symbol codes are the 64-bit numbers that encode them. An int64_t is an integer that is
-- stored by `int64`, which wraps around, wherever the source computes with one; an unsigned integer is
-- a natural number with its remainder written out. Times are microseconds, or seconds of a
-- `time_point_sec`, or slots of a `block_timestamp`.
--
-- What is not in the repository is a parameter. `Eosiolib` (Chain/Asset) has the operations on assets
-- and times, with laws that say what they are documented to do: assets of different symbols abort, and
-- so does a result outside of plus or minus 2^62 - 1. `Chain` (Chain/Action) says who signed, which
-- accounts exist and what time it is. `MsigHost` (Msig/Actions) has the header, the hash and the
-- authorization check of a serialized transaction. `SystemHost` (System/Host) has the names, slots and
-- hashes that the system contract asks for, and `FloatOps` (System/Float) the operations on doubles, of
-- which the result on elections alone assumes something, in its hypotheses: a double is a bit pattern.
-- Sample has a library and a chain for the tests.
--
-- Common: tests on numbers, lists, and integers over the native numbers.
--
-- contracts/eosio.token/src/eosio.token.cpp: Token/State has the tables `accounts` and `stats`,
-- Token/Actions each action (`open` is `open_account`) with `sub_balance` and `add_balance`. Effects has
-- what each success means, Invariant and Keeps the invariant of the tables, Accounts the lemmas on
-- balances; History, Transfer, Total, Issue and OpenClose have the results, Tests runs and examples.
--
-- contracts/eosio.msig/src/eosio.msig.cpp: Msig/State has the tables, with both formats of approvals,
-- Msig/Actions each action. Effects and Exec say what a success means, Pairing that a proposal and its
-- approvals come and go together, Levels that the levels of a proposal are only moved; Lifecycle,
-- Voiding and Times have the results, Tests runs and examples.
--
-- contracts/eosio.system: System/State has the rows of the tables (include/eosio.system/eosio.system.hpp),
-- Tables the state with a lens for each table, the secondary indices and the inline actions, Host the
-- constants and the arithmetic of uint128_t. Then
-- for src/eosio.system.cpp: Settings (`setparams`, `setpriv`), Resources (managed limits, and
-- `update_resource_limits` of src/rex.cpp), Ram (`setram`, `update_ram_supply`, `init`; `buyram` and `sellram` of src/delegate_bandwidth.cpp), Names
-- (`bidname`, `bidrefund`, `newaccount`, `setabi`). Owed has what eosio.names owes
-- to bidders, Auction the result on bids, Accounts that on new accounts.
-- for src/exchange_state.cpp: Market, where a member function is an action whose state is the exchange.
-- `convert` calls itself at most once, so that fuel for two calls is enough (Conversion).
-- for src/rex.cpp: Rex/Pool, Fund, Balance, Orders and Loans have the helpers and the loops of `runrex`,
-- which are recursions on the maximum that they are called with; Stake has `update_rex_stake` (the
-- `vote_stake_updater` of the header), Account and Savings the actions of the owners of REX, Actions the
-- others. A function for CPU and NET loans takes the kind of bandwidth where the source takes the table
-- as a template parameter. Consistent has the sum of the pool, Frame the steps that leave the pool
-- alone, Steps, Runs, Keeping, Purchases, Trades and Trading that each step keeps the sum, Calls the
-- result on histories; Pieces says which buckets are taken or get more, Draining what is taken from
-- the newest; Price, Sale, Buckets and Moving have the results on purchases, orders, maturities and
-- savings.
-- for src/voting.cpp: Voting/Shares has the shares of the pay for votes, Proxies `regproxy` and
-- `propagate_weight_change`, Deltas the map of a vote's changes, a list sorted by name, Votes
-- `update_votes`, Actions the other actions, Election `update_elected_producers`. Steps and Quiet say
-- what a vote keeps, Links and Same which proxy a voter uses, Rules what a vote that succeeds has
-- checked; Acyclic, Lookups, Ballots, Order and Voters the order of the voters, Ranking
-- the order of the index by votes, Schedules what an election may propose. `propagate_weight_change` calls itself for the proxy:
-- it is a recursion on the depth of calls that the chain allows, beyond which the call traps. Depth is
-- about how deep it goes.
-- for the staking of src/delegate_bandwidth.cpp: Staking/Power has `update_voting_power`, Refunds the
-- refunds, Actions `changebw` and its callers. Quiet says what a stake keeps; Backed, Refunding,
-- Requests, Backing, Stakes and Repaid follow what eosio.stake owes through a change, Calls has the result
-- on histories; Ledger is the table of delegations without its empty rows.
-- for src/producer_pay.cpp: Pay/Blocks has `onblock`, Claims `claimrewards`; Voters, Closing and Issue have
-- the results. Calls has the histories of votes, stakes, blocks and claims.
-- Payments has what inline transfers bring to an account, Chain/Keeps that an action keeps a predicate,
-- Chain/Avoids that it never aborts with a message, Keeping the rules for `search` of this contract.
--
-- Not modelled. contracts/eosio.bios and contracts/eosio.wrap, which pass requests on to the chain, and
-- actions with empty bodies (include/eosio.system/native.hpp, src/rex.results.cpp). The tests of the
-- repository (tests/).
pub mod Common
pub mod Chain
pub mod Sample
pub mod Token
pub mod Msig
pub mod System
