-- ===== src/Token.antt =====
-- contracts/eosio.token: the tables and the actions of the token contract.
mod State
mod Actions
pub mod Effects
pub mod Invariant
pub mod Keeps
pub mod Accounts
pub mod History
pub mod Transfer
pub mod Total
pub mod Issue
pub mod OpenClose
mod Tests
pub use State.*
unfoldable pub use Actions.{
  active, no_key, inline_transfer, sub_balance, add_balance, create, issue, retire, transfer,
  open_account, close, get_supply, get_balance,
}
