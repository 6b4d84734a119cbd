-- ===== src/Msig.antt =====
-- contracts/eosio.msig: the tables and the actions of the multi-signature contract.
mod State
mod Actions
pub mod Effects
pub mod Exec
pub mod Pairing
pub mod Levels
pub mod Lifecycle
pub mod Voiding
pub mod Times
mod Tests
pub use State.*
pub use Actions.{MsigHost}
unfoldable pub use Actions.{
  approved, old_approved, unapproved, old_unapproved, new_approvals, level_eq, propose, approve,
  approve_row, unapprove_row, remove_approvals, take_approvals, check_hash, unapprove, cancel, exec,
  invalidate, has_level, erase_level, has_approval, erase_approval, still_valid, valid_approvals,
  valid_old_approvals, not_found,
}
