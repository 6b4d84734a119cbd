-- ===== src/System/Rex/Actions.antt =====
-- contracts/eosio.system/src/rex.cpp: the actions on loans and on the pool.
use cmcc_eosio_contracts.Common.{ℕ}
use cmcc_eosio_contracts.Common.Int.{pos, ltb_ℤ}
use cmcc_eosio_contracts.Chain.Asset.{Asset, sym_eq}
use cmcc_eosio_contracts.Chain.Action.{Action, ⊤, gets, check, require_auth, ◌>>=◌, ◌>>◌}
use cmcc_eosio_contracts.System.Tables.{System}
use cmcc_eosio_contracts.System.Host.{
  SystemHost, core_symbol, pool, eosio_account, rex_system_initialized,
}
use cmcc_eosio_contracts.System.Rex.Pool.{write_pool}
use cmcc_eosio_contracts.System.Rex.Loans.{
  Bandwidth, update_bandwidth, runrex, rent_rex, fund_rex_loan, defund_rex_loan,
}

module _ (h : SystemHost) where
  -- `rentcpu` and `rentnet`, and so on: one function for each pair of actions.
  unfoldable pub rent : Bandwidth → ℕ → ℕ → Asset → Asset → Action System ⊤
  rent kind from receiver loan_payment loan_fund = do
    require_auth h.chain from
    rented_tokens ← rent_rex h kind from receiver loan_payment loan_fund
    update_bandwidth h kind from receiver rented_tokens

  unfoldable pub fund_loan : Bandwidth → ℕ → ℕ → Asset → Action System ⊤
  fund_loan kind from loan_num payment = do
    require_auth h.chain from
    fund_rex_loan h kind from loan_num payment

  unfoldable pub defund_loan : Bandwidth → ℕ → ℕ → Asset → Action System ⊤
  defund_loan kind from loan_num amount = do
    require_auth h.chain from
    defund_rex_loan h kind from loan_num amount

  unfoldable pub setrex : Asset → Action System ⊤
  setrex balance = do
    require_auth h.chain eosio_account
    check (ltb_ℤ (pos 0) balance.amount) "balance must be set to have a positive amount"
    core ← core_symbol h
    check (sym_eq balance.symbol core) "balance symbol must be core symbol"
    initialized ← gets (rex_system_initialized h)
    check initialized "rex system is not initialized"
    rp ← pool h
    write_pool h (record rp { total_rent = balance })

  unfoldable pub rexexec : ℕ → ℕ → Action System ⊤
  rexexec user max = do require_auth h.chain user; runrex h max
