-- ===== src/System/Rex/Steps.antt =====
-- contracts/eosio.system/src/rex.cpp: each step of the exchange keeps the sum of the pool.
use cmcc_eosio_contracts.Common.{ℕ, ◌≡◌, arith, Bool}
use cmcc_eosio_contracts.Common.Int.{ℤ}
use cmcc_eosio_contracts.Chain.Asset.{Asset}
use cmcc_eosio_contracts.Chain.Action.{ok}
use cmcc_eosio_contracts.System.State.{RexBalance, RexLoan, RexOrder, RexOrderOutcome}
use cmcc_eosio_contracts.System.Tables.{System}
use cmcc_eosio_contracts.System.Host.{SystemHost, core_symbol, pool}
use cmcc_eosio_contracts.System.Rex.Pool.{
  add_loan_to_rex_pool, remove_loan_from_rex_pool, channel_to_rex, channel_namebid_to_rex,
}
use cmcc_eosio_contracts.System.Rex.Orders.{fill_rex_order, close_order}
use cmcc_eosio_contracts.System.Rex.Consistent.{
  Consistent, with_loan-Sums, without_loan-Sums, with_channeled-Sums, with_sale-Sums,
  set_row-Consistent, find-Consistent,
}

module _ (h : SystemHost) (s s' : System) (c : Consistent s.rexpool) where
  pub add_loan_to_rex_pool-Consistent :
      (payment : Asset) (rented : ℤ) (b : Bool)
      → add_loan_to_rex_pool h payment rented b s ≡ ok tt s'
      → Consistent s'.rexpool
  unfolding add_loan_to_rex_pool pool
  add_loan_to_rex_pool-Consistent payment rented b e =
      grind (arith, set_row-Consistent, with_loan-Sums payment.amount rented b)

  pub remove_loan_from_rex_pool-Consistent :
      (loan : RexLoan) → remove_loan_from_rex_pool h loan s ≡ ok tt s' → Consistent s'.rexpool
  unfolding remove_loan_from_rex_pool pool
  remove_loan_from_rex_pool-Consistent loan e = grind (arith, set_row-Consistent, without_loan-Sums)

  pub channel_to_rex-Consistent :
      (from : ℕ) (amount : Asset)
      → channel_to_rex h from amount s ≡ ok tt s'
      → Consistent s'.rexpool
  unfolding channel_to_rex pool
  channel_to_rex-Consistent from amount e =
      grind (arith, set_row-Consistent, with_channeled-Sums amount.amount, find-Consistent h.self 0)

  pub channel_namebid_to_rex-Consistent :
      (highest_bid : ℤ) → channel_namebid_to_rex h highest_bid s ≡ ok tt s' → Consistent s'.rexpool
  unfolding channel_namebid_to_rex pool
  channel_namebid_to_rex-Consistent highest_bid e =
      grind (arith, set_row-Consistent, find-Consistent h.self 0)

  pub fill_rex_order-Consistent :
      (owner : ℕ) (b : RexBalance) (rex : Asset) (r : RexOrderOutcome)
      → fill_rex_order h owner b rex s ≡ ok r s'
      → Consistent s'.rexpool
  unfolding fill_rex_order pool core_symbol
  fill_rex_order-Consistent owner b rex r e = grind (arith, set_row-Consistent, with_sale-Sums)

  pub close_order-Consistent :
      (owner : ℕ) (o : RexOrder) (r : RexOrderOutcome)
      → close_order h owner o r s ≡ ok tt s'
      → Consistent s'.rexpool
  unfolding close_order
  close_order-Consistent owner o r e = ground arith
