-- ===== src/System/Rex/Trading.antt =====
-- contracts/eosio.system/src/rex.cpp: the actions that buy, sell and move REX keep the sum of the pool.
use cmcc_eosio_contracts.Common.{String, ℕ, ◌≡◌, some, arith, true}
use cmcc_eosio_contracts.Common.Int.{int64, int64_id, ◌+ℤ◌}
use cmcc_eosio_contracts.Chain.Asset.{Asset, in_range}
use cmcc_eosio_contracts.Chain.Keeps.{Keeps, known-Keeps}
use cmcc_eosio_contracts.System.State.{RexPool, RexBalance}
use cmcc_eosio_contracts.System.Host.{SystemHost, core_symbol, other_symbols}
use cmcc_eosio_contracts.System.Keeping.{step_laws}
use cmcc_eosio_contracts.System.Rex.Balance.{consolidate_rex_balance}
use cmcc_eosio_contracts.System.Rex.Stake.{check_voting_requirement}
use cmcc_eosio_contracts.System.Rex.Account.{
  take_delegated, queue_order, current_stake, withdraw, buyrex, buy_with_stake, pay_from_stake,
  unstaketorex, sellrex, updaterex,
}
use cmcc_eosio_contracts.System.Rex.Savings.{
  consolidate, mvtosavings, mvfrsavings, close_fund, close_balance, closerex,
}
use cmcc_eosio_contracts.System.Rex.Purchases.{add_to_pool-Keeps}
use cmcc_eosio_contracts.System.Rex.Keeping.{PoolSums, keeps_laws}
use cmcc_eosio_contracts.System.Rex.Trades.{
  update_rex_account-Keeps, refresh_account-Keeps, limits-Keeps, fill-Keeps, maturities-Keeps,
  read_savings-Keeps, put_savings-Keeps, write_balance-Keeps, add_to_balance-Keeps,
}

module _ (h : SystemHost) where
  pub withdraw-Keeps : (n : ℕ) (a : Asset) → Keeps PoolSums (withdraw h n a)
  unfolding withdraw
  withdraw-Keeps n a = search (keeps_laws, refresh_account-Keeps) depth 40 fits 4000

  voting-Keeps : (n : ℕ) (m : String) → Keeps PoolSums (check_voting_requirement h n m)
  unfolding check_voting_requirement
  voting-Keeps n m = search keeps_laws

  pub buyrex-Keeps : (n : ℕ) (a : Asset) → int64 a.amount ≡ a.amount → Keeps PoolSums (buyrex h n a)
  unfolding buyrex
  buyrex-Keeps n a w =
      search
        (
          keeps_laws, voting-Keeps, add_to_pool-Keeps, add_to_balance-Keeps,
          update_rex_account-Keeps,
        )
        depth 40 fits 8000

  take_delegated-Keeps : (n m : ℕ) (a b : Asset) → Keeps PoolSums (take_delegated h n m a b)
  unfolding take_delegated PoolSums
  take_delegated-Keeps n m a b = search step_laws depth 40 fits 4000

  queue_order-Keeps : (n : ℕ) (a : Asset) → Keeps PoolSums (queue_order h n a)
  unfolding queue_order core_symbol PoolSums
  queue_order-Keeps n a = search step_laws depth 40 fits 4000

  pub sellrex-Keeps : (n : ℕ) (a : Asset) → Keeps PoolSums (sellrex h n a)
  unfolding sellrex
  sellrex-Keeps n a =
      search
        (
          step_laws, keeps_laws, maturities-Keeps, fill-Keeps, update_rex_account-Keeps,
          queue_order-Keeps,
        )
        depth 60 fits 8000

  current_stake-Keeps : (p : RexPool) (rb : RexBalance) → Keeps PoolSums (current_stake h p rb)
  unfolding current_stake core_symbol PoolSums
  current_stake-Keeps p rb = search step_laws depth 40

  pub updaterex-Keeps : (n : ℕ) → Keeps PoolSums (updaterex h n)
  unfolding updaterex
  updaterex-Keeps n =
      search
        (
          keeps_laws, maturities-Keeps, current_stake-Keeps, update_rex_account-Keeps,
          write_balance-Keeps,
        )
        depth 60 fits 8000

  consolidate_balance-Keeps : (n : ℕ) (a : Asset) → Keeps PoolSums (consolidate_rex_balance h n a)
  unfolding consolidate_rex_balance
  consolidate_balance-Keeps n a =
      search (keeps_laws, read_savings-Keeps, put_savings-Keeps, write_balance-Keeps) depth 30

  pub consolidate-Keeps : (n : ℕ) → Keeps PoolSums (consolidate h n)
  unfolding consolidate
  consolidate-Keeps n =
      search (keeps_laws, refresh_account-Keeps, consolidate_balance-Keeps) depth 40

  pub mvtosavings-Keeps : (n : ℕ) (a : Asset) → Keeps PoolSums (mvtosavings h n a)
  unfolding mvtosavings
  mvtosavings-Keeps n a =
      search
        (
          keeps_laws, refresh_account-Keeps, read_savings-Keeps, maturities-Keeps,
          write_balance-Keeps, put_savings-Keeps,
        )
        depth 60 fits 8000

  pub mvfrsavings-Keeps : (n : ℕ) (a : Asset) → Keeps PoolSums (mvfrsavings h n a)
  unfolding mvfrsavings
  mvfrsavings-Keeps n a =
      search
        (
          keeps_laws, refresh_account-Keeps, read_savings-Keeps, maturities-Keeps,
          write_balance-Keeps, put_savings-Keeps,
        )
        depth 60 fits 8000

  close_fund-Keeps : (n : ℕ) → Keeps PoolSums (close_fund h n)
  unfolding close_fund PoolSums
  close_fund-Keeps n = search step_laws depth 30

  close_balance-Keeps : (n : ℕ) → Keeps PoolSums (close_balance h n)
  unfolding close_balance PoolSums
  close_balance-Keeps n = search step_laws depth 30

  pub closerex-Keeps : (n : ℕ) → Keeps PoolSums (closerex h n)
  unfolding closerex
  closerex-Keeps n =
      search (keeps_laws, refresh_account-Keeps, close_fund-Keeps, close_balance-Keeps) depth 40
        fits 4000

  -- A sum of assets is in the range of an asset, so it is an int64_t.
  sum_fits : (a b c : Asset) → h.asset_add a b ≡ some c → int64 c.amount ≡ c.amount
  sum_fits a b c e =
      let r : in_range (a.amount +ℤ b.amount) ≡ true = ground (arith, h.asset_add_lem a b) in
      let w : c.amount ≡ a.amount +ℤ b.amount = ground (arith, h.asset_add_lem a b) in
      rw w (int64_id (a.amount +ℤ b.amount) (ground arith) (ground arith))

  buy_with_stake-Keeps :
      (n : ℕ) (payment : Asset)
      → int64 payment.amount ≡ payment.amount
      → Keeps PoolSums (buy_with_stake h n payment)
  unfolding buy_with_stake
  buy_with_stake-Keeps n payment w =
      search (keeps_laws, add_to_pool-Keeps, add_to_balance-Keeps, refresh_account-Keeps) depth 40
        fits 8000

  pay_from_stake-Keeps : (n : ℕ) (a b : Asset) → Keeps PoolSums (pay_from_stake h n a b)
  unfolding pay_from_stake
  pay_from_stake-Keeps n a b =
      known-Keeps (h.asset_add a b) other_symbols
        (λ c e. buy_with_stake-Keeps n c (sum_fits a b c e))

  pub unstaketorex-Keeps : (n m : ℕ) (a b : Asset) → Keeps PoolSums (unstaketorex h n m a b)
  unfolding unstaketorex
  unstaketorex-Keeps n m a b =
      search (keeps_laws, voting-Keeps, take_delegated-Keeps, limits-Keeps, pay_from_stake-Keeps)
        depth 60 fits 8000
