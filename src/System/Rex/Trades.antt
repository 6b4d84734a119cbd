-- ===== src/System/Rex/Trades.antt =====
-- contracts/eosio.system/src/rex.cpp: buying, selling and moving REX keeps the sum of the pool.
use cmcc_eosio_contracts.Common.{ℕ, Bool}
use cmcc_eosio_contracts.Common.Int.{ℤ}
use cmcc_eosio_contracts.Chain.Asset.{Asset}
use cmcc_eosio_contracts.Chain.Keeps.{Keeps}
use cmcc_eosio_contracts.System.State.{RexBalance}
use cmcc_eosio_contracts.System.Host.{SystemHost, pool}
use cmcc_eosio_contracts.System.Keeping.{step_laws}
use cmcc_eosio_contracts.System.Resources.{update_resource_limits}
use cmcc_eosio_contracts.System.Voting.Quiet.{IgnoresVotes, quiet_voting_power}
use cmcc_eosio_contracts.System.Staking.Power.{update_voting_power}
use cmcc_eosio_contracts.System.Rex.Balance.{
  add_purchase, add_to_rex_balance, process_rex_maturities, read_rex_savings, put_rex_savings,
  write_balance,
}
use cmcc_eosio_contracts.System.Rex.Orders.{fill_rex_order}
use cmcc_eosio_contracts.System.Rex.Account.{collect_order, update_rex_account, refresh_account}
use cmcc_eosio_contracts.System.Rex.Frame.{update_resource_limits-frame}
use cmcc_eosio_contracts.System.Rex.Steps.{fill_rex_order-Consistent}
use cmcc_eosio_contracts.System.Rex.Keeping.{PoolSums, keeps_laws, frame-Keeps}

module _ (h : SystemHost) where
  pub pool_ignores : IgnoresVotes PoolSums
  unfolding PoolSums
  pool_ignores = record {
    put_voters = λ x s p. p;
    put_producers = λ x s p. p;
    put_producers2 = λ x s p. p;
    put_gstate = λ g s p. p;
    put_gstate2 = λ g s p. p;
    put_gstate3 = λ g s p. p;
  }

  pub power-Keeps : (n : ℕ) (z : ℤ) → Keeps PoolSums (update_voting_power h n z)
  power-Keeps n z = quiet_voting_power h pool_ignores n z

  pub collect_order-Keeps : (n : ℕ) (a b : Asset) → Keeps PoolSums (collect_order h n a b)
  unfolding collect_order PoolSums
  collect_order-Keeps n a b = search step_laws depth 30

  pub update_rex_account-Keeps :
      (n : ℕ) (a b : Asset) (f : Bool) → Keeps PoolSums (update_rex_account h n a b f)
  unfolding update_rex_account
  update_rex_account-Keeps n a b f =
      search (keeps_laws, collect_order-Keeps, power-Keeps) depth 30 fits 4000

  pub refresh_account-Keeps : (n : ℕ) (f : Bool) → Keeps PoolSums (refresh_account h n f)
  unfolding refresh_account
  refresh_account-Keeps n f = search (keeps_laws, update_rex_account-Keeps) depth 30

  pub limits-Keeps : (a b : ℕ) (x y : ℤ) → Keeps PoolSums (update_resource_limits h a b x y)
  limits-Keeps a b x y = frame-Keeps (λ s s' u e. update_resource_limits-frame h s s' a b x y e)

  pub fill-Keeps :
      (n : ℕ) (rb : RexBalance) (rex : Asset) → Keeps PoolSums (fill_rex_order h n rb rex)
  unfolding PoolSums
  fill-Keeps n rb rex = record {
    kept = λ s s' r c e. fill_rex_order-Consistent h s s' c n rb rex r e;
  }

  pub maturities-Keeps : (n : ℕ) → Keeps PoolSums (process_rex_maturities h n)
  unfolding process_rex_maturities PoolSums
  maturities-Keeps n = search step_laws depth 30

  pub read_savings-Keeps : (n : ℕ) → Keeps PoolSums (read_rex_savings h n)
  unfolding read_rex_savings PoolSums
  read_savings-Keeps n = search step_laws depth 30

  pub put_savings-Keeps : (n : ℕ) (z : ℤ) → Keeps PoolSums (put_rex_savings h n z)
  unfolding put_rex_savings PoolSums
  put_savings-Keeps n z = search step_laws depth 30

  pub add_purchase-Keeps : (n : ℕ) (a b : Asset) → Keeps PoolSums (add_purchase h n a b)
  unfolding add_purchase pool PoolSums
  add_purchase-Keeps n a b = search step_laws depth 40 fits 4000

  pub write_balance-Keeps : (n : ℕ) (rb : RexBalance) → Keeps PoolSums (write_balance h n rb)
  unfolding PoolSums
  write_balance-Keeps n rb = search step_laws

  pub add_to_balance-Keeps : (n : ℕ) (a b : Asset) → Keeps PoolSums (add_to_rex_balance h n a b)
  unfolding add_to_rex_balance
  add_to_balance-Keeps n a b =
      search
        (
          keeps_laws, add_purchase-Keeps, read_savings-Keeps, maturities-Keeps, put_savings-Keeps,
          write_balance-Keeps,
        )
        depth 40 fits 8000
