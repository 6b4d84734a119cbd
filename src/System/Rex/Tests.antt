-- ===== src/System/Rex/Tests.antt =====
-- Runs of the resource exchange, and its theorems at concrete states.
use cmcc_eosio_contracts.Common.{
  ℕ, ◌-◌, ◌*◌, ◌≤◌, ◌≡◌, ◌⊎◌, refl, [], ◌∷◌, some, arith, true, false,
}
use cmcc_eosio_contracts.Common.Int.{◌≤ℤ◌, pos, negsuc, ◌+ℤ◌, ◌-ℤ◌, int64}
use cmcc_eosio_contracts.Chain.Asset.{Asset}
use cmcc_eosio_contracts.Chain.Table.{find, set_row, erase_row}
use cmcc_eosio_contracts.Chain.Action.{ok}
use cmcc_eosio_contracts.Sample.{sys_amount}
use cmcc_eosio_contracts.System.State.{RexPool, RexBalance, RexOrderOutcome}
use cmcc_eosio_contracts.System.Tables.{System, least}
use cmcc_eosio_contracts.System.Host.{
  ◌-64◌, ◌+64◌, core_symbol, pool, mul_div, rex_available, rex_system_initialized, rex_symbol,
}
use cmcc_eosio_contracts.System.Resources.{
  update_resource_limits, add_deltas, apply_limits, has_field,
}
use cmcc_eosio_contracts.System.Rex.Pool.{
  with_purchase, purchase, without_loan, remove_loan_from_rex_pool, get_bancor_output,
  rex_loans_available,
}
use cmcc_eosio_contracts.System.Rex.Loans.{
  runrex, process_loans, expire_loan, process_expired_loan, settle_loan, renew_loan, end_loan,
}
use cmcc_eosio_contracts.System.Rex.Actions.{rexexec}
use cmcc_eosio_contracts.System.Rex.Orders.{
  with_sale, fill_rex_order, sold, process_orders, first_order,
}
use cmcc_eosio_contracts.System.Rex.Consistent.{Consistent}
use cmcc_eosio_contracts.System.Rex.Keeping.{PoolSums}
use cmcc_eosio_contracts.System.Rex.Calls.{call_rexexec, rex_dispatch, rex_history, history_sums}
use cmcc_eosio_contracts.System.Rex.Balance.{
  add_all, add_bucket, read_rex_savings, process_rex_maturities, put_rex_savings, pop_matured,
  take_bucket, matured, consolidated, without_savings, savings, with_bucket, end_of_days,
}
use cmcc_eosio_contracts.System.Rex.Buckets.{held, buckets_keep_rex}
use cmcc_eosio_contracts.System.Rex.Savings.{
  mvtosavings, keeps_ordered, take_newest, moved, moves_all,
}
use cmcc_eosio_contracts.System.Rex.Account.{collect_order, update_rex_account, refresh_account}
use cmcc_eosio_contracts.System.Rex.Pieces.{Ripened, Added, Taken}
use cmcc_eosio_contracts.System.Rex.Moving.{moving_keeps_rex}
use cmcc_eosio_contracts.System.Rex.Price.{purchase_price}
use cmcc_eosio_contracts.System.Rex.Sale.{Filled, Refused, fill_keeps_reserve}
use cmcc_eosio_contracts.System.Sample.{host, rex_row, lent_row, start}

start-PoolSums : PoolSums start
unfolding PoolSums Consistent ◌+ℤ◌ int64
start-PoolSums = (refl, tt)

-- The expired loan goes, and its tokens can be lent again.
expiry_runs :
    find 1 0 (rex_history ((host, call_rexexec 9 2) ∷ []) start).rexpool ≡ some (rex_row 0 100 800)
unfolding find set_row erase_row least rex_history rex_dispatch rexexec runrex process_loans
    expire_loan process_expired_loan settle_loan renew_loan end_loan remove_loan_from_rex_pool
    get_bancor_output without_loan rex_loans_available rex_available rex_system_initialized pool
    update_resource_limits add_deltas apply_limits has_field process_orders first_order ◌+ℤ◌ ◌-ℤ◌
    int64
expiry_runs = refl

history_sums_example : pos 100 ≡ pos 100 +64 pos 0
history_sums_example =
    history_sums ((host, call_rexexec 9 2) ∷ []) start 1 0 (rex_row 0 100 800) (tt, tt)
      start-PoolSums expiry_runs

abbrev bought : RexPool
bought = record lent_row {
  total_lendable = sys_amount 150;
  total_rex = record { amount = pos 1500; symbol = rex_symbol };
  total_unlent = sys_amount 130;
}

abbrev rex_amount : ℕ → Asset
rex_amount n = record { amount = pos n; symbol = rex_symbol }

abbrev after_purchase : System
after_purchase = record start {
  rexpool = record { scope = 1; key = 0; payer = 1; row = bought } ∷ [];
}

start-find : find 1 0 start.rexpool ≡ some lent_row
unfolding find
start-find = refl

purchase_runs :
    purchase host (sys_amount 50) (rex_amount 0) start ≡ ok (rex_amount 500) after_purchase
unfolding purchase pool mul_div find set_row with_purchase ◌+ℤ◌ ◌-ℤ◌ int64
purchase_runs = refl

purchase_price_example :
    (r1 : ℕ) × (find 1 0 after_purchase.rexpool ≡ some (with_purchase (pos 150) (pos r1) lent_row))
    × (pos 500 ≡ pos (r1 - 1000))
    × (1000 ≤ r1)
    × (r1 * 100 ≤ 1000 * 150)
purchase_price_example =
    purchase_price host (sys_amount 50) (rex_amount 0) (rex_amount 500) start after_purchase
      lent_row 50 99 1000 start-find refl refl refl (omega arith) (omega arith) (omega arith)
      purchase_runs

abbrev holder : RexBalance
holder = record {
  version = 0;
  owner = 9;
  vote_stake = sys_amount 60;
  rex_balance = rex_amount 600;
  matured_rex = pos 600;
  rex_maturities = [];
}

abbrev outcome : RexOrderOutcome
outcome = record {
  success = true;
  proceeds = sys_amount 10;
  stake_change = record (sys_amount 0) { amount = negsuc 9 };
}

abbrev before_sale : System
before_sale = record start {
  rexbalance = record { scope = 1; key = 9; payer = 9; row = holder } ∷ [];
}

abbrev after_sale : System
after_sale = record start {
  rexpool =
      record {
        scope = 1;
        key = 0;
        payer = 1;
        row = record lent_row {
          total_rex = rex_amount 900;
          total_lendable = sys_amount 90;
          total_unlent = sys_amount 70;
        };
      }
      ∷ [];
  rexbalance =
      record {
        scope = 1;
        key = 9;
        payer = 9;
        row = record holder {
          vote_stake = sys_amount 50;
          rex_balance = rex_amount 500;
          matured_rex = pos 500;
        };
      }
      ∷ [];
}

sale_runs : fill_rex_order host 9 holder (rex_amount 100) before_sale ≡ ok outcome after_sale
unfolding fill_rex_order pool core_symbol mul_div find set_row with_sale sold ◌+ℤ◌ ◌-ℤ◌ int64
sale_runs = refl

fill_keeps_reserve_example :
    (paid : ℕ) × (paid ≤ 100)
    × (paid * 1000 ≤ 100 * 100)
    × (Filled host before_sale after_sale lent_row outcome paid 20 80 100 1000 100
        ⊎ Refused host before_sale after_sale outcome paid 20 80)
fill_keeps_reserve_example =
    fill_keeps_reserve host 9 holder (rex_amount 100) outcome before_sale after_sale lent_row 100
      100 999 20 80 start-find refl refl refl refl refl (omega arith) (omega arith) (omega arith)
      (omega arith) (omega arith) sale_runs

-- 600 REX have matured, 30 mature on day 5 and 70 are savings.
abbrev saver : RexBalance
saver = record holder {
  rex_maturities =
      record { first = 5; second = pos 30 } ∷ record { first = end_of_days; second = pos 70 } ∷ [];
}

saver-held : int64 (pos 600) ≡ pos 600
unfolding int64
saver-held = refl

order-held : int64 (pos 100) ≡ pos 100
unfolding int64
order-held = refl

saver_covers : pos 0 ≤ℤ add_all (pos 600 -64 pos 100) saver.rex_maturities
unfolding add_all int64 ◌+ℤ◌ ◌-ℤ◌
saver_covers = omega arith

buckets_keep_rex_example :
    Ripened 6
      (pos 600)
      saver.rex_maturities
      (matured 6 saver).matured_rex
      (matured 6 saver).rex_maturities
    × (held (matured 6 saver) ≡ held saver)
    × Added 9 (pos 11) saver.rex_maturities (with_bucket 9 (pos 11) saver).rex_maturities
    × (held (with_bucket 9 (pos 11) saver) ≡ held saver +64 pos 11)
    × Taken end_of_days saver.rex_maturities (savings saver) (without_savings saver).rex_maturities
    × (held (without_savings saver) +64 savings saver ≡ held saver)
    × ((consolidated 9 (pos 100) saver).matured_rex ≡ pos 100)
    × (held (consolidated 9 (pos 100) saver) ≡ held saver)
buckets_keep_rex_example =
    buckets_keep_rex 6 9 (pos 11) (pos 100) saver saver-held order-held saver_covers

abbrev saver_of_700 : RexBalance
saver_of_700 = record saver { rex_balance = rex_amount 700 }

-- No loan is to be settled.
abbrev before_move : System
before_move = record start {
  cpu_loans = [];
  rexbalance = record { scope = 1; key = 9; payer = 9; row = saver_of_700 } ∷ [];
}

-- The 30 REX are moved from their bucket, and 20 that have matured.
abbrev after_move : System
after_move = record before_move {
  rexbalance =
      record {
        scope = 1;
        key = 9;
        payer = 9;
        row = record saver_of_700 {
          matured_rex = pos 580;
          rex_maturities = record { first = end_of_days; second = pos 120 } ∷ [];
        };
      }
      ∷ [];
}

maintenance_runs : runrex host 2 before_move ≡ ok tt before_move
unfolding find least runrex process_loans rex_available rex_system_initialized pool process_orders
    first_order
maintenance_runs = refl

refresh_runs : refresh_account host 9 false before_move ≡ ok (rex_amount 0) before_move
unfolding find refresh_account update_rex_account collect_order core_symbol
refresh_runs = refl

saver-find : find 1 9 before_move.rexbalance ≡ some saver_of_700
unfolding find
saver-find = refl

move_runs : mvtosavings host 9 (rex_amount 50) before_move ≡ ok tt after_move
unfolding mvtosavings find set_row least runrex process_loans rex_available rex_system_initialized
    pool process_orders first_order refresh_account update_rex_account collect_order core_symbol
    read_rex_savings process_rex_maturities put_rex_savings keeps_ordered moves_all take_newest
    moved matured pop_matured without_savings savings take_bucket with_bucket add_bucket int64 ◌+ℤ◌
    ◌-ℤ◌
move_runs = refl

moving_keeps_rex_example :
    (after : RexBalance) × (find 1 9 after_move.rexbalance ≡ some after)
    × (held after ≡ held saver_of_700)
moving_keeps_rex_example =
    moving_keeps_rex host 9 (rex_amount 50) before_move before_move before_move after_move
      (rex_amount 0) saver_of_700 maintenance_runs refresh_runs saver-find saver-held move_runs
