-- ===== src/System/Rex/Account.antt =====
-- contracts/eosio.system/src/rex.cpp: the order of an owner that was filled is completed, and the
-- actions that buy and sell REX.
use cmcc_eosio_contracts.Common.{ℕ, Bool, true, false, not, ◌&&◌, ◌||◌, String, [], ◌∷◌, ◌==◌}
use cmcc_eosio_contracts.Common.Int.{pos, ltb_ℤ, leb_ℤ, ◌==ℤ◌}
use cmcc_eosio_contracts.Chain.Asset.{Asset, sym_eq}
use cmcc_eosio_contracts.Chain.Action.{
  Action, ⊤, pure, on_row, branch, or_abort, check, when, require_auth, ◌>>=◌, ◌>>◌,
}
use cmcc_eosio_contracts.System.State.{RexBalance, RexPool, DelegatedBandwidth}
use cmcc_eosio_contracts.System.Tables.{
  System, Event, emit, find_in, emplace_in, modify_in, erase_in, rexorders_table, rexbalance_table,
  delband_table,
}
use cmcc_eosio_contracts.System.Host.{
  SystemHost, ◌+64◌, ◌-64◌, mul_div, divide, core_symbol, asset, zero_core, pool, other_symbols,
  rex_symbol, rex_account, send_transfer,
}
use cmcc_eosio_contracts.System.Resources.{update_resource_limits}
use cmcc_eosio_contracts.System.Staking.Power.{b1_account, update_voting_power}
use cmcc_eosio_contracts.System.Staking.Refunds.{stake_account}
use cmcc_eosio_contracts.System.Staking.Actions.{band_is_empty}
use cmcc_eosio_contracts.System.Rex.Pool.{add_to_rex_pool}
use cmcc_eosio_contracts.System.Rex.Fund.{transfer_from_fund, transfer_to_fund}
use cmcc_eosio_contracts.System.Rex.Balance.{
  add_to_rex_balance, process_rex_maturities, read_balance, write_balance,
}
use cmcc_eosio_contracts.System.Rex.Orders.{fill_rex_order}
use cmcc_eosio_contracts.System.Rex.Stake.{check_voting_requirement}
use cmcc_eosio_contracts.System.Rex.Loans.{runrex}

abbrev pub more : Asset → Asset → Asset
more a b = record a { amount = a.amount +64 b.amount }

abbrev vote_first : String
vote_first = "must vote for at least 21 producers or for a proxy before buying REX"

-- What an order that was filled leaves to its owner, and the REX of an order that is open.
pub record OrderEffect : Type 0 where
  pub to_fund : Asset
  pub to_stake : Asset
  pub rex_in_sell_order : Asset

module _ (h : SystemHost) where
  unfoldable pub collect_order : ℕ → Asset → Asset → Action System OrderEffect
  collect_order owner proceeds delta_stake = do
    none_in_order ← asset h (pos 0) rex_symbol
    itr ← find_in rexorders_table h.self owner
    on_row itr
        (λ o.
          branch (o.is_open)
            (pure (record {
              to_fund = proceeds;
              to_stake = delta_stake;
              rex_in_sell_order = record none_in_order { amount = o.rex_requested.amount };
            }))
            (do
              erase_in rexorders_table h.self owner
              pure (record {
                to_fund = more proceeds o.proceeds;
                to_stake = more delta_stake o.stake_change;
                rex_in_sell_order = none_in_order;
              })))
        (pure (record {
          to_fund = proceeds;
          to_stake = delta_stake;
          rex_in_sell_order = none_in_order;
        }))

  unfoldable pub update_rex_account : ℕ → Asset → Asset → Bool → Action System Asset
  update_rex_account owner proceeds delta_stake force_vote_update = do
    e ← collect_order owner proceeds delta_stake
    when (ltb_ℤ (pos 0) e.to_fund.amount) (transfer_to_fund h owner e.to_fund)
    when (force_vote_update || not (e.to_stake.amount ==ℤ pos 0))
        (update_voting_power h owner e.to_stake.amount)
    pure e.rex_in_sell_order

  -- A call with no proceeds and no change of the stake.
  unfoldable pub refresh_account : ℕ → Bool → Action System Asset
  refresh_account owner force_vote_update = do
    no_proceeds ← zero_core h
    no_change ← zero_core h
    update_rex_account owner no_proceeds no_change force_vote_update

  unfoldable pub withdraw : ℕ → Asset → Action System ⊤
  withdraw owner amount = do
    require_auth h.chain owner
    core ← core_symbol h
    check (sym_eq amount.symbol core) "must withdraw core token"
    check (ltb_ℤ (pos 0) amount.amount) "must withdraw a positive amount"
    in_order ← refresh_account owner false
    transfer_from_fund h owner amount
    send_transfer (rex_account ∷ []) rex_account owner amount "withdraw from REX fund"

  unfoldable pub buyrex : ℕ → Asset → Action System ⊤
  buyrex from amount = do
    require_auth h.chain from
    core ← core_symbol h
    check (sym_eq amount.symbol core) "asset must be core token"
    check (ltb_ℤ (pos 0) amount.amount) "must use positive amount"
    check_voting_requirement h from vote_first
    transfer_from_fund h from amount
    rex_received ← add_to_rex_pool h amount
    delta_rex_stake ← add_to_rex_balance h from amount rex_received
    runrex h 2
    no_proceeds ← zero_core h
    in_order ← update_rex_account from no_proceeds delta_rex_stake false
    emit (Event.sent_buy_result rex_received)

  unfoldable pub take_delegated : ℕ → ℕ → Asset → Asset → Action System ⊤
  take_delegated owner receiver from_net from_cpu = do
    itr ← find_in delband_table owner receiver
    d ← or_abort itr "delegated bandwidth record does not exist"
    check (leb_ℤ from_net.amount d.net_weight.amount) "amount exceeds tokens staked for net"
    check (leb_ℤ from_cpu.amount d.cpu_weight.amount) "amount exceeds tokens staked for cpu"
    let row : DelegatedBandwidth = record d {
      net_weight = record (d.net_weight) { amount = d.net_weight.amount -64 from_net.amount };
      cpu_weight = record (d.cpu_weight) { amount = d.cpu_weight.amount -64 from_cpu.amount };
    }
    modify_in delband_table owner receiver 0 row
    when (band_is_empty row) (erase_in delband_table owner receiver)

  -- The staked tokens of a payment go to the pool.
  unfoldable pub buy_with_stake : ℕ → Asset → Action System ⊤
  buy_with_stake owner payment = do
    send_transfer (stake_account ∷ []) stake_account rex_account payment
        "buy REX with staked tokens"
    rex_received ← add_to_rex_pool h payment
    delta_rex_stake ← add_to_rex_balance h owner payment rex_received
    runrex h 2
    in_order ← refresh_account owner true
    emit (Event.sent_buy_result rex_received)

  unfoldable pub pay_from_stake : ℕ → Asset → Asset → Action System ⊤
  pay_from_stake owner from_net from_cpu = do
    payment ← or_abort (h.asset_add from_net from_cpu) other_symbols
    buy_with_stake owner payment

  unfoldable pub unstaketorex : ℕ → ℕ → Asset → Asset → Action System ⊤
  unstaketorex owner receiver from_net from_cpu = do
    require_auth h.chain owner
    core ← core_symbol h
    check (sym_eq from_net.symbol core && sym_eq from_cpu.symbol core) "asset must be core token"
    check
        (leb_ℤ (pos 0) from_net.amount
          && leb_ℤ (pos 0) from_cpu.amount
          && (ltb_ℤ (pos 0) from_net.amount || ltb_ℤ (pos 0) from_cpu.amount))
        "must unstake a positive amount to buy rex"
    check_voting_requirement h owner vote_first
    take_delegated owner receiver from_net from_cpu
    update_resource_limits h 0 receiver (pos 0 -64 from_net.amount) (pos 0 -64 from_cpu.amount)
    pay_from_stake owner from_net from_cpu

  -- An order that cannot be filled is added to the queue, or to the owner's order there.
  unfoldable pub queue_order : ℕ → Asset → Action System Asset
  queue_order from rex = do
    check (not (from == b1_account)) "b1 sellrex orders should not be queued"
    oitr ← find_in rexorders_table h.self from
    on_row oitr
        (λ o. (do
          let requested : Asset = more o.rex_requested rex
          modify_in rexorders_table h.self from 0 (record o { rex_requested = requested })
          pure requested))
        (do
          no_proceeds ← zero_core h
          no_change ← zero_core h
          emplace_in rexorders_table h.self from from (record {
            version = 0;
            owner = from;
            rex_requested = rex;
            proceeds = no_proceeds;
            stake_change = no_change;
            order_time = h.now;
            is_open = true;
          })
          pure rex)

  unfoldable pub sellrex : ℕ → Asset → Action System ⊤
  sellrex from rex = do
    require_auth h.chain from
    runrex h 2
    bitr ← find_in rexbalance_table h.self from
    rb ← or_abort bitr "user must first buyrex"
    check (ltb_ℤ (pos 0) rex.amount && sym_eq rex.symbol rb.rex_balance.symbol)
        "asset must be a positive amount of (REX, 4)"
    process_rex_maturities h from
    current ← read_balance h from
    check (leb_ℤ rex.amount current.matured_rex) "insufficient available rex"
    order ← fill_rex_order h from current rex
    check (not (order.success && order.proceeds.amount ==ℤ pos 0)) "proceeds are negligible"
    in_order ← update_rex_account from order.proceeds order.stake_change false
    pending ← branch (order.success) (pure in_order) (queue_order from rex)
    last ← read_balance h from
    check (leb_ℤ pending.amount last.matured_rex)
        "insufficient funds for current and scheduled orders"
    when order.success (emit (Event.sent_sell_result order.proceeds))

  unfoldable pub current_stake : RexPool → RexBalance → Action System Asset
  current_stake p rb = do
    no_stake ← zero_core h
    branch (ltb_ℤ (pos 0) p.total_rex.amount)
        (do
          z ←
              or_abort (mul_div rb.rex_balance.amount p.total_lendable.amount p.total_rex.amount)
                divide
          pure (record no_stake { amount = z }))
        (pure no_stake)

  unfoldable pub updaterex : ℕ → Action System ⊤
  updaterex owner = do
    require_auth h.chain owner
    runrex h 2
    itr ← find_in rexbalance_table h.self owner
    rb ← or_abort itr "account has no REX balance"
    p ← pool h
    stake ← current_stake p rb
    write_balance h owner (record rb { vote_stake = stake })
    no_proceeds ← zero_core h
    change ← or_abort (h.asset_sub stake rb.vote_stake) other_symbols
    in_order ← update_rex_account owner no_proceeds change true
    process_rex_maturities h owner
