-- ===== src/System/Rex/Orders.antt =====
-- contracts/eosio.system/src/rex.cpp: orders to sell REX.
use cmcc_eosio_contracts.Common.{ℕ, zero, suc, true, false, Option, none, some}
use cmcc_eosio_contracts.Common.Int.{ℤ, pos, leb_ℤ}
use cmcc_eosio_contracts.Chain.Asset.{Asset}
use cmcc_eosio_contracts.Chain.Table.{Entry, Table}
use cmcc_eosio_contracts.Chain.Action.{
  on_row, branch, Action, ⊤, pure, gets, or_abort, check, when, require_auth, ◌>>=◌, ◌>>◌,
}
use cmcc_eosio_contracts.System.State.{RexBalance, RexPool, RexOrder, RexOrderOutcome}
use cmcc_eosio_contracts.System.Tables.{
  System, Event, emit, find_in, modify_in, erase_in, rexbalance_table, rexorders_table, before,
  least,
}
use cmcc_eosio_contracts.System.Host.{SystemHost, ◌-64◌, mul_div, divide, core_symbol, asset, pool}
use cmcc_eosio_contracts.System.Rex.Pool.{write_pool, by_time}
use cmcc_eosio_contracts.System.Rex.Balance.{write_balance}

unfoldable pub with_sale : ℤ → ℤ → RexPool → RexPool
with_sale r1 s1 rt = record rt {
  total_rex = record (rt.total_rex) { amount = r1 };
  total_lendable = record (rt.total_lendable) { amount = s1 };
  total_unlent = record (rt.total_unlent) { amount = s1 -64 rt.total_lent.amount };
}

unfoldable pub sold : ℤ → ℤ → RexBalance → RexBalance
sold stake rex rb = record rb {
  vote_stake = record (rb.vote_stake) { amount = stake };
  rex_balance = record (rb.rex_balance) { amount = rb.rex_balance.amount -64 rex };
  matured_rex = rb.matured_rex -64 rex;
}

unfoldable pub filled : RexOrderOutcome → RexOrder → RexOrder
filled result order = record order {
  proceeds = record (order.proceeds) { amount = result.proceeds.amount };
  stake_change = record (order.stake_change) { amount = result.stake_change.amount };
  is_open = false;
}

abbrev pub key_of : Option (Entry RexOrder) → Option ℕ
key_of none = none
key_of (some e) = some e.key

module _ (h : SystemHost) where
  -- The order is filled if the tokens that are not lent stay at least a fifth of those that are.
  unfoldable pub fill_rex_order : ℕ → RexBalance → Asset → Action System RexOrderOutcome
  fill_rex_order owner bitr rex = do
    rt ← pool h
    let s0 = rt.total_lendable.amount
    let r0 = rt.total_rex.amount
    p ← or_abort (mul_div rex.amount s0 r0) divide
    core ← core_symbol h
    proceeds ← asset h p core
    stake_change ← asset h (pos 0) core
    unlent_lower_bound ← or_abort (mul_div (pos 2) rt.total_lent.amount (pos 10)) divide
    let available_unlent = rt.total_unlent.amount -64 unlent_lower_bound
    branch (leb_ℤ p available_unlent)
        (do
          current_stake_value ← or_abort (mul_div bitr.rex_balance.amount s0 r0) divide
          write_pool h (with_sale (r0 -64 rex.amount) (s0 -64 p) rt)
          let stake = current_stake_value -64 p
          write_balance h owner (sold stake rex.amount bitr)
          pure (record {
            success = true;
            proceeds = proceeds;
            stake_change = record stake_change { amount = stake -64 bitr.vote_stake.amount };
          }))
        (pure (record {
          success = false;
          proceeds = record proceeds { amount = pos 0 };
          stake_change = stake_change;
        }))

  -- The order after a row in the index by time.
  abbrev pub next_order : ℕ → RexOrder → Table RexOrder → Option ℕ
  next_order owner order t = key_of (least (before by_time here) by_time t)
    where
      here : Entry RexOrder
      here = record { scope = h.self; key = owner; payer = 0; row = order }

  unfoldable pub close_order : ℕ → RexOrder → RexOrderOutcome → Action System ⊤
  close_order owner order result =
      branch (result.success)
        (do
          modify_in rexorders_table h.self owner 0 (filled result order)
          emit (Event.sent_order_result order.owner result.proceeds))
        (pure tt)

  unfoldable pub process_order : ℕ → RexOrder → Action System ⊤
  process_order owner order = do
    bitr ← find_in rexbalance_table h.self order.owner
    on_row bitr
        (λ rb. fill_rex_order order.owner rb order.rex_requested >>= close_order owner order)
        (pure tt)

  -- At most so many orders, from one on, as long as they are open.
  unfoldable pub process_orders : ℕ → Option ℕ → Action System ⊤
  process_orders zero at = pure tt
  process_orders (suc n) none = pure tt
  process_orders (suc n) (some owner) = do
    itr ← find_in rexorders_table h.self owner
    on_row itr
        (λ order. when order.is_open (do
          next ← gets (λ s. next_order owner order s.rexorders)
          process_order owner order
          process_orders n next))
        (pure tt)

  unfoldable pub first_order : System → Option ℕ
  first_order s = key_of (least (λ e. true) by_time s.rexorders)

  unfoldable pub cnclrexorder : ℕ → Action System ⊤
  cnclrexorder owner = do
    require_auth h.chain owner
    itr ← find_in rexorders_table h.self owner
    order ← or_abort itr "no sellrex order is scheduled"
    check order.is_open "sellrex order has been filled and cannot be canceled"
    erase_in rexorders_table h.self owner
