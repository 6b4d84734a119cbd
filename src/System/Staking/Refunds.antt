-- ===== src/System/Staking/Refunds.antt =====
-- contracts/eosio.system/src/delegate_bandwidth.cpp: the refund that an account waits for. A stake is
-- taken from it first, and tokens that are unstaked go to it.
use cmcc_eosio_contracts.Common.{
  ℕ, ◌+◌, ◌*◌, Bool, true, false, not, ◌&&◌, ◌||◌, [], ◌∷◌, leb, if◌then◌else◌,
}
use cmcc_eosio_contracts.Common.Int.{pos, leb_ℤ, ltb_ℤ, ◌==ℤ◌}
use cmcc_eosio_contracts.Chain.Asset.{Asset}
use cmcc_eosio_contracts.Chain.Action.{
  Action, ⊤, pure, on_row, branch, or_abort, check, when, require_auth, ◌>>=◌, ◌>>◌,
}
use cmcc_eosio_contracts.System.State.{RefundRequest}
use cmcc_eosio_contracts.System.Tables.{
  System, Event, emit, find_in, emplace_in, modify_in, erase_in, refunds_table,
}
use cmcc_eosio_contracts.System.Host.{SystemHost, ◌-64◌, zero_core, other_symbols, send_transfer}

-- Three days.
abbrev pub refund_delay_sec : ℕ
refund_delay_sec = 259200

abbrev pub stake_account : ℕ
stake_account = 0x5530ea0319341400

abbrev pub negated : Asset → Asset
negated a = record a { amount = pos 0 -64 a.amount }

abbrev pub emptied : Asset → Asset
emptied a = record a { amount = pos 0 }

-- The deltas that are left when a refund has been changed.
pub record RefundOutcome : Type 0 where
  pub net_balance : Asset
  pub cpu_balance : Asset
  pub need_deferred_trx : Bool

abbrev pub untouched : Asset → Asset → RefundOutcome
untouched net cpu = record { net_balance = net; cpu_balance = cpu; need_deferred_trx = false }

abbrev pub refund_is_empty : RefundRequest → Bool
refund_is_empty r = r.net_amount.amount ==ℤ pos 0 && r.cpu_amount.amount ==ℤ pos 0

-- What is left of a refund, and of the delta that is taken from it.
unfoldable pub split_left : Asset → Asset → Asset × Asset
split_left balance left =
    if ltb_ℤ left.amount (pos 0) then (emptied left, negated left) else (left, emptied balance)

module _ (h : SystemHost) where
  unfoldable pub take_part : Asset → Asset → Action System (Asset × Asset)
  take_part refund balance = do
    left ← or_abort (h.asset_sub refund balance) other_symbols
    pure (split_left balance left)

  -- A request for what is left; its time is now if something is unstaked.
  unfoldable pub reduced : Asset → Asset → Asset → Asset → RefundRequest → RefundRequest
  reduced net_balance cpu_balance net cpu r = record r {
    request_time =
        if ltb_ℤ net_balance.amount (pos 0) || ltb_ℤ cpu_balance.amount (pos 0)
        then h.to_sec h.now
        else r.request_time;
    net_amount = net;
    cpu_amount = cpu;
  }

  unfoldable pub store_refund : ℕ → RefundRequest → Action System ⊤
  store_refund from row = do
    modify_in refunds_table from from 0 row
    check (leb_ℤ (pos 0) row.net_amount.amount) "negative net refund amount"
    check (leb_ℤ (pos 0) row.cpu_amount.amount) "negative cpu refund amount"
    when (refund_is_empty row) (erase_in refunds_table from from)

  unfoldable pub update_refund : ℕ → Asset → Asset → RefundRequest → Action System RefundOutcome
  update_refund from net_balance cpu_balance r = do
    net ← take_part r.net_amount net_balance
    cpu ← take_part r.cpu_amount cpu_balance
    let row = reduced net_balance cpu_balance (net.0) (cpu.0) r
    store_refund from row
    pure (record {
      net_balance = net.1;
      cpu_balance = cpu.1;
      need_deferred_trx = not (refund_is_empty row);
    })

  -- The part of a new refund, and what is left of the delta.
  unfoldable pub new_part : Asset → Action System (Asset × Asset)
  new_part balance =
      branch (ltb_ℤ balance.amount (pos 0)) (pure (negated balance, emptied balance))
        (do zero_asset ← zero_core h; pure (zero_asset, balance))

  unfoldable pub create_refund : ℕ → Asset → Asset → Action System RefundOutcome
  create_refund from net_balance cpu_balance = do
    net ← new_part net_balance
    cpu ← new_part cpu_balance
    emplace_in refunds_table from from from (record {
      owner = from;
      request_time = h.to_sec h.now;
      net_amount = net.0;
      cpu_amount = cpu.0;
    })
    pure (record { net_balance = net.1; cpu_balance = cpu.1; need_deferred_trx = true })

  unfoldable pub change_refund : ℕ → Asset → Asset → Action System RefundOutcome
  change_refund from net_balance cpu_balance = do
    req ← find_in refunds_table from from
    on_row req (λ r. update_refund from net_balance cpu_balance r)
        (branch (ltb_ℤ net_balance.amount (pos 0) || ltb_ℤ cpu_balance.amount (pos 0))
          (create_refund from net_balance cpu_balance) (pure (untouched net_balance cpu_balance)))

  unfoldable pub schedule_refund : ℕ → Bool → Action System ⊤
  schedule_refund from need_deferred_trx = do
    emit (Event.canceled_deferred from)
    when need_deferred_trx (emit (Event.deferred_refund from refund_delay_sec))

  -- The branches of a change that touch the refund, and the transfer of what is staked anew.
  unfoldable pub refund_or_transfer : ℕ → ℕ → Asset → Asset → Bool → Action System ⊤
  refund_or_transfer source from net cpu touches_refund = do
    out ← branch touches_refund (change_refund from net cpu) (pure (untouched net cpu))
    schedule_refund from out.need_deferred_trx
    amount ← or_abort (h.asset_add out.net_balance out.cpu_balance) other_symbols
    when (ltb_ℤ (pos 0) amount.amount)
        (send_transfer (source ∷ []) source stake_account amount "stake bandwidth")

  unfoldable pub refund : ℕ → Action System ⊤
  refund owner = do
    require_auth h.chain owner
    itr ← find_in refunds_table owner owner
    req ← or_abort itr "refund request not found"
    check (leb ((req.request_time + refund_delay_sec) * 1000000) h.now)
        "refund is not available yet"
    amount ← or_abort (h.asset_add req.net_amount req.cpu_amount) other_symbols
    send_transfer (stake_account ∷ req.owner ∷ []) stake_account req.owner amount "unstake"
    erase_in refunds_table owner owner
