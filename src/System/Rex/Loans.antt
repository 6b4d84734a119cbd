-- ===== src/System/Rex/Loans.antt =====
-- contracts/eosio.system/src/rex.cpp: loans of CPU and NET, and `runrex`. A table that the source
-- passes as a template parameter is the kind of bandwidth here.
use cmcc_eosio_contracts.Common.{
  ℕ, zero, suc, ◌+◌, ◌%◌, ◌^◌, Bool, true, false, not, ◌&&◌, ◌==◌, ltb,
}
use cmcc_eosio_contracts.Common.Int.{ℤ, pos, ltb_ℤ, leb_ℤ, ◌==ℤ◌}
use cmcc_eosio_contracts.Chain.Asset.{Asset, sym_eq}
use cmcc_eosio_contracts.Chain.Table.{Entry, Table}
use cmcc_eosio_contracts.Chain.Action.{
  on_row, branch, Action, ⊤, pure, gets, or_abort, check, when, ◌>>=◌, ◌>>◌,
}
use cmcc_eosio_contracts.System.State.{RexLoan, RexPool}
use cmcc_eosio_contracts.System.Tables.{
  System, Event, Lens, emit, find_in, emplace_in, modify_in, erase_in, cpu_loans_table,
  net_loans_table, least,
}
use cmcc_eosio_contracts.System.Host.{
  SystemHost, ◌+64◌, ◌-64◌, days, core_symbol, asset, pool, other_symbols, names_account,
  rex_system_initialized,
}
use cmcc_eosio_contracts.System.Resources.{update_resource_limits}
use cmcc_eosio_contracts.System.Rex.Pool.{
  write_pool, get_bancor_output, rex_loans_available, add_loan_to_rex_pool,
  remove_loan_from_rex_pool, channel_to_rex,
}
use cmcc_eosio_contracts.System.Rex.Fund.{transfer_from_fund, transfer_to_fund}
use cmcc_eosio_contracts.System.Rex.Orders.{process_orders, first_order}

pub data Bandwidth : Type 0 where
  cpu_bandwidth : Bandwidth
  net_bandwidth : Bandwidth

abbrev pub loans : Bandwidth → Lens System (Table RexLoan)
loans cpu_bandwidth = cpu_loans_table
loans net_bandwidth = net_loans_table

unfoldable pub renewed : ℤ → RexLoan → RexLoan
renewed rented_tokens loan = record loan {
  total_staked = record (loan.total_staked) { amount = rented_tokens };
  expiration = (loan.expiration + days 30) % 2 ^ 64;
  balance = record (loan.balance) { amount = loan.balance.amount -64 loan.payment.amount };
}

unfoldable pub funded : ℤ → RexLoan → RexLoan
funded z loan = record loan {
  balance = record (loan.balance) { amount = loan.balance.amount +64 z };
}

unfoldable pub defunded : ℤ → RexLoan → RexLoan
defunded z loan = record loan {
  balance = record (loan.balance) { amount = loan.balance.amount -64 z };
}

module _ (h : SystemHost) where
  abbrev pub update_bandwidth : Bandwidth → ℕ → ℕ → ℤ → Action System ⊤
  update_bandwidth cpu_bandwidth from receiver z = update_resource_limits h from receiver (pos 0) z
  update_bandwidth net_bandwidth from receiver z = update_resource_limits h from receiver z (pos 0)

  unfoldable pub update_renewed_loan : Bandwidth → ℕ → RexLoan → ℤ → Action System ℤ
  update_renewed_loan kind key loan rented_tokens = do
    modify_in (loans kind) h.self key 0 (renewed rented_tokens loan)
    pure (rented_tokens -64 loan.total_staked.amount)

  -- Whether the loan is to be deleted, and the change of its stake.
  unfoldable pub renew_loan : Bandwidth → ℕ → RexLoan → ℤ → Action System (Bool × ℤ)
  renew_loan kind key loan rented_tokens = do
    add_loan_to_rex_pool h loan.payment rented_tokens false
    delta_stake ← update_renewed_loan kind key loan rented_tokens
    pure (false, delta_stake)

  unfoldable pub end_loan : RexLoan → Action System (Bool × ℤ)
  end_loan loan = do
    when (ltb_ℤ (pos 0) loan.balance.amount) (transfer_to_fund h loan.from loan.balance)
    pure (true, pos 0 -64 loan.total_staked.amount)

  unfoldable pub settle_loan : Bandwidth → ℕ → RexLoan → Action System (Bool × ℤ)
  settle_loan kind key loan = do
    p ← pool h
    let rented_tokens =
        get_bancor_output h p.total_rent.amount p.total_unlent.amount loan.payment.amount
    sufficient ← or_abort (h.asset_le loan.payment loan.balance) other_symbols
    available ← gets (rex_loans_available h)
    branch (sufficient && ltb_ℤ loan.payment.amount rented_tokens && available)
        (renew_loan kind key loan rented_tokens) (end_loan loan)

  unfoldable pub process_expired_loan : Bandwidth → ℕ → RexLoan → Action System (Bool × ℤ)
  process_expired_loan kind key loan = do
    remove_loan_from_rex_pool h loan
    settle_loan kind key loan

  unfoldable pub expire_loan : Bandwidth → Entry RexLoan → Action System ⊤
  expire_loan kind e = do
    result ← process_expired_loan kind e.key e.row
    when (not (result.1 ==ℤ pos 0)) (update_bandwidth kind e.row.from e.row.receiver result.1)
    when result.0 (erase_in (loans kind) h.self e.key)

  abbrev pub by_expr : RexLoan → ℕ
  by_expr l = l.expiration

  -- At most so many loans, the first in the index by expiration each time.
  unfoldable pub process_loans : Bandwidth → ℕ → Action System ⊤
  process_loans kind zero = pure tt
  process_loans kind (suc n) = do
    first ← gets (λ s. least (λ e. true) by_expr ((loans kind).get s))
    on_row first
        (λ e.
          branch (ltb h.now e.row.expiration) (pure tt)
            (expire_loan kind e >> process_loans kind n))
        (pure tt)

  unfoldable pub channel_proceeds : RexPool → Action System ⊤
  channel_proceeds p = do
    channel_to_rex h names_account p.namebid_proceeds
    rt ← pool h
    write_pool h (record rt { namebid_proceeds = record (rt.namebid_proceeds) { amount = pos 0 } })

  unfoldable pub runrex : ℕ → Action System ⊤
  runrex max = do
    initialized ← gets (rex_system_initialized h)
    check initialized "rex system not initialized yet"
    p ← pool h
    when (ltb_ℤ (pos 0) p.namebid_proceeds.amount) (channel_proceeds p)
    process_loans cpu_bandwidth max
    process_loans net_bandwidth max
    first ← gets (first_order h)
    process_orders h max first

  -- The loan at the current price, once its payment has left the fund.
  unfoldable pub open_loan : Bandwidth → ℕ → ℕ → Asset → Asset → Action System ℤ
  open_loan kind from receiver payment fund = do
    p ← pool h
    let rented_tokens = get_bancor_output h p.total_rent.amount p.total_unlent.amount payment.amount
    check (ltb_ℤ payment.amount rented_tokens) "loan price does not favor renting"
    add_loan_to_rex_pool h payment rented_tokens true
    after ← pool h
    core ← core_symbol h
    staked ← asset h rented_tokens core
    emplace_in (loans kind) h.self after.loan_num from (record {
      version = 0;
      from = from;
      receiver = receiver;
      payment = payment;
      balance = fund;
      total_staked = staked;
      loan_num = after.loan_num;
      expiration = (h.now + days 30) % 2 ^ 64;
    })
    emit (Event.sent_rent_result staked)
    pure rented_tokens

  unfoldable pub pay_loan : ℕ → Asset → Asset → Action System ⊤
  pay_loan from payment fund = do
    available ← gets (rex_loans_available h)
    check available "rex loans are currently not available"
    core ← core_symbol h
    check (sym_eq payment.symbol core && sym_eq fund.symbol core) "must use core token"
    check (ltb_ℤ (pos 0) payment.amount && leb_ℤ (pos 0) fund.amount)
        "must use positive asset amount"
    total ← or_abort (h.asset_add payment fund) other_symbols
    transfer_from_fund h from total

  unfoldable pub rent_rex : Bandwidth → ℕ → ℕ → Asset → Asset → Action System ℤ
  rent_rex kind from receiver payment fund = do
    runrex 2
    pay_loan from payment fund
    open_loan kind from receiver payment fund

  -- The loan that an action of its creator is about, while it runs.
  unfoldable pub own_loan : Bandwidth → ℕ → ℕ → Action System RexLoan
  own_loan kind from loan_num = do
    itr ← find_in (loans kind) h.self loan_num
    loan ← or_abort itr "loan not found"
    check (loan.from == from) "user must be loan creator"
    check (ltb h.now loan.expiration) "loan has already expired"
    pure loan

  unfoldable pub fund_rex_loan : Bandwidth → ℕ → ℕ → Asset → Action System ⊤
  fund_rex_loan kind from loan_num payment = do
    core ← core_symbol h
    check (sym_eq payment.symbol core) "must use core token"
    transfer_from_fund h from payment
    loan ← own_loan kind from loan_num
    modify_in (loans kind) h.self loan_num 0 (funded payment.amount loan)

  unfoldable pub defund_rex_loan : Bandwidth → ℕ → ℕ → Asset → Action System ⊤
  defund_rex_loan kind from loan_num amount = do
    core ← core_symbol h
    check (sym_eq amount.symbol core) "must use core token"
    loan ← own_loan kind from loan_num
    covered ← or_abort (h.asset_le amount loan.balance) other_symbols
    check covered "insufficent loan balance"
    modify_in (loans kind) h.self loan_num 0 (defunded amount.amount loan)
    transfer_to_fund h from amount
