-- ===== src/System/Rex/Pool.antt =====
-- contracts/eosio.system/src/rex.cpp: the balances of the pool.
use cmcc_eosio_contracts.Common.{
  ℕ, ◌+◌, ◌*◌, ◌%◌, ◌^◌, Bool, true, not, ◌&&◌, none, some, String, [], ◌∷◌, if◌then◌else◌,
}
use cmcc_eosio_contracts.Common.Int.{ℤ, pos, negsuc, int64, ltb_ℤ, leb_ℤ}
use cmcc_eosio_contracts.Chain.Asset.{Asset}
use cmcc_eosio_contracts.Chain.Action.{
  branch, Action, ⊤, pure, gets, or_abort, check, when, ◌>>=◌, ◌>>◌,
}
use cmcc_eosio_contracts.System.State.{RexPool, RexLoan, RexOrder}
use cmcc_eosio_contracts.System.Tables.{System, emplace_in, modify_in, least, rexpool_table}
use cmcc_eosio_contracts.System.Host.{
  SystemHost, ◌+64◌, ◌-64◌, mul_div, divide, other_symbols, core_symbol, asset, pool,
  rex_system_initialized, rex_available, rex_symbol, rex_account, send_transfer, concat,
}

-- The lambdas that `modify` runs on the row of the pool.
unfoldable pub with_loan : ℤ → ℤ → Bool → RexPool → RexPool
with_loan payment rented_tokens new_loan rt =
    let unlent = rt.total_unlent.amount -64 rented_tokens +64 payment in
    let lent = rt.total_lent.amount +64 rented_tokens in
    record rt {
      total_rent = record (rt.total_rent) { amount = rt.total_rent.amount +64 payment };
      total_unlent = record (rt.total_unlent) { amount = unlent };
      total_lent = record (rt.total_lent) { amount = lent };
      total_lendable = record (rt.total_lendable) { amount = unlent +64 lent };
      loan_num = if new_loan then (rt.loan_num + 1) % 2 ^ 64 else rt.loan_num;
    }

unfoldable pub without_loan : ℤ → ℤ → RexPool → RexPool
without_loan delta_total_rent total_staked rt =
    let unlent = rt.total_unlent.amount +64 total_staked in
    let lent = rt.total_lent.amount -64 total_staked in
    record rt {
      total_rent = record (rt.total_rent) { amount = rt.total_rent.amount -64 delta_total_rent };
      total_unlent = record (rt.total_unlent) { amount = unlent };
      total_lent = record (rt.total_lent) { amount = lent };
      total_lendable = record (rt.total_lendable) { amount = unlent +64 lent };
    }

unfoldable pub with_channeled : ℤ → RexPool → RexPool
with_channeled amount rp = record rp {
  total_unlent = record (rp.total_unlent) { amount = rp.total_unlent.amount +64 amount };
  total_lendable = record (rp.total_lendable) { amount = rp.total_lendable.amount +64 amount };
}

-- The pool after a purchase that brings its lendable tokens to s1 and its REX to r1.
unfoldable pub with_purchase : ℤ → ℤ → RexPool → RexPool
with_purchase s1 r1 rp = record rp {
  total_lendable = record (rp.total_lendable) { amount = s1 };
  total_rex = record (rp.total_rex) { amount = r1 };
  total_unlent = record (rp.total_unlent) { amount = s1 -64 rp.total_lent.amount };
}

unfoldable pub refilled : ℤ → ℤ → RexPool → RexPool
refilled payment rex rp = record rp {
  total_lendable = record (rp.total_lendable) { amount = payment };
  total_lent = record (rp.total_lent) { amount = pos 0 };
  total_unlent = record (rp.total_unlent) { amount = payment -64 pos 0 };
  total_rent = record (rp.total_rent) { amount = pos 200000000 };
  total_rex = record (rp.total_rex) { amount = rex };
}

-- `payment.amount * rex_ratio`.
abbrev pub times_10000 : ℤ → ℤ
times_10000 (pos n) = int64 (pos (n * 10000))
times_10000 (negsuc n) = int64 (negsuc (n * 10000 + 9999))

-- The index by time: an order that is closed comes at the largest time.
abbrev pub by_time : RexOrder → ℕ
by_time o = if o.is_open then o.order_time else 0xffffffffffffffff

module _ (h : SystemHost) where
  abbrev pub channel_memo : ℕ → String
  channel_memo from = concat (concat "transfer from " (h.name_to_string from)) " to eosio.rex"

  unfoldable pub get_bancor_output : ℤ → ℤ → ℤ → ℤ
  get_bancor_output conin conout amount =
      let f0 = h.floats.of_int conin in
      let t0 = h.floats.of_int conout in
      let i = h.floats.of_int amount in
      let out = h.floats.to_int (h.floats.div (h.floats.mul i t0) (h.floats.add i f0)) in
      if ltb_ℤ out (pos 0) then pos 0 else out

  abbrev pub write_pool : RexPool → Action System ⊤
  write_pool = modify_in rexpool_table h.self 0 0

  unfoldable pub rex_loans_available : System → Bool
  rex_loans_available s = rex_available h s && (elim (least (λ e. true) by_time s.rexorders) [
    | none ↦ true
    | some e ↦ not (e.row.is_open)
  ])

  unfoldable pub add_loan_to_rex_pool : Asset → ℤ → Bool → Action System ⊤
  add_loan_to_rex_pool payment rented_tokens new_loan = do
    rt ← pool h
    write_pool (with_loan payment.amount rented_tokens new_loan rt)

  unfoldable pub remove_loan_from_rex_pool : RexLoan → Action System ⊤
  remove_loan_from_rex_pool loan = do
    rt ← pool h
    let delta_total_rent =
        get_bancor_output rt.total_unlent.amount rt.total_rent.amount loan.total_staked.amount
    write_pool (without_loan delta_total_rent loan.total_staked.amount rt)

  unfoldable pub channel_to_rex : ℕ → Asset → Action System ⊤
  channel_to_rex from amount = do
    available ← gets (rex_available h)
    when available (do
      rp ← pool h
      write_pool (with_channeled amount.amount rp)
      send_transfer (from ∷ []) from rex_account amount (channel_memo from))

  unfoldable pub channel_namebid_to_rex : ℤ → Action System ⊤
  channel_namebid_to_rex highest_bid = do
    available ← gets (rex_available h)
    when available (do
      rp ← pool h
      write_pool (record rp {
        namebid_proceeds = record (rp.namebid_proceeds) {
          amount = rp.namebid_proceeds.amount +64 highest_bid;
        };
      }))

  -- A pool that is created has its first payment for all its lendable tokens.
  unfoldable pub first_purchase : Asset → Asset → Asset → Action System Asset
  first_purchase payment init_total_rent rex_received = do
    core ← core_symbol h
    let rex : Asset = record rex_received { amount = times_10000 payment.amount }
    none_lent ← asset h (pos 0) core
    unlent ← or_abort (h.asset_sub payment none_lent) other_symbols
    emplace_in rexpool_table h.self 0 h.self (record {
      version = 0;
      total_lent = none_lent;
      total_unlent = unlent;
      total_rent = init_total_rent;
      total_lendable = payment;
      total_rex = rex;
      namebid_proceeds = none_lent;
      loan_num = 0;
    })
    pure rex

  unfoldable pub refill : Asset → Asset → Action System Asset
  refill payment rex_received = do
    let rex : Asset = record rex_received { amount = times_10000 payment.amount }
    rp ← pool h
    write_pool (refilled payment.amount rex.amount rp)
    pure rex

  unfoldable pub purchase : Asset → Asset → Action System Asset
  purchase payment rex_received = do
    rp ← pool h
    check (ltb_ℤ (pos 0) rp.total_lendable.amount) "lendable REX pool is empty"
    let s0 = rp.total_lendable.amount
    let s1 = s0 +64 payment.amount
    let r0 = rp.total_rex.amount
    r1 ← or_abort (mul_div s1 r0 s0) divide
    write_pool (with_purchase s1 r1 rp)
    check (leb_ℤ (pos 0) (s1 -64 rp.total_lent.amount))
        "programmer error, this should never go negative"
    pure (record rex_received { amount = r1 -64 r0 })

  -- The first purchase makes the pool, a purchase from an emptied pool refills it, and any other
  -- keeps the price.
  unfoldable pub add_to_rex_pool : Asset → Action System Asset
  add_to_rex_pool payment = do
    core ← core_symbol h
    init_total_rent ← asset h (pos 200000000) core
    rex_received ← asset h (pos 0) rex_symbol
    initialized ← gets (rex_system_initialized h)
    available ← gets (rex_available h)
    branch initialized
        (branch available (purchase payment rex_received) (refill payment rex_received))
        (first_purchase payment init_total_rent rex_received)
