-- ===== src/System/Rex/Calls.antt =====
-- contracts/eosio.system/src/rex.cpp: every action of the exchange keeps the sum of the pool.
use cmcc_eosio_contracts.Common.{ℕ, All, List, [], ◌∷◌, ◌≡◌, inl, inr, arith, some}
use cmcc_eosio_contracts.Common.Int.{int64}
use cmcc_eosio_contracts.Chain.Asset.{Asset}
use cmcc_eosio_contracts.Chain.Table.{find}
use cmcc_eosio_contracts.Chain.Action.{Action, ok, err, ⊤, Result-cases}
use cmcc_eosio_contracts.Chain.Keeps.{Keeps}
use cmcc_eosio_contracts.System.State.{RexPool}
use cmcc_eosio_contracts.System.Tables.{System}
use cmcc_eosio_contracts.System.Host.{SystemHost, ◌+64◌, pool, core_symbol}
use cmcc_eosio_contracts.System.Rex.Fund.{deposit}
use cmcc_eosio_contracts.System.Rex.Orders.{cnclrexorder}
use cmcc_eosio_contracts.System.Rex.Loans.{
  Bandwidth, pay_loan, open_loan, rent_rex, fund_rex_loan, defund_rex_loan,
}
use cmcc_eosio_contracts.System.Rex.Actions.{rent, fund_loan, defund_loan, setrex, rexexec}
use cmcc_eosio_contracts.System.Rex.Account.{withdraw, buyrex, unstaketorex, sellrex, updaterex}
use cmcc_eosio_contracts.System.Rex.Savings.{consolidate, mvtosavings, mvfrsavings, closerex}
use cmcc_eosio_contracts.System.Rex.Trading.{
  withdraw-Keeps, buyrex-Keeps, unstaketorex-Keeps, sellrex-Keeps, updaterex-Keeps,
  consolidate-Keeps, mvtosavings-Keeps, mvfrsavings-Keeps, closerex-Keeps,
}
use cmcc_eosio_contracts.System.Rex.Consistent.{set_row-Consistent, find-Consistent}
use cmcc_eosio_contracts.System.Rex.Keeping.{PoolSums, keeps_laws}

-- A call of an action.
pub data RexCall : Type 0 where
  call_deposit : ℕ → Asset → RexCall
  call_cnclrexorder : ℕ → RexCall
  call_rent : Bandwidth → ℕ → ℕ → Asset → Asset → RexCall
  call_fund_loan : Bandwidth → ℕ → ℕ → Asset → RexCall
  call_defund_loan : Bandwidth → ℕ → ℕ → Asset → RexCall
  call_setrex : Asset → RexCall
  call_rexexec : ℕ → ℕ → RexCall
  call_withdraw : ℕ → Asset → RexCall
  call_buyrex : ℕ → Asset → RexCall
  call_unstaketorex : ℕ → ℕ → Asset → Asset → RexCall
  call_sellrex : ℕ → Asset → RexCall
  call_updaterex : ℕ → RexCall
  call_consolidate : ℕ → RexCall
  call_mvtosavings : ℕ → Asset → RexCall
  call_mvfrsavings : ℕ → Asset → RexCall
  call_closerex : ℕ → RexCall

-- What is bought with is an int64_t, as every amount is.
abbrev pub FitsCall : RexCall → Type 0
FitsCall (call_buyrex from amount) = int64 amount.amount ≡ amount.amount
FitsCall call = Unit

unfoldable pub rex_dispatch : SystemHost → RexCall → Action System ⊤
rex_dispatch h (call_deposit owner amount) = deposit h owner amount
rex_dispatch h (call_cnclrexorder owner) = cnclrexorder h owner
rex_dispatch h (call_rent kind from receiver payment fund) = rent h kind from receiver payment fund
rex_dispatch h (call_fund_loan kind from n payment) = fund_loan h kind from n payment
rex_dispatch h (call_defund_loan kind from n amount) = defund_loan h kind from n amount
rex_dispatch h (call_setrex balance) = setrex h balance
rex_dispatch h (call_rexexec user max) = rexexec h user max
rex_dispatch h (call_withdraw owner amount) = withdraw h owner amount
rex_dispatch h (call_buyrex from amount) = buyrex h from amount
rex_dispatch h (call_unstaketorex owner receiver net cpu) = unstaketorex h owner receiver net cpu
rex_dispatch h (call_sellrex from rex) = sellrex h from rex
rex_dispatch h (call_updaterex owner) = updaterex h owner
rex_dispatch h (call_consolidate owner) = consolidate h owner
rex_dispatch h (call_mvtosavings owner rex) = mvtosavings h owner rex
rex_dispatch h (call_mvfrsavings owner rex) = mvfrsavings h owner rex
rex_dispatch h (call_closerex owner) = closerex h owner

module _ (h : SystemHost) where
  setrex-Keeps : (balance : Asset) → Keeps PoolSums (setrex h balance)
  unfolding setrex core_symbol pool PoolSums
  setrex-Keeps balance = record {
    kept = λ s s' u c e. grind (arith, set_row-Consistent, find-Consistent h.self 0);
  }

  deposit-Keeps : (owner : ℕ) (amount : Asset) → Keeps PoolSums (deposit h owner amount)
  unfolding deposit
  deposit-Keeps owner amount = search keeps_laws depth 30 fits 4000

  cnclrexorder-Keeps : (owner : ℕ) → Keeps PoolSums (cnclrexorder h owner)
  unfolding cnclrexorder
  cnclrexorder-Keeps owner = search keeps_laws depth 30 fits 4000

  pay_loan-Keeps : (from : ℕ) (payment fund : Asset) → Keeps PoolSums (pay_loan h from payment fund)
  unfolding pay_loan
  pay_loan-Keeps from payment fund = search keeps_laws depth 30 fits 4000

  open_loan-Keeps :
      (kind : Bandwidth) (from receiver : ℕ) (payment fund : Asset)
      → Keeps PoolSums (open_loan h kind from receiver payment fund)
  unfolding open_loan
  open_loan-Keeps kind from receiver payment fund = search keeps_laws depth 40 fits 4000

  rent-Keeps :
      (kind : Bandwidth) (from receiver : ℕ) (payment fund : Asset)
      → Keeps PoolSums (rent h kind from receiver payment fund)
  unfolding rent rent_rex
  rent-Keeps kind from receiver payment fund =
      search (keeps_laws, pay_loan-Keeps, open_loan-Keeps) depth 30 fits 4000

  fund_loan-Keeps :
      (kind : Bandwidth) (from n : ℕ) (payment : Asset)
      → Keeps PoolSums (fund_loan h kind from n payment)
  unfolding fund_loan fund_rex_loan
  fund_loan-Keeps kind from n payment = search keeps_laws depth 30 fits 4000

  defund_loan-Keeps :
      (kind : Bandwidth) (from n : ℕ) (amount : Asset)
      → Keeps PoolSums (defund_loan h kind from n amount)
  unfolding defund_loan defund_rex_loan
  defund_loan-Keeps kind from n amount = search keeps_laws depth 30 fits 4000

  rexexec-Keeps : (user max : ℕ) → Keeps PoolSums (rexexec h user max)
  unfolding rexexec
  rexexec-Keeps user max = search keeps_laws depth 30 fits 4000

  rex_dispatch-Keeps : (call : RexCall) → FitsCall call → Keeps PoolSums (rex_dispatch h call)
  unfolding rex_dispatch
  rex_dispatch-Keeps (call_deposit owner amount) f = deposit-Keeps owner amount
  rex_dispatch-Keeps (call_cnclrexorder owner) f = cnclrexorder-Keeps owner
  rex_dispatch-Keeps (call_rent kind from receiver payment fund) f =
      rent-Keeps kind from receiver payment fund
  rex_dispatch-Keeps (call_fund_loan kind from n payment) f = fund_loan-Keeps kind from n payment
  rex_dispatch-Keeps (call_defund_loan kind from n amount) f = defund_loan-Keeps kind from n amount
  rex_dispatch-Keeps (call_setrex balance) f = setrex-Keeps balance
  rex_dispatch-Keeps (call_rexexec user max) f = rexexec-Keeps user max
  rex_dispatch-Keeps (call_withdraw owner amount) f = withdraw-Keeps h owner amount
  rex_dispatch-Keeps (call_buyrex from amount) f = buyrex-Keeps h from amount f
  rex_dispatch-Keeps (call_unstaketorex owner receiver net cpu) f =
      unstaketorex-Keeps h owner receiver net cpu
  rex_dispatch-Keeps (call_sellrex from rex) f = sellrex-Keeps h from rex
  rex_dispatch-Keeps (call_updaterex owner) f = updaterex-Keeps h owner
  rex_dispatch-Keeps (call_consolidate owner) f = consolidate-Keeps h owner
  rex_dispatch-Keeps (call_mvtosavings owner rex) f = mvtosavings-Keeps h owner rex
  rex_dispatch-Keeps (call_mvfrsavings owner rex) f = mvfrsavings-Keeps h owner rex
  rex_dispatch-Keeps (call_closerex owner) f = closerex-Keeps h owner

-- A history: each call with the chain that it runs on. A call that aborts changes nothing.
unfoldable pub rex_history : List (SystemHost × RexCall) → System → System
rex_history [] s = s
rex_history (x ∷ xs) s = elim (rex_dispatch x.0 x.1 s) [
  | ok u s' ↦ rex_history xs s'
  | err e ↦ rex_history xs s
]

-- If every row of the pool has the right sum, then after any history of calls, whose purchases are of
-- amounts that an int64_t can hold, what the pool can lend is still the sum, in an int64_t, of what is
-- lent and what is not.
pub history_sums :
    (calls : List (SystemHost × RexCall)) (s : System) (scope key : ℕ) (p : RexPool)
    → All (λ x. FitsCall (x.1)) calls
    → PoolSums s
    → find scope key (rex_history calls s).rexpool ≡ some p
    → p.total_lendable.amount ≡ p.total_unlent.amount +64 p.total_lent.amount
unfolding rex_history PoolSums
history_sums [] s scope key p w c f = find-Consistent scope key p s.rexpool c f
history_sums (x ∷ xs) s scope key p w c f = elim (Result-cases (rex_dispatch x.0 x.1 s)) [
  | inl (u, s1, e) ↦
      let c1 = (rex_dispatch-Keeps x.0 x.1 w.0).kept s s1 u c e in
      history_sums xs s1 scope key p w.1 c1 (ground arith)
  | inr (y, e) ↦ history_sums xs s scope key p w.1 c (ground arith)
]
