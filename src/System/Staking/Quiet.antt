-- ===== src/System/Staking/Quiet.antt =====
-- contracts/eosio.system/src/delegate_bandwidth.cpp: what no table of the stakes tells of is kept by a
-- change of a stake, if a change of voting power keeps it.
use cmcc_eosio_contracts.Common.{ℕ, Bool, List}
use cmcc_eosio_contracts.Common.Int.{ℤ}
use cmcc_eosio_contracts.Chain.Asset.{Asset}
use cmcc_eosio_contracts.Chain.Table.{Table}
use cmcc_eosio_contracts.Chain.Keeps.{Keeps}
use cmcc_eosio_contracts.System.State.{UserResources, DelegatedBandwidth, RefundRequest}
use cmcc_eosio_contracts.System.Tables.{System, Limits, Event}
use cmcc_eosio_contracts.System.Host.{SystemHost, core_symbol}
use cmcc_eosio_contracts.System.Keeping.{step_laws}
use cmcc_eosio_contracts.System.Rex.Stake.{update_rex_stake}
use cmcc_eosio_contracts.System.Staking.Power.{update_voting_power}
use cmcc_eosio_contracts.System.Staking.Refunds.{
  take_part, store_refund, update_refund, new_part, create_refund, change_refund, schedule_refund,
  refund_or_transfer, refund,
}
use cmcc_eosio_contracts.System.Staking.Actions.{
  add_delegated, change_delegated, add_totals, apply_totals, change_totals, check_deltas, changebw,
  delegatebw, undelegatebw,
}

pub record IgnoresStakes (h : SystemHost) (P : System → Type 0) : Type 0 where
  pub put_delband : (x : Table DelegatedBandwidth) (s : System) → P s → P (record s { delband = x })
  pub put_userres : (x : Table UserResources) (s : System) → P s → P (record s { userres = x })
  pub put_refunds : (x : Table RefundRequest) (s : System) → P s → P (record s { refunds = x })
  pub put_limits : (x : ℕ → Limits) (s : System) → P s → P (record s { limits = x })
  pub put_events : (x : List Event) (s : System) → P s → P (record s { events = x })
  pub rex_stake : (n : ℕ) → Keeps P (update_rex_stake h n)
  pub power : (n : ℕ) (z : ℤ) → Keeps P (update_voting_power h n z)

-- A predicate that a change of the refunds leaves alone.
pub record IgnoresRefunds (P : System → Type 0) : Type 0 where
  pub put_refunds : (x : Table RefundRequest) (s : System) → P s → P (record s { refunds = x })
  pub put_events : (x : List Event) (s : System) → P s → P (record s { events = x })

module _ (h : SystemHost) {P : System → Type 0} (i : IgnoresRefunds P) where
  core-Keeps : Keeps P (core_symbol h)
  unfolding core_symbol
  core-Keeps = search step_laws

  update_refund-Keeps :
      (n : ℕ) (a b : Asset) (r : RefundRequest) → Keeps P (update_refund h n a b r)
  unfolding update_refund take_part store_refund
  update_refund-Keeps n a b r = search (step_laws, i.put_refunds) depth 40 fits 4000

  new_part-Keeps : (a : Asset) → Keeps P (new_part h a)
  unfolding new_part
  new_part-Keeps a = search (step_laws, core-Keeps) depth 30

  create_refund-Keeps : (n : ℕ) (a b : Asset) → Keeps P (create_refund h n a b)
  unfolding create_refund
  create_refund-Keeps n a b = search (step_laws, new_part-Keeps, i.put_refunds) depth 30

  change_refund-Keeps : (n : ℕ) (a b : Asset) → Keeps P (change_refund h n a b)
  unfolding change_refund
  change_refund-Keeps n a b = search (step_laws, update_refund-Keeps, create_refund-Keeps) depth 30

  schedule-Keeps : (n : ℕ) (b : Bool) → Keeps P (schedule_refund h n b)
  unfolding schedule_refund
  schedule-Keeps n b = search (step_laws, i.put_events) depth 30

  pub refund_or_transfer-Keeps :
      (n m : ℕ) (a b : Asset) (t : Bool) → Keeps P (refund_or_transfer h n m a b t)
  unfolding refund_or_transfer
  refund_or_transfer-Keeps n m a b t =
      search (step_laws, change_refund-Keeps, schedule-Keeps, i.put_events) depth 30 fits 4000

module _ (h : SystemHost) {P : System → Type 0} (i : IgnoresStakes h P) where
  add_delegated-Keeps : (n m : ℕ) (a b : Asset) → Keeps P (add_delegated h n m a b)
  unfolding add_delegated
  add_delegated-Keeps n m a b = search (step_laws, i.put_delband) depth 30

  change_delegated-Keeps : (n m : ℕ) (a b : Asset) → Keeps P (change_delegated h n m a b)
  unfolding change_delegated
  change_delegated-Keeps n m a b = search (step_laws, add_delegated-Keeps, i.put_delband) depth 30

  add_totals-Keeps : (n m : ℕ) (a b : Asset) → Keeps P (add_totals h n m a b)
  unfolding add_totals
  add_totals-Keeps n m a b = search (step_laws, i.put_userres) depth 30

  apply_totals-Keeps : (n : ℕ) (r : UserResources) → Keeps P (apply_totals h n r)
  unfolding apply_totals
  apply_totals-Keeps n r = search (step_laws, i.put_limits) depth 30

  pub change_totals-Keeps : (n m : ℕ) (a b : Asset) → Keeps P (change_totals h n m a b)
  unfolding change_totals
  change_totals-Keeps n m a b =
      search (step_laws, add_totals-Keeps, apply_totals-Keeps, i.put_userres) depth 30

  pub check_deltas-Keeps : (a b : Asset) → Keeps P (check_deltas h a b)
  unfolding check_deltas
  check_deltas-Keeps a b = search step_laws depth 30

  refunds_ignored : IgnoresRefunds P
  refunds_ignored = record { put_refunds = i.put_refunds; put_events = i.put_events }

  symbol-Keeps : Keeps P (core_symbol h)
  symbol-Keeps = core-Keeps h refunds_ignored

  changebw-Keeps : (n m : ℕ) (a b : Asset) (t : Bool) → Keeps P (changebw h n m a b t)
  unfolding changebw
  changebw-Keeps n m a b t =
      search
        (
          step_laws,
          check_deltas-Keeps,
          change_delegated-Keeps,
          change_totals-Keeps,
          refund_or_transfer-Keeps h refunds_ignored,
          i.rex_stake,
          i.power,
        )
        depth 40 fits 8000

  pub quiet_delegatebw : (n m : ℕ) (a b : Asset) (t : Bool) → Keeps P (delegatebw h n m a b t)
  unfolding delegatebw
  quiet_delegatebw n m a b t = search (step_laws, symbol-Keeps, changebw-Keeps) depth 40 fits 4000

  pub quiet_undelegatebw : (n m : ℕ) (a b : Asset) → Keeps P (undelegatebw h n m a b)
  unfolding undelegatebw
  quiet_undelegatebw n m a b = search (step_laws, symbol-Keeps, changebw-Keeps) depth 40 fits 4000

  pub quiet_refund : (n : ℕ) → Keeps P (refund h n)
  unfolding refund
  quiet_refund n = search (step_laws, i.put_events, i.put_refunds) depth 40 fits 4000
