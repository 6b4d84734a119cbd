-- ===== src/System/Staking/Tests.antt =====
-- Runs of stakes and refunds, and the theorems on them at concrete states.
use cmcc_eosio_contracts.Common.{
  ℕ, ◌≡◌, refl, List, [], ◌∷◌, arith, false, ◌++◌, ◌==◌, if◌then◌else◌,
}
use cmcc_eosio_contracts.Common.Int.{ℤ, pos, ◌+ℤ◌, ◌-ℤ◌, int64}
use cmcc_eosio_contracts.Sample.{sys_amount}
use cmcc_eosio_contracts.Chain.Action.{ok}
use cmcc_eosio_contracts.Chain.Table.{Unique, sum, find, add_row, set_row}
use cmcc_eosio_contracts.System.State.{VoterInfo, DelegatedBandwidth, UserResources}
use cmcc_eosio_contracts.System.Tables.{System, sent_transfer, canceled_deferred, deferred_refund}
use cmcc_eosio_contracts.System.Host.{SystemHost, core_symbol, active_permission}
use cmcc_eosio_contracts.System.Resources.{new_voter, has_field}
use cmcc_eosio_contracts.System.Rex.Stake.{update_rex_stake}
use cmcc_eosio_contracts.System.Payments.{paid_in}
use cmcc_eosio_contracts.System.Staking.Power.{add_to_stake, update_voting_power}
use cmcc_eosio_contracts.System.Staking.Refunds.{
  stake_account, refund_or_transfer, schedule_refund, change_refund, create_refund, new_part,
}
use cmcc_eosio_contracts.System.Staking.Actions.{
  delegatebw, undelegatebw, changebw, check_deltas, change_delegated, add_delegated, change_totals,
  add_totals, apply_totals,
}
use cmcc_eosio_contracts.System.Staking.Ledger.{
  Implements, stake, delegatebw-Implements, undelegatebw-Implements,
}
use cmcc_eosio_contracts.System.Staking.Backed.{staked}
use cmcc_eosio_contracts.System.Staking.Stakes.{Stakes}
use cmcc_eosio_contracts.System.Staking.Calls.{
  StakeCall, call_delegatebw, call_undelegatebw, stake_history, stake_history-Stakes,
}
use cmcc_eosio_contracts.System.Sample.{host, start}

-- 15% of the tokens are staked, so stakes can be taken back.
abbrev active : System
active = record start { gstate = record start.gstate { total_activated_stake = pos 1500000000000 } }

-- Account 5 stakes 30 and 10, and takes back 20 of the first.
abbrev calls : List (SystemHost × StakeCall)
calls =
    (host, call_delegatebw 5 6 (sys_amount 30) (sys_amount 10) false)
    ∷ (host, call_undelegatebw 5 6 (sys_amount 20) (sys_amount 0))
    ∷ []

active-Stakes : Stakes active
unfolding staked sum paid_in ◌+ℤ◌
active-Stakes = record { backed = refl; owned = tt }

stake_history-Stakes_example : Stakes (stake_history calls active)
stake_history-Stakes_example =
    stake_history-Stakes calls active
      (
        ((λ e. ground arith), (omega arith, omega arith), (omega arith, omega arith)),
        (((λ e. ground arith), (omega arith, omega arith), (omega arith, omega arith)), tt),
      )
      active-Stakes

abbrev staked_voter : ℕ → VoterInfo
staked_voter n = record (new_voter 5) { staked = pos n }

abbrev staked_row : ℕ → ℕ → DelegatedBandwidth
staked_row net cpu = record {
  from = 5;
  to = 6;
  net_weight = sys_amount net;
  cpu_weight = sys_amount cpu;
}

abbrev totals : ℕ → ℕ → UserResources
totals net cpu = record {
  owner = 6;
  net_weight = sys_amount net;
  cpu_weight = sys_amount cpu;
  ram_bytes = pos 0;
}

abbrev with_limits : ℤ → ℤ → System → System
with_limits net cpu s = record s {
  limits = λ n. if n == 6 then record { ram = pos 1400; net = net; cpu = cpu } else s.limits n;
}

-- Account 5 has staked 30 and 10 for account 6.
abbrev delegated : System
delegated = record (with_limits (pos 30) (pos 10) active) {
  delband = record { scope = 5; key = 6; payer = 5; row = staked_row 30 10 } ∷ [];
  userres = active.userres ++ record { scope = 6; key = 6; payer = 5; row = totals 30 10 } ∷ [];
  voters = record { scope = 1; key = 5; payer = 5; row = staked_voter 40 } ∷ [];
  events =
      canceled_deferred 5
      ∷ sent_transfer (record { actor = 5; permission = active_permission } ∷ []) 5 stake_account
          (sys_amount 40) "stake bandwidth"
      ∷ [];
}

delegate_runs : delegatebw host 5 6 (sys_amount 30) (sys_amount 10) false active ≡ ok tt delegated
unfolding delegatebw core_symbol find changebw check_deltas change_delegated add_delegated
    change_totals add_totals apply_totals refund_or_transfer schedule_refund update_rex_stake
    add_row update_voting_power add_to_stake int64 ◌+ℤ◌ has_field
delegate_runs = refl

delegatebw-Implements_example : Implements (stake 5 6 (pos 30) (pos 10)) active delegated
delegatebw-Implements_example =
    delegatebw-Implements host 5 6 (sys_amount 30) (sys_amount 10) false active delegated tt tt
      delegate_runs

-- It takes 20 of the 30 back, and waits for them.
abbrev undelegated : System
undelegated = record (with_limits (pos 10) (pos 10) delegated) {
  delband = record { scope = 5; key = 6; payer = 5; row = staked_row 10 10 } ∷ [];
  userres = active.userres ++ record { scope = 6; key = 6; payer = 5; row = totals 10 10 } ∷ [];
  voters = record { scope = 1; key = 5; payer = 5; row = staked_voter 20 } ∷ [];
  refunds =
      record {
        scope = 5;
        key = 5;
        payer = 5;
        row = record {
          owner = 5;
          request_time = 1546300800;
          net_amount = sys_amount 20;
          cpu_amount = sys_amount 0;
        };
      }
      ∷ [];
  events = delegated.events ++ canceled_deferred 5 ∷ deferred_refund 5 259200 ∷ [];
}

undelegate_runs : undelegatebw host 5 6 (sys_amount 20) (sys_amount 0) delegated ≡ ok tt undelegated
unfolding undelegatebw core_symbol find changebw check_deltas change_delegated add_delegated
    change_totals add_totals apply_totals refund_or_transfer schedule_refund change_refund
    create_refund new_part update_rex_stake add_row set_row update_voting_power add_to_stake int64
    ◌+ℤ◌ ◌-ℤ◌ has_field
undelegate_runs = refl

delegated-Unique : Unique delegated.delband
unfolding find
delegated-Unique = (refl, tt)

undelegatebw-Implements_example :
    Implements (stake 5 6 (pos 0 -ℤ pos 20) (pos 0 -ℤ pos 0)) delegated undelegated
undelegatebw-Implements_example =
    undelegatebw-Implements host 5 6 (sys_amount 20) (sys_amount 0) delegated undelegated tt
      delegated-Unique (omega arith, omega arith) (omega arith, omega arith) undelegate_runs
