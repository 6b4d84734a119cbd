-- ===== src/System/Rex/Stake.antt =====
-- contracts/eosio.system/src/rex.cpp: the REX of a voter as a part of its stake.
use cmcc_eosio_contracts.Common.{
  ℕ, Bool, Option, false, not, ◌||◌, none, some, String, ◌==◌, leb, length,
}
use cmcc_eosio_contracts.Common.Int.{ℤ, pos, ◌==ℤ◌}
use cmcc_eosio_contracts.Chain.Action.{
  Action, ⊤, pure, on_row, branch, gets, or_abort, check, when, ◌>>=◌, ◌>>◌,
}
use cmcc_eosio_contracts.System.State.{VoterInfo, RexBalance}
use cmcc_eosio_contracts.System.Tables.{System, find_in, modify_in, voters_table, rexbalance_table}
use cmcc_eosio_contracts.System.Host.{
  SystemHost, ◌+64◌, ◌-64◌, mul_div, divide, zero_core, pool, rex_available,
}
use cmcc_eosio_contracts.System.Rex.Balance.{write_balance}

abbrev satisfies : Option VoterInfo → Bool
satisfies none = false
satisfies (some v) = not (v.proxy == 0) || leb 21 (length v.producers)

module _ (h : SystemHost) where
  unfoldable pub check_voting_requirement : ℕ → String → Action System ⊤
  check_voting_requirement owner error_msg = do
    vitr ← find_in voters_table h.self owner
    check (satisfies vitr) error_msg

  -- The stake of the REX at its price, written to its row, and what that is more than before.
  unfoldable pub revalue : ℕ → RexBalance → Action System ℤ
  revalue voter rb = do
    current ← zero_core h
    p ← pool h
    stake ←
        or_abort (mul_div rb.rex_balance.amount p.total_lendable.amount p.total_rex.amount) divide
    write_balance h voter (record rb { vote_stake = record (rb.vote_stake) { amount = stake } })
    pure (stake -64 rb.vote_stake.amount)

  unfoldable pub add_stake : ℕ → ℤ → Action System ⊤
  add_stake voter delta_stake = do
    vitr ← find_in voters_table h.self voter
    on_row vitr
        (λ v.
          modify_in voters_table h.self voter 0 (record v { staked = v.staked +64 delta_stake }))
        (pure tt)

  unfoldable pub update_rex_stake : ℕ → Action System ⊤
  update_rex_stake voter = do
    bitr ← find_in rexbalance_table h.self voter
    available ← gets (rex_available h)
    delta_stake ←
        on_row bitr (λ rb. branch available (revalue voter rb) (pure (pos 0))) (pure (pos 0))
    when (not (delta_stake ==ℤ pos 0)) (add_stake voter delta_stake)
