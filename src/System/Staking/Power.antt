-- ===== src/System/Staking/Power.antt =====
-- contracts/eosio.system/src/delegate_bandwidth.cpp: a stake counts as voting power.
use cmcc_eosio_contracts.Common.{ℕ, false, not, ◌||◌, ◌==◌, length}
use cmcc_eosio_contracts.Common.Int.{ℤ, pos, leb_ℤ}
use cmcc_eosio_contracts.Chain.Action.{Action, ⊤, pure, on_row, check, when, ◌>>=◌, ◌>>◌}
use cmcc_eosio_contracts.System.State.{VoterInfo}
use cmcc_eosio_contracts.System.Tables.{System, find_in, emplace_in, voters_table}
use cmcc_eosio_contracts.System.Host.{SystemHost, ◌+64◌, ◌-64◌}
use cmcc_eosio_contracts.System.Resources.{new_voter}
use cmcc_eosio_contracts.System.Voting.Proxies.{write_voter}
use cmcc_eosio_contracts.System.Voting.Votes.{update_votes}

-- `"b1"_n`.
abbrev pub b1_account : ℕ
b1_account = 0x3840000000000000

abbrev max_claimable : ℤ
max_claimable = pos 1000000000000

-- 10 years of 52 weeks, in seconds.
abbrev ten_years : ℤ
ten_years = pos 314496000

module _ (h : SystemHost) where
  -- What can be claimed grows from 2018-06-01 on, for ten years.
  unfoldable pub claimable : ℤ
  claimable =
      let elapsed = pos (h.to_sec h.now) -64 pos 1527811200 in
      h.floats.to_int (
        h.floats.div (h.floats.mul (h.floats.of_int max_claimable) (h.floats.of_int elapsed))
          (h.floats.of_int ten_years))

  unfoldable pub validate_b1_vesting : ℤ → Action System ⊤
  validate_b1_vesting stake =
      check (leb_ℤ (max_claimable -64 claimable) stake)
        "b1 can only claim their tokens over 10 years"

  -- The row of the voter with the stake added, written to the table.
  unfoldable pub add_to_stake : ℕ → ℤ → Action System VoterInfo
  add_to_stake voter total_update = do
    voter_itr ← find_in voters_table h.self voter
    on_row voter_itr
        (λ v. (do
          let row : VoterInfo = record v { staked = v.staked +64 total_update }
          write_voter h voter row
          pure row))
        (do
          let row : VoterInfo = record (new_voter voter) { staked = total_update }
          emplace_in voters_table h.self voter voter row
          pure row)

  -- One that voted votes again, with the new stake.
  unfoldable pub update_voting_power : ℕ → ℤ → Action System ⊤
  update_voting_power voter total_update = do
    v ← add_to_stake voter total_update
    check (leb_ℤ (pos 0) v.staked) "stake for voting cannot be negative"
    when (voter == b1_account) (validate_b1_vesting v.staked)
    when (not (length v.producers == 0) || not (v.proxy == 0))
        (update_votes h voter v.proxy v.producers false)
