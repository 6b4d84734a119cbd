-- ===== src/System/Voting/Quiet.antt =====
-- contracts/eosio.system/src/voting.cpp and src/delegate_bandwidth.cpp: what neither reads nor writes
-- a vote's tables is kept by it, and by a change of voting power.
use cmcc_eosio_contracts.Common.{ℕ, Bool, List}
use cmcc_eosio_contracts.Common.Int.{ℤ}
use cmcc_eosio_contracts.Chain.Table.{Table}
use cmcc_eosio_contracts.Chain.Keeps.{Keeps}
use cmcc_eosio_contracts.System.Float.{Double}
use cmcc_eosio_contracts.System.State.{
  GlobalState, GlobalState2, GlobalState3, VoterInfo, ProducerInfo, ProducerInfo2,
}
use cmcc_eosio_contracts.System.Tables.{System}
use cmcc_eosio_contracts.System.Host.{SystemHost}
use cmcc_eosio_contracts.System.Keeping.{step_laws}
use cmcc_eosio_contracts.System.Voting.Proxies.{
  change_proxied, write_weight, change_total_votes, add_vote_weight,
}
use cmcc_eosio_contracts.System.Voting.Votes.{activate_stake, write_vote, update_votes}
use cmcc_eosio_contracts.System.Voting.Steps.{VotingSteps, update_votes-Keeps}
use cmcc_eosio_contracts.System.Staking.Power.{
  add_to_stake, validate_b1_vesting, update_voting_power,
}

-- A predicate that a write to a table of the votes leaves alone.
pub record IgnoresVotes (P : System → Type 0) : Type 0 where
  pub put_voters : (x : Table VoterInfo) (s : System) → P s → P (record s { voters = x })
  pub put_producers : (x : Table ProducerInfo) (s : System) → P s → P (record s { producers = x })
  pub put_producers2 :
      (x : Table ProducerInfo2) (s : System) → P s → P (record s { producers2 = x })
  pub put_gstate : (g : GlobalState) (s : System) → P s → P (record s { gstate = g })
  pub put_gstate2 : (g : GlobalState2) (s : System) → P s → P (record s { gstate2 = g })
  pub put_gstate3 : (g : GlobalState3) (s : System) → P s → P (record s { gstate3 = g })

module _ (h : SystemHost) {P : System → Type 0} (i : IgnoresVotes P) where
  pub quiet_votes : VotingSteps h P
  unfolding change_proxied write_weight change_total_votes add_vote_weight activate_stake
  quiet_votes = record {
    proxied = λ n f. search (step_laws, i.put_voters) depth 30;
    weight = λ n w. search (step_laws, i.put_voters) depth 30;
    votes = λ n f. search (step_laws, i.put_producers) depth 30;
    vote_weight = λ d. search (step_laws, i.put_gstate) depth 30;
    activated = λ v. search (step_laws, i.put_gstate) depth 30;
    put_shares = i.put_producers2;
    put_gstate2 = i.put_gstate2;
    put_gstate3 = i.put_gstate3;
  }

  write_vote-Keeps : (n q : ℕ) (ps : List ℕ) (w : Double) → Keeps P (write_vote h n q ps w)
  unfolding write_vote
  write_vote-Keeps n q ps w = search (step_laws, i.put_voters) depth 30

  pub quiet_update_votes : (n q : ℕ) (ps : List ℕ) (b : Bool) → Keeps P (update_votes h n q ps b)
  quiet_update_votes n q ps b = update_votes-Keeps h quiet_votes n q ps b (write_vote-Keeps n q ps)

  add_to_stake-Keeps : (n : ℕ) (z : ℤ) → Keeps P (add_to_stake h n z)
  unfolding add_to_stake
  add_to_stake-Keeps n z = search (step_laws, i.put_voters) depth 30

  pub quiet_voting_power : (n : ℕ) (z : ℤ) → Keeps P (update_voting_power h n z)
  unfolding update_voting_power validate_b1_vesting
  quiet_voting_power n z =
      search (step_laws, add_to_stake-Keeps, quiet_update_votes) depth 30 fits 4000
