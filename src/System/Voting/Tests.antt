-- ===== src/System/Voting/Tests.antt =====
-- Runs of votes, and the theorems on them at concrete states.
use cmcc_eosio_contracts.Common.{
  ℕ, ◌-◌, ◌≤◌, ◌≡◌, ◌≢◌, refl, List, [], ◌∷◌, some, arith, true, false,
}
use cmcc_eosio_contracts.Chain.Table.{find}
use cmcc_eosio_contracts.Chain.Action.{ok, err}
use cmcc_eosio_contracts.Sample.{sys_amount}
use cmcc_eosio_contracts.System.State.{VoterInfo, ProducerInfo, ProducerKey}
use cmcc_eosio_contracts.System.Tables.{System, proposed_producers}
use cmcc_eosio_contracts.System.Voting.Lookups.{Sorted, lookup}
use cmcc_eosio_contracts.System.Voting.Ballots.{ballot_lem}
use cmcc_eosio_contracts.System.Voting.Votes.{take_back, give_new, vote_deltas}
use cmcc_eosio_contracts.System.Voting.Deltas.{Delta, change_each, change_at}
use cmcc_eosio_contracts.System.Resources.{new_voter}
use cmcc_eosio_contracts.System.Voting.Election.{
  by_votes, insert_by_name, sort_by_name, insert_ranked, ranked, top, top_producers,
  update_elected_producers,
}
use cmcc_eosio_contracts.System.Voting.Ranking.{Numbers}
use cmcc_eosio_contracts.System.Voting.Schedules.{Elected, Outcome, election_lem}
use cmcc_eosio_contracts.System.Voting.Links.{proxy_of, is_proxy_of}
use cmcc_eosio_contracts.System.Voting.Proxies.{propagate_weight_change, too_deep}
use cmcc_eosio_contracts.System.Voting.Depth.{propagate_ends}
use cmcc_eosio_contracts.System.Voting.Order.{InOrder}
use cmcc_eosio_contracts.System.Calls.{
  VoterCall, call_regproxy, call_delegatebw, call_voteproducer, voter_history,
  voter_history-InOrder,
}
use cmcc_eosio_contracts.System.Host.{SystemHost}
use cmcc_eosio_contracts.System.Sample.{host, start}

-- Producers 1 and 2 were voted for with the weight 5, and 2 and 3 are now, with 100.
abbrev turncoat : VoterInfo
turncoat = record (new_voter 7) { producers = 1 ∷ 2 ∷ []; last_vote_weight = 5 }

abbrev changes : List Delta
changes =
    record { producer = 1; change = 0; is_new = false }
    ∷ record { producer = 2; change = 100; is_new = true }
    ∷ record { producer = 3; change = 100; is_new = true }
    ∷ []

changes_run : vote_deltas host turncoat 0 (2 ∷ 3 ∷ []) 100 true start ≡ ok changes start
unfolding vote_deltas take_back give_new change_each change_at
changes_run = refl

ballot_lem_example : Sorted changes × (lookup 2 changes ≡ some (100, true))
ballot_lem_example =
    ballot_lem host turncoat 0 (2 ∷ 3 ∷ []) 100 true changes 2 start start
      ((omega arith, tt), (tt, tt)) ((omega arith, tt), (tt, tt)) changes_run

abbrev producer : ℕ → ℕ → ProducerInfo
producer name votes = record {
  owner = name;
  total_votes = votes;
  producer_key = name ∷ [];
  is_active = true;
  url = "";
  unpaid_blocks = 0;
  last_claim_time = 0;
  location = 0;
}

-- Producers 8 and 4 have votes, and 6 has none.
abbrev campaign : System
campaign = record start {
  producers =
      record { scope = 1; key = 8; payer = 8; row = producer 8 20 }
      ∷ record { scope = 1; key = 6; payer = 6; row = producer 6 0 }
      ∷ record { scope = 1; key = 4; payer = 4; row = producer 4 30 }
      ∷ [];
}

-- Doubles whose opposite is as far below 1000 as they are above 0.
abbrev polls : SystemHost
polls = record host { floats = record host.floats { neg = λ x. 1000 - x } }

abbrev key : ℕ → ProducerKey
key name = record { producer_name = name; block_signing_key = name ∷ [] }

abbrev elected : System
elected = record campaign {
  gstate = record campaign.gstate {
    last_producer_schedule_update = 77;
    last_producer_schedule_size = 2;
  };
  events = proposed_producers (key 4 ∷ key 8 ∷ []) ∷ [];
}

campaign_runs : update_elected_producers polls 77 campaign ≡ ok tt elected
unfolding update_elected_producers top_producers top ranked insert_ranked by_votes sort_by_name
    insert_by_name
campaign_runs = refl

campaign-Numbers : Numbers polls (λ x. x ≤ 1000) campaign.producers
unfolding by_votes
campaign-Numbers =
    ((omega arith, omega arith), ((omega arith, omega arith), ((omega arith, omega arith), tt)))

election_lem_example :
    Elected polls campaign.producers (top_producers polls campaign.producers)
    × Outcome polls 0 (top_producers polls campaign.producers) campaign elected
    × (0 ≤ 2)
election_lem_example =
    election_lem polls (λ x. x ≤ 1000) (λ x y e. ground arith) (λ x y z p q r e. ground arith)
      (λ x y p q. ground arith) 77 campaign elected tt campaign-Numbers campaign_runs

-- Account 7 registers as a proxy, 5 stakes 30 and 10, and 5 votes through 7.
abbrev calls : List (SystemHost × VoterCall)
calls =
    (host, call_regproxy 7 true)
    ∷ (host, call_delegatebw 5 5 (sys_amount 30) (sys_amount 10) false)
    ∷ (host, call_voteproducer 5 7 [])
    ∷ []

abbrev voted : System
voted = voter_history calls start

start-InOrder : InOrder 1 start.voters
unfolding proxy_of is_proxy_of find
start-InOrder = record {
  acyclic = (λ n. 0, record { free = λ n e. refl; falls = λ n e. ground arith });
  ballots = tt;
}

voter_history-InOrder_example : InOrder 1 voted.voters
voter_history-InOrder_example =
    voter_history-InOrder 1 calls start (refl, (refl, (refl, tt))) start-InOrder

propagate_ends_example :
    (enough : ℕ) × ((depth : ℕ)
      → enough ≤ depth
      → propagate_weight_change host depth 5 voted ≢ err too_deep)
propagate_ends_example =
    propagate_ends host 5 voted
      (voter_history-InOrder 1 calls start (refl, (refl, (refl, tt))) start-InOrder).acyclic

abbrev links : ℕ × ℕ
links = (proxy_of 1 voted.voters 5, proxy_of 1 voted.voters 7)
