-- ===== src/System/Voting/Votes.antt =====
-- contracts/eosio.system/src/voting.cpp: a vote, and a change of the stake of one that voted.
use cmcc_eosio_contracts.Common.{
  ℕ, Bool, true, false, not, ◌&&◌, ◌||◌, List, [], ◌∷◌, ◌==◌, ltb, leb, length, if◌then◌else◌,
}
use cmcc_eosio_contracts.Common.Int.{ℤ, pos, leb_ℤ}
use cmcc_eosio_contracts.Chain.Action.{
  Action, ⊤, pure, branch, gets, or_abort, check, when, ◌>>=◌, ◌>>◌,
}
use cmcc_eosio_contracts.System.Float.{Double, zero_double}
use cmcc_eosio_contracts.System.State.{VoterInfo}
use cmcc_eosio_contracts.System.Tables.{System, find_in, voters_table}
use cmcc_eosio_contracts.System.Host.{SystemHost, ◌+64◌}
use cmcc_eosio_contracts.System.Ram.{set_gstate}
use cmcc_eosio_contracts.System.Voting.Shares.{no_accrual, settle}
use cmcc_eosio_contracts.System.Voting.Proxies.{
  weight_of, change_proxied, read_voter, write_voter, propagate_weight_change, proxy_conflict,
}
use cmcc_eosio_contracts.System.Voting.Deltas.{Delta, change_each, apply_deltas}

abbrev pub min_activated_stake : ℤ
min_activated_stake = pos 1500000000000

unfoldable pub check_sorted : List ℕ → Action System ⊤
check_sorted [] = pure tt
check_sorted (p ∷ []) = pure tt
check_sorted (p ∷ q ∷ rest) = do
  check (ltb p q) "producer votes must be unique and sorted"
  check_sorted (q ∷ rest)

unfoldable pub validate_vote : ℕ → ℕ → List ℕ → Action System ⊤
validate_vote voter_name proxy producers =
    branch (proxy == 0)
      (do
        check (leb (length producers) 30) "attempt to vote for too many producers"
        check_sorted producers)
      (do
        check (length producers == 0) "cannot vote for producers and proxy at same time"
        check (not (voter_name == proxy)) "cannot proxy to self")

module _ (h : SystemHost) where
  -- The stake of a first vote counts as activated.
  unfoldable pub activate_stake : VoterInfo → Action System ⊤
  activate_stake voter = when (h.floats.le voter.last_vote_weight zero_double) (do
    g ← gets (λ s. s.gstate)
    let total = g.total_activated_stake +64 voter.staked
    set_gstate (record g {
      total_activated_stake = total;
      thresh_activated_stake_time =
          if leb_ℤ min_activated_stake total && g.thresh_activated_stake_time == 0
          then h.now
          else g.thresh_activated_stake_time;
    }))

  abbrev pub leave_proxy : ℕ → Double → Action System ⊤
  leave_proxy proxy weight = do
    itr ← find_in voters_table h.self proxy
    p ← or_abort itr "old proxy not found"
    change_proxied h proxy (λ w. h.floats.sub w weight)
    propagate_weight_change h h.call_depth proxy

  -- The previous vote is taken back, from a proxy or from producers.
  unfoldable pub take_back : VoterInfo → Action System (List Delta)
  take_back voter = do
    let voted = h.floats.lt zero_double voter.last_vote_weight
    when (voted && not (voter.proxy == 0)) (leave_proxy voter.proxy voter.last_vote_weight)
    pure (
        if voted && voter.proxy == 0
        then change_each voter.producers (λ d. h.floats.sub d voter.last_vote_weight) false []
        else [])

  abbrev pub join_proxy : ℕ → Double → Bool → Action System ⊤
  join_proxy proxy weight voting = do
    itr ← find_in voters_table h.self proxy
    p ← or_abort itr "invalid proxy specified"
    check (not voting || p.is_proxy) "proxy not found"
    when (h.floats.le zero_double weight) (do
      change_proxied h proxy (λ w. h.floats.add w weight)
      propagate_weight_change h h.call_depth proxy)

  unfoldable pub give_new : ℕ → List ℕ → Double → Bool → List Delta → Action System (List Delta)
  give_new proxy producers weight voting deltas = do
    when (not (proxy == 0)) (join_proxy proxy weight voting)
    pure (
        if proxy == 0 && h.floats.le zero_double weight
        then change_each producers (λ d. h.floats.add d weight) true deltas
        else deltas)

  -- What the vote changes for each producer: the old vote is taken back, then the new one is given.
  unfoldable pub vote_deltas : VoterInfo → ℕ → List ℕ → Double → Bool → Action System (List Delta)
  vote_deltas voter proxy producers weight voting = do
    old ← take_back voter
    give_new proxy producers weight voting old

  unfoldable pub write_vote : ℕ → ℕ → List ℕ → Double → Action System ⊤
  write_vote voter_name proxy producers weight = do
    v ← read_voter h voter_name
    write_voter h voter_name
        (record v { last_vote_weight = weight; producers = producers; proxy = proxy })

  -- All of a vote but the voter's own row: the weights of proxies, the votes and the shares.
  unfoldable pub tally : VoterInfo → ℕ → List ℕ → Bool → Action System Double
  tally voter proxy producers voting = do
    activate_stake voter
    deltas ← vote_deltas voter proxy producers (weight_of h voter) voting
    acc ← apply_deltas h voting deltas no_accrual
    settle h acc

  unfoldable pub update_votes : ℕ → ℕ → List ℕ → Bool → Action System ⊤
  update_votes voter_name proxy producers voting = do
    validate_vote voter_name proxy producers
    itr ← find_in voters_table h.self voter_name
    voter ← or_abort itr "user must stake before they can vote"
    check (proxy == 0 || not voter.is_proxy) proxy_conflict
    share ← tally voter proxy producers voting
    write_vote voter_name proxy producers (weight_of h voter)
