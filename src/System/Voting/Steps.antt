-- ===== src/System/Voting/Steps.antt =====
-- contracts/eosio.system/src/voting.cpp: what the steps of a vote keep, the vote keeps.
use cmcc_eosio_contracts.Common.{ℕ, zero, suc, Bool, List, [], ◌∷◌, arith, ltb}
use cmcc_eosio_contracts.Chain.Table.{Table}
use cmcc_eosio_contracts.Chain.Keeps.{Keeps, >>-Keeps, check-Keeps}
use cmcc_eosio_contracts.System.Float.{Double}
use cmcc_eosio_contracts.System.State.{
  GlobalState2, GlobalState3, VoterInfo, ProducerInfo, ProducerInfo2,
}
use cmcc_eosio_contracts.System.Tables.{System}
use cmcc_eosio_contracts.System.Host.{SystemHost}
use cmcc_eosio_contracts.System.Keeping.{step_laws}
use cmcc_eosio_contracts.System.Voting.Shares.{
  Accrual, update_total_votepay_share, update_producer_votepay_share, accrue_row, accrue, settle,
}
use cmcc_eosio_contracts.System.Voting.Proxies.{
  add_vote_weight, change_proxied, change_total_votes, change_votes, change_producers, write_weight,
  propagate_weight_change,
}
use cmcc_eosio_contracts.System.Voting.Deltas.{Delta, apply_delta, apply_deltas}
use cmcc_eosio_contracts.System.Voting.Votes.{
  validate_vote, check_sorted, activate_stake, take_back, give_new, vote_deltas, tally, write_vote,
  update_votes,
}

-- The writes of a vote, all but that of the voter's own row.
pub record VotingSteps (h : SystemHost) (P : System → Type 0) : Type 0 where
  pub proxied : (n : ℕ) (f : Double → Double) → Keeps P (change_proxied h n f)
  pub weight : (n : ℕ) (w : Double) → Keeps P (write_weight h n w)
  pub votes : (n : ℕ) (f : Double → Double) → Keeps P (change_total_votes h n f)
  pub vote_weight : (d : Double) → Keeps P (add_vote_weight h d)
  pub activated : (v : VoterInfo) → Keeps P (activate_stake h v)
  pub put_shares : (x : Table ProducerInfo2) (s : System) → P s → P (record s { producers2 = x })
  pub put_gstate2 : (g : GlobalState2) (s : System) → P s → P (record s { gstate2 = g })
  pub put_gstate3 : (g : GlobalState3) (s : System) → P s → P (record s { gstate3 = g })

module _ (h : SystemHost) {P : System → Type 0} (k : VotingSteps h P) where
  pub total-Keeps : (ct : ℕ) (a r : Double) → Keeps P (update_total_votepay_share h ct a r)
  unfolding update_total_votepay_share
  total-Keeps ct a r = search (step_laws, k.put_gstate2, k.put_gstate3) depth 30 fits 4000

  settle-Keeps : (acc : Accrual) → Keeps P (settle h acc)
  unfolding settle
  settle-Keeps acc = search total-Keeps

  pub shares-Keeps :
      (n : ℕ) (p : ProducerInfo2) (ct : ℕ) (d : Double) (b : Bool)
      → Keeps P (update_producer_votepay_share h n p ct d b)
  unfolding update_producer_votepay_share
  shares-Keeps n p ct d b = search (step_laws, k.put_shares) depth 30 fits 4000

  accrue-Keeps :
      (n : ℕ) (prod : ProducerInfo) (d : Double) (acc : Accrual) → Keeps P (accrue h n prod d acc)
  unfolding accrue accrue_row
  accrue-Keeps n prod d acc = search (step_laws, shares-Keeps) depth 30 fits 4000

  change_votes-Keeps :
      (ps : List ℕ) (d : Double) (acc : Accrual) → Keeps P (change_votes h ps d acc)
  unfolding change_votes
  change_votes-Keeps [] d acc = search step_laws
  change_votes-Keeps (p ∷ ps) d acc =
      search (step_laws, k.votes, k.vote_weight, accrue-Keeps, change_votes-Keeps ps) depth 30 fits
        4000

  change_producers-Keeps : (ps : List ℕ) (d : Double) → Keeps P (change_producers h ps d)
  unfolding change_producers
  change_producers-Keeps ps d =
      search (step_laws, change_votes-Keeps, settle-Keeps) depth 30 fits 4000

  pub propagate-Keeps : (depth n : ℕ) → Keeps P (propagate_weight_change h depth n)
  unfolding propagate_weight_change
  propagate-Keeps zero n = record { kept = λ s s' u c e. ground arith }
  propagate-Keeps (suc depth) n =
      search (step_laws, k.proxied, change_producers-Keeps, k.weight, propagate-Keeps depth) depth
        40 fits 8000

  check_sorted-Keeps : (ps : List ℕ) → Keeps P (check_sorted ps)
  unfolding check_sorted
  check_sorted-Keeps [] = search step_laws
  check_sorted-Keeps (p ∷ []) = search step_laws
  check_sorted-Keeps (p ∷ q ∷ ps) = >>-Keeps (check-Keeps (ltb p q) _) (check_sorted-Keeps (q ∷ ps))

  validate_vote-Keeps : (v p : ℕ) (ps : List ℕ) → Keeps P (validate_vote v p ps)
  unfolding validate_vote
  validate_vote-Keeps v p ps = search (step_laws, check_sorted-Keeps) depth 30

  pub take_back-Keeps : (v : VoterInfo) → Keeps P (take_back h v)
  unfolding take_back
  take_back-Keeps v = search (step_laws, k.proxied, propagate-Keeps) depth 30 fits 4000

  give_new-Keeps :
      (q : ℕ) (ps : List ℕ) (w : Double) (b : Bool) (ds : List Delta)
      → Keeps P (give_new h q ps w b ds)
  unfolding give_new
  give_new-Keeps q ps w b ds = search (step_laws, k.proxied, propagate-Keeps) depth 30 fits 4000

  apply_delta-Keeps : (b : Bool) (d : Delta) (acc : Accrual) → Keeps P (apply_delta h b d acc)
  unfolding apply_delta
  apply_delta-Keeps b d acc =
      search (step_laws, k.votes, k.vote_weight, accrue-Keeps) depth 30 fits 4000

  apply_deltas-Keeps :
      (b : Bool) (ds : List Delta) (acc : Accrual) → Keeps P (apply_deltas h b ds acc)
  unfolding apply_deltas
  apply_deltas-Keeps b [] acc = search step_laws
  apply_deltas-Keeps b (d ∷ ds) acc =
      search (step_laws, apply_delta-Keeps, apply_deltas-Keeps b ds) depth 30

  vote_deltas-Keeps :
      (v : VoterInfo) (q : ℕ) (ps : List ℕ) (w : Double) (b : Bool)
      → Keeps P (vote_deltas h v q ps w b)
  unfolding vote_deltas
  vote_deltas-Keeps v q ps w b = search (step_laws, take_back-Keeps, give_new-Keeps) depth 30

  pub tally-Keeps : (v : VoterInfo) (q : ℕ) (ps : List ℕ) (b : Bool) → Keeps P (tally h v q ps b)
  unfolding tally
  tally-Keeps v q ps b =
      search (step_laws, k.activated, vote_deltas-Keeps, apply_deltas-Keeps, settle-Keeps) depth 30
        fits 4000

  -- The same with the write of the voter's row.
  pub update_votes-Keeps :
      (n q : ℕ) (ps : List ℕ) (b : Bool)
      → ((w : Double) → Keeps P (write_vote h n q ps w))
      → Keeps P (update_votes h n q ps b)
  unfolding update_votes
  update_votes-Keeps n q ps b w =
      search (step_laws, validate_vote-Keeps, tally-Keeps, w) depth 30 fits 4000
