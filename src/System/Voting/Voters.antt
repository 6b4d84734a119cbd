-- ===== src/System/Voting/Voters.antt =====
-- contracts/eosio.system: the actions that write to the rows of the voters keep them in order.
use cmcc_eosio_contracts.Common.{
  ℕ, ◌≡◌, Bool, true, false, not, ◌||◌, some, none, inl, inr, arith, refl, sym, subst, subst₂, ◌∙◌,
  Option-cases, Bool-cases, List, [], length, ◌==◌, String,
}
use cmcc_eosio_contracts.Common.Int.{ℤ}
use cmcc_eosio_contracts.Chain.Table.{
  Table, find, set_row, add_row, find-set_row, find-add_row, set_row-EveryRow, add_row-EveryRow,
  find-EveryRow,
}
use cmcc_eosio_contracts.Chain.Action.{ok, >>=-ok, Result-cases}
use cmcc_eosio_contracts.Chain.Keeps.{Keeps}
use cmcc_eosio_contracts.System.State.{VoterInfo, RexBalance}
use cmcc_eosio_contracts.System.Tables.{System}
use cmcc_eosio_contracts.System.Host.{SystemHost, ◌+64◌, pool, core_symbol}
use cmcc_eosio_contracts.System.Keeping.{step_laws}
use cmcc_eosio_contracts.System.Resources.{new_voter}
use cmcc_eosio_contracts.System.Rex.Stake.{
  revalue, add_stake, update_rex_stake, check_voting_requirement,
}
use cmcc_eosio_contracts.System.Voting.Proxies.{propagate_weight_change, regproxy}
use cmcc_eosio_contracts.System.Voting.Votes.{update_votes}
use cmcc_eosio_contracts.System.Voting.Actions.{voteproducer}
use cmcc_eosio_contracts.System.Voting.Steps.{propagate-Keeps}
use cmcc_eosio_contracts.System.Voting.Links.{proxy_of, set_row-Ranked, add_row-Ranked}
use cmcc_eosio_contracts.System.Voting.Ballots.{Ballot}
use cmcc_eosio_contracts.System.Voting.Order.{
  Valid, InOrder, VotersOk, voters_steps, set_row-InOrder, update_votes-InOrder,
}
use cmcc_eosio_contracts.System.Staking.Power.{
  add_to_stake, validate_b1_vesting, update_voting_power,
}

module _ (h : SystemHost) where
  add_stake-Keeps : (n : ℕ) (z : ℤ) → Keeps (VotersOk h) (add_stake h n z)
  unfolding add_stake VotersOk
  add_stake-Keeps n z = record {
    kept = λ s s' u c e. elim (Option-cases (find h.self n s.voters)) [
      | inl a ↦ ground arith
      | inr (v, a) ↦
          let w : VoterInfo = record v { staked = v.staked +64 z } in
          let k = set_row-InOrder h.self n v w s.voters a refl refl refl c in
          let r : s'.voters ≡ set_row h.self n 0 w s.voters = ground arith in
          subst (InOrder h.self) (sym r) k
    ];
  }

  revalue-Keeps : (n : ℕ) (rb : RexBalance) → Keeps (VotersOk h) (revalue h n rb)
  unfolding revalue core_symbol pool VotersOk
  revalue-Keeps n rb = search step_laws depth 40 fits 4000

  pub update_rex_stake-Keeps : (n : ℕ) → Keeps (VotersOk h) (update_rex_stake h n)
  unfolding update_rex_stake
  update_rex_stake-Keeps n = search (step_laws, revalue-Keeps, add_stake-Keeps) depth 40 fits 4000

  vote-Keeps : (n q : ℕ) (ps : List ℕ) → Keeps (VotersOk h) (update_votes h n q ps true)
  unfolding VotersOk
  vote-Keeps n q ps = record {
    kept = λ s s' u c e. update_votes-InOrder h n q ps true s s' u c (inl refl) e;
  }

  requirement-Keeps : (n : ℕ) (m : String) → Keeps (VotersOk h) (check_voting_requirement h n m)
  unfolding check_voting_requirement
  requirement-Keeps n m = search step_laws

  pub voteproducer-Keeps : (n q : ℕ) (ps : List ℕ) → Keeps (VotersOk h) (voteproducer h n q ps)
  unfolding voteproducer
  voteproducer-Keeps n q ps =
      search (step_laws, update_rex_stake-Keeps, vote-Keeps, requirement-Keeps) depth 40 fits 4000

  new_row-InOrder :
      (n : ℕ) (w : VoterInfo) (t : Table VoterInfo)
      → find h.self n t ≡ none
      → w.proxy ≡ 0
      → w.producers ≡ []
      → InOrder h.self t
      → InOrder h.self (add_row h.self n n w t)
  new_row-InOrder n w t f a b o =
      let (rank, r) = o.acyclic in
      record {
        acyclic = (rank, add_row-Ranked h.self rank n n w t f a r);
        ballots =
            add_row-EveryRow Valid h.self n n w t o.ballots
              (subst₂ Ballot (sym a) (sym b) (λ z. (omega arith, tt), λ z. refl));
      }

  flagged-InOrder :
      (n : ℕ) (v w : VoterInfo) (t : Table VoterInfo)
      → find h.self n t ≡ some v
      → w.proxy ≡ v.proxy
      → w.producers ≡ v.producers
      → (w.is_proxy ≡ true → v.proxy ≡ 0)
      → InOrder h.self t
      → InOrder h.self (set_row h.self n 0 w t)
  unfolding proxy_of
  flagged-InOrder n v w t f a b c o =
      let (rank, r) = o.acyclic in
      let valid = find-EveryRow Valid h.self n v t o.ballots f in
      record {
        acyclic = (
          rank,
          set_row-Ranked h.self rank n 0 v w t f (λ p. a ∙ c p) (λ p. ground (arith, r.falls n)) r,
        );
        ballots =
            set_row-EveryRow Valid h.self n 0 w t o.ballots (subst₂ Ballot (sym a) (sym b) valid);
      }

  propagates : (depth n : ℕ) → Keeps (VotersOk h) (propagate_weight_change h depth n)
  propagates depth n = propagate-Keeps h (voters_steps h) depth n

  pub regproxy-Keeps : (n : ℕ) (b : Bool) → Keeps (VotersOk h) (regproxy h n b)
  unfolding regproxy VotersOk
  regproxy-Keeps n b = record {
    kept = λ s s' u c e. elim (Option-cases (find h.self n s.voters)) [
      | inl a ↦
          let w : VoterInfo = record (new_voter n) { is_proxy = b } in
          let r : s'.voters ≡ add_row h.self n n w s.voters = ground arith in
          subst (InOrder h.self) (sym r) (new_row-InOrder n w s.voters a refl refl c)
      | inr (v, a) ↦
          let w : VoterInfo = record v { is_proxy = b } in
          let s₁ : System = record s { voters = set_row h.self n 0 w s.voters } in
          let p : propagate_weight_change h h.call_depth n s₁ ≡ ok u s' = ground arith in
          let free : b ≡ true → v.proxy ≡ 0 = ground arith in
          (propagates h.call_depth n).kept s₁ s' u
            (flagged-InOrder n v w s.voters a refl refl free c) p
    ];
  }

  add_to_stake-InOrder :
      (n : ℕ) (z : ℤ) (s s' : System) (v : VoterInfo)
      → InOrder h.self s.voters
      → add_to_stake h n z s ≡ ok v s'
      → InOrder h.self s'.voters × (v.proxy ≡ proxy_of h.self s'.voters n)
  unfolding add_to_stake proxy_of
  add_to_stake-InOrder n z s s' v o e = elim (Option-cases (find h.self n s.voters)) [
    | inl a ↦
        let w : VoterInfo = record (new_voter n) { staked = z } in
        let r : s'.voters ≡ add_row h.self n n w s.voters = ground arith in
        (
          subst (InOrder h.self) (sym r) (new_row-InOrder n w s.voters a refl refl o),
          rw r (ground (arith, find-add_row h.self n n h.self n w s.voters a)),
        )
    | inr (x, a) ↦
        let w : VoterInfo = record x { staked = x.staked +64 z } in
        let r : s'.voters ≡ set_row h.self n 0 w s.voters = ground arith in
        (
          subst (InOrder h.self) (sym r) (set_row-InOrder h.self n x w s.voters a refl refl refl o),
          rw r (ground (arith, find-set_row h.self n 0 h.self n w x s.voters a)),
        )
  ]

  pub voting_power-Keeps : (n : ℕ) (z : ℤ) → Keeps (VotersOk h) (update_voting_power h n z)
  unfolding update_voting_power validate_b1_vesting VotersOk
  voting_power-Keeps n z = record {
    kept = λ s s' u c e.
        let (v, s₁, e₁, f₁) = >>=-ok (add_to_stake h n z) _ s e in
        let (o, q) = add_to_stake-InOrder n z s s₁ v c e₁ in
        elim (Result-cases (update_votes h n v.proxy v.producers false s₁)) [
          | inr (m, x) ↦ ground arith
          | inl (u', s₂, x) ↦
              let o₂ = update_votes-InOrder h n v.proxy v.producers false s₁ s₂ u' o (inr q) x in
              elim (Bool-cases (not (length v.producers == 0) || not (v.proxy == 0))) [
                | inl b ↦
                    let r : s' ≡ s₂ = ground arith in
                    subst (λ t. InOrder h.self t.voters) (sym r) o₂
                | inr b ↦
                    let r : s' ≡ s₁ = ground arith in subst (λ t. InOrder h.self t.voters) (sym r) o
              ]
        ];
  }
