-- ===== src/System/Voting/Order.antt =====
-- contracts/eosio.system: the rows of the voters stay in order: no cycle of proxies, and valid votes.
use cmcc_eosio_contracts.Common.{ℕ, ◌≡◌, ◌⊎◌, Bool, true, some, refl, sym, subst₂, List}
use cmcc_eosio_contracts.Chain.Table.{
  Table, find, set_row, EveryRow, set_row-EveryRow, find-EveryRow,
}
use cmcc_eosio_contracts.Chain.Action.{ok, >>=-ok}
use cmcc_eosio_contracts.Chain.Keeps.{Keeps}
use cmcc_eosio_contracts.System.Float.{Double}
use cmcc_eosio_contracts.System.State.{VoterInfo}
use cmcc_eosio_contracts.System.Tables.{System, voters_table}
use cmcc_eosio_contracts.System.Host.{SystemHost, at_end}
use cmcc_eosio_contracts.System.Keeping.{rewrite_row-Keeps, step_laws}
use cmcc_eosio_contracts.System.Voting.Proxies.{
  change_proxied, write_weight, change_total_votes, add_vote_weight,
}
use cmcc_eosio_contracts.System.Voting.Votes.{
  activate_stake, validate_vote, write_vote, update_votes,
}
use cmcc_eosio_contracts.System.Voting.Steps.{VotingSteps, update_votes-Keeps}
use cmcc_eosio_contracts.System.Voting.Links.{proxy_of, SameLinks, same-Ranked, set_row-SameLinks}
use cmcc_eosio_contracts.System.Voting.Acyclic.{Acyclic, update_votes-Acyclic}
use cmcc_eosio_contracts.System.Voting.Ballots.{Ballot, validate_vote-Ballot}

abbrev pub Valid : ℕ → ℕ → VoterInfo → Type 0
Valid s k v = Ballot v.proxy v.producers

pub record InOrder (self : ℕ) (t : Table VoterInfo) : Type 0 where
  pub acyclic : Acyclic self t
  pub ballots : EveryRow Valid t

module _ (self : ℕ) where
  -- A row that keeps its proxy, its flag and its producers.
  pub set_row-InOrder :
      (n : ℕ) (v w : VoterInfo) (t : Table VoterInfo)
      → find self n t ≡ some v
      → w.proxy ≡ v.proxy
      → w.is_proxy ≡ v.is_proxy
      → w.producers ≡ v.producers
      → InOrder self t
      → InOrder self (set_row self n 0 w t)
  set_row-InOrder n v w t f a b c o =
      let (rank, r) = o.acyclic in
      let itself : SameLinks self t t = record { same_proxy = λ n. refl; same_flag = λ n. refl } in
      let l = set_row-SameLinks self n v w t t f a b itself in
      let valid = find-EveryRow Valid self n v t o.ballots f in
      record {
        acyclic = (rank, same-Ranked self rank t (set_row self n 0 w t) l r);
        ballots =
            set_row-EveryRow Valid self n 0 w t o.ballots
              (subst₂ (λ x y. Ballot x y) (sym a) (sym c) valid);
      }

module _ (h : SystemHost) where
  unfoldable Balloted : System → Type 0
  Balloted s = EveryRow Valid s.voters

  ballot_steps : VotingSteps h Balloted
  unfolding Balloted change_proxied write_weight change_total_votes add_vote_weight activate_stake
  ballot_steps = record {
    proxied = λ n f. rewrite_row-Keeps voters_table h.self n 0 at_end _ (λ s v e c.
        set_row-EveryRow Valid h.self n 0 _ s.voters c
          (find-EveryRow Valid h.self n v s.voters c e));
    weight = λ n w. rewrite_row-Keeps voters_table h.self n 0 at_end _ (λ s v e c.
        set_row-EveryRow Valid h.self n 0 _ s.voters c
          (find-EveryRow Valid h.self n v s.voters c e));
    votes = λ n f. search step_laws depth 30;
    vote_weight = λ d. search step_laws depth 30;
    activated = λ v. search step_laws depth 30;
    put_shares = λ x s p. p;
    put_gstate2 = λ g s p. p;
    put_gstate3 = λ g s p. p;
  }

  write_vote-Balloted :
      (n q : ℕ) (ps : List ℕ) (w : Double) → Ballot q ps → Keeps Balloted (write_vote h n q ps w)
  unfolding Balloted write_vote
  write_vote-Balloted n q ps w b =
      rewrite_row-Keeps voters_table h.self n 0 at_end _
        (λ s v e c. set_row-EveryRow Valid h.self n 0 _ s.voters c b)

  update_votes-ballots :
      (n q : ℕ) (ps : List ℕ) (b : Bool) (s s' : System) (u : Unit)
      → EveryRow Valid s.voters
      → update_votes h n q ps b s ≡ ok u s'
      → EveryRow Valid s'.voters
  unfolding update_votes Balloted
  update_votes-ballots n q ps b s s' u c e =
      let (u0, s0, e0, f0) = >>=-ok (validate_vote n q ps) _ s e in
      let valid = validate_vote-Ballot n q ps s s0 u0 e0 in
      let k =
        update_votes-Keeps h ballot_steps n q ps b (λ w. write_vote-Balloted n q ps w valid) in
      k.kept s s' u c e

  pub update_votes-InOrder :
      (n q : ℕ) (ps : List ℕ) (b : Bool) (s s' : System) (u : Unit)
      → InOrder h.self s.voters
      → (b ≡ true) ⊎ (q ≡ proxy_of h.self s.voters n)
      → update_votes h n q ps b s ≡ ok u s'
      → InOrder h.self s'.voters
  update_votes-InOrder n q ps b s s' u o c e = record {
    acyclic = update_votes-Acyclic h n q ps b s s' u o.acyclic c e;
    ballots = update_votes-ballots n q ps b s s' u o.ballots e;
  }

  unfoldable pub VotersOk : System → Type 0
  VotersOk s = InOrder h.self s.voters

  pub voters_steps : VotingSteps h VotersOk
  unfolding VotersOk change_proxied write_weight change_total_votes add_vote_weight activate_stake
  voters_steps = record {
    proxied = λ n f.
        rewrite_row-Keeps voters_table h.self n 0 at_end _
          (λ s v e c. set_row-InOrder h.self n v _ s.voters e refl refl refl c);
    weight = λ n w.
        rewrite_row-Keeps voters_table h.self n 0 at_end _
          (λ s v e c. set_row-InOrder h.self n v _ s.voters e refl refl refl c);
    votes = λ n f. search step_laws depth 30;
    vote_weight = λ d. search step_laws depth 30;
    activated = λ v. search step_laws depth 30;
    put_shares = λ x s p. p;
    put_gstate2 = λ g s p. p;
    put_gstate3 = λ g s p. p;
  }
