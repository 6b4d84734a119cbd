-- ===== src/System/Voting/Same.antt =====
-- contracts/eosio.system/src/voting.cpp: what happens to weights and votes leaves the proxies alone.
use cmcc_eosio_contracts.Common.{ℕ, refl}
use cmcc_eosio_contracts.Chain.Table.{Table}
use cmcc_eosio_contracts.Chain.Keeps.{Keeps}
use cmcc_eosio_contracts.System.Float.{Double}
use cmcc_eosio_contracts.System.State.{VoterInfo}
use cmcc_eosio_contracts.System.Tables.{System, voters_table}
use cmcc_eosio_contracts.System.Host.{SystemHost, at_end}
use cmcc_eosio_contracts.System.Keeping.{rewrite_row-Keeps, step_laws}
use cmcc_eosio_contracts.System.Voting.Proxies.{
  change_proxied, write_weight, change_total_votes, add_vote_weight,
}
use cmcc_eosio_contracts.System.Voting.Votes.{activate_stake}
use cmcc_eosio_contracts.System.Voting.Links.{SameLinks, set_row-SameLinks}
use cmcc_eosio_contracts.System.Voting.Steps.{VotingSteps}

module _ (h : SystemHost) (t₀ : Table VoterInfo) where
  unfoldable pub Linked : System → Type 0
  Linked s = SameLinks h.self t₀ s.voters

  pub change_proxied-Keeps : (n : ℕ) (f : Double → Double) → Keeps Linked (change_proxied h n f)
  unfolding change_proxied Linked
  change_proxied-Keeps n f =
      rewrite_row-Keeps voters_table h.self n 0 at_end _
        (λ s v e c. set_row-SameLinks h.self n v _ t₀ s.voters e refl refl c)

  write_weight-Keeps : (n : ℕ) (w : Double) → Keeps Linked (write_weight h n w)
  unfolding write_weight Linked
  write_weight-Keeps n w =
      rewrite_row-Keeps voters_table h.self n 0 at_end _
        (λ s v e c. set_row-SameLinks h.self n v _ t₀ s.voters e refl refl c)

  pub same_links : VotingSteps h Linked
  unfolding change_total_votes add_vote_weight activate_stake Linked
  same_links = record {
    proxied = change_proxied-Keeps;
    weight = write_weight-Keeps;
    votes = λ n f. search step_laws depth 30;
    vote_weight = λ d. search step_laws depth 30;
    activated = λ v. search step_laws depth 30;
    put_shares = λ x s p. p;
    put_gstate2 = λ g s p. p;
    put_gstate3 = λ g s p. p;
  }

  pub same_as_itself : SameLinks h.self t₀ t₀
  same_as_itself = record { same_proxy = λ n. refl; same_flag = λ n. refl }
