-- ===== src/System/Calls.antt =====
-- contracts/eosio.system: any history of votes, stakes and blocks keeps the rows of the voters in order.
use cmcc_eosio_contracts.Common.{ℕ, All, ◌≡◌, Bool, subst, sym, List, [], ◌∷◌, String, inl, inr}
use cmcc_eosio_contracts.Chain.Asset.{Asset}
use cmcc_eosio_contracts.Chain.Action.{Action, ok, err, ⊤, Result-cases}
use cmcc_eosio_contracts.Chain.Keeps.{Keeps}
use cmcc_eosio_contracts.System.State.{ProducerInfo}
use cmcc_eosio_contracts.System.Tables.{System}
use cmcc_eosio_contracts.System.Host.{SystemHost}
use cmcc_eosio_contracts.System.Keeping.{step_laws}
use cmcc_eosio_contracts.System.Voting.Proxies.{regproxy}
use cmcc_eosio_contracts.System.Voting.Actions.{voteproducer, add_shares, regproducer, unregprod}
use cmcc_eosio_contracts.System.Voting.Order.{InOrder, VotersOk, voters_steps}
use cmcc_eosio_contracts.System.Voting.Steps.{total-Keeps}
use cmcc_eosio_contracts.System.Voting.Voters.{
  voteproducer-Keeps, regproxy-Keeps, voting_power-Keeps, update_rex_stake-Keeps,
}
use cmcc_eosio_contracts.System.Staking.Refunds.{refund}
use cmcc_eosio_contracts.System.Staking.Actions.{delegatebw, undelegatebw}
use cmcc_eosio_contracts.System.Staking.Quiet.{
  IgnoresStakes, quiet_delegatebw, quiet_undelegatebw, quiet_refund,
}
use cmcc_eosio_contracts.System.Pay.Blocks.{onblock}
use cmcc_eosio_contracts.System.Pay.Claims.{claimrewards}
use cmcc_eosio_contracts.System.Pay.Voters.{onblock-Keeps, claimrewards-Keeps}

-- A call of an action.
pub data VoterCall : Type 0 where
  call_voteproducer : ℕ → ℕ → List ℕ → VoterCall
  call_regproxy : ℕ → Bool → VoterCall
  call_regproducer : ℕ → List ℕ → String → ℕ → VoterCall
  call_unregprod : ℕ → VoterCall
  call_delegatebw : ℕ → ℕ → Asset → Asset → Bool → VoterCall
  call_undelegatebw : ℕ → ℕ → Asset → Asset → VoterCall
  call_refund : ℕ → VoterCall
  call_onblock : ℕ → ℕ → VoterCall
  call_claimrewards : ℕ → VoterCall

unfoldable pub voter_dispatch : SystemHost → VoterCall → Action System ⊤
voter_dispatch h (call_voteproducer voter proxy producers) = voteproducer h voter proxy producers
voter_dispatch h (call_regproxy proxy isproxy) = regproxy h proxy isproxy
voter_dispatch h (call_regproducer producer key url location) =
    regproducer h producer key url location
voter_dispatch h (call_unregprod producer) = unregprod h producer
voter_dispatch h (call_delegatebw from receiver net cpu transfer) =
    delegatebw h from receiver net cpu transfer
voter_dispatch h (call_undelegatebw from receiver net cpu) = undelegatebw h from receiver net cpu
voter_dispatch h (call_refund owner) = refund h owner
voter_dispatch h (call_onblock timestamp producer) = onblock h timestamp producer
voter_dispatch h (call_claimrewards owner) = claimrewards h owner

-- A history: each call with the chain that it runs on. A call that aborts changes nothing.
unfoldable pub voter_history : List (SystemHost × VoterCall) → System → System
voter_history [] s = s
voter_history (x ∷ xs) s = elim (voter_dispatch x.0 x.1 s) [
  | ok u s' ↦ voter_history xs s'
  | err e ↦ voter_history xs s
]

module _ (h : SystemHost) where
  stakes_ignored : IgnoresStakes h (VotersOk h)
  unfolding VotersOk
  stakes_ignored = record {
    put_delband = λ x s p. p;
    put_userres = λ x s p. p;
    put_refunds = λ x s p. p;
    put_limits = λ x s p. p;
    put_events = λ x s p. p;
    rex_stake = update_rex_stake-Keeps h;
    power = voting_power-Keeps h;
  }

  add_shares-Keeps : (n : ℕ) (p : ProducerInfo) → Keeps (VotersOk h) (add_shares h n p)
  unfolding add_shares VotersOk
  add_shares-Keeps n p = search (step_laws, total-Keeps h (voters_steps h)) depth 40 fits 4000

  regproducer-Keeps :
      (n : ℕ) (k : List ℕ) (url : String) (l : ℕ) → Keeps (VotersOk h) (regproducer h n k url l)
  unfolding regproducer VotersOk
  regproducer-Keeps n k url l = search (step_laws, add_shares-Keeps) depth 40 fits 4000

  unregprod-Keeps : (n : ℕ) → Keeps (VotersOk h) (unregprod h n)
  unfolding unregprod VotersOk
  unregprod-Keeps n = search step_laws depth 40 fits 4000

  voter_dispatch-Keeps : (call : VoterCall) → Keeps (VotersOk h) (voter_dispatch h call)
  unfolding voter_dispatch
  voter_dispatch-Keeps (call_voteproducer voter proxy producers) =
      voteproducer-Keeps h voter proxy producers
  voter_dispatch-Keeps (call_regproxy proxy isproxy) = regproxy-Keeps h proxy isproxy
  voter_dispatch-Keeps (call_regproducer producer key url location) =
      regproducer-Keeps producer key url location
  voter_dispatch-Keeps (call_unregprod producer) = unregprod-Keeps producer
  voter_dispatch-Keeps (call_delegatebw from receiver net cpu transfer) =
      quiet_delegatebw h stakes_ignored from receiver net cpu transfer
  voter_dispatch-Keeps (call_undelegatebw from receiver net cpu) =
      quiet_undelegatebw h stakes_ignored from receiver net cpu
  voter_dispatch-Keeps (call_refund owner) = quiet_refund h stakes_ignored owner
  voter_dispatch-Keeps (call_onblock timestamp producer) = onblock-Keeps h timestamp producer
  voter_dispatch-Keeps (call_claimrewards owner) = claimrewards-Keeps h owner

  pub voter_dispatch-InOrder :
      (call : VoterCall) (s s' : System) (u : Unit)
      → InOrder h.self s.voters
      → voter_dispatch h call s ≡ ok u s'
      → InOrder h.self s'.voters
  unfolding VotersOk
  voter_dispatch-InOrder call s s' u o e = (voter_dispatch-Keeps call).kept s s' u o e

-- If the contract is one account throughout, no voter is its own proxy through any chain of proxies, no
-- proxy uses a proxy, and every row has a ballot that a vote allows, then this is so after any history
-- of votes, registrations, stakes, refunds, blocks and claims.
pub voter_history-InOrder :
    (self : ℕ) (calls : List (SystemHost × VoterCall)) (s : System)
    → All (λ x. x.0.self ≡ self) calls
    → InOrder self s.voters
    → InOrder self (voter_history calls s).voters
unfolding voter_history
voter_history-InOrder self [] s w o = o
voter_history-InOrder self (x ∷ xs) s w o = elim (Result-cases (voter_dispatch x.0 x.1 s)) [
  | inl (u, s1, e) ↦
      let o1 =
        voter_dispatch-InOrder x.0 x.1 s s1 u (subst (λ n. InOrder n s.voters) (sym w.0) o) e in
      rw (e, voter_history)
        (voter_history-InOrder self xs s1 w.1 (subst (λ n. InOrder n s1.voters) w.0 o1))
  | inr (y, e) ↦ rw (e, voter_history) (voter_history-InOrder self xs s w.1 o)
]
