-- ===== src/System/Voting/Rules.antt =====
-- contracts/eosio.system/src/voting.cpp: only a vote and a registration change the proxies, and both
-- keep them in order.
use cmcc_eosio_contracts.Common.{
  ℕ, ◌≡◌, ◌≢◌, true, inl, inr, arith, sym, ◌∙◌, Option-cases, Bool-cases, List, [], ◌∷◌, ◌==◌, ltb,
  leb, length,
}
use cmcc_eosio_contracts.Chain.Table.{find}
use cmcc_eosio_contracts.Chain.Action.{ok, >>=-ok}
use cmcc_eosio_contracts.System.Float.{Double}
use cmcc_eosio_contracts.System.State.{VoterInfo}
use cmcc_eosio_contracts.System.Tables.{System}
use cmcc_eosio_contracts.System.Host.{SystemHost}
use cmcc_eosio_contracts.System.Voting.Proxies.{weight_of}
use cmcc_eosio_contracts.System.Voting.Deltas.{Delta}
use cmcc_eosio_contracts.System.Voting.Votes.{
  validate_vote, check_sorted, activate_stake, take_back, give_new, vote_deltas, tally,
}
use cmcc_eosio_contracts.System.Voting.Steps.{take_back-Keeps}
use cmcc_eosio_contracts.System.Voting.Same.{Linked, same_links, same_as_itself}
use cmcc_eosio_contracts.System.Voting.Links.{is_proxy_of}

module _ (h : SystemHost) where
  give_new-flag :
      (q : ℕ) (ps : List ℕ) (w : Double) (ds ds' : List Delta) (s s' : System)
      → q ≢ 0
      → give_new h q ps w true ds s ≡ ok ds' s'
      → is_proxy_of h.self s.voters q ≡ true
  unfolding give_new is_proxy_of
  give_new-flag q ps w ds ds' s s' u e = elim (Option-cases (find h.self q s.voters)) [
    | inl a ↦ ground arith
    | inr (p, a) ↦ ground arith
  ]

  pub tally-flag :
      (v : VoterInfo) (q : ℕ) (ps : List ℕ) (share : Double) (s s' : System)
      → q ≢ 0
      → tally h v q ps true s ≡ ok share s'
      → is_proxy_of h.self s.voters q ≡ true
  unfolding tally vote_deltas Linked
  tally-flag v q ps share s s' u e =
      let (a1, s1, e1, f1) = >>=-ok (activate_stake h v) _ s e in
      let (ds, s3, e3, f3) = >>=-ok (vote_deltas h v q ps (weight_of h v) true) _ s1 f1 in
      let (a2, s2, e2, f2) = >>=-ok (take_back h v) _ s1 e3 in
      let l0 = same_as_itself h s.voters in
      let l1 = ((same_links h s.voters).activated v).kept s s1 a1 l0 e1 in
      let l2 = (take_back-Keeps h (same_links h s.voters) v).kept s1 s2 a2 l1 e2 in
      sym (l2.same_flag q) ∙ give_new-flag q ps (weight_of h v) a2 ds s2 s3 u f2

check_sorted-frame : (ps : List ℕ) (s s' : System) (u : Unit) → check_sorted ps s ≡ ok u s' → s' ≡ s
unfolding check_sorted
check_sorted-frame [] s s' u e = ground arith
check_sorted-frame (p ∷ []) s s' u e = ground arith
check_sorted-frame (p ∷ q ∷ ps) s s' u e = elim (Bool-cases (ltb p q)) [
  | inl a ↦ check_sorted-frame (q ∷ ps) s s' u (ground arith)
  | inr a ↦ ground arith
]

pub validate_vote-other :
    (n q : ℕ) (ps : List ℕ) (s s' : System) (u : Unit)
    → validate_vote n q ps s ≡ ok u s'
    → (s' ≡ s) × (q ≢ 0 → q ≢ n)
unfolding validate_vote
validate_vote-other n q ps s s' u e = elim (Bool-cases (q == 0)) [
  | inl a ↦ elim (Bool-cases (leb (length ps) 30)) [
    | inl b ↦ (check_sorted-frame ps s s' u (ground arith), ground arith)
    | inr b ↦ ground arith
  ]
  | inr a ↦ ground arith
]
