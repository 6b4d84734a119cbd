-- ===== src/System/Voting/Ballots.antt =====
-- contracts/eosio.system/src/voting.cpp: what a vote adds to and takes from each producer.
use cmcc_eosio_contracts.Common.{
  ℕ, ◌<◌, ◌≤◌, ◌≡◌, ◌≢◌, Bool, true, false, some, none, inl, inr, arith, refl, sym, ap, subst, ◌∙◌,
  ◌&&◌, not, Bool-cases, List, [], ◌∷◌, ◌==◌, ltb, leb, length, All, if◌then◌else◌,
}
use cmcc_eosio_contracts.Chain.Action.{ok, >>=-ok, when}
use cmcc_eosio_contracts.System.Float.{Double, zero_double}
use cmcc_eosio_contracts.System.Tables.{System}
use cmcc_eosio_contracts.System.Voting.Deltas.{Delta, change_each}
use cmcc_eosio_contracts.System.Voting.Votes.{
  check_sorted, validate_vote, take_back, give_new, vote_deltas, leave_proxy, join_proxy,
}
use cmcc_eosio_contracts.System.State.{VoterInfo}
use cmcc_eosio_contracts.System.Host.{SystemHost}
use cmcc_eosio_contracts.System.Voting.Lookups.{
  Increasing, member, Sorted, lookup, ballot, lookup-ballot, Increasing-if, member-if,
}

module _ (h : SystemHost) (voter : VoterInfo) where
  -- The vote of before was for producers, and it counts.
  abbrev pub voted_before : Bool
  voted_before = h.floats.lt zero_double voter.last_vote_weight && voter.proxy == 0

  take_back_deltas :
      (ds : List Delta) (s s' : System)
      → take_back h voter s ≡ ok ds s'
      → ds
        ≡ change_each
            (if voted_before then voter.producers else [])
            (λ d. h.floats.sub d voter.last_vote_weight)
            false
            []
  unfolding take_back change_each
  take_back_deltas ds s s' e =
      let (u, s1, e1, f1) =
        >>=-ok
          (when (h.floats.lt zero_double voter.last_vote_weight && not (voter.proxy == 0))
            (leave_proxy h voter.proxy voter.last_vote_weight))
          _ s e in
      elim (Bool-cases voted_before) [ inl a ↦ ground arith | inr a ↦ ground arith ]

  module _ (proxy : ℕ) (producers : List ℕ) (weight : Double) (voting : Bool) where
    abbrev pub votes_now : Bool
    votes_now = proxy == 0 && h.floats.le zero_double weight

    give_new_deltas :
        (old ds : List Delta) (s s' : System)
        → give_new h proxy producers weight voting old s ≡ ok ds s'
        → ds
          ≡ change_each (if votes_now then producers else []) (λ d. h.floats.add d weight) true old
    unfolding give_new change_each
    give_new_deltas old ds s s' e =
        let (u, s1, e1, f1) =
          >>=-ok (when (not (proxy == 0)) (join_proxy h proxy weight voting)) _ s e in
        elim (Bool-cases votes_now) [ inl a ↦ ground arith | inr a ↦ ground arith ]

    -- If the producers of the old vote and of the new one stand in increasing order, and the changes of a
    -- vote are made out, then they are sorted by producer, and each producer has what a direct reading of
    -- the two votes gives: the old weight is taken from it if the old vote counts and was for it and not
    -- for a proxy, the new weight is given to it if that is not negative and the new vote is for it and
    -- not for a proxy, it is new just if it is given to, and it has no change if neither is so.
    pub ballot_lem :
        (ds : List Delta) (q : ℕ) (s s' : System)
        → Increasing voter.producers
        → Increasing producers
        → vote_deltas h voter proxy producers weight voting s ≡ ok ds s'
        → let leaves = voted_before && member q voter.producers in
          let joins = votes_now && member q producers in
          let taken =
            if leaves then h.floats.sub zero_double voter.last_vote_weight else zero_double in
          Sorted ds
          × (lookup q ds ≡ (
              if joins
              then some (h.floats.add taken weight, true)
              else (if leaves
                  then some (h.floats.sub zero_double voter.last_vote_weight, false)
                  else none)))
    unfolding vote_deltas
    ballot_lem ds q s s' i j e =
        let (old, s1, e1, f1) = >>=-ok (take_back h voter) _ s e in
        let a = take_back_deltas old s s1 e1 in
        let b = give_new_deltas old ds s1 s' f1 in
        let take = λ (d : Double). h.floats.sub d voter.last_vote_weight in
        let give = λ (d : Double). h.floats.add d weight in
        let first = if voted_before then voter.producers else [] in
        let second = if votes_now then producers else [] in
        let both : ds ≡ ballot take give first second =
          b ∙ ap (λ l. change_each second give true l) a in
        let l =
          lookup-ballot take give first second q (Increasing-if voted_before voter.producers i)
            (Increasing-if votes_now producers j) in
        (
          subst Sorted (sym both) l.0,
          ap (lookup q) both
              ∙ (l.1
                  ∙ rw (member-if q voted_before voter.producers, member-if q votes_now producers)
                      refl),
        )

All-widen : (p q : ℕ) (ps : List ℕ) → p < q → All (λ r. q < r) ps → All (λ r. p < r) ps
All-widen p q [] l a = tt
All-widen p q (r ∷ ps) l a = (omega (arith, a.0), All-widen p q ps l a.1)

check_sorted-Increasing :
    (ps : List ℕ) (s s' : System) (u : Unit) → check_sorted ps s ≡ ok u s' → Increasing ps
unfolding check_sorted
check_sorted-Increasing [] s s' u e = tt
check_sorted-Increasing (p ∷ []) s s' u e = (tt, tt)
check_sorted-Increasing (p ∷ q ∷ ps) s s' u e = elim (Bool-cases (ltb p q)) [
  | inr a ↦ ground arith
  | inl a ↦
      let rest = check_sorted-Increasing (q ∷ ps) s s' u (ground arith) in
      let l : p < q = ground arith in ((l, All-widen p q ps l rest.0), rest)
]

-- A vote is for at most 30 producers in increasing order, or for a proxy.
abbrev pub Ballot : ℕ → List ℕ → Type 0
Ballot proxy producers =
    (proxy ≡ 0 → (length producers ≤ 30) × Increasing producers) × (proxy ≢ 0 → producers ≡ [])

no_items : (ps : List ℕ) → length ps ≡ 0 → ps ≡ []
no_items [] e = refl
no_items (p ∷ ps) e = ground arith

pub validate_vote-Ballot :
    (n q : ℕ) (ps : List ℕ) (s s' : System) (u : Unit)
    → validate_vote n q ps s ≡ ok u s'
    → Ballot q ps
unfolding validate_vote
validate_vote-Ballot n q ps s s' u e = elim (Bool-cases (q == 0)) [
  | inr a ↦ (ground arith, λ z. no_items ps (ground arith))
  | inl a ↦ elim (Bool-cases (leb (length ps) 30)) [
    | inr b ↦ ground arith
    | inl b ↦
        (λ z. (ground arith, check_sorted-Increasing ps s s' u (ground arith)), λ z. ground arith)
  ]
]
