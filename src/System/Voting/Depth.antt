-- ===== src/System/Voting/Depth.antt =====
-- contracts/eosio.system/src/voting.cpp: the depth of the calls that pass on a change of a weight.
use Prim.Native.String.{len}
use cmcc_eosio_contracts.Common.{
  ℕ, zero, suc, ◌<◌, ◌≤◌, ◌≡◌, ◌≢◌, ◌∙◌, Bool, not, ◌&&◌, some, inl, inr, arith, sym, ap, subst,
  ◌||◌, Option-cases, Bool-cases, List, [], ◌∷◌, ◌==◌,
}
use cmcc_eosio_contracts.Chain.Table.{Table, find}
use cmcc_eosio_contracts.Chain.Action.{err, when, ◌>>◌, Result-cases}
use cmcc_eosio_contracts.Chain.Keeps.{Keeps}
use cmcc_eosio_contracts.Chain.Avoids.{Avoids, avoid_laws}
use cmcc_eosio_contracts.System.Float.{Double}
use cmcc_eosio_contracts.System.State.{VoterInfo, ProducerInfo}
use cmcc_eosio_contracts.System.Tables.{System}
use cmcc_eosio_contracts.System.Host.{SystemHost, at_end}
use cmcc_eosio_contracts.System.Voting.Shares.{
  Accrual, update_total_votepay_share, update_producer_votepay_share, accrue_row, accrue, settle,
}
use cmcc_eosio_contracts.System.Voting.Proxies.{
  change_proxied, change_total_votes, add_vote_weight, change_votes, change_producers, write_weight,
  propagate_weight_change, too_deep, proxy_conflict, give_to_proxy, is_change, weight_of,
}
use cmcc_eosio_contracts.System.Keeping.{step_laws}
use cmcc_eosio_contracts.System.Voting.Same.{Linked, change_proxied-Keeps, same_as_itself}
use cmcc_eosio_contracts.System.Voting.Acyclic.{Acyclic}
use cmcc_eosio_contracts.System.Voting.Links.{proxy_of, Ranked, SameLinks}

other_message : "producer not found" ≢ too_deep
other_message e = omega (arith, ap len e)

end_message : at_end ≢ too_deep
end_message e = omega (arith, ap len e)

no_proxy_message : "proxy not found" ≢ too_deep
no_proxy_message e = omega (arith, ap len e)

conflict_message : proxy_conflict ≢ too_deep
conflict_message e = omega (arith, ap len e)

module _ (h : SystemHost) where
  settle-Avoids : (acc : Accrual) → Avoids too_deep (settle h acc)
  unfolding settle update_total_votepay_share
  settle-Avoids acc = search avoid_laws depth 30 fits 4000

  accrue-Avoids :
      (n : ℕ) (prod : ProducerInfo) (d : Double) (acc : Accrual)
      → Avoids too_deep (accrue h n prod d acc)
  unfolding accrue accrue_row update_producer_votepay_share
  accrue-Avoids n prod d acc = search avoid_laws depth 30 fits 4000

  change_total_votes-Avoids :
      (n : ℕ) (f : Double → Double) → Avoids too_deep (change_total_votes h n f)
  unfolding change_total_votes
  change_total_votes-Avoids n f = search (avoid_laws, end_message)

  change_votes-Avoids :
      (ps : List ℕ) (d : Double) (acc : Accrual) → Avoids too_deep (change_votes h ps d acc)
  unfolding change_votes add_vote_weight
  change_votes-Avoids [] d acc = search avoid_laws
  change_votes-Avoids (p ∷ ps) d acc =
      search
        (
          avoid_laws,
          accrue-Avoids,
          change_total_votes-Avoids,
          change_votes-Avoids ps,
          other_message,
        )
        depth 30 fits 4000

  change_producers-Avoids : (ps : List ℕ) (d : Double) → Avoids too_deep (change_producers h ps d)
  unfolding change_producers
  change_producers-Avoids ps d =
      search (avoid_laws, change_votes-Avoids, settle-Avoids) depth 30 fits 4000

  write_weight-Avoids : (n : ℕ) (w : Double) → Avoids too_deep (write_weight h n w)
  unfolding write_weight
  write_weight-Avoids n w = search (avoid_laws, end_message)

  change_proxied-Avoids : (n : ℕ) (f : Double → Double) → Avoids too_deep (change_proxied h n f)
  unfolding change_proxied
  change_proxied-Avoids n f = search (avoid_laws, end_message)

  give_to_proxy-Avoids : (q : ℕ) (d : Double) → Avoids too_deep (give_to_proxy h q d)
  give_to_proxy-Avoids q d = search (avoid_laws, change_proxied-Avoids, no_proxy_message) depth 30

  give_to_proxy-Keeps :
      (t₀ : Table VoterInfo) (q : ℕ) (d : Double) → Keeps (Linked h t₀) (give_to_proxy h q d)
  give_to_proxy-Keeps t₀ q d = search (step_laws, change_proxied-Keeps) depth 30

  rest-Avoids :
      (n : ℕ) (ps : List ℕ) (b : Bool) (d w : Double)
      → Avoids too_deep (when b (change_producers h ps d) >> write_weight h n w)
  rest-Avoids n ps b d w =
      search (avoid_laws, change_producers-Avoids, write_weight-Avoids) depth 30

  -- The rank falls at the next voter, so a depth that is above the rank is enough for it too.
  next_fits :
      (rank : ℕ → ℕ) (t₀ : Table VoterInfo) (depth n : ℕ) (v : VoterInfo) (s : System)
      → Ranked h.self rank t₀
      → SameLinks h.self t₀ s.voters
      → rank n < suc depth
      → find h.self n s.voters ≡ some v
      → v.proxy ≢ 0
      → rank v.proxy < depth
  unfolding proxy_of
  next_fits rank t₀ depth n v s r l f e z =
      let w : proxy_of h.self t₀ n ≡ v.proxy = ground (arith, l.same_proxy n) in
      let k = r.falls n (λ x. z (sym w ∙ x)) in
      let k' : rank v.proxy < rank n = subst (λ x. rank x < rank n) w k in omega arith

  ends_within :
      (rank : ℕ → ℕ) (t₀ : Table VoterInfo) (depth n : ℕ) (s : System)
      → Ranked h.self rank t₀
      → SameLinks h.self t₀ s.voters
      → rank n < depth
      → propagate_weight_change h depth n s ≢ err too_deep
  unfolding propagate_weight_change Linked
  ends_within rank t₀ zero n s r l f x = omega arith
  ends_within rank t₀ (suc depth) n s r l f x = elim (Option-cases (find h.self n s.voters)) [
    | inl e ↦ end_message (ground arith)
    | inr (v, e) ↦ elim (Bool-cases (v.proxy == 0 || not v.is_proxy)) [
      | inr c ↦ conflict_message (ground arith)
      | inl c ↦
          let delta = h.floats.sub (weight_of h v) v.last_vote_weight in
          let rest =
            rest-Avoids n v.producers (is_change h delta && v.proxy == 0) delta (weight_of h v) in
          elim (Bool-cases (is_change h delta && not (v.proxy == 0))) [
            | inr b ↦ rest.avoided s (ground arith)
            | inl b ↦ elim (Result-cases (give_to_proxy h v.proxy delta s)) [
              | inr (m, g) ↦ (give_to_proxy-Avoids v.proxy delta).avoided s (ground arith)
              | inl (u, s₁, g) ↦
                  let l₁ = (give_to_proxy-Keeps t₀ v.proxy delta).kept s s₁ u l g in
                  let fits = next_fits rank t₀ depth n v s r l f e (ground arith) in
                  elim (Result-cases (propagate_weight_change h depth v.proxy s₁)) [
                    | inl (u', s₂, p) ↦ rest.avoided s₂ (ground arith)
                    | inr (m, p) ↦ ends_within rank t₀ depth v.proxy s₁ r l₁ fits (ground arith)
                  ]
            ]
          ]
    ]
  ]

  -- If the proxies form no cycle, then there is a depth of calls from which on passing on a change of
  -- a voter's weight does not run out of it.
  pub propagate_ends :
      (n : ℕ) (s : System)
      → Acyclic h.self s.voters
      → (enough : ℕ) × ((depth : ℕ)
          → enough ≤ depth
          → propagate_weight_change h depth n s ≢ err too_deep)
  propagate_ends n s (rank, r) = (
    suc (rank n),
    λ depth b. ends_within rank s.voters depth n s r (same_as_itself h s.voters) (omega arith),
  )
