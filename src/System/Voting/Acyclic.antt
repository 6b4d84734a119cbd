-- ===== src/System/Voting/Acyclic.antt =====
-- contracts/eosio.system/src/voting.cpp: a vote and a registration as a proxy form no cycle of proxies.
use cmcc_eosio_contracts.Common.{
  ℕ, ◌≡◌, ◌≢◌, ◌⊎◌, ◌∙◌, Bool, true, some, inl, inr, arith, refl, sym, Option-cases, Bool-cases,
  List, ◌==◌, subst,
}
use cmcc_eosio_contracts.Chain.Table.{Table, find, set_row}
use cmcc_eosio_contracts.Chain.Action.{ok, >>=-ok, Result-cases}
use cmcc_eosio_contracts.System.Float.{Double}
use cmcc_eosio_contracts.System.State.{VoterInfo}
use cmcc_eosio_contracts.System.Tables.{System}
use cmcc_eosio_contracts.System.Host.{SystemHost}
use cmcc_eosio_contracts.System.Voting.Proxies.{weight_of}
use cmcc_eosio_contracts.System.Voting.Votes.{validate_vote, tally, write_vote, update_votes}
use cmcc_eosio_contracts.System.Voting.Same.{Linked, same_links, same_as_itself}
use cmcc_eosio_contracts.System.Voting.Steps.{tally-Keeps}
use cmcc_eosio_contracts.System.Voting.Rules.{tally-flag, validate_vote-other}
use cmcc_eosio_contracts.System.Voting.Links.{
  proxy_of, is_proxy_of, Ranked, SameLinks, same-Ranked, set_row-Ranked, below, below-Ranked,
}

-- The proxies of the voters form no cycle, and a proxy uses no proxy.
abbrev pub Acyclic : ℕ → Table VoterInfo → Type 0
Acyclic self t = (rank : ℕ → ℕ) × Ranked self rank t

module _ (h : SystemHost) where
  vote_row :
      (n q : ℕ) (ps : List ℕ) (w : Double) (s s' : System)
      → write_vote h n q ps w s ≡ ok tt s'
      → (v : VoterInfo) × (find h.self n s.voters ≡ some v)
        × (s'.voters
            ≡ set_row h.self n 0
                (record v { last_vote_weight = w; producers = ps; proxy = q })
                s.voters)
  unfolding write_vote
  vote_row n q ps w s s' e = elim (Option-cases (find h.self n s.voters)) [
    | inl a ↦ ground arith
    | inr (v, a) ↦ (v, a, ground arith)
  ]

  -- The voter's row takes a proxy that is its old one, or that uses no proxy itself.
  link :
      (rank : ℕ → ℕ) (n q : ℕ) (v w : VoterInfo) (t : Table VoterInfo)
      → find h.self n t ≡ some v
      → w.proxy ≡ q
      → w.is_proxy ≡ v.is_proxy
      → (q ≢ 0 → q ≢ n)
      → (v.is_proxy ≡ true → q ≡ 0)
      → (is_proxy_of h.self t q ≡ true) ⊎ (q ≡ 0) ⊎ (q ≡ proxy_of h.self t n)
      → Ranked h.self rank t
      → Acyclic h.self (set_row h.self n 0 w t)
  link rank n q v w t f a b d c (inl root) r =
      let r' = below-Ranked h.self rank q t (r.free q root) r in
      (
        below q rank,
        set_row-Ranked h.self (below q rank) n 0 v w t f (ground arith) (ground arith) r',
      )
  link rank n q v w t f a b d c (inr (inl z)) r =
      (rank, set_row-Ranked h.self rank n 0 v w t f (ground arith) (ground arith) r)
  link rank n q v w t f a b d c (inr (inr z)) r =
      (rank, set_row-Ranked h.self rank n 0 v w t f (ground arith) (ground (arith, r.falls n)) r)

  -- What a vote comes to, once it is known to be in order.
  counted :
      (rank : ℕ → ℕ) (n q : ℕ) (ps : List ℕ) (b : Bool) (v : VoterInfo) (share : Double)
      (s s₁ s' : System)
      → Ranked h.self rank s.voters
      → (b ≡ true) ⊎ (q ≡ proxy_of h.self s.voters n)
      → (q ≢ 0 → q ≢ n)
      → find h.self n s.voters ≡ some v
      → (v.is_proxy ≡ true → q ≡ 0)
      → tally h v q ps b s ≡ ok share s₁
      → write_vote h n q ps (weight_of h v) s₁ ≡ ok tt s'
      → Acyclic h.self s'.voters
  unfolding Linked is_proxy_of
  counted rank n q ps b v share s s₁ s' r c d f z t e =
      let l0 = same_as_itself h s.voters in
      let l = (tally-Keeps h (same_links h s.voters) v q ps b).kept s s₁ share l0 t in
      let (v₁, f₁, w) = vote_row n q ps (weight_of h v) s₁ s' e in
      let r₁ = same-Ranked h.self rank s.voters s₁.voters l r in
      let same : v₁.is_proxy ≡ v.is_proxy = ground (arith, l.same_flag n) in
      subst (Acyclic h.self) (sym w)
        (link rank n q v₁ _ s₁.voters f₁ refl refl d (λ x. z (sym same ∙ x)) (root l) r₁)
    where
      root :
          SameLinks h.self s.voters s₁.voters
          → (is_proxy_of h.self s₁.voters q ≡ true) ⊎ (q ≡ 0) ⊎ (q ≡ proxy_of h.self s₁.voters n)
      root l = elim (Bool-cases (q == 0)) [
        | inl a ↦ inr (inl (ground arith))
        | inr a ↦ elim c [
          | inr p ↦ inr (inr (p ∙ sym (l.same_proxy n)))
          | inl p ↦
              let t' = subst (λ x. tally h v q ps x s ≡ ok share s₁) p t in
              inl (l.same_flag q ∙ tally-flag h v q ps share s s₁ (ground arith) t')
        ]
      ]

  pub update_votes-Acyclic :
      (n q : ℕ) (ps : List ℕ) (b : Bool) (s s' : System) (u : Unit)
      → Acyclic h.self s.voters
      → (b ≡ true) ⊎ (q ≡ proxy_of h.self s.voters n)
      → update_votes h n q ps b s ≡ ok u s'
      → Acyclic h.self s'.voters
  unfolding update_votes
  update_votes-Acyclic n q ps b s s' u (rank, r) c e =
      let (u0, s0, e0, f0) = >>=-ok (validate_vote n q ps) _ s e in
      let (same, other) = validate_vote-other n q ps s s0 u0 e0 in
      elim (Option-cases (find h.self n s.voters)) [
        | inl a ↦ ground arith
        | inr (v, a) ↦ elim (Result-cases (tally h v q ps b s)) [
          | inr (m, t) ↦ ground arith
          | inl (share, s₁, t) ↦
              counted rank n q ps b v share s s₁ s' r c other a (ground arith) t (ground arith)
        ]
      ]
