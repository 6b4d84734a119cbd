-- ===== src/Msig/Voiding.antt =====
-- contracts/eosio.msig/src/eosio.msig.cpp: an invalidation voids what its account has approved so far.
use cmcc_eosio_contracts.Common.{
  ℕ, ◌≡◌, ◌≢◌, ◌≤◌, refl, ap, some, List, [], ◌∷◌, arith, is_some, inl, inr, All, Option-cases,
  Bool-cases,
}
use cmcc_eosio_contracts.Common.Int.{pos, ◌≤ℤ◌}
use cmcc_eosio_contracts.Chain.Table.{
  Table, find, find-add_row, find-set_row, EveryRow, find-EveryRow,
}
use cmcc_eosio_contracts.Chain.Action.{PermissionLevel, ok}
use cmcc_eosio_contracts.Msig.{
  Packed, Msig, MsigHost, Proposal, Approval, ApprovalsInfo, OldApprovalsInfo, Invalidation,
}
use cmcc_eosio_contracts.Msig
use cmcc_eosio_contracts.Msig.Effects.{invalidate_approvals}
use cmcc_eosio_contracts.Msig.Exec.{exec_effect, Counted, counted, old_counted}

-- Approvals that were given at a time or before it.
abbrev pub Before : ℕ → List Approval → Type 0
Before time = All (λ p. p.time ≤ time)

voided :
    (self account time : ℕ) (invs : Table Invalidation) (i : Invalidation) (ps : List Approval)
    → find self account invs ≡ some i
    → time ≤ i.last_invalidation_time
    → Before time ps
    → All (λ l. l.actor ≢ account) (Msig.valid_approvals self invs ps)
unfolding Msig.valid_approvals
voided self account time invs i [] f le b = tt
voided self account time invs i (p ∷ ps) f le b =
    let rest = voided self account time invs i ps f le b.1 in
    elim (Bool-cases (Msig.still_valid (find self p.level.actor invs) p.time)) [
      | inl valid ↦ rw valid ((λ e. ground (arith, ap (λ n. find self n invs) e, b.0)), rest)
      | inr void ↦ rw void rest
    ]

old_voided :
    (self account : ℕ) (invs : Table Invalidation) (i : Invalidation) (ls : List PermissionLevel)
    → find self account invs ≡ some i
    → All (λ l. l.actor ≢ account) (Msig.valid_old_approvals self invs ls)
unfolding Msig.valid_old_approvals
old_voided self account invs i [] f = tt
old_voided self account invs i (l ∷ ls) f =
    let rest = old_voided self account invs i ls f in
    elim (Bool-cases (is_some (find self l.actor invs))) [
      | inl hit ↦ rw hit rest
      | inr miss ↦ rw miss ((λ e. ground (arith, ap (λ n. find self n invs) e)), rest)
    ]

invalidated :
    (h : MsigHost) (account : ℕ) (t t' : Msig)
    → Msig.invalidate h account t ≡ ok tt t'
    → (i : Invalidation) × (find h.self account t'.invalidations ≡ some i)
      × (i.last_invalidation_time ≡ h.now)
unfolding Msig.invalidate
invalidated h account t t' e = elim (Option-cases (find h.self account t.invalidations)) [
  | inl f ↦
      let r : Invalidation = record { account = account; last_invalidation_time = h.now } in
      (
        r,
        ground (arith, find-add_row h.self account account h.self account r t.invalidations f),
        refl,
      )
  | inr (i, f) ↦
      let r : Invalidation = record i { last_invalidation_time = h.now } in
      (
        r,
        ground (arith, find-set_row h.self account account h.self account r i t.invalidations f),
        refl,
      )
]

-- Every approval that a row holds was given at a time or before it.
abbrev pub TimedBy : ℕ → Msig → Type 0
TimedBy time t = EveryRow (λ s k a. Before time a.provided_approvals) t.approvals

-- After an invalidation no approval of the account counts that was given up to then: an execution
-- succeeds only on levels of other accounts.
pub invalidate_voids :
    (h h' : MsigHost) (account proposer name executer : ℕ) (t t' u : Msig)
    → TimedBy h.now t
    → Msig.invalidate h account t ≡ ok tt t'
    → h'.self ≡ h.self
    → Msig.exec h' proposer name executer t' ≡ ok tt u
    → (levels : List PermissionLevel) × (proposal : Proposal) × (find proposer name t'.proposals
        ≡ some proposal)
      × (pos 1 ≤ℤ h'.check_transaction_authorization proposal.packed_transaction levels)
      × All (λ l. l.actor ≢ account) levels
invalidate_voids h h' account proposer name executer t t' u timed e same run =
    let x = exec_effect h' proposer name executer t' u run in
    let (i, f, at) = invalidated h account t t' e in
    let f' : find h'.self account t'.invalidations ≡ some i = rw same f in
    (x.levels, x.proposal, x.found, x.allowed, go i f' at x.levels x.counts)
  where
    go :
        (i : Invalidation)
        → find h'.self account t'.invalidations ≡ some i
        → i.last_invalidation_time ≡ h.now
        → (ls : List PermissionLevel) → Counted h' proposer name t' ls
        → All (λ l. l.actor ≢ account) ls
    go i f at ls (counted a g c) = rw c (
        voided h'.self account h.now t'.invalidations i a.provided_approvals f (omega (arith, at)) (
          find-EveryRow (λ s k a. Before h.now a.provided_approvals) proposer name a t'.approvals
            (rw (invalidate_approvals h account t t' e) timed) g))
    go i f at ls (old_counted a n g c) =
        rw c (old_voided h'.self account t'.invalidations i a.provided_approvals f)
