-- ===== src/Msig/Effects.antt =====
-- contracts/eosio.msig/src/eosio.msig.cpp: what a successful action has read and written.
use cmcc_eosio_contracts.Common.{
  ℕ, ◌≡◌, ◌≤◌, ◌<◌, ◌⊎◌, Bool, true, Option, none, some, List, arith, inl, inr, Option-cases,
}
use cmcc_eosio_contracts.Common.Int.{pos, ◌≤ℤ◌}
use cmcc_eosio_contracts.Chain.Table.{find, add_row, set_row, erase_row}
use cmcc_eosio_contracts.Chain.Action.{PermissionLevel, ok}
use cmcc_eosio_contracts.Msig.{
  Packed, Msig, MsigHost, Proposal, ApprovalsInfo, OldApprovalsInfo, Invalidation,
}
use cmcc_eosio_contracts.Msig

module _ (h : MsigHost) where
  pub record Proposed (proposer name : ℕ) (requested : List PermissionLevel) (trx : Packed)
      (t t' : Msig) : Type 0 where
    pub authorized : h.has_auth proposer ≡ true
    pub expires : ℕ
    pub parsed : h.expiration trx ≡ some expires
    pub alive : h.to_sec h.now ≤ expires
    pub allowed : pos 1 ≤ℤ h.check_transaction_authorization trx requested
    pub fresh : find proposer name t.proposals ≡ none
    pub fresh_approvals : find proposer name t.approvals ≡ none
    pub rest : t' ≡ record t {
      proposals =
          add_row proposer name proposer
            (record { proposal_name = name; packed_transaction = trx })
            t.proposals;
      approvals = add_row proposer name proposer (Msig.new_approvals name requested) t.approvals;
    }

  pub propose_effect :
      (proposer name : ℕ) (requested : List PermissionLevel) (trx : Packed) (t t' : Msig)
      → Msig.propose h proposer name requested trx t ≡ ok tt t'
      → Proposed proposer name requested trx t t'
  unfolding Msig.propose
  propose_effect proposer name requested trx t t' e = elim (Option-cases (h.expiration trx)) [
    | inl x ↦ ground arith
    | inr (expires, x) ↦ elim (Option-cases (find proposer name t.proposals)) [
      | inr (p, f) ↦ ground arith
      | inl f ↦ elim (Option-cases (find proposer name t.approvals)) [
        | inr (a, g) ↦ ground arith
        | inl g ↦ record {
          authorized = ground arith;
          expires = expires;
          parsed = x;
          alive = ground arith;
          allowed = ground arith;
          fresh = f;
          fresh_approvals = g;
          rest = ground arith;
        }
      ]
    ]
  ]

  -- An approval or its withdrawal rewrites the row in one of the two tables.
  pub data Rewritten (proposer name : ℕ) (t t' : Msig) (new : ApprovalsInfo → ApprovalsInfo)
      (old : OldApprovalsInfo → OldApprovalsInfo) (held : ApprovalsInfo → Bool)
      (old_held : OldApprovalsInfo → Bool) : Type 0 where
    rewritten :
        (a : ApprovalsInfo)
        → find proposer name t.approvals ≡ some a
        → held a ≡ true
        → t' ≡ record t { approvals = set_row proposer name proposer (new a) t.approvals }
        → Rewritten proposer name t t' new old held old_held
    old_rewritten :
        (a : OldApprovalsInfo)
        → find proposer name t.approvals ≡ none
        → find proposer name t.old_approvals ≡ some a
        → old_held a ≡ true
        → t' ≡ record t { old_approvals = set_row proposer name proposer (old a) t.old_approvals }
        → Rewritten proposer name t t' new old held old_held

  abbrev pub Approved : ℕ → ℕ → PermissionLevel → Msig → Msig → Type 0
  Approved proposer name level t t' =
      Rewritten proposer name t t' (Msig.approved h.now level) (Msig.old_approved level)
        (λ a. Msig.has_approval level a.requested_approvals)
        (λ a. Msig.has_level level a.requested_approvals)

  abbrev pub Unapproved : ℕ → ℕ → PermissionLevel → Msig → Msig → Type 0
  Unapproved proposer name level t t' =
      Rewritten proposer name t t' (Msig.unapproved h.now level) (Msig.old_unapproved level)
        (λ a. Msig.has_approval level a.provided_approvals)
        (λ a. Msig.has_level level a.provided_approvals)

  pub approve_effect :
      (proposer name : ℕ) (level : PermissionLevel) (hash : Option ℕ) (t t' : Msig)
      → Msig.approve h proposer name level hash t ≡ ok tt t'
      → (h.has_permission level ≡ true) × Approved proposer name level t t'
  unfolding Msig.approve
  approve_effect proposer name level hash t t' e =
      elim (Option-cases (find proposer name t.approvals)) [
        | inr (a, f) ↦ (ground arith, rewritten a f (ground arith) (ground arith))
        | inl f ↦ elim (Option-cases (find proposer name t.old_approvals)) [
          | inr (a, g) ↦ (ground arith, old_rewritten a f g (ground arith) (ground arith))
          | inl g ↦ ground arith
        ]
      ]

  pub unapprove_effect :
      (proposer name : ℕ) (level : PermissionLevel) (t t' : Msig)
      → Msig.unapprove h proposer name level t ≡ ok tt t'
      → (h.has_permission level ≡ true) × Unapproved proposer name level t t'
  unfolding Msig.unapprove
  unapprove_effect proposer name level t t' e =
      elim (Option-cases (find proposer name t.approvals)) [
        | inr (a, f) ↦ (ground arith, rewritten a f (ground arith) (ground arith))
        | inl f ↦ elim (Option-cases (find proposer name t.old_approvals)) [
          | inr (a, g) ↦ (ground arith, old_rewritten a f g (ground arith) (ground arith))
          | inl g ↦ ground arith
        ]
      ]

  -- The row of approvals is erased from the table that has it, the new one first.
  pub data Removed (proposer name : ℕ) (t t' : Msig) : Type 0 where
    removed :
        (a : ApprovalsInfo)
        → find proposer name t.approvals ≡ some a
        → t'.approvals ≡ erase_row proposer name t.approvals
        → t'.old_approvals ≡ t.old_approvals
        → Removed proposer name t t'
    old_removed :
        (a : OldApprovalsInfo)
        → find proposer name t.approvals ≡ none
        → find proposer name t.old_approvals ≡ some a
        → t'.approvals ≡ t.approvals
        → t'.old_approvals ≡ erase_row proposer name t.old_approvals
        → Removed proposer name t t'

  pub cancel_effect :
      (proposer name canceler : ℕ) (t t' : Msig)
      → Msig.cancel h proposer name canceler t ≡ ok tt t'
      → (prop : Proposal) × (find proposer name t.proposals ≡ some prop)
        × (h.has_auth canceler ≡ true)
        × ((canceler ≡ proposer)
            ⊎ ((x : ℕ) × (h.expiration prop.packed_transaction ≡ some x) × (x < h.to_sec h.now)))
        × (t'.proposals ≡ erase_row proposer name t.proposals)
        × (t'.invalidations ≡ t.invalidations)
        × (t'.deferred ≡ t.deferred)
        × Removed proposer name t t'
  unfolding Msig.cancel
  cancel_effect proposer name canceler t t' e =
      elim (Option-cases (find proposer name t.proposals)) [
        | inl p ↦ ground arith
        | inr (prop, p) ↦ (
          prop,
          p,
          ground arith,
          ground arith,
          ground arith,
          ground arith,
          ground arith,
          elim (Option-cases (find proposer name t.approvals)) [
            | inr (a, f) ↦ removed a f (ground arith) (ground arith)
            | inl f ↦ elim (Option-cases (find proposer name t.old_approvals)) [
              | inr (a, g) ↦ old_removed a f g (ground arith) (ground arith)
              | inl g ↦ ground arith
            ]
          ],
        )
      ]

  pub invalidate_approvals :
      (account : ℕ) (t t' : Msig)
      → Msig.invalidate h account t ≡ ok tt t'
      → t'.approvals ≡ t.approvals
  unfolding Msig.invalidate
  invalidate_approvals account t t' e = elim (Option-cases (find h.self account t.invalidations)) [
    | inl f ↦ ground arith
    | inr (i, f) ↦ ground arith
  ]
