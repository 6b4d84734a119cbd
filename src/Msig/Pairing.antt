-- ===== src/Msig/Pairing.antt =====
-- contracts/eosio.msig/src/eosio.msig.cpp: every proposal has one row of approvals, in one of the two
-- tables, and every row of approvals has its proposal.
use cmcc_eosio_contracts.Common.{
  ℕ, ◌≡◌, Bool, true, false, ◌||◌, ◌&&◌, not, Option, List, arith, is_some, inl, inr, Option-cases,
}
use cmcc_eosio_contracts.Chain.Table.{
  Unique, find, add_row, set_row, erase_row, find-add_row, find-erase_row, has-set_row,
  add_row-Unique, set_row-Unique, erase_row-Unique,
}
use cmcc_eosio_contracts.Chain.Action.{PermissionLevel, Action, ⊤, ok}
use cmcc_eosio_contracts.Msig.{Packed, Msig, MsigHost, Proposal, ApprovalsInfo, OldApprovalsInfo}
use cmcc_eosio_contracts.Msig
use cmcc_eosio_contracts.Msig.Effects.{
  Proposed, Rewritten, rewritten, old_rewritten, Removed, removed, old_removed, propose_effect,
  approve_effect, unapprove_effect, cancel_effect,
}
use cmcc_eosio_contracts.Msig.Exec.{exec_effect}

-- The actions that `EOSIO_DISPATCH` lists.
pub data Call : Type 0 where
  proposes : ℕ → ℕ → List PermissionLevel → Packed → Call
  approves : ℕ → ℕ → PermissionLevel → Option ℕ → Call
  unapproves : ℕ → ℕ → PermissionLevel → Call
  cancels : ℕ → ℕ → ℕ → Call
  execs : ℕ → ℕ → ℕ → Call
  invalidates : ℕ → Call

unfoldable pub dispatch : MsigHost → Call → Action Msig ⊤
dispatch h (proposes proposer name requested trx) = Msig.propose h proposer name requested trx
dispatch h (approves proposer name level hash) = Msig.approve h proposer name level hash
dispatch h (unapproves proposer name level) = Msig.unapprove h proposer name level
dispatch h (cancels proposer name canceler) = Msig.cancel h proposer name canceler
dispatch h (execs proposer name executer) = Msig.exec h proposer name executer
dispatch h (invalidates account) = Msig.invalidate h account

-- One row of approvals for a proposal, none where there is no proposal.
abbrev pub paired : Bool → Bool → Bool → Bool
paired true new old = (new || old) && not (new && old)
paired false new old = not (new || old)

pub record IsValid (t : Msig) : Type 0 where
  pub proposals_unique : Unique t.proposals
  pub approvals_unique : Unique t.approvals
  pub old_unique : Unique t.old_approvals
  pub invalidations_unique : Unique t.invalidations
  pub pairing :
      (s k : ℕ)
      → paired
          (is_some (find s k t.proposals))
          (is_some (find s k t.approvals))
          (is_some (find s k t.old_approvals))
        ≡ true

module _ (h : MsigHost) where
  propose-IsValid :
      (proposer name : ℕ) (requested : List PermissionLevel) (trx : Packed) (t t' : Msig)
      → IsValid t
      → Proposed h proposer name requested trx t t'
      → IsValid t'
  propose-IsValid proposer name requested trx t t' v x =
      let p : Proposal = record { proposal_name = name; packed_transaction = trx } in
      let a : ApprovalsInfo = Msig.new_approvals name requested in
      rw x.rest (record {
        proposals_unique =
            add_row-Unique proposer name proposer p t.proposals x.fresh v.proposals_unique;
        approvals_unique =
            add_row-Unique proposer name proposer a t.approvals x.fresh_approvals
              v.approvals_unique;
        old_unique = v.old_unique;
        invalidations_unique = v.invalidations_unique;
        pairing = λ s k.
            rw
              (
                find-add_row proposer name proposer s k p t.proposals x.fresh,
                find-add_row proposer name proposer s k a t.approvals x.fresh_approvals,
              )
              (ground (arith, v.pairing s k, v.pairing proposer name, x.fresh, x.fresh_approvals));
      })

  Rewritten-IsValid :
      {new : ApprovalsInfo → ApprovalsInfo} {old : OldApprovalsInfo → OldApprovalsInfo}
      {held : ApprovalsInfo → Bool} {old_held : OldApprovalsInfo → Bool} (proposer name : ℕ)
      (t t' : Msig)
      → IsValid t
      → Rewritten h proposer name t t' new old held old_held
      → IsValid t'
  Rewritten-IsValid {new} proposer name t t' v (rewritten a f g e) = rw e (record {
    proposals_unique = v.proposals_unique;
    approvals_unique = set_row-Unique proposer name proposer (new a) t.approvals v.approvals_unique;
    old_unique = v.old_unique;
    invalidations_unique = v.invalidations_unique;
    pairing =
        λ s k. rw (has-set_row proposer name proposer s k (new a) t.approvals) (v.pairing s k);
  })
  Rewritten-IsValid {old = old} proposer name t t' v (old_rewritten a f g x e) = rw e (record {
    proposals_unique = v.proposals_unique;
    approvals_unique = v.approvals_unique;
    old_unique = set_row-Unique proposer name proposer (old a) t.old_approvals v.old_unique;
    invalidations_unique = v.invalidations_unique;
    pairing =
        λ s k. rw (has-set_row proposer name proposer s k (old a) t.old_approvals) (v.pairing s k);
  })

  Removed-IsValid :
      (proposer name : ℕ) (t t' : Msig)
      → IsValid t
      → t'.proposals ≡ erase_row proposer name t.proposals
      → t'.invalidations ≡ t.invalidations
      → Removed h proposer name t t'
      → IsValid t'
  Removed-IsValid proposer name t t' v p i (removed a f g o) = record {
    proposals_unique = rw p (erase_row-Unique proposer name t.proposals v.proposals_unique);
    approvals_unique = rw g (erase_row-Unique proposer name t.approvals v.approvals_unique);
    old_unique = rw o v.old_unique;
    invalidations_unique = rw i v.invalidations_unique;
    pairing = λ s k.
        rw
          (
            p,
            g,
            o,
            find-erase_row proposer name s k t.proposals v.proposals_unique,
            find-erase_row proposer name s k t.approvals v.approvals_unique,
          )
          (ground (arith, v.pairing s k, v.pairing proposer name, f));
  }
  Removed-IsValid proposer name t t' v p i (old_removed a f o g d) = record {
    proposals_unique = rw p (erase_row-Unique proposer name t.proposals v.proposals_unique);
    approvals_unique = rw g v.approvals_unique;
    old_unique = rw d (erase_row-Unique proposer name t.old_approvals v.old_unique);
    invalidations_unique = rw i v.invalidations_unique;
    pairing = λ s k.
        rw
          (
            p,
            g,
            d,
            find-erase_row proposer name s k t.proposals v.proposals_unique,
            find-erase_row proposer name s k t.old_approvals v.old_unique,
          )
          (ground (arith, v.pairing s k, v.pairing proposer name, f, o));
  }

  invalidate-IsValid :
      (account : ℕ) (t t' : Msig) → IsValid t → Msig.invalidate h account t ≡ ok tt t' → IsValid t'
  unfolding Msig.invalidate
  invalidate-IsValid account t t' v e = elim (Option-cases (find h.self account t.invalidations)) [
    | inl f ↦
        let w : t' ≡ record t {
          invalidations =
              add_row h.self account account
                (record { account = account; last_invalidation_time = h.now }) t.invalidations;
        } =
          ground arith in
        rw w (record {
          proposals_unique = v.proposals_unique;
          approvals_unique = v.approvals_unique;
          old_unique = v.old_unique;
          pairing = v.pairing;
          invalidations_unique =
              add_row-Unique h.self account account _ t.invalidations f v.invalidations_unique;
        })
    | inr (i, f) ↦
        let w : t' ≡ record t {
          invalidations =
              set_row h.self account account (record i { last_invalidation_time = h.now })
                t.invalidations;
        } =
          ground arith in
        rw w (record {
          proposals_unique = v.proposals_unique;
          approvals_unique = v.approvals_unique;
          old_unique = v.old_unique;
          pairing = v.pairing;
          invalidations_unique =
              set_row-Unique h.self account account _ t.invalidations v.invalidations_unique;
        })
  ]

  -- Every action keeps proposals and rows of approvals paired.
  pub dispatch-IsValid :
      (a : Call) (t t' : Msig) → IsValid t → dispatch h a t ≡ ok tt t' → IsValid t'
  unfolding dispatch
  dispatch-IsValid (proposes proposer name requested trx) t t' v e =
      propose-IsValid proposer name requested trx t t' v
        (propose_effect h proposer name requested trx t t' e)
  dispatch-IsValid (approves proposer name level hash) t t' v e =
      Rewritten-IsValid proposer name t t' v (approve_effect h proposer name level hash t t' e).1
  dispatch-IsValid (unapproves proposer name level) t t' v e =
      Rewritten-IsValid proposer name t t' v (unapprove_effect h proposer name level t t' e).1
  dispatch-IsValid (cancels proposer name canceler) t t' v e =
      let (_, _, _, _, p, i, _, r) = cancel_effect h proposer name canceler t t' e in
      Removed-IsValid proposer name t t' v p i r
  dispatch-IsValid (execs proposer name executer) t t' v e =
      let x = exec_effect h proposer name executer t t' e in
      Removed-IsValid proposer name t t' v x.proposals_after x.invalidations_after x.removes
  dispatch-IsValid (invalidates account) t t' v e = invalidate-IsValid account t t' v e
