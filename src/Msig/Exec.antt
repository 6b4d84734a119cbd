-- ===== src/Msig/Exec.antt =====
-- contracts/eosio.msig/src/eosio.msig.cpp: what a successful `exec` has read and written.
use Prim.Native.Nat.{bit_or}
use cmcc_eosio_contracts.Common.{
  ℕ, ◌≡◌, ◌*◌, ◌^◌, ◌%◌, ◌≤◌, refl, true, none, some, List, [], ◌∷◌, ◌++◌, arith, inl, inr,
  Option-cases,
}
use cmcc_eosio_contracts.Common.Int.{pos, ◌≤ℤ◌}
use cmcc_eosio_contracts.Chain.Table.{find, erase_row}
use cmcc_eosio_contracts.Chain.Action.{PermissionLevel, ok}
use cmcc_eosio_contracts.Msig.{
  Packed, Msig, MsigHost, Proposal, ApprovalsInfo, OldApprovalsInfo, Invalidation,
}
use cmcc_eosio_contracts.Msig
use cmcc_eosio_contracts.Msig.Effects.{Removed, removed, old_removed}

module _ (h : MsigHost) where
  -- The levels that count: those provided and not invalidated since.
  pub data Counted (proposer name : ℕ) (t : Msig) (levels : List PermissionLevel) : Type 0 where
    counted :
        (a : ApprovalsInfo)
        → find proposer name t.approvals ≡ some a
        → levels ≡ Msig.valid_approvals h.self t.invalidations a.provided_approvals
        → Counted proposer name t levels
    old_counted :
        (a : OldApprovalsInfo)
        → find proposer name t.approvals ≡ none
        → find proposer name t.old_approvals ≡ some a
        → levels ≡ Msig.valid_old_approvals h.self t.invalidations a.provided_approvals
        → Counted proposer name t levels

  pub record Executed (proposer name executer : ℕ) (t t' : Msig) : Type 0 where
    pub authorized : h.has_auth executer ≡ true
    pub proposal : Proposal
    pub found : find proposer name t.proposals ≡ some proposal
    pub expires : ℕ
    pub parsed : h.expiration proposal.packed_transaction ≡ some expires
    pub alive : h.to_sec h.now ≤ expires
    pub levels : List PermissionLevel
    pub counts : Counted proposer name t levels
    pub allowed : pos 1 ≤ℤ h.check_transaction_authorization proposal.packed_transaction levels
    pub removes : Removed h proposer name t t'
    pub proposals_after : t'.proposals ≡ erase_row proposer name t.proposals
    pub invalidations_after : t'.invalidations ≡ t.invalidations
    pub sent :
        t'.deferred
        ≡ t.deferred
          ++ record {
            sender_id = bit_or (proposer * 2 ^ 64 % 2 ^ 128) name;
            payer = executer;
            transaction = proposal.packed_transaction;
          }
            ∷ []

  pub exec_effect :
      (proposer name executer : ℕ) (t t' : Msig)
      → Msig.exec h proposer name executer t ≡ ok tt t'
      → Executed proposer name executer t t'
  unfolding Msig.exec
  exec_effect proposer name executer t t' e = elim (Option-cases (find proposer name t.proposals)) [
    | inl p ↦ ground arith
    | inr (prop, p) ↦ elim (Option-cases (h.expiration prop.packed_transaction)) [
      | inl x ↦ ground arith
      | inr (expires, x) ↦ elim (Option-cases (find proposer name t.approvals)) [
        | inr (a, f) ↦ record {
          authorized = ground arith;
          proposal = prop;
          found = p;
          expires = expires;
          parsed = x;
          alive = ground arith;
          levels = Msig.valid_approvals h.self t.invalidations a.provided_approvals;
          counts = counted a f refl;
          allowed = ground arith;
          removes = removed a f (ground arith) (ground arith);
          proposals_after = ground arith;
          invalidations_after = ground arith;
          sent = ground arith;
        }
        | inl f ↦ elim (Option-cases (find proposer name t.old_approvals)) [
          | inl g ↦ ground arith
          | inr (a, g) ↦ record {
            authorized = ground arith;
            proposal = prop;
            found = p;
            expires = expires;
            parsed = x;
            alive = ground arith;
            levels = Msig.valid_old_approvals h.self t.invalidations a.provided_approvals;
            counts = old_counted a f g refl;
            allowed = ground arith;
            removes = old_removed a f g (ground arith) (ground arith);
            proposals_after = ground arith;
            invalidations_after = ground arith;
            sent = ground arith;
          }
        ]
      ]
    ]
  ]
