-- ===== src/Msig/Levels.antt =====
-- contracts/eosio.msig/src/eosio.msig.cpp: approving and withdrawing move a level between two lists, and
-- no action loses a level or makes one up.
use mathlib.Core.List.{Perm, perm_append_comm, append_assoc}
use mathlib.Core.List.Perm
use cmcc_eosio_contracts.Common.{
  ℕ, ◌≡◌, refl, ap, ◌∙◌, Bool, true, ◌&&◌, some, List, [], ◌∷◌, ◌++◌, map, arith, ◌==◌, inl, inr,
  Bool-cases,
}
use cmcc_eosio_contracts.Chain.Table.{find, find-add_row, find-set_row, find-erase_row}
use cmcc_eosio_contracts.Chain.Action.{PermissionLevel, ok}
use cmcc_eosio_contracts.Msig.{
  Packed, Msig, MsigHost, Proposal, Approval, ApprovalsInfo, OldApprovalsInfo,
}
use cmcc_eosio_contracts.Msig
use cmcc_eosio_contracts.Msig.Effects.{
  Rewritten, rewritten, old_rewritten, Removed, removed, old_removed, propose_effect,
  approve_effect, unapprove_effect, cancel_effect, invalidate_approvals,
}
use cmcc_eosio_contracts.Msig.Exec.{exec_effect}
use cmcc_eosio_contracts.Msig.Pairing.{
  Call, proposes, approves, unapproves, cancels, execs, invalidates, dispatch, IsValid,
}

abbrev pub levels_of : List Approval → List PermissionLevel
levels_of = map (λ a. a.level)

-- All the levels of a row, requested or provided.
abbrev pub all_levels : ApprovalsInfo → List PermissionLevel
all_levels a = levels_of a.requested_approvals ++ levels_of a.provided_approvals

erase_approval-perm :
    (l : PermissionLevel) (xs : List Approval)
    → Msig.has_approval l xs ≡ true
    → Perm (levels_of xs) (l ∷ levels_of (Msig.erase_approval l xs))
unfolding Msig.has_approval Msig.erase_approval
erase_approval-perm l [] h = cc
erase_approval-perm l (x ∷ xs) h = elim (Bool-cases (Msig.level_eq x.level l)) [
  | inl hit ↦ rw hit (Perm.cons' (ground arith) Perm.rfl)
  | inr miss ↦ rw miss (
      Perm.trans (Perm.cons x.level (erase_approval-perm l xs (ground arith)))
        (Perm.swap l x.level _))
]

levels_of-snoc :
    (xs : List Approval) (a : Approval) → levels_of (xs ++ a ∷ []) ≡ levels_of xs ++ a.level ∷ []
levels_of-snoc [] a = refl
levels_of-snoc (x ∷ xs) a = ap (λ l. x.level ∷ l) (levels_of-snoc xs a)

-- An approval moves a level from the requested ones to the provided ones.
approved-perm :
    (now : ℕ) (l : PermissionLevel) (a : ApprovalsInfo)
    → Msig.has_approval l a.requested_approvals ≡ true
    → Perm (all_levels a) (all_levels (Msig.approved now l a))
approved-perm now l a h =
    rw (levels_of-snoc a.provided_approvals (record { level = l; time = now }))
      let e : List PermissionLevel = levels_of (Msig.erase_approval l a.requested_approvals) in
        let p : List PermissionLevel = levels_of a.provided_approvals in
        rw (← append_assoc e p (l ∷ [])) (
          Perm.trans (Perm.append_right p (erase_approval-perm l a.requested_approvals h))
            (perm_append_comm (l ∷ []) (e ++ p)))

unapproved-perm :
    (now : ℕ) (l : PermissionLevel) (a : ApprovalsInfo)
    → Msig.has_approval l a.provided_approvals ≡ true
    → Perm (all_levels a) (all_levels (Msig.unapproved now l a))
unapproved-perm now l a h =
    rw (levels_of-snoc a.requested_approvals (record { level = l; time = now }))
      let e : List PermissionLevel = levels_of (Msig.erase_approval l a.provided_approvals) in
        let r : List PermissionLevel = levels_of a.requested_approvals in
        rw (append_assoc r (l ∷ []) e)
          (Perm.append_left r (erase_approval-perm l a.provided_approvals h))

module _ (h : MsigHost) (s k : ℕ) (a a' : ApprovalsInfo) (t t' : Msig)
    (before : find s k t.approvals ≡ some a) (after : find s k t'.approvals ≡ some a') where
  unchanged : t'.approvals ≡ t.approvals → Perm (all_levels a) (all_levels a')
  unchanged e = let same : a ≡ a' = ground (arith, ap (find s k) e) in rw same Perm.rfl

  rewritten-levels :
      {new : ApprovalsInfo → ApprovalsInfo} {old : OldApprovalsInfo → OldApprovalsInfo}
      {held : ApprovalsInfo → Bool} {old_held : OldApprovalsInfo → Bool} (proposer name : ℕ)
      → ((b : ApprovalsInfo) → held b ≡ true → Perm (all_levels b) (all_levels (new b)))
      → Rewritten h proposer name t t' new old held old_held
      → Perm (all_levels a) (all_levels a')
  rewritten-levels {new} proposer name moves (rewritten b f g e) =
      let at =
        ap (find s k) (ap (λ (m : Msig). m.approvals) e)
        ∙ find-set_row proposer name proposer s k (new b) b t.approvals f in
      elim (Bool-cases ((proposer == s) && (name == k))) [
        | inl hit ↦
            let same : a ≡ b = ground arith in
            let next : a' ≡ new b = ground arith in rw (same, next) (moves b g)
        | inr miss ↦ let same : a ≡ a' = ground arith in rw same Perm.rfl
      ]
  rewritten-levels proposer name moves (old_rewritten b f g x e) =
      unchanged (ap (λ (m : Msig). m.approvals) e)

  removed-levels :
      (proposer name : ℕ)
      → IsValid t
      → Removed h proposer name t t'
      → Perm (all_levels a) (all_levels a')
  removed-levels proposer name v (removed b f g o) =
      let at = ap (find s k) g ∙ find-erase_row proposer name s k t.approvals v.approvals_unique in
      let same : a ≡ a' = ground arith in rw same Perm.rfl
  removed-levels proposer name v (old_removed b f o g d) = unchanged g

  -- While a proposal lives, its levels, requested and provided, stay the same up to their order.
  pub dispatch-all_levels :
      (c : Call) → IsValid t → dispatch h c t ≡ ok tt t' → Perm (all_levels a) (all_levels a')
  unfolding dispatch
  dispatch-all_levels (proposes proposer name requested trx) v e =
      let x = propose_effect h proposer name requested trx t t' e in
      let at =
        ap (find s k) (ap (λ (m : Msig). m.approvals) x.rest)
        ∙ find-add_row proposer name proposer s k (Msig.new_approvals name requested) t.approvals
            x.fresh_approvals in
      let same : a ≡ a' = ground (arith, x.fresh_approvals) in rw same Perm.rfl
  dispatch-all_levels (approves proposer name level hash) v e =
      rewritten-levels proposer name (approved-perm h.now level)
        (approve_effect h proposer name level hash t t' e).1
  dispatch-all_levels (unapproves proposer name level) v e =
      rewritten-levels proposer name (unapproved-perm h.now level)
        (unapprove_effect h proposer name level t t' e).1
  dispatch-all_levels (cancels proposer name canceler) v e =
      let (_, _, _, _, p, i, _, r) = cancel_effect h proposer name canceler t t' e in
      removed-levels proposer name v r
  dispatch-all_levels (execs proposer name executer) v e =
      removed-levels proposer name v (exec_effect h proposer name executer t t' e).removes
  dispatch-all_levels (invalidates account) v e = unchanged (invalidate_approvals h account t t' e)
