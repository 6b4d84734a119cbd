-- ===== src/Msig/Lifecycle.antt =====
-- contracts/eosio.msig/src/eosio.msig.cpp: the life of a proposal, from its proposal to its execution or
-- its cancellation.
use Prim.Native.Nat.{bit_or}
use mathlib.Core.List.{Perm, append-nil}
use mathlib.Core.List.Perm
use cmcc_eosio_contracts.Common.{
  ℕ, ◌≡◌, ◌≢◌, ◌*◌, ◌^◌, ◌%◌, ◌++◌, refl, ap, ◌∙◌, true, Option, none, some, List, [], ◌∷◌, map,
  arith, inl, inr, Option-cases,
}
use cmcc_eosio_contracts.Chain.Table.{find, erase_row, find-erase_row}
use cmcc_eosio_contracts.Chain.Action.{PermissionLevel, ok}
use cmcc_eosio_contracts.Msig.{
  Packed, Msig, MsigHost, Proposal, Approval, ApprovalsInfo, OldApprovalsInfo,
}
use cmcc_eosio_contracts.Msig
use cmcc_eosio_contracts.Msig.Effects.{Removed, removed, old_removed, cancel_effect}
use cmcc_eosio_contracts.Msig.Exec.{exec_effect}
use cmcc_eosio_contracts.Msig.Pairing.{Call, proposes, dispatch, IsValid, dispatch-IsValid}
use cmcc_eosio_contracts.Msig.Levels.{levels_of, all_levels, dispatch-all_levels}

-- A history of actions through which the row of approvals of one proposal stays.
pub data Life (s k : ℕ) (t : Msig) (a : ApprovalsInfo) : Msig → ApprovalsInfo → Type 0 where
  starts : find s k t.approvals ≡ some a → Life s k t a t a
  lives :
      {u w : Msig} {b d : ApprovalsInfo}
      → Life s k t a u b
      → (h : MsigHost) (c : Call) → dispatch h c u ≡ ok tt w
      → find s k w.approvals ≡ some d
      → Life s k t a w d

Life-IsValid :
    {s k : ℕ} {t : Msig} {a : ApprovalsInfo} {u : Msig} {b : ApprovalsInfo}
    → IsValid t
    → Life s k t a u b
    → IsValid u
Life-IsValid v (starts e) = v
Life-IsValid v (lives {u} {w} l h c e f) = dispatch-IsValid h c u w (Life-IsValid v l) e

Life-found :
    {s k : ℕ} {t u : Msig} {a b : ApprovalsInfo} → Life s k t a u b → find s k u.approvals ≡ some b
Life-found (starts e) = e
Life-found (lives l h c e f) = f

Life-all_levels :
    {s k : ℕ} {t : Msig} {a : ApprovalsInfo} {u : Msig} {b : ApprovalsInfo}
    → IsValid t
    → Life s k t a u b
    → Perm (all_levels a) (all_levels b)
Life-all_levels v (starts e) = Perm.rfl
Life-all_levels {s} {k} v (lives {u} {w} {b} {d} l h c e f) =
    Perm.trans (Life-all_levels v l)
      (dispatch-all_levels h s k b d u w (Life-found l) f c (Life-IsValid v l) e)

levels_of-fresh :
    (ls : List PermissionLevel) → levels_of (map (λ l. record { level = l; time = 0 }) ls) ≡ ls
levels_of-fresh [] = refl
levels_of-fresh (l ∷ ls) = ap (λ xs. l ∷ xs) (levels_of-fresh ls)

-- While a proposal lives, the levels that it lists, requested or provided, are those that it was
-- proposed with, each as often.
pub propose-levels :
    (h : MsigHost) (proposer name : ℕ) (requested : List PermissionLevel) (trx : Packed)
    (t t' : Msig)
    → IsValid t
    → Msig.propose h proposer name requested trx t ≡ ok tt t'
    → {u : Msig} {b : ApprovalsInfo} → Life proposer name t' (Msig.new_approvals name requested) u b
    → Perm requested (all_levels b)
propose-levels h proposer name requested trx t t' v e l =
    let valid =
      dispatch-IsValid h (proposes proposer name requested trx) t t' v (unfold dispatch in e) in
    let same : all_levels (Msig.new_approvals name requested) ≡ requested =
      append-nil _ ∙ levels_of-fresh requested in
    rw same at (Life-all_levels valid l)

-- Nothing is left of a proposal.
abbrev pub Gone : ℕ → ℕ → Msig → Type 0
Gone s k t =
    (find s k t.proposals ≡ none)
    × (find s k t.approvals ≡ none)
    × (find s k t.old_approvals ≡ none)

module _ (h : MsigHost) (proposer name : ℕ) where
  Removed-Gone :
      (t t' : Msig) (prop : Proposal)
      → IsValid t
      → find proposer name t.proposals ≡ some prop
      → t'.proposals ≡ erase_row proposer name t.proposals
      → Removed h proposer name t t'
      → Gone proposer name t'
  Removed-Gone t t' prop v f p (removed a g w o) = (
    ap (find proposer name) p
        ∙ find-erase_row proposer name proposer name t.proposals v.proposals_unique
        ∙ ground arith,
    ap (find proposer name) w
        ∙ find-erase_row proposer name proposer name t.approvals v.approvals_unique
        ∙ ground arith,
    rw o (ground (arith, v.pairing proposer name, f, g)),
  )
  Removed-Gone t t' prop v f p (old_removed a g x w o) = (
    ap (find proposer name) p
        ∙ find-erase_row proposer name proposer name t.proposals v.proposals_unique
        ∙ ground arith,
    rw w g,
    ap (find proposer name) o
        ∙ find-erase_row proposer name proposer name t.old_approvals v.old_unique
        ∙ ground arith,
  )

  -- What is gone can be approved, withdrawn, cancelled or executed no more.
  pub Gone-rejects :
      (t t' : Msig) (level : PermissionLevel) (hash : Option ℕ) (account : ℕ)
      → Gone proposer name t
      → (Msig.approve h proposer name level hash t ≢ ok tt t')
        × (Msig.unapprove h proposer name level t ≢ ok tt t')
        × (Msig.cancel h proposer name account t ≢ ok tt t')
        × (Msig.exec h proposer name account t ≢ ok tt t')
  unfolding Msig.approve Msig.unapprove Msig.cancel Msig.exec
  Gone-rejects t t' level hash account g =
      (λ e. ground arith, λ e. ground arith, λ e. ground arith, λ e. ground arith)

  -- In a state where proposals and approvals are paired, a successful execution sends just one deferred
  -- transaction, that of the proposal, under the proposal's id and paid by the executer; nothing of the
  -- proposal is left in any table, and so a second execution of it fails, whoever calls it.
  pub exec-Gone :
      (executer : ℕ) (t t' : Msig)
      → IsValid t
      → Msig.exec h proposer name executer t ≡ ok tt t'
      → ((prop : Proposal) × (find proposer name t.proposals ≡ some prop)
          × (t'.deferred
              ≡ t.deferred
                ++ record {
                  sender_id = bit_or (proposer * 2 ^ 64 % 2 ^ 128) name;
                  payer = executer;
                  transaction = prop.packed_transaction;
                }
                  ∷ []))
        × Gone proposer name t'
        × ((account : ℕ) (t'' : Msig) → Msig.exec h proposer name account t' ≢ ok tt t'')
  exec-Gone executer t t' v e =
      let x = exec_effect h proposer name executer t t' e in
      let gone = Removed-Gone t t' x.proposal v x.found x.proposals_after x.removes in
      (
        (x.proposal, x.found, x.sent),
        gone,
        λ account t''.
            (Gone-rejects t' t'' (record { actor = 0; permission = 0 }) none account gone).3,
      )

  -- The proposer can always cancel, and then nothing is left of the proposal.
  pub cancel_total :
      (t : Msig) (prop : Proposal)
      → IsValid t
      → h.has_auth proposer ≡ true
      → find proposer name t.proposals ≡ some prop
      → (t' : Msig) × (Msig.cancel h proposer name proposer t ≡ ok tt t') × Gone proposer name t'
  unfolding Msig.cancel
  cancel_total t prop v auth f =
      let gone = λ (t' : Msig) (e : Msig.cancel h proposer name proposer t ≡ ok tt t').
        (let (p, g, _, _, w, _, _, r) = cancel_effect h proposer name proposer t t' e in
          Removed-Gone t t' p v g w r) in
      elim (Option-cases (find proposer name t.approvals)) [
        | inr (a, g) ↦
            let t' : Msig = record t {
              proposals = erase_row proposer name t.proposals;
              approvals = erase_row proposer name t.approvals;
            } in
            let e : Msig.cancel h proposer name proposer t ≡ ok tt t' = ground arith in
            (t', e, gone t' e)
        | inl g ↦
            let t' : Msig = record t {
              proposals = erase_row proposer name t.proposals;
              old_approvals = erase_row proposer name t.old_approvals;
            } in
            let e : Msig.cancel h proposer name proposer t ≡ ok tt t' =
              ground (arith, v.pairing proposer name) in
            (t', e, gone t' e)
      ]
