-- ===== src/Msig/Times.antt =====
-- contracts/eosio.msig/src/eosio.msig.cpp: approvals carry the time of the block that they came in.
use cmcc_eosio_contracts.Common.{
  ℕ, ◌≡◌, ◌≢◌, ◌≤◌, Bool, some, List, [], ◌∷◌, ◌++◌, arith, inl, inr, All, Bool-cases,
}
use cmcc_eosio_contracts.Common.Int.{pos, ◌≤ℤ◌}
use cmcc_eosio_contracts.Chain.Table.{
  find, EveryRow-map, find-EveryRow, add_row-EveryRow, set_row-EveryRow, erase_row-EveryRow,
}
use cmcc_eosio_contracts.Chain.Action.{PermissionLevel, ok}
use cmcc_eosio_contracts.Msig.{
  Packed, Msig, MsigHost, Proposal, Approval, ApprovalsInfo, OldApprovalsInfo,
}
use cmcc_eosio_contracts.Msig
use cmcc_eosio_contracts.Msig.Effects.{
  Rewritten, rewritten, old_rewritten, Removed, removed, old_removed, propose_effect,
  approve_effect, unapprove_effect, cancel_effect, invalidate_approvals,
}
use cmcc_eosio_contracts.Msig.Exec.{exec_effect}
use cmcc_eosio_contracts.Msig.Pairing.{
  Call, proposes, approves, unapproves, cancels, execs, invalidates, dispatch,
}
use cmcc_eosio_contracts.Msig.Voiding.{Before, TimedBy, invalidate_voids}

Before-mono : (m n : ℕ) (ps : List Approval) → m ≤ n → Before m ps → Before n ps
Before-mono m n [] le b = tt
Before-mono m n (p ∷ ps) le b = (omega (arith, b.0), Before-mono m n ps le b.1)

Before-snoc :
    (n : ℕ) (ps : List Approval) (p : Approval) → p.time ≤ n → Before n ps → Before n (ps ++ p ∷ [])
Before-snoc n [] p le b = (le, tt)
Before-snoc n (x ∷ ps) p le b = (b.0, Before-snoc n ps p le b.1)

Before-erase :
    (n : ℕ) (l : PermissionLevel) (ps : List Approval)
    → Before n ps
    → Before n (Msig.erase_approval l ps)
unfolding Msig.erase_approval
Before-erase n l [] b = tt
Before-erase n l (p ∷ ps) b = elim (Bool-cases (Msig.level_eq p.level l)) [
  | inl hit ↦ rw hit (b.1)
  | inr miss ↦ rw miss (b.0, Before-erase n l ps b.1)
]

abbrev Timed : ℕ → ℕ → ℕ → ApprovalsInfo → Type 0
Timed time s k a = Before time a.provided_approvals

module _ (h : MsigHost) where
  Rewritten-TimedBy :
      {new : ApprovalsInfo → ApprovalsInfo} {old : OldApprovalsInfo → OldApprovalsInfo}
      {held : ApprovalsInfo → Bool} {old_held : OldApprovalsInfo → Bool} (proposer name : ℕ)
      (t t' : Msig)
      → ((a : ApprovalsInfo)
          → Before h.now a.provided_approvals
          → Before h.now (new a).provided_approvals)
      → TimedBy h.now t
      → Rewritten h proposer name t t' new old held old_held
      → TimedBy h.now t'
  Rewritten-TimedBy {new} proposer name t t' keep b (rewritten a f g e) = rw e (
      set_row-EveryRow (Timed h.now) proposer name proposer (new a) t.approvals b
        (keep a (find-EveryRow (Timed h.now) proposer name a t.approvals b f)))
  Rewritten-TimedBy proposer name t t' keep b (old_rewritten a f g x e) = rw e b

  Removed-TimedBy :
      (proposer name : ℕ) (t t' : Msig)
      → TimedBy h.now t
      → Removed h proposer name t t'
      → TimedBy h.now t'
  Removed-TimedBy proposer name t t' b (removed a f g o) =
      rw g (erase_row-EveryRow (Timed h.now) proposer name t.approvals b)
  Removed-TimedBy proposer name t t' b (old_removed a f o g d) = rw g b

  now-TimedBy :
      (c : Call) (t t' : Msig) → TimedBy h.now t → dispatch h c t ≡ ok tt t' → TimedBy h.now t'
  unfolding dispatch
  now-TimedBy (proposes proposer name requested trx) t t' b e =
      rw ((propose_effect h proposer name requested trx t t' e).rest) (
        add_row-EveryRow (Timed h.now) proposer name proposer (Msig.new_approvals name requested)
          t.approvals b tt)
  now-TimedBy (approves proposer name level hash) t t' b e =
      Rewritten-TimedBy proposer name t t'
        (λ a q. Before-snoc h.now a.provided_approvals _ (omega arith) q) b
        (approve_effect h proposer name level hash t t' e).1
  now-TimedBy (unapproves proposer name level) t t' b e =
      Rewritten-TimedBy proposer name t t' (λ a q. Before-erase h.now level a.provided_approvals q)
        b (unapprove_effect h proposer name level t t' e).1
  now-TimedBy (cancels proposer name canceler) t t' b e =
      let (_, _, _, _, p, i, _, r) = cancel_effect h proposer name canceler t t' e in
      Removed-TimedBy proposer name t t' b r
  now-TimedBy (execs proposer name executer) t t' b e =
      Removed-TimedBy proposer name t t' b (exec_effect h proposer name executer t t' e).removes
  now-TimedBy (invalidates account) t t' b e = rw (invalidate_approvals h account t t' e) b

-- A history in which the time of the blocks does not fall, up to a time.
pub data Reach (t : Msig) : ℕ → Msig → Type 0 where
  here : Reach t 0 t
  next :
      {time : ℕ} {u w : Msig}
      → Reach t time u
      → (h : MsigHost) (c : Call) → time ≤ h.now
      → dispatch h c u ≡ ok tt w
      → (now : ℕ) → now ≡ h.now
      → Reach t now w

-- In any history no approval bears a time later than the last block.
pub Reach-TimedBy : {t : Msig} {time : ℕ} {u : Msig} → TimedBy 0 t → Reach t time u → TimedBy time u
Reach-TimedBy b here = b
Reach-TimedBy b (next {time} {u} {w} r h c le e now same) = rw same (
    now-TimedBy h c u w
      (EveryRow-map (Timed time) (Timed h.now) u.approvals
        (λ s k a q. Before-mono time h.now a.provided_approvals le q) (Reach-TimedBy b r))
      e)

abbrev pub empty : Msig
empty = record {
  proposals = [];
  old_approvals = [];
  approvals = [];
  invalidations = [];
  deferred = [];
}

-- After any history and an invalidation by an account, an execution succeeds only where the levels
-- of other accounts authorize the transaction: none that the account has approved before counts.
pub history_voids :
    (time : ℕ) (h h' : MsigHost) (account proposer name executer : ℕ) (t t' u : Msig)
    → Reach empty time t
    → time ≤ h.now
    → Msig.invalidate h account t ≡ ok tt t'
    → h'.self ≡ h.self
    → Msig.exec h' proposer name executer t' ≡ ok tt u
    → (levels : List PermissionLevel) × (proposal : Proposal) × (find proposer name t'.proposals
        ≡ some proposal)
      × (pos 1 ≤ℤ h'.check_transaction_authorization proposal.packed_transaction levels)
      × All (λ l. l.actor ≢ account) levels
history_voids time h h' account proposer name executer t t' u r le =
    invalidate_voids h h' account proposer name executer t t' u (
      EveryRow-map (Timed time) (Timed h.now) t.approvals
        (λ s k a q. Before-mono time h.now a.provided_approvals le q) (Reach-TimedBy tt r))
