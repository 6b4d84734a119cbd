-- ===== src/Msig/State.antt =====
-- contracts/eosio.msig/include/eosio.msig/eosio.msig.hpp: the tables of the contract. A scope is a
-- proposer and a key the name of a proposal; an invalidation is filed under an account.
use cmcc_eosio_contracts.Common.{ℕ, List, [], ◌∷◌, ◌++◌, none, some}
use cmcc_eosio_contracts.Chain.Table.{Table, set_row, erase_row}
use cmcc_eosio_contracts.Chain.Action.{PermissionLevel, Action, ok, err, ⊤, update, emplace, taken}

-- The bytes of a serialized transaction.
abbrev pub Packed : Type 0
Packed = List ℕ

pub record Proposal : Type 0 where
  pub proposal_name : ℕ
  pub packed_transaction : Packed

pub record OldApprovalsInfo : Type 0 where
  pub proposal_name : ℕ
  pub requested_approvals : List PermissionLevel
  pub provided_approvals : List PermissionLevel

pub record Approval : Type 0 where
  pub level : PermissionLevel
  pub time : ℕ

pub record ApprovalsInfo : Type 0 where
  pub version : ℕ
  pub proposal_name : ℕ
  pub requested_approvals : List Approval
  pub provided_approvals : List Approval

pub record Invalidation : Type 0 where
  pub account : ℕ
  pub last_invalidation_time : ℕ

-- A transaction that the chain is asked to run later.
pub record Deferred : Type 0 where
  pub sender_id : ℕ
  pub payer : ℕ
  pub transaction : Packed

pub record Msig : Type 0 where
  pub proposals : Table Proposal
  pub old_approvals : Table OldApprovalsInfo
  pub approvals : Table ApprovalsInfo
  pub invalidations : Table Invalidation
  pub deferred : List Deferred

abbrev pub emplace_proposal : ℕ → ℕ → ℕ → Proposal → Action Msig ⊤
emplace_proposal s k payer r t = elim (emplace s k payer r t.proposals) [
  | none ↦ err taken
  | some rows ↦ ok tt (record t { proposals = rows })
]

abbrev pub emplace_approvals : ℕ → ℕ → ℕ → ApprovalsInfo → Action Msig ⊤
emplace_approvals s k payer r t = elim (emplace s k payer r t.approvals) [
  | none ↦ err taken
  | some rows ↦ ok tt (record t { approvals = rows })
]

abbrev pub emplace_invalidation : ℕ → ℕ → ℕ → Invalidation → Action Msig ⊤
emplace_invalidation s k payer r t = elim (emplace s k payer r t.invalidations) [
  | none ↦ err taken
  | some rows ↦ ok tt (record t { invalidations = rows })
]

abbrev pub modify_approvals : ℕ → ℕ → ℕ → ApprovalsInfo → Action Msig ⊤
modify_approvals s k payer r =
    update (λ t. record t { approvals = set_row s k payer r t.approvals })

abbrev pub modify_old_approvals : ℕ → ℕ → ℕ → OldApprovalsInfo → Action Msig ⊤
modify_old_approvals s k payer r =
    update (λ t. record t { old_approvals = set_row s k payer r t.old_approvals })

abbrev pub modify_invalidation : ℕ → ℕ → ℕ → Invalidation → Action Msig ⊤
modify_invalidation s k payer r =
    update (λ t. record t { invalidations = set_row s k payer r t.invalidations })

abbrev pub erase_proposal : ℕ → ℕ → Action Msig ⊤
erase_proposal s k = update (λ t. record t { proposals = erase_row s k t.proposals })

abbrev pub erase_approvals : ℕ → ℕ → Action Msig ⊤
erase_approvals s k = update (λ t. record t { approvals = erase_row s k t.approvals })

abbrev pub erase_old_approvals : ℕ → ℕ → Action Msig ⊤
erase_old_approvals s k = update (λ t. record t { old_approvals = erase_row s k t.old_approvals })

abbrev pub send_deferred : Deferred → Action Msig ⊤
send_deferred d = update (λ t. record t { deferred = t.deferred ++ d ∷ [] })
