-- ===== src/Msig/Actions.antt =====
-- contracts/eosio.msig/src/eosio.msig.cpp, action by action. What the contract asks of the chain and
-- of the serialization library is a record of functions, `MsigHost`.
use Prim.Native.Nat.{bit_or}
use cmcc_eosio_contracts.Common.{
  ℕ, ◌*◌, ◌^◌, ◌%◌, Bool, true, false, not, ◌&&◌, ◌||◌, Option, none, some, String, List, [], ◌∷◌,
  ◌++◌, map, ◌==◌, ltb, leb, if◌then◌else◌, is_some,
}
use cmcc_eosio_contracts.Common.Int.{ℤ, pos, ltb_ℤ}
use cmcc_eosio_contracts.Chain.Table.{Table, find}
use cmcc_eosio_contracts.Chain.Action.{
  Chain, PermissionLevel, Action, ⊤, pure, gets, or_abort, check, when, require_auth, ◌>>=◌, ◌>>◌,
}
use cmcc_eosio_contracts.Msig.State.{
  Packed, OldApprovalsInfo, Approval, ApprovalsInfo, Invalidation, Msig, emplace_proposal,
  emplace_approvals, emplace_invalidation, modify_approvals, modify_old_approvals,
  modify_invalidation, erase_proposal, erase_approvals, erase_old_approvals, send_deferred,
}

pub record MsigHost : Type 0 where
  pub chain : Chain
  pub open chain use *
  -- The `expiration` in the header of a serialized transaction, none where the bytes end too early.
  pub expiration : Packed → Option ℕ
  -- Positive where the levels authorize the transaction.
  pub check_transaction_authorization : Packed → List PermissionLevel → ℤ
  pub sha256 : Packed → ℕ

abbrev pub level_eq : PermissionLevel → PermissionLevel → Bool
level_eq a b = (a.actor == b.actor) && (a.permission == b.permission)

-- `std::find` of a level, and `erase` of what it found.
unfoldable pub has_level : PermissionLevel → List PermissionLevel → Bool
has_level l [] = false
has_level l (x ∷ xs) = level_eq x l || has_level l xs

unfoldable pub erase_level : PermissionLevel → List PermissionLevel → List PermissionLevel
erase_level l [] = []
erase_level l (x ∷ xs) = if level_eq x l then xs else x ∷ erase_level l xs

unfoldable pub has_approval : PermissionLevel → List Approval → Bool
has_approval l [] = false
has_approval l (x ∷ xs) = level_eq x.level l || has_approval l xs

unfoldable pub erase_approval : PermissionLevel → List Approval → List Approval
erase_approval l [] = []
erase_approval l (x ∷ xs) = if level_eq x.level l then xs else x ∷ erase_approval l xs

-- An approval counts if its account has not invalidated since.
unfoldable pub still_valid : Option Invalidation → ℕ → Bool
still_valid none time = true
still_valid (some it) time = ltb it.last_invalidation_time time

unfoldable pub valid_approvals : ℕ → Table Invalidation → List Approval → List PermissionLevel
unfolding still_valid
valid_approvals self invs [] = []
valid_approvals self invs (p ∷ ps) =
    let rest = valid_approvals self invs ps in
    if still_valid (find self p.level.actor invs) p.time then p.level ∷ rest else rest

unfoldable pub valid_old_approvals :
    ℕ → Table Invalidation → List PermissionLevel → List PermissionLevel
valid_old_approvals self invs [] = []
valid_old_approvals self invs (l ∷ ls) =
    let rest = valid_old_approvals self invs ls in
    if is_some (find self l.actor invs) then rest else l ∷ rest

-- The lambdas that `modify` and `emplace` run on a row of approvals.
abbrev pub new_approvals : ℕ → List PermissionLevel → ApprovalsInfo
new_approvals proposal_name requested = record {
  version = 1;
  proposal_name = proposal_name;
  requested_approvals = map (λ l. record { level = l; time = 0 }) requested;
  provided_approvals = [];
}

abbrev pub approved : ℕ → PermissionLevel → ApprovalsInfo → ApprovalsInfo
approved now level a = record a {
  provided_approvals = a.provided_approvals ++ record { level = level; time = now } ∷ [];
  requested_approvals = erase_approval level a.requested_approvals;
}

abbrev pub old_approved : PermissionLevel → OldApprovalsInfo → OldApprovalsInfo
old_approved level a = record a {
  provided_approvals = a.provided_approvals ++ level ∷ [];
  requested_approvals = erase_level level a.requested_approvals;
}

abbrev pub unapproved : ℕ → PermissionLevel → ApprovalsInfo → ApprovalsInfo
unapproved now level a = record a {
  requested_approvals = a.requested_approvals ++ record { level = level; time = now } ∷ [];
  provided_approvals = erase_approval level a.provided_approvals;
}

abbrev pub old_unapproved : PermissionLevel → OldApprovalsInfo → OldApprovalsInfo
old_unapproved level a = record a {
  requested_approvals = a.requested_approvals ++ level ∷ [];
  provided_approvals = erase_level level a.provided_approvals;
}

abbrev pub not_found : String
not_found = "proposal not found"

abbrev pub short : String
short = "datastream attempted to read past the end"

abbrev pub unlisted : String
unlisted = "approval is not on the list of requested approvals"

module _ (h : MsigHost) where
  abbrev pub now_sec : ℕ
  now_sec = h.to_sec h.now

  abbrev pub require_level : PermissionLevel → Action Msig ⊤
  require_level l = check (h.has_permission l) "missing authority"

  unfoldable pub propose : ℕ → ℕ → List PermissionLevel → Packed → Action Msig ⊤
  propose proposer proposal_name requested trx = do
    expiration ← or_abort (h.expiration trx) short
    require_auth h.chain proposer
    check (leb now_sec expiration) "transaction expired"
    existing ← gets (λ t. find proposer proposal_name t.proposals)
    check (not (is_some existing)) "proposal with the same name exists"
    check (ltb_ℤ (pos 0) (h.check_transaction_authorization trx requested))
        "transaction authorization failed"
    emplace_proposal proposer proposal_name proposer
        (record { proposal_name = proposal_name; packed_transaction = trx })
    emplace_approvals proposer proposal_name proposer (new_approvals proposal_name requested)

  abbrev pub check_hash : ℕ → ℕ → Option ℕ → Action Msig ⊤
  check_hash proposer proposal_name none = pure tt
  check_hash proposer proposal_name (some hash) = do
    prop ← or_abort (← gets (λ t. find proposer proposal_name t.proposals)) not_found
    check (h.sha256 prop.packed_transaction == hash) "hash mismatch"

  unfoldable pub approve_row : ℕ → ℕ → PermissionLevel → Option ApprovalsInfo → Action Msig ⊤
  approve_row proposer proposal_name level (some a) = do
    check (has_approval level a.requested_approvals) unlisted
    modify_approvals proposer proposal_name proposer (approved h.now level a)
  approve_row proposer proposal_name level none = do
    a ← or_abort (← gets (λ t. find proposer proposal_name t.old_approvals)) not_found
    check (has_level level a.requested_approvals) unlisted
    modify_old_approvals proposer proposal_name proposer (old_approved level a)

  unfoldable pub approve : ℕ → ℕ → PermissionLevel → Option ℕ → Action Msig ⊤
  unfolding approve_row
  approve proposer proposal_name level proposal_hash = do
    require_level level
    check_hash proposer proposal_name proposal_hash
    row ← gets (λ t. find proposer proposal_name t.approvals)
    approve_row proposer proposal_name level row

  unfoldable pub unapprove_row : ℕ → ℕ → PermissionLevel → Option ApprovalsInfo → Action Msig ⊤
  unapprove_row proposer proposal_name level (some a) = do
    check (has_approval level a.provided_approvals) "no approval previously granted"
    modify_approvals proposer proposal_name proposer (unapproved h.now level a)
  unapprove_row proposer proposal_name level none = do
    a ← or_abort (← gets (λ t. find proposer proposal_name t.old_approvals)) not_found
    check (has_level level a.provided_approvals) "no approval previously granted"
    modify_old_approvals proposer proposal_name proposer (old_unapproved level a)

  unfoldable pub unapprove : ℕ → ℕ → PermissionLevel → Action Msig ⊤
  unfolding unapprove_row
  unapprove proposer proposal_name level = do
    require_level level
    row ← gets (λ t. find proposer proposal_name t.approvals)
    unapprove_row proposer proposal_name level row

  -- The row of approvals goes, from the new table or else from the old one.
  unfoldable pub remove_approvals : ℕ → ℕ → Option ApprovalsInfo → Action Msig ⊤
  remove_approvals proposer proposal_name (some a) = erase_approvals proposer proposal_name
  remove_approvals proposer proposal_name none = do
    old ← gets (λ t. find proposer proposal_name t.old_approvals)
    check (is_some old) not_found
    erase_old_approvals proposer proposal_name

  unfoldable pub cancel : ℕ → ℕ → ℕ → Action Msig ⊤
  unfolding remove_approvals
  cancel proposer proposal_name canceler = do
    require_auth h.chain canceler
    prop ← or_abort (← gets (λ t. find proposer proposal_name t.proposals)) not_found
    when (not (canceler == proposer)) (do
      expiration ← or_abort (h.expiration prop.packed_transaction) short
      check (ltb expiration now_sec) "cannot cancel until expiration")
    erase_proposal proposer proposal_name
    row ← gets (λ t. find proposer proposal_name t.approvals)
    remove_approvals proposer proposal_name row

  -- The approvals that count, with the row that held them erased.
  unfoldable pub take_approvals : ℕ → ℕ → Option ApprovalsInfo → Action Msig (List PermissionLevel)
  take_approvals proposer proposal_name (some a) = do
    invs ← gets (λ t. t.invalidations)
    erase_approvals proposer proposal_name
    pure (valid_approvals h.self invs a.provided_approvals)
  take_approvals proposer proposal_name none = do
    a ← or_abort (← gets (λ t. find proposer proposal_name t.old_approvals)) not_found
    invs ← gets (λ t. t.invalidations)
    erase_old_approvals proposer proposal_name
    pure (valid_old_approvals h.self invs a.provided_approvals)

  unfoldable pub exec : ℕ → ℕ → ℕ → Action Msig ⊤
  unfolding take_approvals
  exec proposer proposal_name executer = do
    require_auth h.chain executer
    prop ← or_abort (← gets (λ t. find proposer proposal_name t.proposals)) not_found
    expiration ← or_abort (h.expiration prop.packed_transaction) short
    check (leb now_sec expiration) "transaction expired"
    row ← gets (λ t. find proposer proposal_name t.approvals)
    approvals ← take_approvals proposer proposal_name row
    check (ltb_ℤ (pos 0) (h.check_transaction_authorization prop.packed_transaction approvals))
        "transaction authorization failed"
    send_deferred (record {
      sender_id = bit_or (proposer * 2 ^ 64 % 2 ^ 128) proposal_name;
      payer = executer;
      transaction = prop.packed_transaction;
    })
    erase_proposal proposer proposal_name

  unfoldable pub invalidate : ℕ → Action Msig ⊤
  invalidate account = do
    require_auth h.chain account
    it ← gets (λ t. find h.self account t.invalidations)
    elim it [
      | none ↦
          emplace_invalidation h.self account account
            (record { account = account; last_invalidation_time = h.now })
      | some i ↦
          modify_invalidation h.self account account (record i { last_invalidation_time = h.now })
    ]
