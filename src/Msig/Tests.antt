-- ===== src/Msig/Tests.antt =====
-- Runs of the multi-signature contract, and its theorems at concrete states.
use Prim.Native.Nat.{bit_or}
use mathlib.Core.List.{Perm}
use cmcc_eosio_contracts.Common.{
  ℕ, ◌*◌, ◌^◌, ◌%◌, ◌++◌, ◌+◌, ◌≡◌, ◌≢◌, refl, List, [], ◌∷◌, none, some, arith, All,
}
use cmcc_eosio_contracts.Common.Int.{pos, ◌≤ℤ◌}
use cmcc_eosio_contracts.Chain.Table.{find, add_row, set_row, erase_row}
use cmcc_eosio_contracts.Chain.Action.{PermissionLevel, ok, err}
use cmcc_eosio_contracts.Sample.{chain}
use cmcc_eosio_contracts.Msig.{Packed, Msig, MsigHost, Proposal, Approval, ApprovalsInfo}
use cmcc_eosio_contracts.Msig
use cmcc_eosio_contracts.Msig.Pairing.{proposes, approves, dispatch, IsValid, dispatch-IsValid}
use cmcc_eosio_contracts.Msig.Lifecycle.{
  Life, starts, lives, propose-levels, Gone, Gone-rejects, exec-Gone, cancel_total,
}
use cmcc_eosio_contracts.Msig.Times.{Reach, here, next, empty, history_voids}

abbrev level : ℕ → PermissionLevel
level n = record { actor = n; permission = 0 }

-- A transaction is one byte long and never expires; it needs one level to be authorized.
abbrev authorizes : List PermissionLevel → ℕ
authorizes [] = 0
authorizes (l ∷ ls) = 1

abbrev host : MsigHost
host = record {
  chain = chain;
  expiration = λ trx. some 4000000000;
  check_transaction_authorization = λ trx levels. pos (authorizes levels);
  sha256 = λ trx. 0;
}

abbrev requested : List PermissionLevel
requested = level 3 ∷ level 4 ∷ []

abbrev trx : Packed
trx = 17 ∷ []

abbrev proposal : Proposal
proposal = record { proposal_name = 6; packed_transaction = trx }

abbrev with_approvals : List Approval → List Approval → Msig
with_approvals asked given = record empty {
  proposals = record { scope = 5; key = 6; payer = 5; row = proposal } ∷ [];
  approvals =
      record {
        scope = 5;
        key = 6;
        payer = 5;
        row = record {
          version = 1;
          proposal_name = 6;
          requested_approvals = asked;
          provided_approvals = given;
        };
      }
      ∷ [];
}

abbrev at : ℕ → ℕ → Approval
at time n = record { level = level n; time = time }

abbrev proposed : Msig
proposed = with_approvals (at 0 3 ∷ at 0 4 ∷ []) []

abbrev approved : Msig
approved = with_approvals (at 0 3 ∷ []) (at chain.now 4 ∷ [])

abbrev both : Msig
both = with_approvals [] (at chain.now 4 ∷ at chain.now 3 ∷ [])

propose_runs : Msig.propose host 5 6 requested trx empty ≡ ok tt proposed
unfolding Msig.propose find add_row
propose_runs = refl

approve_runs : Msig.approve host 5 6 (level 4) none proposed ≡ ok tt approved
unfolding Msig.approve Msig.has_approval Msig.erase_approval find set_row
approve_runs = refl

second_approval_runs : Msig.approve host 5 6 (level 3) none approved ≡ ok tt both
unfolding Msig.approve Msig.has_approval Msig.erase_approval find set_row
second_approval_runs = refl

unapprove_runs :
    Msig.unapprove host 5 6 (level 4) approved
    ≡ ok tt (with_approvals (at 0 3 ∷ at chain.now 4 ∷ []) [])
unfolding Msig.unapprove Msig.has_approval Msig.erase_approval find set_row
unapprove_runs = refl

abbrev executed : Msig
executed = record empty {
  deferred = record { sender_id = 5 * 2 ^ 64 + 6; payer = 9; transaction = trx } ∷ [];
}

exec_runs : Msig.exec host 5 6 9 approved ≡ ok tt executed
unfolding Msig.exec Msig.valid_approvals find erase_row
exec_runs = refl

exec_unapproved_aborts : Msig.exec host 5 6 9 proposed ≡ err "transaction authorization failed"
unfolding Msig.exec Msig.valid_approvals find erase_row
exec_unapproved_aborts = refl

empty-IsValid : IsValid empty
unfolding find
empty-IsValid = record {
  proposals_unique = tt;
  approvals_unique = tt;
  old_unique = tt;
  invalidations_unique = tt;
  pairing = λ s k. refl;
}

proposed-IsValid : IsValid proposed
unfolding dispatch
proposed-IsValid =
    dispatch-IsValid host (proposes 5 6 requested trx) empty proposed empty-IsValid propose_runs

approved-IsValid : IsValid approved
unfolding dispatch
approved-IsValid =
    dispatch-IsValid host (approves 5 6 (level 4) none) proposed approved proposed-IsValid
      approve_runs

abbrev approved_row : ApprovalsInfo
approved_row = record {
  version = 1;
  proposal_name = 6;
  requested_approvals = at 0 3 ∷ [];
  provided_approvals = at chain.now 4 ∷ [];
}

life : Life 5 6 proposed (Msig.new_approvals 6 requested) approved approved_row
unfolding dispatch find
life = lives (starts refl) host (approves 5 6 (level 4) none) approve_runs refl

propose-levels_example : Perm requested (level 3 ∷ level 4 ∷ [])
propose-levels_example =
    propose-levels host 5 6 requested trx empty proposed empty-IsValid propose_runs life

exec-Gone_example :
    ((prop : Proposal) × (find 5 6 approved.proposals ≡ some prop)
      × (executed.deferred
          ≡ approved.deferred
            ++ record {
              sender_id = bit_or (5 * 2 ^ 64 % 2 ^ 128) 6;
              payer = 9;
              transaction = prop.packed_transaction;
            }
              ∷ []))
    × Gone 5 6 executed
    × ((account : ℕ) (t'' : Msig) → Msig.exec host 5 6 account executed ≢ ok tt t'')
exec-Gone_example = exec-Gone host 5 6 9 approved executed approved-IsValid exec_runs

executed-Gone : Gone 5 6 executed
unfolding find
executed-Gone = (refl, refl, refl)

Gone-rejects_example :
    (Msig.approve host 5 6 (level 3) none executed ≢ ok tt empty)
    × (Msig.unapprove host 5 6 (level 3) executed ≢ ok tt empty)
    × (Msig.cancel host 5 6 9 executed ≢ ok tt empty)
    × (Msig.exec host 5 6 9 executed ≢ ok tt empty)
Gone-rejects_example = Gone-rejects host 5 6 executed empty (level 3) none 9 executed-Gone

cancel_total_example : (t' : Msig) × (Msig.cancel host 5 6 5 approved ≡ ok tt t') × Gone 5 6 t'
unfolding find
cancel_total_example = cancel_total host 5 6 approved proposal approved-IsValid refl refl

-- Account 4 invalidates: only the level of account 3 counts.
abbrev invalidated : Msig
invalidated = record both {
  invalidations =
      record {
        scope = 1;
        key = 4;
        payer = 4;
        row = record { account = 4; last_invalidation_time = chain.now };
      }
      ∷ [];
}

invalidate_runs : Msig.invalidate host 4 both ≡ ok tt invalidated
unfolding Msig.invalidate find add_row
invalidate_runs = refl

abbrev after : Msig
after = record executed { invalidations = invalidated.invalidations }

late_exec_runs : Msig.exec host 5 6 9 invalidated ≡ ok tt after
unfolding Msig.exec Msig.valid_approvals find erase_row
late_exec_runs = refl

reaches : Reach empty chain.now both
unfolding dispatch
reaches =
    next
      (next (next here host (proposes 5 6 requested trx) (omega arith) propose_runs chain.now refl)
        host (approves 5 6 (level 4) none) (omega arith) approve_runs chain.now refl)
      host (approves 5 6 (level 3) none) (omega arith) second_approval_runs chain.now refl

history_voids_example :
    (levels : List PermissionLevel) × (p : Proposal) × (find 5 6 invalidated.proposals ≡ some p)
    × (pos 1 ≤ℤ host.check_transaction_authorization p.packed_transaction levels)
    × All (λ l. l.actor ≢ 4) levels
history_voids_example =
    history_voids chain.now host host 4 5 6 9 both invalidated after reaches (omega arith)
      invalidate_runs refl late_exec_runs
