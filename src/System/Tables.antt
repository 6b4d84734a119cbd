-- ===== src/System/Tables.antt =====
-- contracts/eosio.system: the state of the system contract, and what its actions do to a table.
use cmcc_eosio_contracts.Common.{
  ℕ, Bool, ◌&&◌, ◌||◌, Option, none, some, List, [], ◌∷◌, ◌++◌, String, ◌==◌, ltb, if◌then◌else◌,
}
use cmcc_eosio_contracts.Common.Int.{ℤ}
use cmcc_eosio_contracts.Chain.Asset.{Symbol, Asset}
use cmcc_eosio_contracts.Chain.Table.{Entry, Table, find, set_row, erase_row}
use cmcc_eosio_contracts.Chain.Action.{
  PermissionLevel, Action, ok, err, ⊤, update, emplace, taken, gets,
}
use cmcc_eosio_contracts.System.State.{
  BlockchainParameters, NameBid, BidRefund, GlobalState, GlobalState2, GlobalState3, ProducerInfo,
  ProducerInfo2, ProducerKey, VoterInfo, UserResources, DelegatedBandwidth, RefundRequest,
  ExchangeState, RexPool, RexFund, RexBalance, RexLoan, RexOrder, AbiHash,
}

-- What `get_resource_limits` of the chain tells of an account.
pub record Limits : Type 0 where
  pub ram : ℤ
  pub net : ℤ
  pub cpu : ℤ

-- What an action sends on: inline actions of the token contract and of rex.results, deferred
-- transactions, and what it tells the chain: a schedule of producers, parameters, and privileges.
pub data Event : Type 0 where
  sent_transfer : List PermissionLevel → ℕ → ℕ → Asset → String → Event
  sent_open : PermissionLevel → ℕ → Symbol → ℕ → Event
  sent_rent_result : Asset → Event
  sent_order_result : ℕ → Asset → Event
  deferred_bidrefund : ℕ → ℕ → ℕ → ℕ → Event
  canceled_deferred : ℕ → Event
  sent_issue : PermissionLevel → ℕ → Asset → String → Event
  sent_buy_result : Asset → Event
  sent_sell_result : Asset → Event
  deferred_refund : ℕ → ℕ → Event
  proposed_producers : List ProducerKey → Event
  set_parameters : BlockchainParameters → Event
  set_privileged : ℕ → ℕ → Event

-- The parameters of the chain are the base of the global state.
pub record System : Type 0 where
  pub parameters : BlockchainParameters
  pub gstate : GlobalState
  pub gstate2 : GlobalState2
  pub gstate3 : GlobalState3
  pub voters : Table VoterInfo
  pub producers : Table ProducerInfo
  pub producers2 : Table ProducerInfo2
  pub userres : Table UserResources
  pub delband : Table DelegatedBandwidth
  pub refunds : Table RefundRequest
  pub namebids : Table NameBid
  pub bidrefunds : Table BidRefund
  pub abihash : Table AbiHash
  pub rammarket : Table ExchangeState
  pub rexpool : Table RexPool
  pub rexfunds : Table RexFund
  pub rexbalance : Table RexBalance
  pub rexorders : Table RexOrder
  pub cpu_loans : Table RexLoan
  pub net_loans : Table RexLoan
  pub limits : ℕ → Limits
  pub events : List Event

-- A part of a state.
pub record Lens (S A : Type 0) : Type 0 where
  pub get : S → A
  pub put : A → S → S

module _ {S R : Type 0} (l : Lens S (Table R)) where
  abbrev pub find_in : ℕ → ℕ → Action S (Option R)
  find_in s k = gets (λ t. find s k (l.get t))

  abbrev pub emplace_in : ℕ → ℕ → ℕ → R → Action S ⊤
  emplace_in s k payer r t = elim (emplace s k payer r (l.get t)) [
    | none ↦ err taken
    | some rows ↦ ok tt (l.put rows t)
  ]

  abbrev pub modify_in : ℕ → ℕ → ℕ → R → Action S ⊤
  modify_in s k payer r = update (λ t. l.put (set_row s k payer r (l.get t)) t)

  abbrev pub erase_in : ℕ → ℕ → Action S ⊤
  erase_in s k = update (λ t. l.put (erase_row s k (l.get t)) t)

-- A secondary index: rows by a number, and then by primary key. `least above by t` is the first row
-- of those that `above` holds of.
module _ {R : Type 0} where
  abbrev pub before : (R → ℕ) → Entry R → Entry R → Bool
  before by a b = ltb (by a.row) (by b.row) || (by a.row == by b.row) && ltb a.key b.key

  abbrev earlier : (R → ℕ) → Entry R → Option (Entry R) → Entry R
  earlier by e none = e
  earlier by e (some x) = if before by x e then x else e

  unfoldable pub least : (Entry R → Bool) → (R → ℕ) → Table R → Option (Entry R)
  least above by [] = none
  least above by (e ∷ t) =
      let rest = least above by t in if above e then some (earlier by e rest) else rest

abbrev pub voters_table : Lens System (Table VoterInfo)
voters_table = record { get = λ s. s.voters; put = λ x s. record s { voters = x } }

abbrev pub producers_table : Lens System (Table ProducerInfo)
producers_table = record { get = λ s. s.producers; put = λ x s. record s { producers = x } }

abbrev pub producers2_table : Lens System (Table ProducerInfo2)
producers2_table = record { get = λ s. s.producers2; put = λ x s. record s { producers2 = x } }

abbrev pub delband_table : Lens System (Table DelegatedBandwidth)
delband_table = record { get = λ s. s.delband; put = λ x s. record s { delband = x } }

abbrev pub refunds_table : Lens System (Table RefundRequest)
refunds_table = record { get = λ s. s.refunds; put = λ x s. record s { refunds = x } }

abbrev pub userres_table : Lens System (Table UserResources)
userres_table = record { get = λ s. s.userres; put = λ x s. record s { userres = x } }

abbrev pub namebids_table : Lens System (Table NameBid)
namebids_table = record { get = λ s. s.namebids; put = λ x s. record s { namebids = x } }

abbrev pub bidrefunds_table : Lens System (Table BidRefund)
bidrefunds_table = record { get = λ s. s.bidrefunds; put = λ x s. record s { bidrefunds = x } }

abbrev pub abihash_table : Lens System (Table AbiHash)
abihash_table = record { get = λ s. s.abihash; put = λ x s. record s { abihash = x } }

abbrev pub rammarket_table : Lens System (Table ExchangeState)
rammarket_table = record { get = λ s. s.rammarket; put = λ x s. record s { rammarket = x } }

abbrev pub rexpool_table : Lens System (Table RexPool)
rexpool_table = record { get = λ s. s.rexpool; put = λ x s. record s { rexpool = x } }

abbrev pub rexfunds_table : Lens System (Table RexFund)
rexfunds_table = record { get = λ s. s.rexfunds; put = λ x s. record s { rexfunds = x } }

abbrev pub rexbalance_table : Lens System (Table RexBalance)
rexbalance_table = record { get = λ s. s.rexbalance; put = λ x s. record s { rexbalance = x } }

abbrev pub rexorders_table : Lens System (Table RexOrder)
rexorders_table = record { get = λ s. s.rexorders; put = λ x s. record s { rexorders = x } }

abbrev pub cpu_loans_table : Lens System (Table RexLoan)
cpu_loans_table = record { get = λ s. s.cpu_loans; put = λ x s. record s { cpu_loans = x } }

abbrev pub net_loans_table : Lens System (Table RexLoan)
net_loans_table = record { get = λ s. s.net_loans; put = λ x s. record s { net_loans = x } }

abbrev pub set_limits : ℕ → Limits → Action System ⊤
set_limits account l =
    update (λ s. record s { limits = λ n. if n == account then l else s.limits n })

abbrev pub emit : Event → Action System ⊤
emit e = update (λ s. record s { events = s.events ++ e ∷ [] })
