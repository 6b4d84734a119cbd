-- ===== src/System/Staking/Calls.antt =====
-- contracts/eosio.system/src/delegate_bandwidth.cpp: any history of stakes and refunds is backed.
use cmcc_eosio_contracts.Common.{ℕ, ◌≡◌, ◌≢◌, All, Bool, List, [], ◌∷◌, inl, inr, arith, false}
use cmcc_eosio_contracts.Common.Int.{ℤ, pos, negsuc, pos_part, neg_part, ◌-ℤ◌}
use cmcc_eosio_contracts.Chain.Asset.{Asset}
use cmcc_eosio_contracts.Chain.Action.{Action, ok, err, ⊤, Result-cases}
use cmcc_eosio_contracts.Chain.Keeps.{Keeps}
use cmcc_eosio_contracts.System.Tables.{System}
use cmcc_eosio_contracts.System.Host.{SystemHost, core_symbol}
use cmcc_eosio_contracts.System.Keeping.{step_laws}
use cmcc_eosio_contracts.System.Staking.Refunds.{stake_account, refund, negated}
use cmcc_eosio_contracts.System.Staking.Actions.{changebw, delegatebw, undelegatebw}
use cmcc_eosio_contracts.System.Staking.Refunding.{Small, opposite-amount}
use cmcc_eosio_contracts.System.Staking.Stakes.{Stakes, changebw-Stakes}
use cmcc_eosio_contracts.System.Staking.Repaid.{refund-Keeps}

-- A call of an action.
pub data StakeCall : Type 0 where
  call_delegatebw : ℕ → ℕ → Asset → Asset → Bool → StakeCall
  call_undelegatebw : ℕ → ℕ → Asset → Asset → StakeCall
  call_refund : ℕ → StakeCall

unfoldable pub stake_dispatch : SystemHost → StakeCall → Action System ⊤
stake_dispatch h (call_delegatebw from receiver net cpu transfer) =
    delegatebw h from receiver net cpu transfer
stake_dispatch h (call_undelegatebw from receiver net cpu) = undelegatebw h from receiver net cpu
stake_dispatch h (call_refund owner) = refund h owner

-- Amounts are those of int64_t that have an opposite, and eosio.stake stakes nothing itself.
abbrev pub FitsStake : StakeCall → Type 0
FitsStake (call_delegatebw from receiver net cpu transfer) =
    (from ≢ stake_account) × Small net.amount × Small cpu.amount
FitsStake (call_undelegatebw from receiver net cpu) =
    (from ≢ stake_account) × Small net.amount × Small cpu.amount
FitsStake (call_refund owner) = owner ≢ stake_account

-- A history: each call with the chain that it runs on. A call that aborts changes nothing.
unfoldable pub stake_history : List (SystemHost × StakeCall) → System → System
stake_history [] s = s
stake_history (x ∷ xs) s = elim (stake_dispatch x.0 x.1 s) [
  | ok u s' ↦ stake_history xs s'
  | err e ↦ stake_history xs s
]

opposite : (z : ℤ) → (pos_part (pos 0 -ℤ z) ≡ neg_part z) × (neg_part (pos 0 -ℤ z) ≡ pos_part z)
unfolding ◌-ℤ◌
opposite (pos n) = (ground arith, ground arith)
opposite (negsuc n) = (ground arith, ground arith)

negated-Small : (a : Asset) → Small a.amount → Small (negated a).amount
negated-Small a r =
    let n = opposite-amount a r in let (x, y) = opposite a.amount in (rw (n, x) r.1, rw (n, y) r.0)

module _ (h : SystemHost) where
  changebw-Keeps :
      (n m : ℕ) (a b : Asset) (t : Bool)
      → n ≢ stake_account
      → Small a.amount
      → Small b.amount
      → Keeps Stakes (changebw h n m a b t)
  changebw-Keeps n m a b t o sa sb = record {
    kept = λ s s' u c e. changebw-Stakes h n m a b t s s' u o sa sb c e;
  }

  core-Keeps : Keeps Stakes (core_symbol h)
  unfolding core_symbol
  core-Keeps = search step_laws

  delegates :
      {P : System → Type 0} (a b : Asset) (n m : ℕ) (t : Bool)
      → Keeps P (core_symbol h)
      → Keeps P (changebw h n m a b t)
      → Keeps P (delegatebw h n m a b t)
  unfolding delegatebw
  delegates a b n m t x y = search step_laws depth 40 fits 4000

  undelegates :
      {P : System → Type 0} (a b : Asset) (n m : ℕ)
      → Keeps P (core_symbol h)
      → Keeps P (changebw h n m (negated a) (negated b) false)
      → Keeps P (undelegatebw h n m a b)
  unfolding undelegatebw
  undelegates a b n m x y = search step_laws depth 40 fits 4000

  delegatebw-Keeps :
      (n m : ℕ) (a b : Asset) (t : Bool)
      → n ≢ stake_account
      → Small a.amount
      → Small b.amount
      → Keeps Stakes (delegatebw h n m a b t)
  delegatebw-Keeps n m a b t o sa sb =
      delegates a b n m t core-Keeps (changebw-Keeps n m a b t o sa sb)

  undelegatebw-Keeps :
      (n m : ℕ) (a b : Asset)
      → n ≢ stake_account
      → Small a.amount
      → Small b.amount
      → Keeps Stakes (undelegatebw h n m a b)
  undelegatebw-Keeps n m a b o sa sb =
      let sa' = negated-Small a sa in
      let sb' = negated-Small b sb in
      undelegates a b n m core-Keeps (changebw-Keeps n m (negated a) (negated b) false o sa' sb')

  stake_dispatch-Keeps : (call : StakeCall) → FitsStake call → Keeps Stakes (stake_dispatch h call)
  unfolding stake_dispatch
  stake_dispatch-Keeps (call_delegatebw from receiver net cpu transfer) (o, sa, sb) =
      delegatebw-Keeps from receiver net cpu transfer o sa sb
  stake_dispatch-Keeps (call_undelegatebw from receiver net cpu) (o, sa, sb) =
      undelegatebw-Keeps from receiver net cpu o sa sb
  stake_dispatch-Keeps (call_refund owner) f = refund-Keeps h owner f

-- If eosio.stake was brought what is staked and what is waited for, and each request for a refund stands
-- under its owner's name, then this is so after any history of delegations, undelegations and refunds
-- whose amounts have an opposite in an int64_t and that eosio.stake itself does not call.
pub stake_history-Stakes :
    (calls : List (SystemHost × StakeCall)) (s : System)
    → All (λ x. FitsStake (x.1)) calls
    → Stakes s
    → Stakes (stake_history calls s)
unfolding stake_history
stake_history-Stakes [] s w c = c
stake_history-Stakes (x ∷ xs) s w c = elim (Result-cases (stake_dispatch x.0 x.1 s)) [
  | inl (u, s1, e) ↦
      let c1 = (stake_dispatch-Keeps x.0 x.1 w.0).kept s s1 u c e in
      rw (e, stake_history) (stake_history-Stakes xs s1 w.1 c1)
  | inr (y, e) ↦ rw (e, stake_history) (stake_history-Stakes xs s w.1 c)
]
