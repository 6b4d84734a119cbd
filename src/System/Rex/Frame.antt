-- ===== src/System/Rex/Frame.antt =====
-- contracts/eosio.system/src/rex.cpp: steps of the exchange that leave the pool alone.
use cmcc_eosio_contracts.Common.{ℕ, ◌≡◌, arith, some, inl, inr}
use cmcc_eosio_contracts.Common.Int.{ℤ}
use cmcc_eosio_contracts.Chain.Asset.{Symbol, Asset}
use cmcc_eosio_contracts.Chain.Action.{ok, Result-cases}
use cmcc_eosio_contracts.Chain.Table.{find}
use cmcc_eosio_contracts.System.State.{RexLoan, RexPool, UserResources}
use cmcc_eosio_contracts.System.Tables.{System}
use cmcc_eosio_contracts.System.Host.{SystemHost, core_symbol, pool}
use cmcc_eosio_contracts.System.Resources.{add_deltas, apply_limits, update_resource_limits}
use cmcc_eosio_contracts.System.Rex.Fund.{transfer_from_fund, transfer_to_fund}
use cmcc_eosio_contracts.System.Rex.Loans.{Bandwidth, own_loan}

module _ (h : SystemHost) (s s' : System) where
  -- Reading the core symbol or the pool changes nothing.
  pub core_symbol-frame : (c : Symbol) → core_symbol h s ≡ ok c s' → s' ≡ s
  unfolding core_symbol
  core_symbol-frame c e = ground arith

  pub pool-frame :
      (p : RexPool) → pool h s ≡ ok p s' → (s' ≡ s) × (find h.self 0 s.rexpool ≡ some p)
  unfolding pool
  pool-frame p e = ground arith

module _ (h : SystemHost) (s s' : System) where
  pub transfer_from_fund-frame :
      (owner : ℕ) (amount : Asset)
      → transfer_from_fund h owner amount s ≡ ok tt s'
      → s'.rexpool ≡ s.rexpool
  unfolding transfer_from_fund core_symbol
  transfer_from_fund-frame owner amount e = ground arith

  pub transfer_to_fund-frame :
      (owner : ℕ) (amount : Asset)
      → transfer_to_fund h owner amount s ≡ ok tt s'
      → s'.rexpool ≡ s.rexpool
  unfolding transfer_to_fund core_symbol
  transfer_to_fund-frame owner amount e = ground arith

  add_deltas-frame :
      (from receiver : ℕ) (net cpu : ℤ) (r : UserResources)
      → add_deltas h from receiver net cpu s ≡ ok r s'
      → s'.rexpool ≡ s.rexpool
  unfolding add_deltas core_symbol
  add_deltas-frame from receiver net cpu r e = ground arith

  apply_limits-frame :
      (receiver : ℕ) (r : UserResources)
      → apply_limits h receiver r s ≡ ok tt s'
      → s'.rexpool ≡ s.rexpool
  unfolding apply_limits
  apply_limits-frame receiver r e = ground arith

  pub own_loan-frame :
      (kind : Bandwidth) (from n : ℕ) (l : RexLoan) → own_loan h kind from n s ≡ ok l s' → s' ≡ s
  unfolding own_loan
  own_loan-frame kind from n l e = ground arith

pub update_resource_limits-frame :
    (h : SystemHost) (s s' : System) (from receiver : ℕ) (net cpu : ℤ)
    → update_resource_limits h from receiver net cpu s ≡ ok tt s'
    → s'.rexpool ≡ s.rexpool
unfolding update_resource_limits
update_resource_limits-frame h s s' from receiver net cpu e =
    elim (Result-cases (add_deltas h from receiver net cpu s)) [
      | inl (r, s1, e1) ↦ elim (Result-cases (apply_limits h receiver r s1)) [
        | inl (u, s2, e2) ↦
            let f1 = add_deltas-frame h s s1 from receiver net cpu r e1 in
            let f2 = apply_limits-frame h s1 s2 receiver r e2 in ground arith
        | inr (x, e2) ↦ ground arith
      ]
      | inr (x, e1) ↦ ground arith
    ]
