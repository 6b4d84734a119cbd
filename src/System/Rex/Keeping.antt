-- ===== src/System/Rex/Keeping.antt =====
-- contracts/eosio.system/src/rex.cpp: the steps of its actions as rules for `search`: each keeps the
-- sum of the pool.
use cmcc_eosio_contracts.Common.{ℕ, ◌≡◌, refl, subst, sym, arith, Bool}
use cmcc_eosio_contracts.Common.Int.{ℤ, pos}
use cmcc_eosio_contracts.Chain.Asset.{Asset}
use cmcc_eosio_contracts.Chain.Action.{Action, ok}
use cmcc_eosio_contracts.Chain.Keeps.{
  Keeps, >>-Keeps, >>=-Keeps, check-Keeps, gets-Keeps, or_abort-Keeps, pure-Keeps, update-Keeps,
  when-Keeps,
}
use cmcc_eosio_contracts.System.State.{RexLoan}
use cmcc_eosio_contracts.System.Tables.{
  System, Event, emit, emplace_in, modify_in, erase_in, rexorders_table,
}
use cmcc_eosio_contracts.System.Host.{SystemHost, core_symbol, pool}
use cmcc_eosio_contracts.System.Rex.Pool.{add_loan_to_rex_pool}
use cmcc_eosio_contracts.System.Rex.Fund.{transfer_from_fund, transfer_to_fund}
use cmcc_eosio_contracts.System.Rex.Loans.{
  Bandwidth, cpu_bandwidth, net_bandwidth, loans, runrex, own_loan, update_bandwidth,
}
use cmcc_eosio_contracts.System.Rex.Frame.{
  core_symbol-frame, pool-frame, transfer_to_fund-frame, transfer_from_fund-frame,
  update_resource_limits-frame, own_loan-frame,
}
use cmcc_eosio_contracts.System.Rex.Consistent.{Consistent}
use cmcc_eosio_contracts.System.Rex.Steps.{add_loan_to_rex_pool-Consistent}
use cmcc_eosio_contracts.System.Rex.Runs.{runrex-Consistent}

unfoldable pub PoolSums : System → Type 0
PoolSums s = Consistent s.rexpool

-- What leaves the table of the pool alone keeps its sum.
pub frame-Keeps :
    {A : Type 0} {m : Action System A}
    → ((s s' : System) (a : A) → m s ≡ ok a s' → s'.rexpool ≡ s.rexpool)
    → Keeps PoolSums m
unfolding PoolSums
frame-Keeps f = record { kept = λ s s' a c e. subst Consistent (sym (f s s' a e)) c }

pub emit-Keeps : (e : Event) → Keeps PoolSums (emit e)
emit-Keeps e = frame-Keeps (λ s s' a e. ground arith)

module _ (h : SystemHost) where
  pub core_symbol-Keeps : Keeps PoolSums (core_symbol h)
  core_symbol-Keeps = frame-Keeps (λ s s' a e. rw (core_symbol-frame h s s' a e) refl)

  pub pool-Keeps : Keeps PoolSums (pool h)
  pool-Keeps = frame-Keeps (λ s s' a e. rw ((pool-frame h s s' a e).0) refl)

  pub own_loan-Keeps : (kind : Bandwidth) (from n : ℕ) → Keeps PoolSums (own_loan h kind from n)
  own_loan-Keeps kind from n =
      frame-Keeps (λ s s' a e. rw (own_loan-frame h s s' kind from n a e) refl)

  pub transfer_to_fund-Keeps : (owner : ℕ) (a : Asset) → Keeps PoolSums (transfer_to_fund h owner a)
  transfer_to_fund-Keeps owner a = frame-Keeps (λ s s' u e. transfer_to_fund-frame h s s' owner a e)

  pub transfer_from_fund-Keeps :
      (owner : ℕ) (a : Asset) → Keeps PoolSums (transfer_from_fund h owner a)
  transfer_from_fund-Keeps owner a =
      frame-Keeps (λ s s' u e. transfer_from_fund-frame h s s' owner a e)

  pub update_bandwidth-Keeps :
      (kind : Bandwidth) (from receiver : ℕ) (z : ℤ)
      → Keeps PoolSums (update_bandwidth h kind from receiver z)
  update_bandwidth-Keeps cpu_bandwidth from receiver z =
      frame-Keeps (λ s s' u e. update_resource_limits-frame h s s' from receiver (pos 0) z e)
  update_bandwidth-Keeps net_bandwidth from receiver z =
      frame-Keeps (λ s s' u e. update_resource_limits-frame h s s' from receiver z (pos 0) e)

  pub add_loan_to_rex_pool-Keeps :
      (payment : Asset) (z : ℤ) (b : Bool) → Keeps PoolSums (add_loan_to_rex_pool h payment z b)
  unfolding PoolSums
  add_loan_to_rex_pool-Keeps payment z b = record {
    kept = λ s s' u c e. add_loan_to_rex_pool-Consistent h s s' c payment z b e;
  }

  pub runrex-Keeps : (max : ℕ) → Keeps PoolSums (runrex h max)
  unfolding PoolSums
  runrex-Keeps max = record { kept = λ s s' u c e. runrex-Consistent h max s s' c e }

pub emplace_in-Keeps :
    (kind : Bandwidth) (s k payer : ℕ) (r : RexLoan)
    → Keeps PoolSums (emplace_in (loans kind) s k payer r)
emplace_in-Keeps cpu_bandwidth s k payer r = frame-Keeps (λ s s' u e. ground arith)
emplace_in-Keeps net_bandwidth s k payer r = frame-Keeps (λ s s' u e. ground arith)

pub modify_in-Keeps :
    (kind : Bandwidth) (s k payer : ℕ) (r : RexLoan)
    → Keeps PoolSums (modify_in (loans kind) s k payer r)
modify_in-Keeps cpu_bandwidth s k payer r = frame-Keeps (λ s s' u e. ground arith)
modify_in-Keeps net_bandwidth s k payer r = frame-Keeps (λ s s' u e. ground arith)

pub erase_order-Keeps : (s k : ℕ) → Keeps PoolSums (erase_in rexorders_table s k)
erase_order-Keeps s k = frame-Keeps (λ s s' u e. ground arith)

pub ruleset keeps_laws = (
  >>-Keeps, >>=-Keeps, check-Keeps, gets-Keeps, or_abort-Keeps, pure-Keeps, when-Keeps, emit-Keeps,
  core_symbol-Keeps, pool-Keeps, own_loan-Keeps, transfer_to_fund-Keeps, transfer_from_fund-Keeps,
  update_bandwidth-Keeps, add_loan_to_rex_pool-Keeps, runrex-Keeps, emplace_in-Keeps,
  modify_in-Keeps, erase_order-Keeps,
)
