-- ===== src/System/Rex/Runs.antt =====
-- contracts/eosio.system/src/rex.cpp: `runrex`, its loops and the actions keep the sum of the pool.
use cmcc_eosio_contracts.Common.{
  ℕ, zero, suc, ◌≡◌, subst, sym, arith, Bool, true, Option, Option-cases, some, none, inl, inr,
}
use cmcc_eosio_contracts.Common.Int.{ℤ, pos, ltb_ℤ}
use cmcc_eosio_contracts.Chain.Table.{find, Entry}
use cmcc_eosio_contracts.Chain.Action.{Action, ok, ⊤, when, Result-cases, ◌>>=◌, >>=-ok}
use cmcc_eosio_contracts.System.State.{RexLoan, RexPool, RexOrder}
use cmcc_eosio_contracts.System.Tables.{System, least}
use cmcc_eosio_contracts.System.Host.{SystemHost, pool}
use cmcc_eosio_contracts.System.Rex.Pool.{remove_loan_from_rex_pool, get_bancor_output}
use cmcc_eosio_contracts.System.Rex.Fund.{transfer_to_fund}
use cmcc_eosio_contracts.System.Rex.Orders.{process_order, process_orders, next_order, first_order}
use cmcc_eosio_contracts.System.Rex.Loans.{
  Bandwidth, cpu_bandwidth, net_bandwidth, process_expired_loan, renew_loan, end_loan, settle_loan,
  update_renewed_loan, expire_loan, process_loans, by_expr, loans, channel_proceeds, runrex,
}
use cmcc_eosio_contracts.System.Rex.Frame.{transfer_to_fund-frame, update_resource_limits-frame}
use cmcc_eosio_contracts.System.Rex.Consistent.{Consistent, set_row-Consistent, find-Consistent}
use cmcc_eosio_contracts.System.Rex.Steps.{
  add_loan_to_rex_pool-Consistent, remove_loan_from_rex_pool-Consistent, channel_to_rex-Consistent,
  fill_rex_order-Consistent, close_order-Consistent,
}

module _ (h : SystemHost) where
  process_order-Consistent :
      (s s' : System) (owner : ℕ) (o : RexOrder)
      → Consistent s.rexpool
      → process_order h owner o s ≡ ok tt s'
      → Consistent s'.rexpool
  unfolding process_order
  process_order-Consistent s s' owner o c e =
      grind (arith, fill_rex_order-Consistent h, close_order-Consistent h)

  process_orders-Consistent :
      (max : ℕ) (at : Option ℕ) (s s' : System)
      → Consistent s.rexpool
      → process_orders h max at s ≡ ok tt s'
      → Consistent s'.rexpool
  unfolding process_orders
  process_orders-Consistent zero at s s' c e = ground arith
  process_orders-Consistent (suc n) none s s' c e = ground arith
  process_orders-Consistent (suc n) (some owner) s s' c e =
      elim (Option-cases (find h.self owner s.rexorders)) [
        | inl none_found ↦ ground arith
        | inr (o, f) ↦ elim (Result-cases (process_order h owner o s)) [
          | inl (u, s1, e1) ↦
              let c1 = process_order-Consistent s s1 owner o c e1 in
              let rest = process_orders-Consistent n (next_order h owner o s.rexorders) s1 s' c1 in
              grind (arith, rest)
          | inr (x, e1) ↦ ground arith
        ]
      ]

  renew_loan-Consistent :
      (kind : Bandwidth) (key : ℕ) (l : RexLoan) (z : ℤ) (s s' : System) (r : Bool × ℤ)
      → Consistent s.rexpool
      → renew_loan h kind key l z s ≡ ok r s'
      → Consistent s'.rexpool
  unfolding renew_loan update_renewed_loan
  renew_loan-Consistent cpu_bandwidth key l z s s' r c e =
      grind (arith, add_loan_to_rex_pool-Consistent h s)
  renew_loan-Consistent net_bandwidth key l z s s' r c e =
      grind (arith, add_loan_to_rex_pool-Consistent h s)

  end_loan-Consistent :
      (l : RexLoan) (s s' : System) (r : Bool × ℤ)
      → Consistent s.rexpool
      → end_loan h l s ≡ ok r s'
      → Consistent s'.rexpool
  unfolding end_loan
  end_loan-Consistent l s s' r c e = elim (Result-cases (transfer_to_fund h l.from l.balance s)) [
    | inl (u, s1, e1) ↦
        let c1 = subst Consistent (sym (transfer_to_fund-frame h s s1 l.from l.balance e1)) c in
        ground arith
    | inr (x, e1) ↦ ground arith
  ]

  settle_loan-Consistent :
      (kind : Bandwidth) (key : ℕ) (l : RexLoan) (s s' : System) (r : Bool × ℤ)
      → Consistent s.rexpool
      → settle_loan h kind key l s ≡ ok r s'
      → Consistent s'.rexpool
  unfolding settle_loan pool
  settle_loan-Consistent kind key l s s' r c e =
      let renew = λ (z : ℤ). renew_loan-Consistent kind key l z s s' r c in
      let end = end_loan-Consistent l s s' r c in
      elim (Option-cases (find h.self 0 s.rexpool)) [
        | inl none_found ↦ ground arith
        | inr (p, f) ↦
            let again =
              renew
                (get_bancor_output h p.total_rent.amount p.total_unlent.amount l.payment.amount) in
            ground (arith, again, end)
      ]

  process_expired_loan-Consistent :
      (kind : Bandwidth) (key : ℕ) (l : RexLoan) (s s' : System) (r : Bool × ℤ)
      → Consistent s.rexpool
      → process_expired_loan h kind key l s ≡ ok r s'
      → Consistent s'.rexpool
  unfolding process_expired_loan
  process_expired_loan-Consistent kind key l s s' r c e =
      let (u, s1, e1, r1) =
        >>=-ok (remove_loan_from_rex_pool h l) (λ u. settle_loan h kind key l) s e in
      settle_loan-Consistent kind key l s1 s' r (remove_loan_from_rex_pool-Consistent h s s1 c l e1)
        r1

  expire_loan-Consistent :
      (kind : Bandwidth) (x : Entry RexLoan) (s s' : System)
      → Consistent s.rexpool
      → expire_loan h kind x s ≡ ok tt s'
      → Consistent s'.rexpool
  unfolding expire_loan
  expire_loan-Consistent cpu_bandwidth x s s' c e =
      grind (arith, process_expired_loan-Consistent, update_resource_limits-frame h)
  expire_loan-Consistent net_bandwidth x s s' c e =
      grind (arith, process_expired_loan-Consistent, update_resource_limits-frame h)

  process_loans-Consistent :
      (kind : Bandwidth) (max : ℕ) (s s' : System)
      → Consistent s.rexpool
      → process_loans h kind max s ≡ ok tt s'
      → Consistent s'.rexpool
  unfolding process_loans
  process_loans-Consistent kind zero s s' c e = ground arith
  process_loans-Consistent kind (suc n) s s' c e =
      elim (Option-cases (least (λ e. true) (by_expr h) ((loans kind).get s))) [
        | inl none_found ↦ ground arith
        | inr (x, f) ↦ elim (Result-cases (expire_loan h kind x s)) [
          | inl (u, s1, e1) ↦
              let c1 = expire_loan-Consistent kind x s s1 c e1 in
              let rest = process_loans-Consistent kind n s1 s' c1 in grind (arith, rest)
          | inr (y, e1) ↦ ground arith
        ]
      ]

  channel_proceeds-Consistent :
      (p : RexPool) (s s' : System)
      → Consistent s.rexpool
      → channel_proceeds h p s ≡ ok tt s'
      → Consistent s'.rexpool
  unfolding channel_proceeds pool
  channel_proceeds-Consistent p s s' c e =
      grind (arith, channel_to_rex-Consistent h, set_row-Consistent, find-Consistent h.self 0)

  pub runrex-Consistent :
      (max : ℕ) (s s' : System)
      → Consistent s.rexpool
      → runrex h max s ≡ ok tt s'
      → Consistent s'.rexpool
  unfolding runrex pool
  runrex-Consistent max s s' c e = elim (Option-cases (find h.self 0 s.rexpool)) [
    | inl none_found ↦ ground arith
    | inr (p, f) ↦
        let (u1, s1, e1, r1) =
          >>=-ok (start p) (λ x. process_loans h cpu_bandwidth max >>= rest_after) s {b = tt}
            {s'' = s'} (ground arith) in
        let (u2, s2, e2, r2) = >>=-ok (process_loans h cpu_bandwidth max) rest_after s1 r1 in
        let (u3, s3, e3, r3) =
          >>=-ok (process_loans h net_bandwidth max)
            (λ x s. process_orders h max (first_order h s) s) s2 r2 in
        process_orders-Consistent max (first_order h s3) s3 s'
          (process_loans-Consistent net_bandwidth max s2 s3
            (process_loans-Consistent cpu_bandwidth max s1 s2 (start-Consistent p s s1 c e1) e2) e3)
          r3
  ]
    where
      start : RexPool → Action System ⊤
      start p = when (ltb_ℤ (pos 0) p.namebid_proceeds.amount) (channel_proceeds h p)

      rest_after : ⊤ → Action System ⊤
      rest_after u =
          process_loans h net_bandwidth max >>= λ x s. process_orders h max (first_order h s) s

      start-Consistent :
          (p : RexPool) (s s' : System)
          → Consistent s.rexpool
          → start p s ≡ ok tt s'
          → Consistent s'.rexpool
      start-Consistent p s s' c e = ground (arith, channel_proceeds-Consistent p s s' c)
