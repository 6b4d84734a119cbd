-- ===== src/System/Staking/Requests.antt =====
-- contracts/eosio.system/src/delegate_bandwidth.cpp: a refund that is new, and what a change of a stake
-- transfers.
use cmcc_eosio_contracts.Common.{
  ℕ, ◌≡◌, refl, ap, subst, subst₂, subst₃, arith, Option-cases, Bool-cases, some, inl, inr, ◌||◌,
}
use cmcc_eosio_contracts.Common.Int.{ℤ, pos, pos_part, neg_part, ◌+ℤ◌, ◌≤ℤ◌, int_laws, ltb_ℤ}
use cmcc_eosio_contracts.Chain.Asset.{Symbol, Asset}
use cmcc_eosio_contracts.Chain.Table.{find, sum, add_row, sum-add_row, EveryRow, add_row-EveryRow}
use cmcc_eosio_contracts.Chain.Action.{ok, Result-cases}
use cmcc_eosio_contracts.System.State.{RefundRequest}
use cmcc_eosio_contracts.System.Tables.{System}
use cmcc_eosio_contracts.System.Host.{SystemHost, core_symbol, zero_core, market_key}
use cmcc_eosio_contracts.System.Staking.Refunds.{
  RefundOutcome, new_part, create_refund, change_refund, negated, emptied,
}
use cmcc_eosio_contracts.System.Staking.Backed.{waiting_of}
use cmcc_eosio_contracts.System.Staking.Refunding.{
  Owned, Refunded, Small, opposite-amount, update_refund-Refunded,
}

module _ (h : SystemHost) where
  created-total :
      (a b n c n' c' before after : ℤ)
      → n +ℤ a ≡ pos 0 +ℤ n'
      → c +ℤ b ≡ pos 0 +ℤ c'
      → after ≡ before +ℤ (n +ℤ c)
      → after +ℤ (a +ℤ b) ≡ before +ℤ (n' +ℤ c')
  created-total a b n c n' c' before after x y t = omega (
    int_laws,
    ap pos_part x,
    ap neg_part x,
    ap pos_part y,
    ap neg_part y,
    ap pos_part t,
    ap neg_part t,
  )

  made_zero : (a : Asset) (s : Symbol) → h.make_asset (pos 0) s ≡ some a → a.amount ≡ pos 0
  made_zero a s e = ground (arith, h.make_asset_lem (pos 0) s)

  zero_core-zero :
      (a : Asset) (s s' : System) → zero_core h s ≡ ok a s' → (a.amount ≡ pos 0) × (s' ≡ s)
  unfolding core_symbol
  zero_core-zero a s s' e = elim (Option-cases (find h.self market_key s.rammarket)) [
    | inl m ↦ ground arith
    | inr (row, m) ↦
        let z = made_zero a row.quote.balance.symbol in (ground (arith, z), ground arith)
  ]

  new_part_lem :
      (a : Asset) (p : Asset × Asset) (s s' : System)
      → Small a.amount
      → new_part h a s ≡ ok p s'
      → (p.0.amount +ℤ a.amount ≡ pos 0 +ℤ p.1.amount) × (pos 0 ≤ℤ p.1.amount) × (s' ≡ s)
  unfolding new_part
  new_part_lem a p s s' small e = elim (Bool-cases (ltb_ℤ a.amount (pos 0))) [
    | inl x ↦
        let w : (negated a, emptied a) ≡ p = ground arith in
        let n = opposite-amount a small in
        (
          subst (λ q. q.0.amount +ℤ a.amount ≡ pos 0 +ℤ q.1.amount) w
              (omega (int_laws, ap pos_part n, ap neg_part n)),
          subst (λ q. pos 0 ≤ℤ q.1.amount) w (omega arith),
          ground arith,
        )
    | inr x ↦ elim (Result-cases (zero_core h s)) [
      | inr (m, y) ↦ ground arith
      | inl (z, s₁, y) ↦
          let (zero_amount, same) = zero_core-zero z s s₁ y in
          let w : (z, a) ≡ p = ground arith in
          (
            subst (λ q. q.0.amount +ℤ a.amount ≡ pos 0 +ℤ q.1.amount) w
                (omega (int_laws, ap pos_part zero_amount, ap neg_part zero_amount)),
            subst (λ q. pos 0 ≤ℤ q.1.amount) w (ground arith),
            ground arith,
          )
    ]
  ]

  create_refund-Refunded :
      (n : ℕ) (a b : Asset) (out : RefundOutcome) (s s' : System)
      → Small a.amount
      → Small b.amount
      → EveryRow Owned s.refunds
      → create_refund h n a b s ≡ ok out s'
      → Refunded s s' a b out.net_balance out.cpu_balance
  unfolding create_refund
  create_refund-Refunded n a b out s s' sa sb o e = elim (Result-cases (new_part h a s)) [
    | inr (m, x) ↦ ground arith
    | inl (p, s₁, x) ↦
        let (px, px', z) = new_part_lem a p s s₁ sa x in
        elim (Result-cases (new_part h b s₁)) [
          | inr (m, y) ↦ ground arith
          | inl (q, s₂, y) ↦
              let (qy, qy', z') = new_part_lem b q s₁ s₂ sb y in
              elim (Option-cases (find n n s.refunds)) [
                | inr (r, f) ↦ ground arith
                | inl f ↦
                    let row : RefundRequest = record {
                      owner = n;
                      request_time = h.to_sec h.now;
                      net_amount = p.0;
                      cpu_amount = q.0;
                    } in
                    let w : s'.refunds ≡ add_row n n n row s.refunds = ground arith in
                    let l = sum-add_row waiting_of n n n row s.refunds in
                    let w1 : p.1 ≡ out.net_balance = ground arith in
                    let w2 : q.1 ≡ out.cpu_balance = ground arith in
                    let t : sum waiting_of s'.refunds
                        ≡ sum waiting_of s.refunds +ℤ (p.0.amount +ℤ q.0.amount) =
                      rw w l in
                    subst₂ (λ x y. Refunded s s' a b x y) w1 w2
                      (record {
                        total =
                            created-total a.amount b.amount p.0.amount q.0.amount p.1.amount
                              q.1.amount (sum waiting_of s.refunds) (sum waiting_of s'.refunds) px
                              qy t;
                        net_rest = px';
                        cpu_rest = qy';
                        same_delband = ground arith;
                        same_events = ground arith;
                        owned = rw w (add_row-EveryRow Owned n n n row s.refunds o refl);
                      })
              ]
        ]
  ]

  pub change_refund-Refunded :
      (n : ℕ) (a b : Asset) (out : RefundOutcome) (s s' : System)
      → Small a.amount
      → Small b.amount
      → EveryRow Owned s.refunds
      → change_refund h n a b s ≡ ok out s'
      → Refunded s s' a b out.net_balance out.cpu_balance
  unfolding change_refund
  change_refund-Refunded n a b out s s' sa sb o e = elim (Option-cases (find n n s.refunds)) [
    | inr (r, f) ↦ update_refund-Refunded h n a b r out s s' o f (ground arith)
    | inl f ↦ elim (Bool-cases (ltb_ℤ a.amount (pos 0) || ltb_ℤ b.amount (pos 0))) [
      | inl x ↦ create_refund-Refunded n a b out s s' sa sb o (ground arith)
      | inr x ↦
          let same : s ≡ s' = ground arith in
          let w1 : a ≡ out.net_balance = ground arith in
          let w2 : b ≡ out.cpu_balance = ground arith in
          subst₃ (λ t x y. Refunded s t a b x y) same w1 w2
            (record {
              total = refl;
              net_rest = ground arith;
              cpu_rest = ground arith;
              same_delband = refl;
              same_events = refl;
              owned = o;
            })
    ]
  ]
