-- ===== src/System/Staking/Refunding.antt =====
-- contracts/eosio.system/src/delegate_bandwidth.cpp: what a change of a stake does to the refund that
-- is waited for.
use cmcc_eosio_contracts.Common.{
  ℕ, ◌<◌, ◌^◌, ◌≡◌, ◌∙◌, refl, ap, subst, subst₃, arith, Bool-cases, some, inl, inr, true,
}
use cmcc_eosio_contracts.Common.Int.{
  ℤ, pos, pos_part, neg_part, ◌+ℤ◌, ◌-ℤ◌, ◌≤ℤ◌, int_laws, int64_id, -ℤ_parts,
}
use cmcc_eosio_contracts.Chain.Asset.{Asset}
use cmcc_eosio_contracts.Chain.Table.{
  find, sum, set_row, erase_row, sum-set_row, sum-erase_row, find-set_row, EveryRow,
  set_row-EveryRow, erase_row-EveryRow, find-EveryRow,
}
use cmcc_eosio_contracts.Chain.Action.{ok, Result-cases}
use cmcc_eosio_contracts.System.State.{RefundRequest}
use cmcc_eosio_contracts.System.Tables.{System}
use cmcc_eosio_contracts.System.Host.{SystemHost}
use cmcc_eosio_contracts.System.Staking.Refunds.{
  RefundOutcome, take_part, reduced, store_refund, update_refund, refund_is_empty, negated,
}
use cmcc_eosio_contracts.System.Staking.Backed.{waiting_of, take_part_lem}

-- A request is kept under its owner.
abbrev pub Owned : ℕ → ℕ → RefundRequest → Type 0
Owned s k r = r.owner ≡ k

-- The refunds change by what is left of the deltas and the deltas, and nothing else changes.
pub record Refunded (s s' : System) (a b net cpu : Asset) : Type 0 where
  pub total :
      sum waiting_of s'.refunds +ℤ (a.amount +ℤ b.amount)
      ≡ sum waiting_of s.refunds +ℤ (net.amount +ℤ cpu.amount)
  pub net_rest : pos 0 ≤ℤ net.amount
  pub cpu_rest : pos 0 ≤ℤ cpu.amount
  pub same_delband : s'.delband ≡ s.delband
  pub same_events : s'.events ≡ s.events
  pub owned : EveryRow Owned s'.refunds

-- An int64_t whose opposite is one too.
abbrev pub Small : ℤ → Type 0
Small z = (pos_part z < 2 ^ 63) × (neg_part z < 2 ^ 63)

pub opposite-amount : (a : Asset) → Small a.amount → (negated a).amount ≡ pos 0 -ℤ a.amount
opposite-amount a r =
    let n = -ℤ_parts (pos 0) a.amount in
    int64_id (pos 0 -ℤ a.amount) (omega int_laws) (omega int_laws)

module _ (h : SystemHost) where
  empty_request :
      (n m : ℕ) (r : RefundRequest) → refund_is_empty r ≡ true → waiting_of n m r ≡ pos 0
  unfolding ◌+ℤ◌
  empty_request n m r e =
      let x : r.net_amount.amount ≡ pos 0 = ground arith in
      let y : r.cpu_amount.amount ≡ pos 0 = ground arith in rw (x, y) refl

  store_refund-sum :
      (n : ℕ) (r row : RefundRequest) (s s' : System) (u : Unit)
      → EveryRow Owned s.refunds
      → find n n s.refunds ≡ some r
      → row.owner ≡ n
      → store_refund h n row s ≡ ok u s'
      → (sum waiting_of s'.refunds +ℤ waiting_of n n r
          ≡ sum waiting_of s.refunds +ℤ waiting_of n n row)
        × EveryRow Owned s'.refunds
        × (s'.delband ≡ s.delband)
        × (s'.events ≡ s.events)
  unfolding store_refund
  store_refund-sum n r row s s' u o f k e =
      let written = set_row n n 0 row s.refunds in
      let l = sum-set_row waiting_of n n 0 row r s.refunds f in
      let own = set_row-EveryRow Owned n n 0 row s.refunds o k in
      elim (Bool-cases (refund_is_empty row)) [
        | inr x ↦
            let w : s'.refunds ≡ written = ground arith in
            (rw w l, rw w own, ground arith, ground arith)
        | inl x ↦
            let w : s'.refunds ≡ erase_row n n written = ground arith in
            let g : find n n written ≡ some row =
              ground (arith, find-set_row n n 0 n n row r s.refunds f) in
            let m = sum-erase_row waiting_of n n row written g in
            let z = empty_request n n row x in
            (
              rw w (
                  omega (
                    int_laws,
                    ap pos_part l,
                    ap neg_part l,
                    ap pos_part m,
                    ap neg_part m,
                    ap pos_part z,
                    ap neg_part z,
                  )),
              rw w (erase_row-EveryRow Owned n n written own),
              ground arith,
              ground arith,
            )
      ]

  -- What was taken from both parts, and what that leaves.
  parts-total :
      (a b rn rc n c n' c' before after : ℤ)
      → n +ℤ a ≡ rn +ℤ n'
      → c +ℤ b ≡ rc +ℤ c'
      → after +ℤ (rn +ℤ rc) ≡ before +ℤ (n +ℤ c)
      → after +ℤ (a +ℤ b) ≡ before +ℤ (n' +ℤ c')
  parts-total a b rn rc n c n' c' before after x y t = omega (
    int_laws,
    ap pos_part x,
    ap neg_part x,
    ap pos_part y,
    ap neg_part y,
    ap pos_part t,
    ap neg_part t,
  )

  stored-Refunded :
      (n : ℕ) (a b : Asset) (r : RefundRequest) (p q : Asset × Asset) (s s₃ : System) (u : Unit)
      → EveryRow Owned s.refunds
      → find n n s.refunds ≡ some r
      → p.0.amount +ℤ a.amount ≡ r.net_amount.amount +ℤ p.1.amount
      → q.0.amount +ℤ b.amount ≡ r.cpu_amount.amount +ℤ q.1.amount
      → pos 0 ≤ℤ p.1.amount
      → pos 0 ≤ℤ q.1.amount
      → store_refund h n (reduced h a b (p.0) (q.0) r) s ≡ ok u s₃
      → Refunded s s₃ a b (p.1) (q.1)
  unfolding reduced
  stored-Refunded n a b r p q s s₃ u o f x y x' y' e =
      let row = reduced h a b (p.0) (q.0) r in
      let own : row.owner ≡ n = find-EveryRow Owned n n r s.refunds o f in
      let (t, o', d, v) = store_refund-sum n r row s s₃ u o f own e in
      record {
        total =
            parts-total a.amount b.amount r.net_amount.amount r.cpu_amount.amount p.0.amount
              q.0.amount p.1.amount q.1.amount (sum waiting_of s.refunds)
              (sum waiting_of s₃.refunds) x y t;
        net_rest = x';
        cpu_rest = y';
        same_delband = d;
        same_events = v;
        owned = o';
      }

  pub update_refund-Refunded :
      (n : ℕ) (a b : Asset) (r : RefundRequest) (out : RefundOutcome) (s s' : System)
      → EveryRow Owned s.refunds
      → find n n s.refunds ≡ some r
      → update_refund h n a b r s ≡ ok out s'
      → Refunded s s' a b out.net_balance out.cpu_balance
  unfolding update_refund
  update_refund-Refunded n a b r out s s' o f e =
      elim (Result-cases (take_part h r.net_amount a s)) [
        | inr (m, x) ↦ ground arith
        | inl (p, s₁, x) ↦
            let (px, px', z) = take_part_lem h r.net_amount a p s s₁ x in
            elim (Result-cases (take_part h r.cpu_amount b s₁)) [
              | inr (m, y) ↦ ground arith
              | inl (q, s₂, y) ↦
                  let (qy, qy', z') = take_part_lem h r.cpu_amount b q s₁ s₂ y in
                  let row = reduced h a b (p.0) (q.0) r in
                  elim (Result-cases (store_refund h n row s₂)) [
                    | inr (m, w) ↦ ground arith
                    | inl (u, s₃, w) ↦
                        let w' = subst (λ t. store_refund h n row t ≡ ok u s₃) (z' ∙ z) w in
                        let k = stored-Refunded n a b r p q s s₃ u o f px qy px' qy' w' in
                        let r1 : s₃ ≡ s' = ground arith in
                        let r2 : p.1 ≡ out.net_balance = ground arith in
                        let r3 : q.1 ≡ out.cpu_balance = ground arith in
                        subst₃ (λ t x y. Refunded s t a b x y) r1 r2 r3 k
                  ]
            ]
      ]
