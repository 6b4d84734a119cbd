-- ===== src/System/Staking/Backed.antt =====
-- contracts/eosio.system/src/delegate_bandwidth.cpp: what the account eosio.stake owes, and what a
-- change of a delegation adds to it.
use cmcc_eosio_contracts.Common.{
  ℕ, ◌<◌, ◌≡◌, ◌∙◌, refl, ap, subst, arith, Option-cases, Bool-cases, some, inl, inr, true,
}
use cmcc_eosio_contracts.Common.Int.{
  ℤ, pos, pos_part, neg_part, ◌+ℤ◌, ◌-ℤ◌, ◌≤ℤ◌, int_laws, ltb_ℤ, int64_id, -ℤ_parts,
}
use cmcc_eosio_contracts.Chain.Asset.{Asset, in_range}
use cmcc_eosio_contracts.Chain.Table.{
  find, sum, add_row, set_row, erase_row, sum-add_row, sum-set_row, sum-erase_row, find-set_row,
  find-add_row,
}
use cmcc_eosio_contracts.Chain.Action.{ok, >>=-ok}
use cmcc_eosio_contracts.System.State.{DelegatedBandwidth, RefundRequest}
use cmcc_eosio_contracts.System.Tables.{System}
use cmcc_eosio_contracts.System.Host.{SystemHost}
use cmcc_eosio_contracts.System.Staking.Refunds.{take_part, split_left, negated}
use cmcc_eosio_contracts.System.Staking.Actions.{add_delegated, change_delegated, band_is_empty}

abbrev pub band_of : ℕ → ℕ → DelegatedBandwidth → ℤ
band_of s k d = d.net_weight.amount +ℤ d.cpu_weight.amount

abbrev pub waiting_of : ℕ → ℕ → RefundRequest → ℤ
waiting_of s k r = r.net_amount.amount +ℤ r.cpu_amount.amount

-- The stakes that stand and the refunds that are waited for.
unfoldable pub staked : System → ℤ
staked s = sum band_of s.delband +ℤ sum waiting_of s.refunds

module _ (h : SystemHost) where
  pub added : (a b c : Asset) → h.asset_add a b ≡ some c → c.amount ≡ a.amount +ℤ b.amount
  added a b c e = ground (arith, h.asset_add_lem a b)

  -- The row with the deltas is in the table.
  add_delegated-sum :
      (n m : ℕ) (a b : Asset) (d : DelegatedBandwidth) (s s' : System)
      → add_delegated h n m a b s ≡ ok d s'
      → (sum band_of s'.delband ≡ sum band_of s.delband +ℤ (a.amount +ℤ b.amount))
        × (find n m s'.delband ≡ some d)
  unfolding add_delegated
  add_delegated-sum n m a b d s s' e = elim (Option-cases (find n m s.delband)) [
    | inl f ↦
        let w : s'.delband ≡ add_row n m n d s.delband = ground arith in
        (
          rw (w, sum-add_row band_of n m n d s.delband) (ground arith),
          rw w (ground (arith, find-add_row n m n n m d s.delband f)),
        )
    | inr (x, f) ↦ elim (Option-cases (h.asset_add x.net_weight a)) [
      | inl p ↦ ground arith
      | inr (y, p) ↦ elim (Option-cases (h.asset_add x.cpu_weight b)) [
        | inl q ↦ ground arith
        | inr (z, q) ↦
            let w : s'.delband ≡ set_row n m 0 d s.delband = ground arith in
            let l = sum-set_row band_of n m 0 d x s.delband f in
            let v : d.net_weight.amount ≡ x.net_weight.amount +ℤ a.amount =
              ground (arith, added x.net_weight a y p) in
            let u : d.cpu_weight.amount ≡ x.cpu_weight.amount +ℤ b.amount =
              ground (arith, added x.cpu_weight b z q) in
            (
              rw w (
                  omega (
                    int_laws,
                    ap pos_part l,
                    ap neg_part l,
                    ap pos_part v,
                    ap neg_part v,
                    ap pos_part u,
                    ap neg_part u,
                  )),
              rw w (ground (arith, find-set_row n m 0 n m d x s.delband f)),
            )
      ]
    ]
  ]

  -- A row that is empty adds nothing.
  empty_band : (n m : ℕ) (d : DelegatedBandwidth) → band_is_empty d ≡ true → band_of n m d ≡ pos 0
  unfolding ◌+ℤ◌
  empty_band n m d e =
      let x : d.net_weight.amount ≡ pos 0 = ground arith in
      let y : d.cpu_weight.amount ≡ pos 0 = ground arith in rw (x, y) refl

  pub change_delegated-sum :
      (n m : ℕ) (a b : Asset) (s s' : System) (u : Unit)
      → change_delegated h n m a b s ≡ ok u s'
      → sum band_of s'.delband ≡ sum band_of s.delband +ℤ (a.amount +ℤ b.amount)
  unfolding change_delegated
  change_delegated-sum n m a b s s' u e =
      let (d, s₁, e₁, f₁) = >>=-ok (add_delegated h n m a b) _ s e in
      let (w, f) = add_delegated-sum n m a b d s s₁ e₁ in
      elim (Bool-cases (band_is_empty d)) [
        | inr x ↦ let r : s'.delband ≡ s₁.delband = ground arith in ap (sum band_of) r ∙ w
        | inl x ↦
            let r : s'.delband ≡ erase_row n m s₁.delband = ground arith in
            let l = sum-erase_row band_of n m d s₁.delband f in
            let z = empty_band n m d x in
            rw r (
              omega (
                int_laws,
                ap pos_part l,
                ap neg_part l,
                ap pos_part w,
                ap neg_part w,
                ap pos_part z,
                ap neg_part z,
              ))
      ]

  -- What is left of a refund and of a delta differ by as much as the refund and the delta did, and what
  -- is left of the delta is not negative.
  subtracted :
      (a b c : Asset)
      → h.asset_sub a b ≡ some c
      → (c.amount ≡ a.amount -ℤ b.amount) × (in_range c.amount ≡ true)
  subtracted a b c e = (ground (arith, h.asset_sub_lem a b), ground (arith, h.asset_sub_lem a b))

  pub negated-amount :
      (a : Asset) → in_range a.amount ≡ true → (negated a).amount ≡ pos 0 -ℤ a.amount
  negated-amount a r =
      let n = -ℤ_parts (pos 0) a.amount in
      int64_id (pos 0 -ℤ a.amount) (ground arith) (ground arith)

  pub left_over-sum :
      (r bal left : Asset)
      → h.asset_sub r bal ≡ some left
      → ((split_left bal left).0.amount +ℤ bal.amount ≡ r.amount +ℤ (split_left bal left).1.amount)
        × (pos 0 ≤ℤ (split_left bal left).1.amount)
  unfolding split_left
  left_over-sum r bal left e =
      let (d, range) = subtracted r bal left e in
      elim (Bool-cases (ltb_ℤ left.amount (pos 0))) [
        | inr x ↦ rw x (omega (int_laws, ap pos_part d, ap neg_part d), omega arith)
        | inl x ↦
            let n = negated-amount left range in
            let l : pos_part left.amount < neg_part left.amount = ground arith in
            rw x (
              omega (int_laws, ap pos_part d, ap neg_part d, ap pos_part n, ap neg_part n),
              omega (int_laws, ap pos_part n, ap neg_part n),
            )
      ]

  pub take_part_lem :
      (r bal : Asset) (p : Asset × Asset) (s s' : System)
      → take_part h r bal s ≡ ok p s'
      → (p.0.amount +ℤ bal.amount ≡ r.amount +ℤ p.1.amount) × (pos 0 ≤ℤ p.1.amount) × (s' ≡ s)
  unfolding take_part
  take_part_lem r bal p s s' e = elim (Option-cases (h.asset_sub r bal)) [
    | inl a ↦ ground arith
    | inr (left, a) ↦
        let w : split_left bal left ≡ p = ground arith in
        let (x, y) = left_over-sum r bal left a in
        (
          subst (λ q. q.0.amount +ℤ bal.amount ≡ r.amount +ℤ q.1.amount) w x,
          subst (λ q. pos 0 ≤ℤ q.1.amount) w y,
          ground arith,
        )
  ]
