-- ===== src/System/Staking/Backing.antt =====
-- contracts/eosio.system/src/delegate_bandwidth.cpp: what a change of a stake transfers.
use cmcc_eosio_contracts.Common.{
  ℕ, ◌≡◌, ◌≢◌, ◌∙◌, refl, ap, subst₂, arith, Option-cases, Bool-cases, Bool, inl, inr, true, false,
  [], ◌∷◌, ◌++◌, ◌==◌,
}
use cmcc_eosio_contracts.Common.Int.{ℤ, pos, pos_part, neg_part, ◌+ℤ◌, ◌-ℤ◌, ◌≤ℤ◌, int_laws, ltb_ℤ}
use cmcc_eosio_contracts.Chain.Asset.{Asset}
use cmcc_eosio_contracts.Chain.Table.{sum, EveryRow}
use cmcc_eosio_contracts.Chain.Action.{ok, when, branch, pure, Result-cases}
use cmcc_eosio_contracts.System.Tables.{System, canceled_deferred, deferred_refund, sent_transfer}
use cmcc_eosio_contracts.System.Host.{SystemHost, send_transfer, active_permission}
use cmcc_eosio_contracts.System.Payments.{paid, paid_in, paid_in-append}
use cmcc_eosio_contracts.System.Staking.Refunds.{
  RefundOutcome, stake_account, change_refund, schedule_refund, refund_or_transfer, untouched,
}
use cmcc_eosio_contracts.System.Staking.Backed.{waiting_of, added}
use cmcc_eosio_contracts.System.Staking.Refunding.{Owned, Small}
use cmcc_eosio_contracts.System.Staking.Requests.{change_refund-Refunded}

abbrev pub received : System → ℤ
received s = paid_in stake_account s.events

nothing_more : (z : ℤ) → (z +ℤ (pos 0 -ℤ pos 0)) ≡ z
nothing_more z = omega int_laws

-- What eosio.stake receives is what the refunds and the deltas add up to.
pub record Moved (s s' : System) (a b : Asset) : Type 0 where
  pub total :
      received s' +ℤ sum waiting_of s.refunds
      ≡ received s +ℤ sum waiting_of s'.refunds +ℤ (a.amount +ℤ b.amount)
  pub same_delband : s'.delband ≡ s.delband
  pub owned : EveryRow Owned s'.refunds

module _ (h : SystemHost) where
  schedule-paid :
      (n : ℕ) (b : Bool) (s s' : System) (u : Unit)
      → schedule_refund h n b s ≡ ok u s'
      → (received s' ≡ received s) × (s'.refunds ≡ s.refunds) × (s'.delband ≡ s.delband)
  unfolding schedule_refund
  schedule-paid n true s s' u e =
      let c = canceled_deferred n in
      let d = deferred_refund n 259200 in
      let w : s'.events ≡ (s.events ++ c ∷ []) ++ d ∷ [] = ground arith in
      (
        rw
            (
              w,
              paid_in-append stake_account (s.events ++ c ∷ []) d,
              paid_in-append stake_account s.events c,
            )
            (omega int_laws),
        ground arith,
        ground arith,
      )
  schedule-paid n false s s' u e =
      let c = canceled_deferred n in
      let w : s'.events ≡ s.events ++ c ∷ [] = ground arith in
      (rw (w, paid_in-append stake_account s.events c) (omega int_laws), ground arith, ground arith)

  -- A transfer of what is not negative, which is left out if it is nothing.
  transfer-paid :
      (source : ℕ) (amount : Asset) (s s' : System) (u : Unit)
      → source ≢ stake_account
      → pos 0 ≤ℤ amount.amount
      → when
          (ltb_ℤ (pos 0) amount.amount)
          (send_transfer (source ∷ []) source stake_account amount "stake bandwidth")
          s
        ≡ ok u s'
      → (received s' ≡ received s +ℤ amount.amount)
        × (s'.refunds ≡ s.refunds)
        × (s'.delband ≡ s.delband)
  transfer-paid source amount s s' u other p e = elim (Bool-cases (ltb_ℤ (pos 0) amount.amount)) [
    | inr x ↦
        let z : amount.amount ≡ pos 0 = ground arith in
        let w : s'.events ≡ s.events = ground arith in
        (rw (w, z) (omega int_laws), ground arith, ground arith)
    | inl x ↦
        let t =
          sent_transfer (record { actor = source; permission = active_permission } ∷ []) source
            stake_account amount "stake bandwidth" in
        let w : s'.events ≡ s.events ++ t ∷ [] = ground arith in
        let miss : (source == stake_account) ≡ false = ground arith in
        let q : paid stake_account t ≡ amount.amount -ℤ pos 0 = rw miss refl in
        (
          rw (w, paid_in-append stake_account s.events t, q) (omega int_laws),
          ground arith,
          ground arith,
        )
  ]

  -- The deltas that are left, before anything is transferred.
  record Left (s s' : System) (a b : Asset) (out : RefundOutcome) : Type 0 where
    left_total :
        sum waiting_of s'.refunds +ℤ (a.amount +ℤ b.amount)
        ≡ sum waiting_of s.refunds +ℤ (out.net_balance.amount +ℤ out.cpu_balance.amount)
    left_rest : pos 0 ≤ℤ (out.net_balance.amount +ℤ out.cpu_balance.amount)
    left_delband : s'.delband ≡ s.delband
    left_events : s'.events ≡ s.events
    left_owned : EveryRow Owned s'.refunds

  remaining_deltas :
      (n : ℕ) (a b : Asset) (t : Bool) (out : RefundOutcome) (s s' : System)
      → Small a.amount
      → Small b.amount
      → EveryRow Owned s.refunds
      → (t ≡ false → pos 0 ≤ℤ (a.amount +ℤ b.amount))
      → branch t (change_refund h n a b) (pure (untouched a b)) s ≡ ok out s'
      → Left s s' a b out
  remaining_deltas n a b true out s s' sa sb o p e =
      let r = change_refund-Refunded h n a b out s s' sa sb o e in
      let x = r.net_rest in
      let y = r.cpu_rest in
      record {
        left_total = r.total;
        left_rest = omega int_laws;
        left_delband = r.same_delband;
        left_events = r.same_events;
        left_owned = r.owned;
      }
  remaining_deltas n a b false out s s' sa sb o p e =
      let same : s ≡ s' = ground arith in
      let w : untouched a b ≡ out = ground arith in
      subst₂ (λ t x. Left s t a b x) same w
        (record {
          left_total = refl;
          left_rest = p refl;
          left_delband = refl;
          left_events = refl;
          left_owned = o;
        })

  moved-total :
      (before after left waiting waiting' delta amount : ℤ)
      → waiting' +ℤ delta ≡ waiting +ℤ left
      → amount ≡ left
      → after ≡ before +ℤ amount
      → after +ℤ waiting ≡ before +ℤ waiting' +ℤ delta
  moved-total before after left waiting waiting' delta amount x y z = omega (
    int_laws,
    ap pos_part x,
    ap neg_part x,
    ap pos_part y,
    ap neg_part y,
    ap pos_part z,
    ap neg_part z,
  )

  pub refund_or_transfer-Moved :
      (source n : ℕ) (a b : Asset) (t : Bool) (s s' : System) (u : Unit)
      → source ≢ stake_account
      → Small a.amount
      → Small b.amount
      → EveryRow Owned s.refunds
      → (t ≡ false → pos 0 ≤ℤ (a.amount +ℤ b.amount))
      → refund_or_transfer h source n a b t s ≡ ok u s'
      → Moved s s' a b
  unfolding refund_or_transfer
  refund_or_transfer-Moved source n a b t s s' u other sa sb o p e =
      elim (Result-cases (branch t (change_refund h n a b) (pure (untouched a b)) s)) [
        | inr (m, x) ↦ ground arith
        | inl (out, s₁, x) ↦
            let l = remaining_deltas n a b t out s s₁ sa sb o p x in
            elim (Result-cases (schedule_refund h n out.need_deferred_trx s₁)) [
              | inr (m, y) ↦ ground arith
              | inl (v, s₂, y) ↦
                  let (r1, r2, r3) = schedule-paid n out.need_deferred_trx s₁ s₂ v y in
                  elim (Option-cases (h.asset_add out.net_balance out.cpu_balance)) [
                    | inl z ↦ ground arith
                    | inr (amount, z) ↦
                        let w = added h out.net_balance out.cpu_balance amount z in
                        let (q1, q2, q3) =
                          transfer-paid source amount s₂ s' u other (rw w l.left_rest)
                            (ground arith) in
                        let same : received s₁ ≡ received s =
                          ap (paid_in stake_account) l.left_events in
                        let waits = ap (sum waiting_of) (q2 ∙ r2) in
                        record {
                          total =
                              moved-total (received s) (received s')
                                (out.net_balance.amount +ℤ out.cpu_balance.amount)
                                (sum waiting_of s.refunds) (sum waiting_of s'.refunds)
                                (a.amount +ℤ b.amount) amount.amount (rw waits l.left_total) w
                                (q1 ∙ ap (λ z. z +ℤ amount.amount) (r1 ∙ same));
                          same_delband = q3 ∙ (r3 ∙ l.left_delband);
                          owned = rw (q2 ∙ r2) l.left_owned;
                        }
                  ]
            ]
      ]
