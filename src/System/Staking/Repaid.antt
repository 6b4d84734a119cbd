-- ===== src/System/Staking/Repaid.antt =====
-- contracts/eosio.system/src/delegate_bandwidth.cpp: a refund takes from eosio.stake what was waited for.
use cmcc_eosio_contracts.Common.{
  ℕ, ◌≡◌, ◌≢◌, [], ◌∷◌, ◌++◌, ◌==◌, refl, ap, inl, inr, arith, true, false, Option-cases,
}
use cmcc_eosio_contracts.Common.Int.{ℤ, pos, pos_part, neg_part, ◌+ℤ◌, ◌-ℤ◌, int_laws}
use cmcc_eosio_contracts.Chain.Table.{
  find, sum, find-EveryRow, erase_row, erase_row-EveryRow, sum-erase_row,
}
use cmcc_eosio_contracts.Chain.Keeps.{Keeps}
use cmcc_eosio_contracts.System.Tables.{sent_transfer}
use cmcc_eosio_contracts.System.Host.{SystemHost, active_permission}
use cmcc_eosio_contracts.System.Payments.{paid, paid_in-append}
use cmcc_eosio_contracts.System.Staking.Refunds.{stake_account, refund}
use cmcc_eosio_contracts.System.Staking.Backed.{band_of, waiting_of, staked, added}
use cmcc_eosio_contracts.System.Staking.Refunding.{Owned}
use cmcc_eosio_contracts.System.Staking.Backing.{received}
use cmcc_eosio_contracts.System.Staking.Stakes.{Stakes}

refunded-sum :
    (band wait wait' had has amount row : ℤ)
    → band +ℤ wait ≡ had
    → wait' +ℤ row ≡ wait
    → amount ≡ row
    → has ≡ had +ℤ (pos 0 -ℤ amount)
    → band +ℤ wait' ≡ has
refunded-sum band wait wait' had has amount row x y z w = omega (
  int_laws,
  ap pos_part x,
  ap neg_part x,
  ap pos_part y,
  ap neg_part y,
  ap pos_part z,
  ap neg_part z,
  ap pos_part w,
  ap neg_part w,
)

module _ (h : SystemHost) where
  pub refund-Keeps : (n : ℕ) → n ≢ stake_account → Keeps Stakes (refund h n)
  unfolding refund staked
  refund-Keeps n o = record {
    kept = λ s s' u c e. elim (Option-cases (find n n s.refunds)) [
      | inl x ↦ ground arith
      | inr (r, x) ↦ elim (Option-cases (h.asset_add r.net_amount r.cpu_amount)) [
        | inl y ↦ ground arith
        | inr (amount, y) ↦
            let own = find-EveryRow Owned n n r s.refunds c.owned x in
            let w : amount.amount ≡ waiting_of n n r = added h r.net_amount r.cpu_amount amount y in
            let t =
              sent_transfer
                (record { actor = stake_account; permission = active_permission }
                  ∷ record { actor = r.owner; permission = active_permission }
                  ∷ [])
                stake_account r.owner amount "unstake" in
            let e1 : s'.events ≡ s.events ++ t ∷ [] = ground arith in
            let d1 : s'.delband ≡ s.delband = ground arith in
            let r1 : s'.refunds ≡ erase_row n n s.refunds = ground arith in
            let miss : (r.owner == stake_account) ≡ false = ground arith in
            let hit : (stake_account == stake_account) ≡ true = refl in
            let q : paid stake_account t ≡ pos 0 -ℤ amount.amount = rw miss refl in
            let has : received s' ≡ received s +ℤ (pos 0 -ℤ amount.amount) =
              rw (e1, paid_in-append stake_account s.events t, q) refl in
            record {
              backed =
                  rw (d1, r1)
                    (refunded-sum (sum band_of s.delband) (sum waiting_of s.refunds)
                      (sum waiting_of (erase_row n n s.refunds)) (received s) (received s')
                      amount.amount (waiting_of n n r) c.backed
                      (sum-erase_row waiting_of n n r s.refunds x) w has);
              owned = rw r1 (erase_row-EveryRow Owned n n s.refunds c.owned);
            }
      ]
    ];
  }
