-- ===== src/System/Staking/Stakes.antt =====
-- contracts/eosio.system/src/delegate_bandwidth.cpp: the account eosio.stake has what was staked and
-- what is waited for.
use cmcc_eosio_contracts.Common.{
  ℕ, ◌≡◌, ◌≢◌, ◌∙◌, refl, ap, subst, subst₂, arith, Option-cases, Bool, some, inl, inr, false, ◌==◌,
  ◌&&◌, ◌||◌, not, if◌then◌else◌,
}
use cmcc_eosio_contracts.Common.Int.{
  ℤ, pos, pos_part, neg_part, ◌+ℤ◌, ◌≤ℤ◌, int_laws, ltb_ℤ, int64_id,
}
use cmcc_eosio_contracts.Chain.Asset.{Asset}
use cmcc_eosio_contracts.Chain.Table.{sum, EveryRow}
use cmcc_eosio_contracts.Chain.Action.{Action, ⊤, require_auth, ◌>>=◌, ◌>>◌, when, ok, >>=-ok}
use cmcc_eosio_contracts.Chain.Keeps.{Keeps}
use cmcc_eosio_contracts.System.Tables.{System}
use cmcc_eosio_contracts.System.Host.{SystemHost, ◌+64◌, core_symbol, pool}
use cmcc_eosio_contracts.System.Keeping.{step_laws}
use cmcc_eosio_contracts.System.Payments.{paid_in}
use cmcc_eosio_contracts.System.Rex.Stake.{revalue, add_stake, update_rex_stake}
use cmcc_eosio_contracts.System.Voting.Quiet.{IgnoresVotes, quiet_voting_power}
use cmcc_eosio_contracts.System.Staking.Power.{update_voting_power}
use cmcc_eosio_contracts.System.Staking.Refunds.{stake_account, refund_or_transfer}
use cmcc_eosio_contracts.System.Staking.Actions.{
  plus, change_delegated, add_delegated, change_totals, add_totals, apply_totals, check_deltas,
  changebw,
}
use cmcc_eosio_contracts.System.Staking.Backed.{band_of, waiting_of, staked, change_delegated-sum}
use cmcc_eosio_contracts.System.Staking.Refunding.{Owned, Small}
use cmcc_eosio_contracts.System.Staking.Backing.{received, Moved, refund_or_transfer-Moved}

pub record Stakes (s : System) : Type 0 where
  pub backed : staked s ≡ received s
  pub owned : EveryRow Owned s.refunds

or_false : (x y : Bool) → (x || y) ≡ false → y ≡ false
or_false x y e = ground arith

-- The sums before and after a delegation changes and what is left of it is transferred.
step_sum :
    (band band' wait wait' had has delta : ℤ)
    → band +ℤ wait ≡ had
    → band' ≡ band +ℤ delta
    → has +ℤ wait ≡ had +ℤ wait' +ℤ delta
    → band' +ℤ wait' ≡ has
step_sum band band' wait wait' had has delta x y z = omega (
  int_laws,
  ap pos_part x,
  ap neg_part x,
  ap pos_part y,
  ap neg_part y,
  ap pos_part z,
  ap neg_part z,
)

module _ (h : SystemHost) where
  unfoldable Kept : System → System → Type 0
  Kept b s = (s.refunds ≡ b.refunds) × (s.events ≡ b.events)

  delegated-Kept :
      (b : System) (n m : ℕ) (x y : Asset) → Keeps (Kept b) (change_delegated h n m x y)
  unfolding Kept change_delegated add_delegated
  delegated-Kept b n m x y = search step_laws depth 40 fits 4000

  unfoldable pub All3 : System → System → Type 0
  All3 b s = (s.refunds ≡ b.refunds) × (s.events ≡ b.events) × (s.delband ≡ b.delband)

  pub totals-All3 : (b : System) (n m : ℕ) (x y : Asset) → Keeps (All3 b) (change_totals h n m x y)
  unfolding All3 change_totals add_totals apply_totals
  totals-All3 b n m x y = search step_laws depth 40 fits 8000

  pub deltas-All3 : (b : System) (x y : Asset) → Keeps (All3 b) (check_deltas h x y)
  unfolding All3 check_deltas
  deltas-All3 b x y = search step_laws depth 40 fits 4000

  stake-All3 : (b : System) (n : ℕ) → Keeps (All3 b) (update_rex_stake h n)
  unfolding All3 update_rex_stake revalue add_stake core_symbol pool
  stake-All3 b n = search step_laws depth 60 fits 8000

  ignores : (b : System) → IgnoresVotes (All3 b)
  unfolding All3
  ignores b = record {
    put_voters = λ x s p. p;
    put_producers = λ x s p. p;
    put_producers2 = λ x s p. p;
    put_gstate = λ g s p. p;
    put_gstate2 = λ g s p. p;
    put_gstate3 = λ g s p. p;
  }

  pub auth-All3 : (b : System) (n : ℕ) → Keeps (All3 b) (require_auth h.chain n)
  auth-All3 b n = search step_laws

  abbrev pub weighed : ℕ → Asset → Asset → Action System ⊤
  weighed n x y = do update_rex_stake h n; total ← plus h x y; update_voting_power h n total.amount

  pub weighed-All3 : (b : System) (n : ℕ) (x y : Asset) → Keeps (All3 b) (weighed n x y)
  weighed-All3 b n x y =
      search (step_laws, stake-All3, quiet_voting_power h (ignores b)) depth 30 fits 4000

  -- A sum that can be computed and is not negative when it is computed in an int64_t.
  fits-positive :
      (a b c : Asset)
      → h.asset_add a b ≡ some c
      → ltb_ℤ (a.amount +64 b.amount) (pos 0) ≡ false
      → pos 0 ≤ℤ (a.amount +ℤ b.amount)
  fits-positive a b c e l =
      let w : a.amount +64 b.amount ≡ a.amount +ℤ b.amount =
        int64_id (a.amount +ℤ b.amount) (ground (arith, h.asset_add_lem a b))
          (ground (arith, h.asset_add_lem a b)) in
      ground arith

  weighed-fits :
      (n : ℕ) (a b : Asset) (s s' : System) (u : Unit)
      → weighed n a b s ≡ ok u s'
      → ltb_ℤ (a.amount +64 b.amount) (pos 0) ≡ false
      → pos 0 ≤ℤ (a.amount +ℤ b.amount)
  weighed-fits n a b s s' u e l =
      let (u1, s1, e1, f1) = >>=-ok (update_rex_stake h n) _ s e in
      elim (Option-cases (h.asset_add a b)) [
        | inl x ↦ ground arith
        | inr (c, x) ↦ fits-positive a b c x l
      ]

  joined :
      (s s1 s2 s3 s4 s' : System) (a b : Asset)
      → Stakes s
      → All3 s s1
      → Kept s1 s2
      → sum band_of s2.delband ≡ sum band_of s1.delband +ℤ (a.amount +ℤ b.amount)
      → All3 s2 s3
      → (EveryRow Owned s3.refunds → Moved s3 s4 a b)
      → All3 s4 s'
      → Stakes s'
  unfolding All3 Kept staked
  joined s s1 s2 s3 s4 s' a b st (r1, v1, d1) (r2, v2) w (r3, v3, d3) g (r5, v5, d5) =
      let same : s3.refunds ≡ s.refunds = r3 ∙ (r2 ∙ r1) in
      let m = g (rw same st.owned) in
      let had : received s3 ≡ received s = ap (paid_in stake_account) (v3 ∙ (v2 ∙ v1)) in
      let bands : sum band_of s3.delband ≡ sum band_of s.delband +ℤ (a.amount +ℤ b.amount) =
        ap (sum band_of) d3 ∙ (w ∙ ap (λ x. sum band_of x +ℤ (a.amount +ℤ b.amount)) d1) in
      let moved = m.total in
      let total : received s4 +ℤ sum waiting_of s.refunds
          ≡ received s +ℤ sum waiting_of s4.refunds +ℤ (a.amount +ℤ b.amount) =
        subst₂
          (λ x y.
            received s4 +ℤ sum waiting_of x
            ≡ y +ℤ sum waiting_of s4.refunds +ℤ (a.amount +ℤ b.amount))
          same had moved in
      let at4 : sum band_of s4.delband +ℤ sum waiting_of s4.refunds ≡ received s4 =
        step_sum (sum band_of s.delband) (sum band_of s4.delband) (sum waiting_of s.refunds)
          (sum waiting_of s4.refunds) (received s) (received s4) (a.amount +ℤ b.amount) st.backed
          (ap (sum band_of) m.same_delband ∙ bands) total in
      record { backed = rw (d5, r5, v5) at4; owned = rw r5 m.owned }

  pub changebw-Stakes :
      (n m : ℕ) (a b : Asset) (t : Bool) (s s' : System) (u : Unit)
      → n ≢ stake_account
      → Small a.amount
      → Small b.amount
      → Stakes s
      → changebw h n m a b t s ≡ ok u s'
      → Stakes s'
  unfolding changebw Kept All3
  changebw-Stakes n m a b t s s' u other sa sb st e =
      let from = if t then m else n in
      let (u0, s0, e0, f0) = >>=-ok (require_auth h.chain n) _ s e in
      let (u1, s1, e1, f1) = >>=-ok (check_deltas h a b) _ s0 f0 in
      let (u2, s2, e2, f2) = >>=-ok (change_delegated h from m a b) _ s1 f1 in
      let (u3, s3, e3, f3) = >>=-ok (change_totals h from m a b) _ s2 f2 in
      let (u4, s4, e4, f4) = >>=-ok (when (not (stake_account == n)) _) _ s3 f3 in
      let k0 = (auth-All3 s n).kept s s0 u0 (refl, refl, refl) e0 in
      let k1 = (deltas-All3 s a b).kept s0 s1 u1 k0 e1 in
      let k2 = (delegated-Kept s1 from m a b).kept s1 s2 u2 (refl, refl) e2 in
      let k3 = (totals-All3 s2 from m a b).kept s2 s3 u3 (refl, refl, refl) e3 in
      let k5 = (weighed-All3 s4 from a b).kept s4 s' u (refl, refl, refl) f4 in
      let sums = change_delegated-sum h from m a b s1 s2 u2 e2 in
      let fits = weighed-fits from a b s4 s' u f4 in
      let miss : (stake_account == n) ≡ false = ground arith in
      let transferred =
        subst
          (λ c.
            when (not c)
              (refund_or_transfer h n from a b
                (not t && from == m || ltb_ℤ (a.amount +64 b.amount) (pos 0)))
              s3
            ≡ ok u4 s4)
          miss e4 in
      joined s s1 s2 s3 s4 s' a b st k1 k2 sums k3
        (λ o.
          refund_or_transfer-Moved h n from a b _ s3 s4 u4 other sa sb o
            (λ x. fits (or_false _ _ x)) transferred)
        k5
