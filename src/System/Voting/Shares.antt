-- ===== src/System/Voting/Shares.antt =====
-- contracts/eosio.system/src/voting.cpp: the weight of a stake, and the shares of the pay for votes.
use cmcc_eosio_contracts.Common.{ℕ, ◌+◌, ◌-◌, ◌/◌, Bool, not, ◌&&◌, if◌then◌else◌, ltb, leb}
use cmcc_eosio_contracts.Common.Int.{ℤ, pos}
use cmcc_eosio_contracts.Chain.Action.{Action, ⊤, pure, on_row, gets, update, ◌>>=◌, ◌>>◌}
use cmcc_eosio_contracts.System.Float.{Double, zero_double}
use cmcc_eosio_contracts.System.State.{GlobalState3, ProducerInfo, ProducerInfo2}
use cmcc_eosio_contracts.System.Tables.{System, find_in, modify_in, producers2_table}
use cmcc_eosio_contracts.System.Host.{SystemHost, ◌-64◌, days}
use cmcc_eosio_contracts.System.Ram.{set_gstate2, quot}

-- The doubles 2.0, 52.0 and 1E6.
abbrev pub two_double : Double
two_double = 0x4000000000000000

abbrev weeks_per_year : Double
weeks_per_year = 0x404a000000000000

abbrev million : Double
million = 0x412e848000000000

abbrev pub set_gstate3 : GlobalState3 → Action System ⊤
set_gstate3 g = update (λ s. record s { gstate3 = g })

-- What the loop over the producers of a vote adds up.
pub record Accrual : Type 0 where
  pub delta_change_rate : Double
  pub total_inactive_vpay_share : Double

abbrev pub no_accrual : Accrual
no_accrual = record { delta_change_rate = zero_double; total_inactive_vpay_share = zero_double }

module _ (h : SystemHost) where
  -- The weeks since the epoch, in years.
  unfoldable pub stake2vote : ℤ → Double
  stake2vote staked =
      let weeks = quot (pos (h.to_sec h.now) -64 pos (h.block_timestamp_epoch / 1000)) 604800 in
      let weight = h.floats.div (h.floats.of_int weeks) weeks_per_year in
      h.floats.mul (h.floats.of_int staked) (h.floats.pow two_double weight)

  -- A rate over the time between two points, the second of which is later.
  abbrev over : Double → ℕ → ℕ → Double
  over rate from to = h.floats.mul rate (h.floats.div (h.floats.of_int (pos (to - from))) million)

  -- A sum with a delta that does not fall below 0.
  unfoldable pub bounded_add : Double → Double → Double
  bounded_add total delta =
      if h.floats.lt delta zero_double && h.floats.lt total (h.floats.neg delta)
      then zero_double
      else h.floats.add total delta

  unfoldable pub update_total_votepay_share : ℕ → Double → Double → Action System Double
  update_total_votepay_share ct additional_shares_delta shares_rate_delta = do
    g2 ← gets (λ s. s.gstate2)
    g3 ← gets (λ s. s.gstate3)
    let accrued =
        if ltb g3.last_vpay_state_update ct
        then over g3.total_vpay_share_change_rate g3.last_vpay_state_update ct
        else zero_double
    let share =
        bounded_add g2.total_producer_votepay_share (h.floats.add accrued additional_shares_delta)
    set_gstate2 (record g2 { total_producer_votepay_share = share })
    set_gstate3 (record {
      last_vpay_state_update = ct;
      total_vpay_share_change_rate = bounded_add g3.total_vpay_share_change_rate shares_rate_delta;
    })
    pure share

  unfoldable pub update_producer_votepay_share :
      ℕ → ProducerInfo2 → ℕ → Double → Bool → Action System Double
  update_producer_votepay_share key prod ct shares_rate reset_to_zero = do
    let delta_votepay_share =
        if h.floats.lt zero_double shares_rate && ltb prod.last_votepay_share_update ct
        then over shares_rate prod.last_votepay_share_update ct
        else zero_double
    let new_votepay_share = h.floats.add prod.votepay_share delta_votepay_share
    modify_in producers2_table h.self key 0 (record prod {
      votepay_share = if reset_to_zero then zero_double else new_votepay_share;
      last_votepay_share_update = ct;
    })
    pure new_votepay_share

  -- The threshold is three days after the last claim.
  abbrev pub threshold : ProducerInfo → ℕ
  threshold prod = prod.last_claim_time + days 3

  -- What a change of the votes of one producer adds, of which the row before the change is given.
  unfoldable pub accrue_row :
      ℕ → ProducerInfo2 → ProducerInfo → Double → Accrual → Action System Accrual
  accrue_row key prod2 prod delta acc = do
    let ct = h.now
    let crossed_threshold = leb (threshold prod) ct
    let updated_after_threshold = leb (threshold prod) prod2.last_votepay_share_update
    new_votepay_share ←
        update_producer_votepay_share key prod2 ct
          (if updated_after_threshold then zero_double else prod.total_votes)
          (crossed_threshold && not updated_after_threshold)
    pure (
        if not crossed_threshold
        then record acc { delta_change_rate = h.floats.add acc.delta_change_rate delta }
        else (if not updated_after_threshold
            then record {
              delta_change_rate = h.floats.sub acc.delta_change_rate prod.total_votes;
              total_inactive_vpay_share =
                  h.floats.add acc.total_inactive_vpay_share new_votepay_share;
            }
            else acc))

  unfoldable pub accrue : ℕ → ProducerInfo → Double → Accrual → Action System Accrual
  accrue key prod delta acc = do
    prod2 ← find_in producers2_table h.self key
    on_row prod2 (λ p2. accrue_row key p2 prod delta acc) (pure acc)

  -- The end of a vote: the total takes what the loop added up.
  unfoldable pub settle : Accrual → Action System Double
  settle acc =
      update_total_votepay_share h.now (h.floats.neg acc.total_inactive_vpay_share)
        acc.delta_change_rate
