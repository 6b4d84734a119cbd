-- ===== src/System/Voting/Deltas.antt =====
-- contracts/eosio.system/src/voting.cpp: the changes of producers' votes in one vote, a map that is
-- sorted by the producers' names.
use cmcc_eosio_contracts.Common.{ℕ, Bool, not, ◌||◌, List, [], ◌∷◌, ◌==◌, ltb, if◌then◌else◌}
use cmcc_eosio_contracts.Chain.Action.{Action, pure, on_row, check, ◌>>=◌, ◌>>◌}
use cmcc_eosio_contracts.System.Float.{Double, zero_double}
use cmcc_eosio_contracts.System.Tables.{System, find_in, producers_table}
use cmcc_eosio_contracts.System.Host.{SystemHost}
use cmcc_eosio_contracts.System.Voting.Shares.{Accrual, accrue}
use cmcc_eosio_contracts.System.Voting.Proxies.{add_vote_weight, change_total_votes}

pub record Delta : Type 0 where
  pub producer : ℕ
  pub change : Double
  pub is_new : Bool

-- The change of a producer, 0 where it has none yet, with a function run on it.
unfoldable pub change_at : ℕ → (Double → Double) → Bool → List Delta → List Delta
change_at p f b [] = record { producer = p; change = f zero_double; is_new = b } ∷ []
change_at p f b (d ∷ ds) =
    if p == d.producer
    then record d { change = f d.change; is_new = b } ∷ ds
    else (if ltb p d.producer
        then record { producer = p; change = f zero_double; is_new = b } ∷ d ∷ ds
        else d ∷ change_at p f b ds)

unfoldable pub change_each : List ℕ → (Double → Double) → Bool → List Delta → List Delta
change_each [] f b ds = ds
change_each (p ∷ ps) f b ds = change_each ps f b (change_at p f b ds)

module _ (h : SystemHost) where
  -- The votes do not fall below 0.
  unfoldable pub changed_votes : Double → Double → Double
  changed_votes change total_votes =
      let votes = h.floats.add total_votes change in
      if h.floats.lt votes zero_double then zero_double else votes

  unfoldable pub apply_delta : Bool → Delta → Accrual → Action System Accrual
  apply_delta voting d acc = do
    pitr ← find_in producers_table h.self d.producer
    on_row pitr
        (λ prod. (do
          check (not voting || prod.is_active || not d.is_new)
              "producer is not currently registered"
          change_total_votes h d.producer (changed_votes d.change)
          add_vote_weight h d.change
          accrue h d.producer prod d.change acc))
        (do check (not d.is_new) "producer is not registered"; pure acc)

  unfoldable pub apply_deltas : Bool → List Delta → Accrual → Action System Accrual
  apply_deltas voting [] acc = pure acc
  apply_deltas voting (d ∷ ds) acc = do more ← apply_delta voting d acc; apply_deltas voting ds more
