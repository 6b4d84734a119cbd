-- ===== src/System/Rex/Balance.antt =====
-- contracts/eosio.system/src/rex.cpp: the REX of an owner, in buckets that mature day by day. The last
-- bucket may be the savings bucket, which never matures.
use cmcc_eosio_contracts.Common.{
  ℕ, ◌+◌, ◌-◌, ◌*◌, ◌%◌, ◌^◌, not, List, [], ◌∷◌, ◌==◌, leb, if◌then◌else◌,
}
use cmcc_eosio_contracts.Common.Int.{ℤ, pos, ltb_ℤ, ◌==ℤ◌}
use cmcc_eosio_contracts.Chain.Asset.{Asset}
use cmcc_eosio_contracts.Chain.Action.{on_row, Action, ⊤, pure, or_abort, when, ◌>>=◌, ◌>>◌}
use cmcc_eosio_contracts.System.State.{Maturity, RexBalance}
use cmcc_eosio_contracts.System.Tables.{System, find_in, emplace_in, modify_in, rexbalance_table}
use cmcc_eosio_contracts.System.Host.{
  SystemHost, ◌+64◌, ◌-64◌, mul_div, divide, other_symbols, at_end, core_symbol, asset, pool,
}

-- `time_point_sec::maximum()`.
abbrev pub end_of_days : ℕ
end_of_days = 0xffffffff

abbrev pub bucket : ℕ → ℤ → Maturity
bucket day z = record { first = day; second = z }

-- An amount goes to the last bucket if that is of the day, else to a new one after it.
unfoldable pub add_bucket : ℕ → ℤ → List Maturity → List Maturity
add_bucket day z [] = bucket day z ∷ []
add_bucket day z (x ∷ []) =
    if x.first == day then bucket day (x.second +64 z) ∷ [] else x ∷ bucket day z ∷ []
add_bucket day z (x ∷ y ∷ ys) = x ∷ add_bucket day z (y ∷ ys)

-- The amount of the last bucket if that is of the day, and the other buckets.
unfoldable pub take_bucket : ℕ → List Maturity → ℤ × List Maturity
take_bucket day [] = (pos 0, [])
take_bucket day (x ∷ []) = if x.first == day then (x.second, []) else (pos 0, x ∷ [])
take_bucket day (x ∷ y ∷ ys) = ((take_bucket day (y ∷ ys)).0, x ∷ (take_bucket day (y ∷ ys)).1)

-- The buckets that have matured go from the front to the amount.
unfoldable pub pop_matured : ℕ → ℤ → List Maturity → ℤ × List Maturity
pop_matured now m [] = (m, [])
pop_matured now m (x ∷ xs) =
    let rest = pop_matured now (m +64 x.second) xs in if leb x.first now then rest else (m, x ∷ xs)

unfoldable pub add_all : ℤ → List Maturity → ℤ
add_all total [] = total
add_all total (x ∷ xs) = add_all (total +64 x.second) xs

-- The lambdas that `modify` runs on a row.
unfoldable pub matured : ℕ → RexBalance → RexBalance
matured now rb = record rb {
  matured_rex = (pop_matured now rb.matured_rex rb.rex_maturities).0;
  rex_maturities = (pop_matured now rb.matured_rex rb.rex_maturities).1;
}

unfoldable pub consolidated : ℕ → ℤ → RexBalance → RexBalance
consolidated day in_order rb =
    let total = add_all (rb.matured_rex -64 in_order) rb.rex_maturities in
    record rb {
      matured_rex = in_order;
      rex_maturities = if ltb_ℤ (pos 0) total then bucket day total ∷ [] else [];
    }

unfoldable pub without_savings : RexBalance → RexBalance
without_savings rb = record rb { rex_maturities = (take_bucket end_of_days rb.rex_maturities).1 }

unfoldable pub savings : RexBalance → ℤ
savings rb = (take_bucket end_of_days rb.rex_maturities).0

unfoldable pub with_bucket : ℕ → ℤ → RexBalance → RexBalance
with_bucket day z rb = record rb { rex_maturities = add_bucket day z rb.rex_maturities }

module _ (h : SystemHost) where
  -- The end of the day, four days from now; all in seconds of a uint32_t.
  unfoldable pub get_rex_maturity : ℕ
  get_rex_maturity = (h.to_sec h.now - h.to_sec h.now % 86400 + 5 * 86400) % 2 ^ 32

  -- The row that an iterator points to, and a write to it.
  abbrev pub read_balance : ℕ → Action System RexBalance
  read_balance owner = do r ← find_in rexbalance_table h.self owner; or_abort r at_end

  abbrev pub write_balance : ℕ → RexBalance → Action System ⊤
  write_balance owner = modify_in rexbalance_table h.self owner 0

  unfoldable pub process_rex_maturities : ℕ → Action System ⊤
  process_rex_maturities owner = do
    rb ← read_balance owner
    write_balance owner (matured (h.to_sec h.now) rb)

  unfoldable pub read_rex_savings : ℕ → Action System ℤ
  read_rex_savings owner = do
    rb ← read_balance owner
    write_balance owner (without_savings rb)
    pure (savings rb)

  unfoldable pub put_rex_savings : ℕ → ℤ → Action System ⊤
  put_rex_savings owner rex =
      when (not (rex ==ℤ pos 0))
        (do rb ← read_balance owner; write_balance owner (with_bucket end_of_days rex rb))

  unfoldable pub consolidate_rex_balance : ℕ → Asset → Action System ⊤
  consolidate_rex_balance owner rex_in_sell_order = do
    rex_in_savings ← read_rex_savings owner
    rb ← read_balance owner
    write_balance owner (consolidated get_rex_maturity rex_in_sell_order.amount rb)
    put_rex_savings owner rex_in_savings

  -- The stake before and after the purchase.
  unfoldable pub add_purchase : ℕ → Asset → Asset → Action System (ℤ × ℤ)
  add_purchase owner payment rex_received = do
    itr ← find_in rexbalance_table h.self owner
    on_row itr
        (λ rb. (do
          let held = rb.rex_balance.amount +64 rex_received.amount
          p ← pool h
          stake ← or_abort (mul_div held p.total_lendable.amount p.total_rex.amount) divide
          write_balance owner (record rb {
            rex_balance = record (rb.rex_balance) { amount = held };
            vote_stake = record (rb.vote_stake) { amount = stake };
          })
          pure (rb.vote_stake.amount, stake)))
        (do
          emplace_in rexbalance_table h.self owner owner (record {
            version = 0;
            owner = owner;
            vote_stake = payment;
            rex_balance = rex_received;
            matured_rex = pos 0;
            rex_maturities = [];
          })
          pure (pos 0, payment.amount))

  unfoldable pub add_to_rex_balance : ℕ → Asset → Asset → Action System Asset
  add_to_rex_balance owner payment rex_received = do
    core ← core_symbol h
    no_stake ← asset h (pos 0) core
    stakes ← add_purchase owner payment rex_received
    rex_in_savings ← read_rex_savings owner
    process_rex_maturities owner
    rb ← read_balance owner
    write_balance owner (with_bucket get_rex_maturity rex_received.amount rb)
    put_rex_savings owner rex_in_savings
    or_abort
        (h.asset_sub (record no_stake { amount = stakes.1 })
          (record no_stake { amount = stakes.0 }))
        other_symbols
