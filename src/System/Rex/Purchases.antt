-- ===== src/System/Rex/Purchases.antt =====
-- contracts/eosio.system/src/rex.cpp: a purchase of REX keeps the sum of the pool.
use cmcc_eosio_contracts.Common.{◌≡◌, ◌∙◌, sym, ap, arith, some}
use cmcc_eosio_contracts.Common.Int.{ℤ, pos, int64, ◌+ℤ◌, ◌-ℤ◌, int_laws}
use cmcc_eosio_contracts.Chain.Asset.{Symbol, Asset}
use cmcc_eosio_contracts.Chain.Keeps.{Keeps, update-Keeps}
use cmcc_eosio_contracts.System.State.{RexPool}
use cmcc_eosio_contracts.System.Tables.{modify_in, rexpool_table}
use cmcc_eosio_contracts.System.Host.{SystemHost, ◌+64◌, ◌-64◌, core_symbol, pool}
use cmcc_eosio_contracts.System.Rex.Pool.{
  first_purchase, refill, refilled, purchase, with_purchase, add_to_rex_pool,
}
use cmcc_eosio_contracts.System.Rex.Consistent.{
  Sums, rest_of, with_purchase-Sums, set_row-Consistent, add_row-Consistent,
}
use cmcc_eosio_contracts.System.Keeping.{step_laws}
use cmcc_eosio_contracts.System.Rex.Keeping.{PoolSums, keeps_laws}

refilled-Sums : (z rex : ℤ) (p : RexPool) → int64 z ≡ z → Sums (refilled z rex p)
unfolding refilled
refilled-Sums z rex p w = sym w ∙ (rest_of z (pos 0) ∙ ap (λ x. (x -64 pos 0) +64 pos 0) w)

module _ (h : SystemHost) where
  -- Nothing is subtracted from a payment.
  all_unlent :
      (payment none_lent unlent : Asset) (s : Symbol)
      → int64 payment.amount ≡ payment.amount
      → h.make_asset (pos 0) s ≡ some none_lent
      → h.asset_sub payment none_lent ≡ some unlent
      → payment.amount ≡ unlent.amount +64 none_lent.amount
  all_unlent payment none_lent unlent s w m e =
      let zero_lent : none_lent.amount ≡ pos 0 = ground (arith, h.make_asset_lem (pos 0) s) in
      let sub : unlent.amount ≡ payment.amount -ℤ none_lent.amount =
        ground (arith, h.asset_sub_lem payment none_lent) in
      let back : payment.amount ≡ (payment.amount -ℤ pos 0) +ℤ pos 0 = omega int_laws in
      rw (sub, zero_lent) (sym w ∙ ap int64 back)

  first_purchase-Keeps :
      (payment rent rex : Asset)
      → int64 payment.amount ≡ payment.amount
      → Keeps PoolSums (first_purchase h payment rent rex)
  unfolding first_purchase core_symbol PoolSums
  first_purchase-Keeps payment rent rex w = record {
    kept = λ s s' a c e. grind (arith, add_row-Consistent, all_unlent payment);
  }

  refill-Keeps :
      (payment rex : Asset)
      → int64 payment.amount ≡ payment.amount
      → Keeps PoolSums (refill h payment rex)
  unfolding refill pool PoolSums
  refill-Keeps payment rex w = record {
    kept = λ s s' a c e. grind (arith, set_row-Consistent, refilled-Sums);
  }

  write_purchase-Keeps :
      (z r1 : ℤ) (p : RexPool)
      → Keeps PoolSums (modify_in rexpool_table h.self 0 0 (with_purchase (int64 z) r1 p))
  unfolding PoolSums
  write_purchase-Keeps z r1 p =
      update-Keeps (λ s c. set_row-Consistent h.self 0 0 _ s.rexpool c (with_purchase-Sums r1 z p))

  purchase-Keeps : (payment rex : Asset) → Keeps PoolSums (purchase h payment rex)
  unfolding purchase
  purchase-Keeps payment rex = search (keeps_laws, write_purchase-Keeps) depth 30 fits 4000

  pub add_to_pool-Keeps :
      (payment : Asset)
      → int64 payment.amount ≡ payment.amount
      → Keeps PoolSums (add_to_rex_pool h payment)
  unfolding add_to_rex_pool
  add_to_pool-Keeps payment w =
      search (step_laws, keeps_laws, first_purchase-Keeps, refill-Keeps, purchase-Keeps) depth 30
        fits 4000
