-- ===== src/System/Conversion.antt =====
-- contracts/eosio.system/src/exchange_state.cpp: the recursion of `convert` ends.
use Prim.Native.String.{len}
use cmcc_eosio_contracts.Common.{
  ℕ, suc, ◌≡◌, ◌≢◌, ◌∙◌, sym, ap, arith, true, false, some, inl, inr, Bool-cases,
}
use cmcc_eosio_contracts.Common.Int.{ℤ}
use cmcc_eosio_contracts.Chain.Asset.{Symbol, Asset, sym_eq}
use cmcc_eosio_contracts.Chain.Action.{ok, err, Result-cases}
use cmcc_eosio_contracts.System.State.{Connector, ExchangeState}
use cmcc_eosio_contracts.System.Tables.{Lens}
use cmcc_eosio_contracts.System.Host.{SystemHost, bad_asset}
use cmcc_eosio_contracts.System.Market.{
  convert, convert_step, convert_from_exchange, convert_to_exchange, base_lens, quote_lens, out_for,
  issued_for, no_fuel,
}

module _ (h : SystemHost) (from : Asset) (e e' : ExchangeState) (out : Asset) where
  made_symbol : (z : ℤ) (s : Symbol) → h.make_asset z s ≡ some out → out.symbol ≡ s
  made_symbol z s m = ground (arith, h.make_asset_lem z s)

  convert_from_exchange-symbol :
      (l : Lens ExchangeState Connector)
      → convert_from_exchange h l from e ≡ ok out e'
      → out.symbol ≡ (l.get e).balance.symbol
  unfolding convert_from_exchange
  convert_from_exchange-symbol l r =
      let c = l.get e in
      let z = out_for h e.supply.amount c.balance.amount c.weight from.amount in
      ground (arith, made_symbol z c.balance.symbol)

  convert_to_base-symbol :
      convert_to_exchange h base_lens from e ≡ ok out e'
      → (out.symbol ≡ e.supply.symbol) × (e'.supply.symbol ≡ e.supply.symbol)
  unfolding convert_to_exchange
  convert_to_base-symbol r =
      let c = e.base in
      let z = issued_for h e.supply.amount c.balance.amount c.weight from.amount in
      (ground (arith, made_symbol z e.supply.symbol), ground arith)

  convert_to_quote-symbol :
      convert_to_exchange h quote_lens from e ≡ ok out e'
      → (out.symbol ≡ e.supply.symbol) × (e'.supply.symbol ≡ e.supply.symbol)
  unfolding convert_to_exchange
  convert_to_quote-symbol r =
      let c = e.quote in
      let z = issued_for h e.supply.amount c.balance.amount c.weight from.amount in
      (ground (arith, made_symbol z e.supply.symbol), ground arith)

module _ (h : SystemHost) (from : Asset) (to : Symbol) (e e' : ExchangeState) (out : Asset) where
  -- A conversion from the exchange's own asset gives what was asked for.
  sold_for_target :
      sym_eq from.symbol e.supply.symbol ≡ true
      → convert_step h from to e ≡ ok out e'
      → sym_eq to out.symbol ≡ true
  unfolding convert_step
  sold_for_target b r = ground (
    arith,
    convert_from_exchange-symbol h from e e' out base_lens,
    convert_from_exchange-symbol h from e e' out quote_lens,
  )

  -- A conversion from another asset gives the exchange's own.
  bought_for_exchange :
      sym_eq from.symbol e.supply.symbol ≡ false
      → convert_step h from to e ≡ ok out e'
      → sym_eq out.symbol e'.supply.symbol ≡ true
  unfolding convert_step
  bought_for_exchange b r =
      ground
        (arith, convert_to_base-symbol h from e e' out, convert_to_quote-symbol h from e e' out)

more_fuel :
    (h : SystemHost) (from : Asset) (to : Symbol) (e : ExchangeState) (n : ℕ)
    → convert h (suc (suc n)) from to e ≡ convert h 2 from to e
unfolding convert
more_fuel h from to e n = elim (Result-cases (convert_step h from to e)) [
  | inr (x, r) ↦ ground arith
  | inl (out, e1, r) ↦ elim (Bool-cases (sym_eq to out.symbol)) [
    | inl d ↦ ground arith
    | inr d ↦ elim (Bool-cases (sym_eq from.symbol e.supply.symbol)) [
      | inl b ↦ let w = sold_for_target h from to e e1 out b r in ground arith
      | inr b ↦ elim (Result-cases (convert_step h out to e1)) [
        | inr (x, q) ↦ ground arith
        | inl (out', e2, q) ↦
            let own = bought_for_exchange h from to e e1 out b r in
            let w = sold_for_target h out to e1 e2 out' own q in ground arith
      ]
    ]
  ]
]

other_texts :
    (("invalid conversion" ≢ no_fuel) × ("invalid sell" ≢ no_fuel))
    × (("unexpected asset symbol input" ≢ no_fuel) × (bad_asset ≢ no_fuel))
other_texts = (
  ((λ e. omega (arith, ap len e)), (λ e. omega (arith, ap len e))),
  ((λ e. omega (arith, ap len e)), (λ e. omega (arith, ap len e))),
)

step_has_fuel :
    (h : SystemHost) (from : Asset) (to : Symbol) (e : ExchangeState)
    → convert_step h from to e ≢ err no_fuel
unfolding convert_step convert_from_exchange convert_to_exchange
step_has_fuel h from to e r = let texts = other_texts in ground arith

two_suffice :
    (h : SystemHost) (from : Asset) (to : Symbol) (e : ExchangeState)
    → convert h 2 from to e ≢ err no_fuel
unfolding convert
two_suffice h from to e q = elim (Result-cases (convert_step h from to e)) [
  | inr (x, r) ↦ step_has_fuel h from to e (ground arith)
  | inl (out, e1, r) ↦ elim (Bool-cases (sym_eq to out.symbol)) [
    | inl d ↦ ground arith
    | inr d ↦ elim (Bool-cases (sym_eq from.symbol e.supply.symbol)) [
      | inl b ↦ let w = sold_for_target h from to e e1 out b r in ground arith
      | inr b ↦ elim (Result-cases (convert_step h out to e1)) [
        | inr (x, p) ↦ step_has_fuel h out to e1 (ground arith)
        | inl (out', e2, p) ↦
            let own = bought_for_exchange h from to e e1 out b r in
            let w = sold_for_target h out to e1 e2 out' own p in ground arith
      ]
    ]
  ]
]

-- The recursion of `convert` ends: with fuel for two conversions or more it never runs out of it, and
-- has the result that it has with fuel for two.
pub convert_enough :
    (h : SystemHost) (from : Asset) (to : Symbol) (e : ExchangeState) (n : ℕ)
    → (convert h (suc (suc n)) from to e ≢ err no_fuel)
      × (convert h (suc (suc n)) from to e ≡ convert h 2 from to e)
convert_enough h from to e n =
    (λ q. two_suffice h from to e (sym (more_fuel h from to e n) ∙ q), more_fuel h from to e n)
