-- ===== src/System/Market.antt =====
-- contracts/eosio.system/src/exchange_state.cpp: the Bancor market between RAM and the core token.
-- A member function is an action whose state is the exchange.
use cmcc_eosio_contracts.Common.{ℕ, zero, suc, true, false, String, if◌then◌else◌}
use cmcc_eosio_contracts.Common.Int.{ℤ, pos}
use cmcc_eosio_contracts.Chain.Asset.{Symbol, Asset, sym_eq}
use cmcc_eosio_contracts.Chain.Action.{
  Action, ok, err, abort, pure, gets, or_abort, check, update, ◌>>=◌, ◌>>◌,
}
use cmcc_eosio_contracts.System.Float.{Double, FloatOps}
use cmcc_eosio_contracts.System.State.{Connector, ExchangeState}
use cmcc_eosio_contracts.System.Tables.{System, Lens, find_in, rammarket_table, modify_in}
use cmcc_eosio_contracts.System.Host.{SystemHost, ◌+64◌, ◌-64◌, bad_asset, at_end, market_key}

-- The connector that a reference `connector& c` stands for.
abbrev pub base_lens : Lens ExchangeState Connector
base_lens = record { get = λ e. e.base; put = λ c e. record e { base = c } }

abbrev pub quote_lens : Lens ExchangeState Connector
quote_lens = record { get = λ e. e.quote; put = λ c e. record e { quote = c } }

abbrev pub add_supply : ℤ → ExchangeState → ExchangeState
add_supply z e = record e { supply = record (e.supply) { amount = e.supply.amount +64 z } }

abbrev pub sub_supply : ℤ → ExchangeState → ExchangeState
sub_supply z e = record e { supply = record (e.supply) { amount = e.supply.amount -64 z } }

abbrev pub add_connector : ℤ → Connector → Connector
add_connector z c = record c { balance = record (c.balance) { amount = c.balance.amount +64 z } }

abbrev pub sub_connector : ℤ → Connector → Connector
sub_connector z c = record c { balance = record (c.balance) { amount = c.balance.amount -64 z } }

abbrev pub no_fuel : String
no_fuel = "out of fuel"

module _ (h : SystemHost) where
  abbrev ops : FloatOps
  ops = h.floats

  -- The amounts that the two formulas give for a supply, a connector's balance and weight, and an
  -- amount that comes in.
  unfoldable pub issued_for : ℤ → ℤ → Double → ℤ → ℤ
  issued_for supply balance weight in_amount =
      let r = ops.of_int supply in
      let c = ops.of_int (balance +64 in_amount) in
      let t = ops.of_int in_amount in
      let one = ops.of_int (pos 1) in
      ops.to_int (ops.mul (ops.neg r) (ops.sub one (ops.pow (ops.add one (ops.div t c)) weight)))

  unfoldable pub out_for : ℤ → ℤ → Double → ℤ → ℤ
  out_for supply balance weight in_amount =
      let r = ops.of_int (supply -64 in_amount) in
      let c = ops.of_int balance in
      let one = ops.of_int (pos 1) in
      let e = ops.of_int in_amount in
      ops.to_int
        (ops.mul c (ops.sub (ops.pow (ops.add one (ops.div e r)) (ops.div one weight)) one))

  unfoldable pub convert_to_exchange :
      Lens ExchangeState Connector → Asset → Action ExchangeState Asset
  convert_to_exchange l from = do
    supply ← gets (λ e. e.supply)
    c ← gets (λ e. l.get e)
    let issued = issued_for supply.amount c.balance.amount c.weight from.amount
    update (add_supply issued)
    update (λ e. l.put (add_connector from.amount (l.get e)) e)
    or_abort (h.make_asset issued supply.symbol) bad_asset

  unfoldable pub convert_from_exchange :
      Lens ExchangeState Connector → Asset → Action ExchangeState Asset
  convert_from_exchange l from = do
    supply ← gets (λ e. e.supply)
    check (sym_eq from.symbol supply.symbol) "unexpected asset symbol input"
    c ← gets (λ e. l.get e)
    let out = out_for supply.amount c.balance.amount c.weight from.amount
    update (sub_supply from.amount)
    update (λ e. l.put (sub_connector out (l.get e)) e)
    or_abort (h.make_asset out c.balance.symbol) bad_asset

  -- One call of `convert` without its recursive call.
  unfoldable pub convert_step : Asset → Symbol → Action ExchangeState Asset
  convert_step from to e =
      if sym_eq from.symbol e.supply.symbol
      then (if sym_eq to e.base.balance.symbol
          then convert_from_exchange base_lens from e
          else if sym_eq to e.quote.balance.symbol
          then convert_from_exchange quote_lens from e
          else err "invalid conversion")
      else if sym_eq from.symbol e.base.balance.symbol
      then convert_to_exchange base_lens from e
      else if sym_eq from.symbol e.quote.balance.symbol
      then convert_to_exchange quote_lens from e
      else err "invalid sell"

  -- The recursion is on fuel.
  unfoldable pub convert : ℕ → Asset → Symbol → Action ExchangeState Asset
  convert zero from to e = err no_fuel
  convert (suc n) from to e = elim (convert_step from to e) [
    | err x ↦ err x
    | ok out e' ↦ elim (sym_eq to out.symbol) [ true ↦ ok out e' | false ↦ convert n out to e' ]
  ]

  -- `convert` on the row of the market, kept or not.
  unfoldable pub quote_market : Asset → Symbol → Action System Asset
  quote_market from to = do
    m ← find_in rammarket_table h.self market_key
    e ← or_abort m at_end
    elim (convert 2 from to e) [ ok out e' ↦ pure out | err x ↦ abort x ]

  unfoldable pub convert_market : Asset → Symbol → Action System Asset
  convert_market from to = do
    m ← find_in rammarket_table h.self market_key
    e ← or_abort m at_end
    elim (convert 2 from to e) [
      | ok out e' ↦ (do modify_in rammarket_table h.self market_key 0 e'; pure out)
      | err x ↦ abort x
    ]
