-- ===== src/Token/Total.antt =====
-- contracts/eosio.token/src/eosio.token.cpp: under the invariant a transfer that passes its checks goes
-- through, and an issue to another account reaches it by the inline transfer.
use Prim.Native.String.{len}
use cmcc_eosio_contracts.Common.{
  ℕ, ◌≡◌, ◌↔◌, ◌≢◌, ◌≤◌, true, some, String, arith, if◌then◌else◌, [], ◌∷◌, ◌++◌,
}
use cmcc_eosio_contracts.Common.Int.{pos, ◌-ℤ◌, ◌+ℤ◌, ◌≤ℤ◌, -ℤ_parts, int_laws}
use cmcc_eosio_contracts.Chain.Table.{Table, find, set_row, find-EveryRow}
use cmcc_eosio_contracts.Chain.Asset.{Asset, in_range}
use cmcc_eosio_contracts.Chain.Action.{Chain, ok}
use cmcc_eosio_contracts.Token.{Account, CurrencyStats, Token}
use cmcc_eosio_contracts.Token
use cmcc_eosio_contracts.Token.Effects.{account_of, Debited, transfer_effect, sub_balance_effect}
use cmcc_eosio_contracts.Token.Invariant.{
  StatOk, AccountOk, holdings, IsValid, holdings-ge, Debited-holdings, Debited-ok,
}
use cmcc_eosio_contracts.Token.Transfer.{debit_total, credit_total}

module _ (c : Chain) where
  -- What a transfer asks for.
  pub record CanTransfer (from to : ℕ) (quantity : Asset) (memo : String) (t : Token) : Type 0 where
    pub distinct : from ≢ to
    pub authorized : c.has_auth from ≡ true
    pub exists : c.is_account to ≡ true
    pub valid_symbol : c.symbol_is_valid quantity.symbol ≡ true
    pub positive : pos 1 ≤ℤ quantity.amount
    pub stat : CurrencyStats
    pub listed : find quantity.symbol.code quantity.symbol.code t.stats ≡ some stat
    pub same_symbol : quantity.symbol ≡ stat.supply.symbol
    pub short_memo : len memo ≤ 256
    pub row : Account
    pub found : find from quantity.symbol.code t.accounts ≡ some row
    pub covered : quantity.amount ≤ℤ row.balance.amount

  -- After the debit, any balance of the currency has room for the value again.
  room :
      (from to : ℕ) (value : Asset) (st : CurrencyStats) (t : Token) (b : Table Account)
      → IsValid t
      → find value.symbol.code value.symbol.code t.stats ≡ some st
      → value.symbol ≡ st.supply.symbol
      → pos 1 ≤ℤ value.amount
      → Debited from value t.accounts b
      → (row : Account) → find to value.symbol.code b ≡ some row
      → (row.balance.symbol ≡ value.symbol) × (in_range (row.balance.amount +ℤ value.amount) ≡ true)
  room from to value st t b v e same p d row f =
      let k : ℕ = value.symbol.code in
      let oks = Debited-ok t.stats from value t.accounts b d v.accounts_ok in
      let r = find-EveryRow (AccountOk t.stats) to k row b oks f in
      let le = holdings-ge t.stats to k row b oks f in
      let s = find-EveryRow StatOk k k st t.stats v.stats_ok e in
      let all : holdings k b +ℤ value.amount ≡ st.supply.amount =
        ground (arith, Debited-holdings k from value t.accounts b d, v.backed k, e) in
      let top : row.balance.amount +ℤ value.amount ≤ℤ st.max_supply.amount =
        grind (int_laws, all, le, s.capped) in
      let low : pos 0 ≤ℤ row.balance.amount +ℤ value.amount = grind (int_laws, r.nonneg, p) in
      (ground (arith, r.known, e, same), ground (arith, s.ranged, top, low))

  -- In a valid state a transfer that meets the conditions goes through: neither the debit nor the
  -- credit leaves the range of an asset.
  pub transfer_total :
      (from to : ℕ) (quantity : Asset) (memo : String) (t : Token)
      → IsValid t
      → CanTransfer from to quantity memo t
      → (t' : Token) × (Token.transfer c from to quantity memo t ≡ ok tt t')
  unfolding Token.transfer
  transfer_total from to quantity memo t v x =
      let k : ℕ = quantity.symbol.code in
      let payer : ℕ = if c.has_auth to then to else from in
      let t₁ : Token = record t { notified = (t.notified ++ from ∷ []) ++ to ∷ [] } in
      let row = find-EveryRow (AccountOk t.stats) from k x.row t.accounts v.accounts_ok x.found in
      let le = holdings-ge t.stats from k x.row t.accounts v.accounts_ok x.found in
      let st = find-EveryRow StatOk k k x.stat t.stats v.stats_ok x.listed in
      let same : x.row.balance.symbol ≡ quantity.symbol =
        ground (arith, row.known, x.listed, x.same_symbol) in
      let bound : x.row.balance.amount ≤ℤ x.stat.max_supply.amount =
        ground (arith, le, v.backed k, x.listed, st.capped) in
      let left : in_range (x.row.balance.amount -ℤ quantity.amount) ≡ true = ground (
        arith,
        x.positive,
        x.covered,
        bound,
        st.ranged,
        -ℤ_parts x.row.balance.amount quantity.amount,
      ) in
      let valid : c.asset_is_valid quantity ≡ true = ground (
        arith,
        c.asset_is_valid_lem quantity,
        x.positive,
        x.covered,
        bound,
        st.ranged,
        x.valid_symbol,
      ) in
      let t₂ : Token = record t₁ {
        accounts =
            set_row from k from
              (account_of (x.row.balance.amount -ℤ quantity.amount) quantity.symbol) t.accounts;
      } in
      let d : Token.sub_balance c from quantity t₁ ≡ ok tt t₂ =
        debit_total c from quantity t₁ x.row x.found same x.covered left in
      let e = sub_balance_effect c from quantity t₁ t₂ d in
      let (t', last) =
        credit_total c to quantity payer t₂
          (room from to quantity x.stat t t₂.accounts v x.listed x.same_symbol x.positive e.0) in
      (
        t',
        ground (
          arith, x.distinct, x.authorized, x.exists, x.listed, valid, x.positive, x.same_symbol,
          x.short_memo, d, last,
        ),
      )

  -- In a valid state a transfer goes through exactly when its conditions hold.
  pub transfer_iff :
      (from to : ℕ) (quantity : Asset) (memo : String) (t : Token)
      → IsValid t
      → ((t' : Token) × (Token.transfer c from to quantity memo t ≡ ok tt t'))
        ↔ CanTransfer from to quantity memo t
  unfolding Token.transfer
  transfer_iff from to quantity memo t v = (
    λ (t', h).
        let x = transfer_effect c from to quantity memo t t' h in
        record {
          distinct = x.distinct;
          authorized = x.authorized;
          exists = ground (arith, x.listed);
          valid_symbol = ground (arith, x.listed, c.asset_is_valid_lem quantity);
          positive = x.positive;
          stat = x.stat;
          listed = x.listed;
          same_symbol = x.same_symbol;
          short_memo = ground (arith, x.listed);
          row = x.debit.row;
          found = x.debit.found;
          covered = x.debit.covered;
        },
    transfer_total from to quantity memo t v,
  )
