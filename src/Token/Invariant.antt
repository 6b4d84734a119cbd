-- ===== src/Token/Invariant.antt =====
-- The invariant of the token contract's tables: every currency is backed by its balances.
use cmcc_eosio_contracts.Common.{
  ℕ, ◌≡◌, refl, true, Option, none, some, ◌==◌, arith, if◌then◌else◌, [], ◌∷◌,
}
use cmcc_eosio_contracts.Common.Int.{ℤ, pos, ◌-ℤ◌, ◌+ℤ◌, ◌≤ℤ◌, int_laws}
use cmcc_eosio_contracts.Chain.Table.{
  Table, find, Unique, EveryRow, EveryRow-map, find-le-sum, sum, find-EveryRow, add_row-EveryRow,
  set_row-EveryRow, sum-add_row, sum-set_row, add_row-Unique, set_row-Unique,
}
use cmcc_eosio_contracts.Chain.Asset.{Symbol, Asset, in_range}
use cmcc_eosio_contracts.Token.{Account, CurrencyStats, Token}
use cmcc_eosio_contracts.Token.Effects.{account_of, Debited, Credited, opened, grown}

-- A currency is filed under the code of its symbol, and its supply lies between 0 and the maximum.
pub record StatOk (s k : ℕ) (st : CurrencyStats) : Type 0 where
  pub scoped : s ≡ k
  pub coded : st.supply.symbol.code ≡ k
  pub nonneg : pos 0 ≤ℤ st.supply.amount
  pub capped : st.supply.amount ≤ℤ st.max_supply.amount
  pub ranged : in_range st.max_supply.amount ≡ true

-- The symbol of the currency that is filed under a code.
abbrev pub symbol_of : ℕ → Table CurrencyStats → Option Symbol
symbol_of k stats = elim (find k k stats) [ none ↦ none | some st ↦ some st.supply.symbol ]

-- A balance is filed under the code of its symbol, is not negative, and belongs to a currency.
pub record AccountOk (stats : Table CurrencyStats) (o k : ℕ) (a : Account) : Type 0 where
  pub coded : a.balance.symbol.code ≡ k
  pub nonneg : pos 0 ≤ℤ a.balance.amount
  pub known : symbol_of k stats ≡ some a.balance.symbol

abbrev pub held : ℕ → ℕ → ℕ → Account → ℤ
held code o k a = if k == code then a.balance.amount else pos 0

-- All that is held of a currency, by whomever.
unfoldable pub holdings : ℕ → Table Account → ℤ
holdings code = sum (held code)

abbrev pub supply_of : ℕ → Table CurrencyStats → ℤ
supply_of k stats = elim (find k k stats) [ none ↦ pos 0 | some st ↦ st.supply.amount ]

pub record IsValid (t : Token) : Type 0 where
  pub stats_unique : Unique t.stats
  pub accounts_unique : Unique t.accounts
  pub stats_ok : EveryRow StatOk t.stats
  pub accounts_ok : EveryRow (AccountOk t.stats) t.accounts
  pub backed : (code : ℕ) → holdings code t.accounts ≡ supply_of code t.stats

-- The change that a value makes to what is held of a currency.
abbrev pub worth : ℕ → Asset → ℤ
worth code value = if value.symbol.code == code then value.amount else pos 0

pub Debited-holdings :
    (code owner : ℕ) (value : Asset) (a b : Table Account)
    → Debited owner value a b
    → holdings code b +ℤ worth code value ≡ holdings code a
unfolding holdings
Debited-holdings code owner value a b d = rw d.written (
    grind (
      int_laws,
      sum-set_row (held code) owner value.symbol.code owner
          (account_of (d.row.balance.amount -ℤ value.amount) value.symbol) d.row a d.found,
    ))

pub Credited-holdings :
    (code owner : ℕ) (value : Asset) (payer : ℕ) (a b : Table Account)
    → Credited owner value payer a b
    → holdings code b ≡ holdings code a +ℤ worth code value
unfolding holdings
Credited-holdings code owner value payer a b (opened e w) = rw w (
    grind (
      int_laws,
      sum-add_row (held code) owner value.symbol.code payer (record { balance = value }) a,
    ))
Credited-holdings code owner value payer a b (grown row e same range w) = rw w (
    grind (
      int_laws,
      sum-set_row (held code) owner value.symbol.code 0
          (account_of (row.balance.amount +ℤ value.amount) value.symbol) row a e,
    ))

module _ (stats : Table CurrencyStats) where
  pub Debited-ok :
      (owner : ℕ) (value : Asset) (a b : Table Account)
      → Debited owner value a b
      → EveryRow (AccountOk stats) a
      → EveryRow (AccountOk stats) b
  Debited-ok owner value a b d h =
      let row = find-EveryRow (AccountOk stats) owner value.symbol.code d.row a h d.found in
      rw d.written (
        set_row-EveryRow (AccountOk stats) owner value.symbol.code owner _ a h
          (record { coded = refl; nonneg = omega int_laws; known = ground arith }))

  pub Credited-ok :
      (owner : ℕ) (value : Asset) (payer : ℕ) (a b : Table Account)
      → Credited owner value payer a b
      → pos 0 ≤ℤ value.amount
      → symbol_of value.symbol.code stats ≡ some value.symbol
      → EveryRow (AccountOk stats) a
      → EveryRow (AccountOk stats) b
  Credited-ok owner value payer a b (opened e w) p k h = rw w (
      add_row-EveryRow (AccountOk stats) owner value.symbol.code payer _ a h
        (record { coded = refl; nonneg = p; known = k }))
  Credited-ok owner value payer a b (grown row e same range w) p k h =
      let r = find-EveryRow (AccountOk stats) owner value.symbol.code row a h e in
      rw w (
        set_row-EveryRow (AccountOk stats) owner value.symbol.code 0 _ a h
          (record { coded = refl; nonneg = omega int_laws; known = k }))

pub Debited-Unique :
    (owner : ℕ) (value : Asset) (a b : Table Account)
    → Debited owner value a b
    → Unique a
    → Unique b
Debited-Unique owner value a b d u =
    rw d.written (set_row-Unique owner value.symbol.code owner _ a u)

pub Credited-Unique :
    (owner : ℕ) (value : Asset) (payer : ℕ) (a b : Table Account)
    → Credited owner value payer a b
    → Unique a
    → Unique b
Credited-Unique owner value payer a b (opened e w) u =
    rw w (add_row-Unique owner value.symbol.code payer _ a e u)
Credited-Unique owner value payer a b (grown row e same range w) u =
    rw w (set_row-Unique owner value.symbol.code 0 _ a u)

-- A balance stays in order when the currencies change and keep their symbols.
pub AccountOk-mono :
    (stats stats' : Table CurrencyStats) (a : Table Account)
    → ((k : ℕ) (s : Symbol) → symbol_of k stats ≡ some s → symbol_of k stats' ≡ some s)
    → EveryRow (AccountOk stats) a
    → EveryRow (AccountOk stats') a
AccountOk-mono stats stats' [] keep h = tt
AccountOk-mono stats stats' (e ∷ a) keep h = (
  record { coded = h.0.coded; nonneg = h.0.nonneg; known = keep e.key _ h.0.known },
  AccountOk-mono stats stats' a keep h.1,
)

-- No account holds more of a currency than all together.
pub holdings-ge :
    (stats : Table CurrencyStats) (o k : ℕ) (r : Account) (a : Table Account)
    → EveryRow (AccountOk stats) a
    → find o k a ≡ some r
    → r.balance.amount ≤ℤ holdings k a
unfolding holdings
holdings-ge stats o k r a h e = grind (
  arith,
  find-le-sum (held k) o k r a
      (EveryRow-map (AccountOk stats) (λ s j x. pos 0 ≤ℤ held k s j x) a
        (λ s j x q. ground (arith, q.nonneg)) h)
      e,
)
