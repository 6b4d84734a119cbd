-- ===== src/Token/History.antt =====
-- contracts/eosio.token/src/eosio.token.cpp: the dispatcher and histories of actions.
use cmcc_eosio_contracts.Common.{ℕ, ◌≡◌, refl, ◌∙◌, some, arith, String, []}
use cmcc_eosio_contracts.Common.Int.{pos, ◌≤ℤ◌}
use cmcc_eosio_contracts.Chain.Asset.{Symbol, Asset}
use cmcc_eosio_contracts.Chain.Action.{Chain, Action, ⊤, ok}
use cmcc_eosio_contracts.Chain.Table.{find, sum, find-EveryRow}
use cmcc_eosio_contracts.Token.{Account, CurrencyStats, Token}
use cmcc_eosio_contracts.Token
use cmcc_eosio_contracts.Token.Invariant.{
  StatOk, AccountOk, symbol_of, holdings, holdings-ge, supply_of, IsValid,
}
use cmcc_eosio_contracts.Token.Keeps.{transfer-IsValid, issue-IsValid, retire-IsValid}
use cmcc_eosio_contracts.Token.Accounts.{create-IsValid, open-IsValid, close-IsValid}

-- The actions that `EOSIO_DISPATCH` lists.
pub data Call : Type 0 where
  creates : ℕ → Asset → Call
  issues : ℕ → Asset → String → Call
  transfers : ℕ → ℕ → Asset → String → Call
  opens : ℕ → Symbol → ℕ → Call
  closes : ℕ → Symbol → Call
  retires : Asset → String → Call

unfoldable pub dispatch : Chain → Call → Action Token ⊤
dispatch c (creates issuer maximum) = Token.create c issuer maximum
dispatch c (issues to quantity memo) = Token.issue c to quantity memo
dispatch c (transfers from to quantity memo) = Token.transfer c from to quantity memo
dispatch c (opens owner symbol payer) = Token.open_account c owner symbol payer
dispatch c (closes owner symbol) = Token.close c owner symbol
dispatch c (retires quantity memo) = Token.retire c quantity memo

-- The states that actions lead to. An action that aborts leaves no trace.
pub data Reach (t : Token) : Token → Type 0 where
  here : Reach t t
  next : {u w : Token} → Reach t u → (c : Chain) (a : Call) → dispatch c a u ≡ ok tt w → Reach t w

pub dispatch-IsValid :
    (c : Chain) (a : Call) (t t' : Token) → IsValid t → dispatch c a t ≡ ok tt t' → IsValid t'
unfolding dispatch
dispatch-IsValid c (creates issuer maximum) t t' v h = create-IsValid c issuer maximum t t' v h
dispatch-IsValid c (issues to quantity memo) t t' v h = issue-IsValid c to quantity memo t t' v h
dispatch-IsValid c (transfers from to quantity memo) t t' v h =
    transfer-IsValid c from to quantity memo t t' v h
dispatch-IsValid c (opens owner symbol payer) t t' v h = open-IsValid c owner symbol payer t t' v h
dispatch-IsValid c (closes owner symbol) t t' v h = close-IsValid c owner symbol t t' v h
dispatch-IsValid c (retires quantity memo) t t' v h = retire-IsValid c quantity memo t t' v h

abbrev pub empty : Token
empty = record { stats = []; accounts = []; sent = []; notified = [] }

pub empty-IsValid : IsValid empty
unfolding holdings find sum
empty-IsValid = record {
  stats_unique = tt;
  accounts_unique = tt;
  stats_ok = tt;
  accounts_ok = tt;
  backed = λ code. refl;
}

pub Reach-IsValid : {t u : Token} → IsValid t → Reach t u → IsValid u
Reach-IsValid v here = v
Reach-IsValid v (next {u} {w} r c a e) = dispatch-IsValid c a u w (Reach-IsValid v r) e

-- After any history of actions from empty tables, the supply of a currency is what its accounts hold
-- together, and it lies between 0 and the maximum supply.
pub history_backed :
    {t : Token} (code : ℕ) (st : CurrencyStats)
    → Reach empty t
    → find code code t.stats ≡ some st
    → (holdings code t.accounts ≡ st.supply.amount)
      × (pos 0 ≤ℤ st.supply.amount)
      × (st.supply.amount ≤ℤ st.max_supply.amount)
history_backed {t} code st r e =
    let v = Reach-IsValid empty-IsValid r in
    let s = find-EveryRow StatOk code code st t.stats v.stats_ok e in
    (v.backed code ∙ ground arith, s.nonneg, s.capped)

-- After any history every balance is one of a known currency, in its symbol, and lies between 0 and
-- the supply of that currency.
pub history_balances :
    {t : Token} (owner code : ℕ) (a : Account)
    → Reach empty t
    → find owner code t.accounts ≡ some a
    → (symbol_of code t.stats ≡ some a.balance.symbol)
      × (pos 0 ≤ℤ a.balance.amount)
      × (a.balance.amount ≤ℤ supply_of code t.stats)
history_balances {t} owner code a r e =
    let v = Reach-IsValid empty-IsValid r in
    let s = find-EveryRow (AccountOk t.stats) owner code a t.accounts v.accounts_ok e in
    let le = holdings-ge t.stats owner code a t.accounts v.accounts_ok e in
    (s.known, s.nonneg, rw (v.backed code) at le)
