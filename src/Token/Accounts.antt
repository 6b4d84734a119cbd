-- ===== src/Token/Accounts.antt =====
-- contracts/eosio.token/src/eosio.token.cpp: what `create`, `open` and `close` read and write, and
-- that they keep the invariant.
use cmcc_eosio_contracts.Common.{
  ℕ, ◌≡◌, ◌⊎◌, refl, sym, ◌∙◌, true, none, some, arith, inl, inr, Option-cases,
}
use cmcc_eosio_contracts.Common.Int.{pos, ◌≤ℤ◌, int_laws}
use cmcc_eosio_contracts.Chain.Table.{
  Table, find, add_row, erase_row, add_row-EveryRow, erase_row-EveryRow, sum-add_row, sum-erase_row,
  find-add_row, add_row-Unique, erase_row-Unique,
}
use cmcc_eosio_contracts.Chain.Asset.{Symbol, Asset, in_range}
use cmcc_eosio_contracts.Chain.Action.{Chain, ok}
use cmcc_eosio_contracts.Token.{Account, CurrencyStats, Token}
use cmcc_eosio_contracts.Token
use cmcc_eosio_contracts.Token.Effects.{account_of}
use cmcc_eosio_contracts.Token.Invariant.{
  StatOk, symbol_of, AccountOk, held, holdings, supply_of, IsValid, AccountOk-mono,
}

-- A currency that has just been created: nothing of it exists yet.
abbrev pub new_currency : ℕ → Asset → CurrencyStats
new_currency issuer maximum = record {
  supply = record { amount = pos 0; symbol = maximum.symbol };
  max_supply = maximum;
  issuer = issuer;
}

module _ (k : ℕ) (st : CurrencyStats) (self : ℕ) (stats : Table CurrencyStats)
    (e : find k k stats ≡ none) (nothing : st.supply.amount ≡ pos 0) where
  symbol_of-added :
      (j : ℕ) (s : Symbol)
      → symbol_of j stats ≡ some s
      → symbol_of j (add_row k k self st stats) ≡ some s
  symbol_of-added j s h = ground (arith, find-add_row k k self j j st stats e)

  supply_of-added : (j : ℕ) → supply_of j (add_row k k self st stats) ≡ supply_of j stats
  supply_of-added j = ground (arith, find-add_row k k self j j st stats e)

module _ (c : Chain) where
  pub record Created (issuer : ℕ) (maximum : Asset) (t t' : Token) : Type 0 where
    pub authorized : c.has_auth c.self ≡ true
    pub positive : pos 1 ≤ℤ maximum.amount
    pub ranged : in_range maximum.amount ≡ true
    pub absent : find maximum.symbol.code maximum.symbol.code t.stats ≡ none
    pub rest : t' ≡ record t {
      stats =
          add_row maximum.symbol.code maximum.symbol.code c.self
            (new_currency issuer maximum)
            t.stats;
    }

  pub create_effect :
      (issuer : ℕ) (maximum : Asset) (t t' : Token)
      → Token.create c issuer maximum t ≡ ok tt t'
      → Created issuer maximum t t'
  unfolding Token.create
  create_effect issuer maximum t t' h =
      elim (Option-cases (find maximum.symbol.code maximum.symbol.code t.stats)) [
        | inl e ↦ record {
          authorized = ground arith;
          positive = ground arith;
          ranged = ground (arith, c.asset_is_valid_lem maximum);
          absent = e;
          rest = ground arith;
        }
        | inr (st, e) ↦ ground arith
      ]

  -- `open` writes a balance of 0, or finds one and writes nothing.
  pub open_effect :
      (owner : ℕ) (symbol : Symbol) (payer : ℕ) (t t' : Token)
      → Token.open_account c owner symbol payer t ≡ ok tt t'
      → (symbol_of symbol.code t.stats ≡ some symbol)
        × ((t' ≡ t)
            ⊎ ((find owner symbol.code t.accounts ≡ none)
                × (t' ≡ record t {
                  accounts = add_row owner symbol.code payer (account_of (pos 0) symbol) t.accounts;
                })))
  unfolding Token.open_account
  open_effect owner symbol payer t t' h = elim (Option-cases (find owner symbol.code t.accounts)) [
    | inl e ↦ (ground arith, inr (e, ground arith))
    | inr (st, e) ↦ (ground arith, inl (ground arith))
  ]

  pub close_effect :
      (owner : ℕ) (symbol : Symbol) (t t' : Token)
      → Token.close c owner symbol t ≡ ok tt t'
      → (c.has_auth owner ≡ true)
        × (a : Account) × (find owner symbol.code t.accounts ≡ some a)
        × (a.balance.amount ≡ pos 0)
        × (t' ≡ record t { accounts = erase_row owner symbol.code t.accounts })
  unfolding Token.close
  close_effect owner symbol t t' h = elim (Option-cases (find owner symbol.code t.accounts)) [
    | inl e ↦ ground arith
    | inr (a, e) ↦ (ground arith, a, e, ground arith, ground arith)
  ]

  pub create-IsValid :
      (issuer : ℕ) (maximum : Asset) (t t' : Token)
      → IsValid t
      → Token.create c issuer maximum t ≡ ok tt t'
      → IsValid t'
  create-IsValid issuer maximum t t' v h =
      let x = create_effect issuer maximum t t' h in
      let k : ℕ = maximum.symbol.code in
      let st : CurrencyStats = new_currency issuer maximum in
      rw x.rest (record {
        stats_unique = add_row-Unique k k c.self st t.stats x.absent v.stats_unique;
        accounts_unique = v.accounts_unique;
        stats_ok = add_row-EveryRow StatOk k k c.self st t.stats v.stats_ok (record {
          scoped = refl;
          coded = refl;
          nonneg = omega arith;
          capped = omega (arith, x.positive);
          ranged = x.ranged;
        });
        accounts_ok =
            AccountOk-mono t.stats _ t.accounts (symbol_of-added k st c.self t.stats x.absent refl)
              v.accounts_ok;
        backed =
            λ code. v.backed code ∙ sym (supply_of-added k st c.self t.stats x.absent refl code);
      })

  opened-IsValid :
      (owner : ℕ) (symbol : Symbol) (payer : ℕ) (t : Token)
      → symbol_of symbol.code t.stats ≡ some symbol
      → find owner symbol.code t.accounts ≡ none
      → IsValid t
      → IsValid (record t {
        accounts = add_row owner symbol.code payer (account_of (pos 0) symbol) t.accounts;
      })
  unfolding holdings
  opened-IsValid owner symbol payer t known e v = record {
    stats_unique = v.stats_unique;
    accounts_unique = add_row-Unique owner symbol.code payer _ t.accounts e v.accounts_unique;
    stats_ok = v.stats_ok;
    accounts_ok =
        add_row-EveryRow (AccountOk t.stats) owner symbol.code payer _ t.accounts v.accounts_ok
          (record { coded = refl; nonneg = omega arith; known = known });
    backed = λ code.
        sum-add_row (held code) owner symbol.code payer (account_of (pos 0) symbol) t.accounts
        ∙ grind int_laws
        ∙ v.backed code;
  }

  pub open-IsValid :
      (owner : ℕ) (symbol : Symbol) (payer : ℕ) (t t' : Token)
      → IsValid t
      → Token.open_account c owner symbol payer t ≡ ok tt t'
      → IsValid t'
  open-IsValid owner symbol payer t t' v h =
      let x = open_effect owner symbol payer t t' h in
      elim (x.1) [
        | inl same ↦ rw same v
        | inr (e, w) ↦ rw w (opened-IsValid owner symbol payer t x.0 e v)
      ]

  pub close-IsValid :
      (owner : ℕ) (symbol : Symbol) (t t' : Token)
      → IsValid t
      → Token.close c owner symbol t ≡ ok tt t'
      → IsValid t'
  unfolding holdings
  close-IsValid owner symbol t t' v h =
      let (_, a, e, z, w) = close_effect owner symbol t t' h in
      rw w (record {
        stats_unique = v.stats_unique;
        accounts_unique = erase_row-Unique owner symbol.code t.accounts v.accounts_unique;
        stats_ok = v.stats_ok;
        accounts_ok =
            erase_row-EveryRow (AccountOk t.stats) owner symbol.code t.accounts v.accounts_ok;
        backed = λ code.
            grind (int_laws, sum-erase_row (held code) owner symbol.code a t.accounts e)
            ∙ v.backed code;
      })
