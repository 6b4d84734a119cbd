-- ===== src/Token/OpenClose.antt =====
-- contracts/eosio.token/src/eosio.token.cpp: opening an account and closing it again.
use cmcc_eosio_contracts.Common.{ℕ, ◌≡◌, ◌≢◌, true, none, some, arith, ap}
use cmcc_eosio_contracts.Common.Int.{pos}
use cmcc_eosio_contracts.Chain.Table.{find, find-add_row, erase_row-add_row}
use cmcc_eosio_contracts.Chain.Asset.{Symbol}
use cmcc_eosio_contracts.Chain.Action.{Chain, ok, ◌>>=◌}
use cmcc_eosio_contracts.Token.{Account, CurrencyStats, Token}
use cmcc_eosio_contracts.Token
use cmcc_eosio_contracts.Token.Effects.{account_of}
use cmcc_eosio_contracts.Token.Invariant.{symbol_of}

module _ (c : Chain) where
  -- Where the payer and the owner have signed, the currency is known by its whole symbol, and the owner
  -- has no row of it, opening one and closing it succeeds and leaves the state as it was.
  pub close-open :
      (owner payer : ℕ) (symbol : Symbol) (t : Token)
      → c.has_auth payer ≡ true
      → c.has_auth owner ≡ true
      → symbol_of symbol.code t.stats ≡ some symbol
      → find owner symbol.code t.accounts ≡ none
      → (Token.open_account c owner symbol payer >>= λ _. Token.close c owner symbol) t ≡ ok tt t
  unfolding Token.open_account Token.close
  close-open owner payer symbol t ap ao known e =
      let row : Account = account_of (pos 0) symbol in
      ground (
        arith,
        find-add_row owner symbol.code payer owner symbol.code row t.accounts e,
        erase_row-add_row owner symbol.code payer row t.accounts e,
      )

  -- A balance that is not zero cannot be closed, and opening an account that has a row changes nothing.
  pub close_nonzero :
      (owner payer : ℕ) (symbol : Symbol) (row : Account) (t : Token)
      → find owner symbol.code t.accounts ≡ some row
      → row.balance.amount ≢ pos 0
      → ((t' : Token) → Token.close c owner symbol t ≢ ok tt t')
        × ((t' : Token) → Token.open_account c owner symbol payer t ≡ ok tt t' → t' ≡ t)
  unfolding Token.open_account Token.close
  close_nonzero owner payer symbol row t e nz = (λ t' h. ground arith, λ t' h. ground arith)
