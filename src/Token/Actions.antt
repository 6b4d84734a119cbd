-- ===== src/Token/Actions.antt =====
-- contracts/eosio.token/src/eosio.token.cpp, action by action. An asset carries its symbol, and the
-- code of a symbol is the key of both tables. The payer 0 stands for `same_payer`.
use Prim.Native.String.{len}
use cmcc_eosio_contracts.Common.{
  ℕ, not, Option, none, some, String, ◌==◌, leb, if◌then◌else◌, is_some,
}
use cmcc_eosio_contracts.Common.Int.{pos, ◌-ℤ◌, int64, ltb_ℤ, leb_ℤ, ◌==ℤ◌}
use cmcc_eosio_contracts.Chain.Table.{find}
use cmcc_eosio_contracts.Chain.Asset.{Symbol, Asset, sym_eq}
use cmcc_eosio_contracts.Chain.Action.{
  Chain, Action, ⊤, pure, gets, or_abort, check, when, require_auth, ◌>>=◌, ◌>>◌,
}
use cmcc_eosio_contracts.Token.State.{
  Account, InlineTransfer, Token, emplace_stat, modify_stat, emplace_account, modify_account,
  erase_account, send_inline, require_recipient,
}

-- "active"_n as a 64-bit name.
abbrev pub active : ℕ
active = 3617214756542218240

abbrev pub no_key : String
no_key = "unable to find key"

-- The transfer that an issue to another account sends on, by the authority of the issuer.
abbrev pub inline_transfer : ℕ → ℕ → Asset → String → InlineTransfer
inline_transfer issuer to quantity memo = record {
  authorization = record { actor = issuer; permission = active };
  from = issuer;
  to = to;
  quantity = quantity;
  memo = memo;
}

module _ (c : Chain) where
  unfoldable pub sub_balance : ℕ → Asset → Action Token ⊤
  sub_balance owner value = do
    from ←
        or_abort (← gets (λ t. find owner value.symbol.code t.accounts)) "no balance object found"
    check (leb_ℤ value.amount from.balance.amount) "overdrawn balance"
    balance ← or_abort (c.asset_sub from.balance value) "subtraction of assets"
    modify_account owner value.symbol.code owner (record { balance = balance })

  unfoldable pub credit : ℕ → Asset → ℕ → Option Account → Action Token ⊤
  credit owner value ram_payer none =
      emplace_account owner value.symbol.code ram_payer (record { balance = value })
  credit owner value ram_payer (some to) = do
    balance ← or_abort (c.asset_add to.balance value) "addition of assets"
    modify_account owner value.symbol.code 0 (record { balance = balance })

  unfoldable pub add_balance : ℕ → Asset → ℕ → Action Token ⊤
  unfolding credit
  add_balance owner value ram_payer = do
    to ← gets (λ t. find owner value.symbol.code t.accounts)
    credit owner value ram_payer to

  unfoldable pub create : ℕ → Asset → Action Token ⊤
  create issuer maximum_supply = do
    require_auth c c.self
    check (c.symbol_is_valid maximum_supply.symbol) "invalid symbol name"
    check (c.asset_is_valid maximum_supply) "invalid supply"
    check (ltb_ℤ (pos 0) maximum_supply.amount) "max-supply must be positive"
    let code = maximum_supply.symbol.code
    existing ← gets (λ t. find code code t.stats)
    check (not (is_some existing)) "token with symbol already exists"
    emplace_stat code code c.self (record {
      supply = record { amount = pos 0; symbol = maximum_supply.symbol };
      max_supply = maximum_supply;
      issuer = issuer;
    })

  unfoldable pub issue : ℕ → Asset → String → Action Token ⊤
  issue to quantity memo = do
    let code = quantity.symbol.code
    check (c.symbol_is_valid quantity.symbol) "invalid symbol name"
    check (leb (len memo) 256) "memo has more than 256 bytes"
    st ←
        or_abort (← gets (λ t. find code code t.stats))
          "token with symbol does not exist, create token before issue"
    require_auth c st.issuer
    check (c.asset_is_valid quantity) "invalid quantity"
    check (ltb_ℤ (pos 0) quantity.amount) "must issue positive quantity"
    check (sym_eq quantity.symbol st.supply.symbol) "symbol precision mismatch"
    check (leb_ℤ quantity.amount (int64 (st.max_supply.amount -ℤ st.supply.amount)))
        "quantity exceeds available supply"
    supply ← or_abort (c.asset_add st.supply quantity) "addition of assets"
    modify_stat code code 0 (record st { supply = supply })
    add_balance st.issuer quantity st.issuer
    when (not (to == st.issuer)) (send_inline (inline_transfer st.issuer to quantity memo))

  unfoldable pub retire : Asset → String → Action Token ⊤
  retire quantity memo = do
    let code = quantity.symbol.code
    check (c.symbol_is_valid quantity.symbol) "invalid symbol name"
    check (leb (len memo) 256) "memo has more than 256 bytes"
    st ← or_abort (← gets (λ t. find code code t.stats)) "token with symbol does not exist"
    require_auth c st.issuer
    check (c.asset_is_valid quantity) "invalid quantity"
    check (ltb_ℤ (pos 0) quantity.amount) "must retire positive quantity"
    check (sym_eq quantity.symbol st.supply.symbol) "symbol precision mismatch"
    supply ← or_abort (c.asset_sub st.supply quantity) "subtraction of assets"
    modify_stat code code 0 (record st { supply = supply })
    sub_balance st.issuer quantity

  unfoldable pub transfer : ℕ → ℕ → Asset → String → Action Token ⊤
  transfer from to quantity memo = do
    check (not (from == to)) "cannot transfer to self"
    require_auth c from
    check (c.is_account to) "to account does not exist"
    let code = quantity.symbol.code
    st ← or_abort (← gets (λ t. find code code t.stats)) no_key
    require_recipient from
    require_recipient to
    check (c.asset_is_valid quantity) "invalid quantity"
    check (ltb_ℤ (pos 0) quantity.amount) "must transfer positive quantity"
    check (sym_eq quantity.symbol st.supply.symbol) "symbol precision mismatch"
    check (leb (len memo) 256) "memo has more than 256 bytes"
    let payer = if c.has_auth to then to else from
    sub_balance from quantity
    add_balance to quantity payer

  unfoldable pub open_account : ℕ → Symbol → ℕ → Action Token ⊤
  open_account owner symbol ram_payer = do
    require_auth c ram_payer
    st ← or_abort (← gets (λ t. find symbol.code symbol.code t.stats)) "symbol does not exist"
    check (sym_eq st.supply.symbol symbol) "symbol precision mismatch"
    it ← gets (λ t. find owner symbol.code t.accounts)
    when (not (is_some it)) (
        emplace_account owner symbol.code ram_payer
          (record { balance = record { amount = pos 0; symbol = symbol } }))

  unfoldable pub close : ℕ → Symbol → Action Token ⊤
  close owner symbol = do
    require_auth c owner
    it ←
        or_abort (← gets (λ t. find owner symbol.code t.accounts))
          "Balance row already deleted or never existed. Action won't have any effect."
    check (it.balance.amount ==ℤ pos 0) "Cannot close because the balance is not zero."
    erase_account owner symbol.code

  unfoldable pub get_supply : ℕ → Action Token Asset
  get_supply sym_code = do
    st ← or_abort (← gets (λ t. find sym_code sym_code t.stats)) no_key
    pure st.supply

  unfoldable pub get_balance : ℕ → ℕ → Action Token Asset
  get_balance owner sym_code = do
    ac ← or_abort (← gets (λ t. find owner sym_code t.accounts)) no_key
    pure ac.balance
