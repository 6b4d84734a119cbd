-- ===== src/Token/State.antt =====
-- contracts/eosio.token/include/eosio.token/eosio.token.hpp: the tables of the token contract, and
-- what an action leaves behind for the chain: inline actions and notified accounts.
use cmcc_eosio_contracts.Common.{ℕ, List, [], ◌∷◌, ◌++◌, String, none, some}
use cmcc_eosio_contracts.Chain.Table.{Table, set_row, erase_row}
use cmcc_eosio_contracts.Chain.Asset.{Asset}
use cmcc_eosio_contracts.Chain.Action.{PermissionLevel, Action, ok, err, ⊤, update, emplace, taken}

pub record Account : Type 0 where
  pub balance : Asset

pub record CurrencyStats : Type 0 where
  pub supply : Asset
  pub max_supply : Asset
  pub issuer : ℕ

-- An inline action of the token contract that is to run after the current one.
pub record InlineTransfer : Type 0 where
  pub authorization : PermissionLevel
  pub from : ℕ
  pub to : ℕ
  pub quantity : Asset
  pub memo : String

-- `stats` has a symbol code for its scope and key; `accounts` has an owner for its scope and a
-- symbol code for its key.
pub record Token : Type 0 where
  pub stats : Table CurrencyStats
  pub accounts : Table Account
  pub sent : List InlineTransfer
  pub notified : List ℕ

abbrev pub emplace_stat : ℕ → ℕ → ℕ → CurrencyStats → Action Token ⊤
emplace_stat s k payer r t = elim (emplace s k payer r t.stats) [
  | none ↦ err taken
  | some stats ↦ ok tt (record t { stats = stats })
]

abbrev pub modify_stat : ℕ → ℕ → ℕ → CurrencyStats → Action Token ⊤
modify_stat s k payer r = update (λ t. record t { stats = set_row s k payer r t.stats })

abbrev pub emplace_account : ℕ → ℕ → ℕ → Account → Action Token ⊤
emplace_account s k payer r t = elim (emplace s k payer r t.accounts) [
  | none ↦ err taken
  | some accounts ↦ ok tt (record t { accounts = accounts })
]

abbrev pub modify_account : ℕ → ℕ → ℕ → Account → Action Token ⊤
modify_account s k payer r = update (λ t. record t { accounts = set_row s k payer r t.accounts })

abbrev pub erase_account : ℕ → ℕ → Action Token ⊤
erase_account s k = update (λ t. record t { accounts = erase_row s k t.accounts })

abbrev pub send_inline : InlineTransfer → Action Token ⊤
send_inline a = update (λ t. record t { sent = t.sent ++ a ∷ [] })

abbrev pub require_recipient : ℕ → Action Token ⊤
require_recipient n = update (λ t. record t { notified = t.notified ++ n ∷ [] })
