-- ===== src/System/Rex/Fund.antt =====
-- contracts/eosio.system/src/rex.cpp: the funds that REX users deposit to and pay from.
use cmcc_eosio_contracts.Common.{ℕ, ◌&&◌, [], ◌∷◌}
use cmcc_eosio_contracts.Common.Int.{pos, ltb_ℤ}
use cmcc_eosio_contracts.Chain.Asset.{Asset, sym_eq}
use cmcc_eosio_contracts.Chain.Action.{
  on_row, Action, ⊤, or_abort, check, require_auth, ◌>>=◌, ◌>>◌,
}
use cmcc_eosio_contracts.System.Tables.{System, find_in, emplace_in, modify_in, rexfunds_table}
use cmcc_eosio_contracts.System.Host.{
  SystemHost, ◌+64◌, ◌-64◌, core_symbol, other_symbols, rex_account, send_transfer,
}

module _ (h : SystemHost) where
  unfoldable pub transfer_from_fund : ℕ → Asset → Action System ⊤
  transfer_from_fund owner amount = do
    core ← core_symbol h
    check (ltb_ℤ (pos 0) amount.amount && sym_eq amount.symbol core)
        "must transfer positive amount from REX fund"
    itr ← find_in rexfunds_table h.self owner
    fund ← or_abort itr "must deposit to REX fund first"
    enough ← or_abort (h.asset_le amount fund.balance) other_symbols
    check enough "insufficient funds"
    modify_in rexfunds_table h.self owner 0 (record fund {
      balance = record (fund.balance) { amount = fund.balance.amount -64 amount.amount };
    })

  unfoldable pub transfer_to_fund : ℕ → Asset → Action System ⊤
  transfer_to_fund owner amount = do
    core ← core_symbol h
    check (ltb_ℤ (pos 0) amount.amount && sym_eq amount.symbol core)
        "must transfer positive amount to REX fund"
    itr ← find_in rexfunds_table h.self owner
    on_row itr
        (λ fund. modify_in rexfunds_table h.self owner 0 (record fund {
          balance = record (fund.balance) { amount = fund.balance.amount +64 amount.amount };
        }))
        (emplace_in rexfunds_table h.self owner owner
          (record { version = 0; owner = owner; balance = amount }))

  unfoldable pub deposit : ℕ → Asset → Action System ⊤
  deposit owner amount = do
    require_auth h.chain owner
    core ← core_symbol h
    check (sym_eq amount.symbol core) "must deposit core token"
    check (ltb_ℤ (pos 0) amount.amount) "must deposit a positive amount"
    send_transfer (owner ∷ []) owner rex_account amount "deposit to REX fund"
    transfer_to_fund owner amount
