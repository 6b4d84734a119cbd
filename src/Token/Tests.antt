-- ===== src/Token/Tests.antt =====
-- Runs of the token contract, and its theorems at concrete states.
use cmcc_eosio_contracts.Common.{
  if◌then◌else◌, ℕ, ◌≡◌, ◌≢◌, ◌↔◌, refl, [], ◌∷◌, some, arith, false, ◌++◌,
}
use cmcc_eosio_contracts.Common.Int.{pos, ◌+ℤ◌, ◌-ℤ◌, ◌≤ℤ◌, int64}
use cmcc_eosio_contracts.Chain.Table.{find, payer_of, add_row, set_row}
use cmcc_eosio_contracts.Chain.Action.{ok, err, ◌>>=◌}
use cmcc_eosio_contracts.Sample.{chain, sys, sys_amount}
use cmcc_eosio_contracts.Token.{Account, CurrencyStats, InlineTransfer, Token}
use cmcc_eosio_contracts.Token
use cmcc_eosio_contracts.Token.Invariant.{holdings, supply_of, symbol_of, IsValid}
use cmcc_eosio_contracts.Token.History.{
  Reach, here, next, creates, issues, transfers, dispatch, empty, empty-IsValid, Reach-IsValid,
  history_backed, history_balances,
}
use cmcc_eosio_contracts.Token.Transfer.{balance_of, at_row, Sender, Receiver, transfer_moves}
use cmcc_eosio_contracts.Token.Total.{CanTransfer, transfer_iff}
use cmcc_eosio_contracts.Token.Issue.{run_inline, issue_delivers}
use cmcc_eosio_contracts.Token.OpenClose.{close-open, close_nonzero}

-- The currency SYS of the account 7, all of it with 7.
abbrev stat : ℕ → CurrencyStats
stat n = record { supply = sys_amount n; max_supply = sys_amount 1000; issuer = 7 }

abbrev holding : ℕ → Account
holding n = record { balance = sys_amount n }

abbrev created : Token
created = record empty {
  stats = record { scope = sys.code; key = sys.code; payer = 1; row = stat 0 } ∷ [];
}

abbrev issued : Token
issued = record {
  stats = record { scope = sys.code; key = sys.code; payer = 1; row = stat 100 } ∷ [];
  accounts = record { scope = 7; key = sys.code; payer = 7; row = holding 100 } ∷ [];
  sent = [];
  notified = [];
}

abbrev moved : Token
moved = record issued {
  accounts =
      record { scope = 7; key = sys.code; payer = 7; row = holding 70 }
      ∷ record { scope = 8; key = sys.code; payer = 8; row = holding 30 }
      ∷ [];
  notified = 7 ∷ 8 ∷ [];
}

create_runs : Token.create chain 7 (sys_amount 1000) empty ≡ ok tt created
unfolding Token.create find add_row
create_runs = refl

issue_runs : Token.issue chain 7 (sys_amount 100) "" created ≡ ok tt issued
unfolding Token.issue Token.add_balance find add_row set_row ◌+ℤ◌ ◌-ℤ◌ int64
issue_runs = refl

transfer_runs : Token.transfer chain 7 8 (sys_amount 30) "rent" issued ≡ ok tt moved
unfolding Token.transfer Token.sub_balance Token.add_balance find add_row set_row ◌+ℤ◌ ◌-ℤ◌
transfer_runs = refl

overdraft_aborts : Token.transfer chain 7 8 (sys_amount 101) "" issued ≡ err "overdrawn balance"
unfolding Token.transfer Token.sub_balance find
overdraft_aborts = refl

retire_runs :
    Token.retire chain (sys_amount 100) "" issued
    ≡ ok tt (record issued {
      stats = record { scope = sys.code; key = sys.code; payer = 1; row = stat 0 } ∷ [];
      accounts = record { scope = 7; key = sys.code; payer = 7; row = holding 0 } ∷ [];
    })
unfolding Token.retire Token.sub_balance find set_row ◌-ℤ◌
retire_runs = refl

reaches : Reach empty moved
unfolding dispatch
reaches =
    next
      (next (next here chain (creates 7 (sys_amount 1000)) create_runs) chain
        (issues 7 (sys_amount 100) "") issue_runs)
      chain (transfers 7 8 (sys_amount 30) "rent") transfer_runs

issued-IsValid : IsValid issued
unfolding dispatch
issued-IsValid = Reach-IsValid empty-IsValid (
    next (next here chain (creates 7 (sys_amount 1000)) create_runs) chain
      (issues 7 (sys_amount 100) "") issue_runs)

history_backed_example :
    (holdings sys.code moved.accounts ≡ pos 100) × (pos 0 ≤ℤ pos 100) × (pos 100 ≤ℤ pos 1000)
unfolding find
history_backed_example = history_backed sys.code (stat 100) reaches refl

history_balances_example :
    (symbol_of sys.code moved.stats ≡ some sys)
    × (pos 0 ≤ℤ pos 30)
    × (pos 30 ≤ℤ supply_of sys.code moved.stats)
unfolding find
history_balances_example = history_balances 8 sys.code (holding 30) reaches refl

transfer_moves_example :
    (balance_of 7 sys.code moved.accounts ≡ balance_of 7 sys.code issued.accounts -ℤ pos 30)
    × (balance_of 8 sys.code moved.accounts ≡ balance_of 8 sys.code issued.accounts +ℤ pos 30)
    × ((o j : ℕ)
        → at_row o j 7 sys.code ≡ false
        → at_row o j 8 sys.code ≡ false
        → (find o j moved.accounts ≡ find o j issued.accounts)
          × (payer_of o j moved.accounts ≡ payer_of o j issued.accounts))
    × (moved.stats ≡ issued.stats)
    × (moved.notified ≡ (issued.notified ++ 7 ∷ []) ++ 8 ∷ [])
    × (moved.sent ≡ issued.sent)
    × Sender 7 (sys_amount 30) issued.accounts moved.accounts
    × Receiver 8 (if chain.has_auth 8 then 8 else 7) (sys_amount 30) issued.accounts moved.accounts
transfer_moves_example = transfer_moves chain 7 8 (sys_amount 30) "rent" issued moved transfer_runs

transfer_iff_example :
    ((t' : Token) × (Token.transfer chain 7 8 (sys_amount 30) "rent" issued ≡ ok tt t'))
    ↔ CanTransfer chain 7 8 (sys_amount 30) "rent" issued
transfer_iff_example = transfer_iff chain 7 8 (sys_amount 30) "rent" issued issued-IsValid

-- The tables after an issue to 8, before the inline transfer.
abbrev promised : Token
promised = record issued { sent = Token.inline_transfer 7 8 (sys_amount 100) "pay" ∷ [] }

issue_to_other_runs : Token.issue chain 8 (sys_amount 100) "pay" created ≡ ok tt promised
unfolding Token.issue Token.add_balance find add_row set_row ◌+ℤ◌ ◌-ℤ◌ int64
issue_to_other_runs = refl

created-IsValid : IsValid created
unfolding dispatch
created-IsValid =
    Reach-IsValid empty-IsValid (next here chain (creates 7 (sys_amount 1000)) create_runs)

issue_delivers_example :
    (a : InlineTransfer) × (promised.sent ≡ created.sent ++ a ∷ [])
    × (t'' : Token) × (run_inline chain a promised ≡ ok tt t'')
    × (balance_of 8 sys.code t''.accounts ≡ balance_of 8 sys.code created.accounts +ℤ pos 100)
    × (balance_of 7 sys.code t''.accounts ≡ balance_of 7 sys.code created.accounts)
    × (supply_of sys.code t''.stats ≡ supply_of sys.code created.stats +ℤ pos 100)
unfolding find
issue_delivers_example =
    issue_delivers chain 8 (sys_amount 100) "pay" (stat 0) created promised created-IsValid refl
      (omega arith) refl issue_to_other_runs

close-open_example :
    (Token.open_account chain 8 sys 9 >>= λ _. Token.close chain 8 sys) issued ≡ ok tt issued
unfolding find
close-open_example = close-open chain 8 9 sys issued refl refl refl refl

close_nonzero_example :
    ((t' : Token) → Token.close chain 7 sys issued ≢ ok tt t')
    × ((t' : Token) → Token.open_account chain 7 sys 9 issued ≡ ok tt t' → t' ≡ issued)
unfolding find
close_nonzero_example = close_nonzero chain 7 9 sys (holding 100) issued refl (λ e. cc)
