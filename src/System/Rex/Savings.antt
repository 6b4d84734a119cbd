-- ===== src/System/Rex/Savings.antt =====
-- contracts/eosio.system/src/rex.cpp: REX moves between the buckets of its owner, and the rows of an
-- owner are closed.
use cmcc_eosio_contracts.Common.{
  ℕ, Bool, false, not, ◌&&◌, ◌||◌, Option, none, some, List, [], ◌∷◌, ◌==◌, if◌then◌else◌,
}
use cmcc_eosio_contracts.Common.Int.{ℤ, pos, ltb_ℤ, leb_ℤ, ◌==ℤ◌}
use cmcc_eosio_contracts.Chain.Asset.{Asset, sym_eq}
use cmcc_eosio_contracts.Chain.Table.{Table}
use cmcc_eosio_contracts.Chain.Action.{
  Action, ⊤, pure, on_row, gets, or_abort, check, when, require_auth, ◌>>=◌, ◌>>◌,
}
use cmcc_eosio_contracts.System.State.{RexBalance, RexLoan, RexFund, Maturity}
use cmcc_eosio_contracts.System.Tables.{System, find_in, erase_in, rexbalance_table, rexfunds_table}
use cmcc_eosio_contracts.System.Host.{SystemHost, ◌+64◌, ◌-64◌, rex_system_initialized}
use cmcc_eosio_contracts.System.Rex.Balance.{
  get_rex_maturity, read_balance, write_balance, process_rex_maturities, read_rex_savings,
  put_rex_savings, consolidate_rex_balance, with_bucket,
}
use cmcc_eosio_contracts.System.Rex.Loans.{runrex}
use cmcc_eosio_contracts.System.Rex.Account.{refresh_account}

abbrev pub min_64 : ℤ → ℤ → ℤ
min_64 a b = if ltb_ℤ b a then b else a

-- One turn of the loop, on the last bucket: what is moved, and the bucket if some of it is left.
abbrev pub drain : ℤ → Maturity → ℤ × List Maturity → ℤ × List Maturity
drain wanted x done =
    let drex = min_64 (wanted -64 done.0) x.second in
    let left = x.second -64 drex in
    (done.0 +64 drex, if left ==ℤ pos 0 then done.1 else record x { second = left } ∷ done.1)

-- The loop takes from the buckets at the back. What was moved, and the buckets that are left.
unfoldable pub take_newest : ℤ → List Maturity → ℤ × List Maturity
take_newest wanted [] = (pos 0, [])
take_newest wanted (x ∷ xs) =
    let done = take_newest wanted xs in
    if ltb_ℤ (done.0) wanted then drain wanted x done else (done.0, x ∷ done.1)

-- What the buckets do not have is taken from the matured REX.
unfoldable pub moved : ℤ → RexBalance → RexBalance
moved wanted rb =
    let done = take_newest wanted rb.rex_maturities in
    record rb {
      rex_maturities = done.1;
      matured_rex =
          if ltb_ℤ (done.0) wanted then rb.matured_rex -64 (wanted -64 done.0) else rb.matured_rex;
    }

-- The checks in the lambda: the first stands in the branch that takes matured REX.
unfoldable pub keeps_ordered : ℤ → ℤ → RexBalance → Bool
keeps_ordered wanted in_order rb =
    not (ltb_ℤ (take_newest wanted rb.rex_maturities).0 wanted)
    || leb_ℤ in_order (moved wanted rb).matured_rex

unfoldable pub moves_all : ℤ → RexBalance → Bool
moves_all wanted rb =
    let done = take_newest wanted rb.rex_maturities in ltb_ℤ (done.0) wanted || done.0 ==ℤ wanted

abbrev fund_is_empty : Option RexFund → Bool
fund_is_empty none = false
fund_is_empty (some f) = f.balance.amount ==ℤ pos 0

unfoldable pub has_loan : ℕ → Table RexLoan → Bool
has_loan owner [] = false
has_loan owner (e ∷ t) = e.row.from == owner || has_loan owner t

module _ (h : SystemHost) where
  unfoldable pub consolidate : ℕ → Action System ⊤
  consolidate owner = do
    require_auth h.chain owner
    runrex h 2
    bitr ← find_in rexbalance_table h.self owner
    rb ← or_abort bitr "account has no REX balance"
    rex_in_sell_order ← refresh_account h owner false
    consolidate_rex_balance h owner rex_in_sell_order

  unfoldable pub mvtosavings : ℕ → Asset → Action System ⊤
  mvtosavings owner rex = do
    require_auth h.chain owner
    runrex h 2
    bitr ← find_in rexbalance_table h.self owner
    rb ← or_abort bitr "account has no REX balance"
    check (ltb_ℤ (pos 0) rex.amount && sym_eq rex.symbol rb.rex_balance.symbol)
        "asset must be a positive amount of (REX, 4)"
    in_order ← refresh_account h owner false
    in_savings ← read_rex_savings h owner
    check (leb_ℤ (rex.amount +64 in_order.amount +64 in_savings) rb.rex_balance.amount)
        "insufficient REX balance"
    process_rex_maturities h owner
    current ← read_balance h owner
    check (keeps_ordered rex.amount in_order.amount current) "logic error in mvtosavings"
    check (moves_all rex.amount current) "programmer error in mvtosavings"
    write_balance h owner (moved rex.amount current)
    put_rex_savings h owner (in_savings +64 rex.amount)

  unfoldable pub mvfrsavings : ℕ → Asset → Action System ⊤
  mvfrsavings owner rex = do
    require_auth h.chain owner
    runrex h 2
    bitr ← find_in rexbalance_table h.self owner
    rb ← or_abort bitr "account has no REX balance"
    check (ltb_ℤ (pos 0) rex.amount && sym_eq rex.symbol rb.rex_balance.symbol)
        "asset must be a positive amount of (REX, 4)"
    in_savings ← read_rex_savings h owner
    check (leb_ℤ rex.amount in_savings) "insufficient REX in savings"
    process_rex_maturities h owner
    current ← read_balance h owner
    write_balance h owner (with_bucket (get_rex_maturity h) rex.amount current)
    put_rex_savings h owner (in_savings -64 rex.amount)
    in_order ← refresh_account h owner false
    pure tt

  -- The fund of an owner goes if it is empty and no loan is the owner's.
  unfoldable pub close_fund : ℕ → Action System ⊤
  close_fund owner = do
    cpu ← gets (λ s. has_loan owner s.cpu_loans)
    net ← gets (λ s. has_loan owner s.net_loans)
    fund ← find_in rexfunds_table h.self owner
    when (not cpu && not net && fund_is_empty fund) (erase_in rexfunds_table h.self owner)

  unfoldable pub close_balance : ℕ → Action System ⊤
  close_balance owner = do
    itr ← find_in rexbalance_table h.self owner
    on_row itr
        (λ rb. (do
          check (rb.rex_balance.amount ==ℤ pos 0)
              "account has remaining REX balance, must sell first"
          erase_in rexbalance_table h.self owner))
        (pure tt)

  unfoldable pub closerex : ℕ → Action System ⊤
  closerex owner = do
    require_auth h.chain owner
    initialized ← gets (rex_system_initialized h)
    when initialized (runrex h 2)
    in_order ← refresh_account h owner false
    close_fund owner
    close_balance owner
