-- ===== src/Token/Issue.antt =====
-- contracts/eosio.token/src/eosio.token.cpp: an issue and the inline transfer that it sends.
use cmcc_eosio_contracts.Common.{
  ℕ, ◌≡◌, ◌≢◌, subst, sym, ap, ◌∙◌, true, some, String, ◌==◌, arith, if◌then◌else◌, [], ◌∷◌, ◌++◌,
}
use cmcc_eosio_contracts.Common.Int.{◌-ℤ◌, ◌+ℤ◌, ◌≤ℤ◌, +ℤ_cancel, int_laws}
use cmcc_eosio_contracts.Chain.Table.{
  Table, find, set_row, find-EveryRow, find-add_row, find-set_row, EveryRow,
}
use cmcc_eosio_contracts.Chain.Asset.{Asset}
use cmcc_eosio_contracts.Chain.Action.{Chain, Action, ⊤, ok}
use cmcc_eosio_contracts.Token.{Account, CurrencyStats, InlineTransfer, Token}
use cmcc_eosio_contracts.Token
use cmcc_eosio_contracts.Token.Effects.{
  account_of, with_supply, Credited, opened, grown, issue_effect,
}
use cmcc_eosio_contracts.Token.Invariant.{AccountOk, supply_of, IsValid}
use cmcc_eosio_contracts.Token.Keeps.{issue-IsValid}
use cmcc_eosio_contracts.Token.Transfer.{balance_of, at_row, Credited-balance, transfer_moves}
use cmcc_eosio_contracts.Token.Total.{CanTransfer, transfer_total}

-- The chain as an inline action sees it: the only authority is the one that it was sent with.
abbrev pub inline_chain : Chain → ℕ → Chain
inline_chain c actor = record c { has_auth = λ n. n == actor }

-- The chain runs an inline action as it was sent: its data, with the authority that it names.
abbrev pub run_inline : Chain → InlineTransfer → Action Token ⊤
run_inline c a = Token.transfer (inline_chain c a.authorization.actor) a.from a.to a.quantity a.memo

module _ {A : Type 0} where
  unlike : (a b : ℕ) (x y : A) → a ≢ b → (if a == b then x else y) ≡ y
  unlike a b x y h = ground arith

  other : (a b k : ℕ) (x y : A) → a ≢ b → (if at_row a k b k then x else y) ≡ y
  other a b k x y h = ground arith

  own : (a k : ℕ) (x y : A) → (if at_row a k a k then x else y) ≡ x
  own a k x y = ground arith

module _ (c : Chain) where
  -- A credit leaves a row that holds at least the value.
  credited_row :
      (owner : ℕ) (value : Asset) (payer : ℕ) (stats : Table CurrencyStats) (a b : Table Account)
      → Credited owner value payer a b
      → EveryRow (AccountOk stats) a
      → (row : Account) × (find owner value.symbol.code b ≡ some row)
        × (value.amount ≤ℤ row.balance.amount)
  credited_row owner value payer stats a b (opened e w) h = (
    record { balance = value },
    rw w (
        ground (
          arith,
          find-add_row owner value.symbol.code payer owner value.symbol.code
              (record { balance = value }) a e,
        )),
    omega arith,
  )
  credited_row owner value payer stats a b (grown row e same range w) h =
      let r = find-EveryRow (AccountOk stats) owner value.symbol.code row a h e in
      (
        account_of (row.balance.amount +ℤ value.amount) value.symbol,
        rw w (
            ground (
              arith,
              find-set_row owner value.symbol.code 0 owner value.symbol.code
                  (account_of (row.balance.amount +ℤ value.amount) value.symbol) row a e,
            )),
        grind (int_laws, r.nonneg),
      )

  -- In a valid state, a successful issue to an account that exists and is not the issuer sends on one
  -- action; run as it was sent, with its own authority alone, that action goes through, and then the
  -- receiver has the quantity more, the issuer as much as before, and the supply has grown by it.
  pub issue_delivers :
      (to : ℕ) (quantity : Asset) (memo : String) (st : CurrencyStats) (t t' : Token)
      → IsValid t
      → find quantity.symbol.code quantity.symbol.code t.stats ≡ some st
      → to ≢ st.issuer
      → c.is_account to ≡ true
      → Token.issue c to quantity memo t ≡ ok tt t'
      → (a : InlineTransfer) × (t'.sent ≡ t.sent ++ a ∷ [])
        × (t'' : Token) × (run_inline c a t' ≡ ok tt t'')
        × (balance_of to quantity.symbol.code t''.accounts
            ≡ balance_of to quantity.symbol.code t.accounts +ℤ quantity.amount)
        × (balance_of st.issuer quantity.symbol.code t''.accounts
            ≡ balance_of st.issuer quantity.symbol.code t.accounts)
        × (supply_of quantity.symbol.code t''.stats
            ≡ supply_of quantity.symbol.code t.stats +ℤ quantity.amount)
  issue_delivers to quantity memo st t t' v e ne acc h =
      let x = issue_effect c to quantity memo t t' h in
      let k : ℕ = quantity.symbol.code in
      let same : x.stat ≡ st = ground (arith, x.listed) in
      let credit : Credited st.issuer quantity st.issuer t.accounts t'.accounts =
        subst (λ (s : CurrencyStats). Credited s.issuer quantity s.issuer t.accounts t'.accounts)
          same x.credit in
      let row =
        credited_row st.issuer quantity st.issuer t.stats t.accounts t'.accounts credit
          v.accounts_ok in
      let stat : CurrencyStats = with_supply st (st.supply.amount +ℤ quantity.amount) in
      let written : t'.stats ≡ set_row k k 0 stat t.stats =
        subst
          (λ (s : CurrencyStats).
            t'.stats ≡ set_row k k 0 (with_supply s (s.supply.amount +ℤ quantity.amount)) t.stats)
          same x.stats_written in
      let listed : find k k t'.stats ≡ some stat =
        rw written (ground (arith, find-set_row k k 0 k k stat st t.stats e)) in
      let can : CanTransfer (inline_chain c st.issuer) st.issuer to quantity memo t' = record {
        distinct = λ p. ne (sym p);
        authorized = ground arith;
        exists = acc;
        valid_symbol = x.valid_symbol;
        positive = x.positive;
        stat = stat;
        listed = listed;
        same_symbol = ground (arith, x.same_symbol, same);
        short_memo = x.short_memo;
        row = row.0;
        found = row.1;
        covered = row.2;
      } in
      let (t'', go) =
        transfer_total (inline_chain c st.issuer) st.issuer to quantity memo t'
          (issue-IsValid c to quantity memo t t' v h) can in
      let moves = transfer_moves (inline_chain c st.issuer) st.issuer to quantity memo t' t'' go in
      let b = Credited-balance st.issuer quantity st.issuer t.accounts t'.accounts credit in
      let sent : t'.sent ≡ (
          if to == st.issuer
          then t.sent
          else t.sent ++ Token.inline_transfer st.issuer to quantity memo ∷ []) =
        subst
          (λ (s : CurrencyStats). t'.sent ≡ (
            if to == s.issuer
            then t.sent
            else t.sent ++ Token.inline_transfer s.issuer to quantity memo ∷ []))
          same x.sent_on in
      let kept : balance_of to k t'.accounts ≡ balance_of to k t.accounts =
        b to k ∙ other to st.issuer k _ _ ne in
      let raised : balance_of st.issuer k t'.accounts
          ≡ balance_of st.issuer k t.accounts +ℤ quantity.amount =
        b st.issuer k ∙ own st.issuer k _ _ in
      let grown_supply : supply_of k t'.stats ≡ supply_of k t.stats +ℤ quantity.amount =
        ground (arith, listed, e) in
      (
        Token.inline_transfer st.issuer to quantity memo,
        sent ∙ unlike to st.issuer _ _ ne,
        t'',
        go,
        moves.1 ∙ ap (λ n. n +ℤ quantity.amount) kept,
        moves.0 ∙ ap (λ n. n -ℤ quantity.amount) raised ∙ +ℤ_cancel _ quantity.amount,
        ap (supply_of k) moves.3 ∙ grown_supply,
      )
