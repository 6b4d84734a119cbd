-- ===== src/Token/Effects.antt =====
-- contracts/eosio.token/src/eosio.token.cpp: what a successful action has read, checked and written.
use Prim.Native.String.{len}
use cmcc_eosio_contracts.Common.{
  ℕ, ◌≤◌, ◌≡◌, ◌≢◌, subst, true, not, none, some, String, ◌==◌, arith, if◌then◌else◌, inl, inr,
  Option-cases, [], ◌∷◌, ◌++◌,
}
use cmcc_eosio_contracts.Common.Int.{ℤ, pos, ◌-ℤ◌, ◌+ℤ◌, ◌≤ℤ◌, int64}
use cmcc_eosio_contracts.Chain.Table.{Table, find, set_row, add_row}
use cmcc_eosio_contracts.Chain.Asset.{Symbol, Asset, in_range}
use cmcc_eosio_contracts.Chain.Action.{Chain, Action, ⊤, ok, >>=-ok, ◌>>=◌, when}
use cmcc_eosio_contracts.Token.{send_inline, Account, CurrencyStats, Token}
use cmcc_eosio_contracts.Token

abbrev pub account_of : ℤ → Symbol → Account
account_of z s = record { balance = record { amount = z; symbol = s } }

-- The supply of a currency set to an amount.
abbrev pub with_supply : CurrencyStats → ℤ → CurrencyStats
with_supply st z = record st { supply = record { amount = z; symbol = st.supply.symbol } }

-- The accounts after a debit: the owner's row falls by the value, which it covers.
pub record Debited (owner : ℕ) (value : Asset) (before after : Table Account) : Type 0 where
  pub row : Account
  pub found : find owner value.symbol.code before ≡ some row
  pub covered : value.amount ≤ℤ row.balance.amount
  pub same_symbol : row.balance.symbol ≡ value.symbol
  pub written :
      after
      ≡ set_row owner value.symbol.code owner
          (account_of (row.balance.amount -ℤ value.amount) value.symbol)
          before

-- The accounts after a credit: a new row, or one that has grown by the value.
pub data Credited (owner : ℕ) (value : Asset) (payer : ℕ) (before after : Table Account)
    : Type 0 where
  opened :
      find owner value.symbol.code before ≡ none
      → after ≡ add_row owner value.symbol.code payer (record { balance = value }) before
      → Credited owner value payer before after
  grown :
      (row : Account)
      → find owner value.symbol.code before ≡ some row
      → row.balance.symbol ≡ value.symbol
      → in_range (row.balance.amount +ℤ value.amount) ≡ true
      → after
        ≡ set_row owner value.symbol.code 0
            (account_of (row.balance.amount +ℤ value.amount) value.symbol)
            before
      → Credited owner value payer before after

module _ (c : Chain) where
  pub sub_balance_effect :
      (owner : ℕ) (value : Asset) (t t' : Token)
      → Token.sub_balance c owner value t ≡ ok tt t'
      → Debited owner value t.accounts t'.accounts × (t' ≡ record t { accounts = t'.accounts })
  unfolding Token.sub_balance
  sub_balance_effect owner value t t' h =
      elim (Option-cases (find owner value.symbol.code t.accounts)) [
        | inl e ↦ ground arith
        | inr (a, e) ↦ (
          record {
            row = a;
            found = e;
            covered = ground (arith, c.asset_sub_lem a.balance value);
            same_symbol = ground (arith, c.asset_sub_lem a.balance value);
            written = ground (arith, c.asset_sub_lem a.balance value);
          },
          ground (arith, c.asset_sub_lem a.balance value),
        )
      ]

  pub add_balance_effect :
      (owner : ℕ) (value : Asset) (payer : ℕ) (t t' : Token)
      → Token.add_balance c owner value payer t ≡ ok tt t'
      → Credited owner value payer t.accounts t'.accounts
        × (t' ≡ record t { accounts = t'.accounts })
  unfolding Token.add_balance
  add_balance_effect owner value payer t t' h =
      elim (Option-cases (find owner value.symbol.code t.accounts)) [
        | inl e ↦ (opened e (ground arith), ground arith)
        | inr (a, e) ↦ (
          grown a e (ground (arith, c.asset_add_lem a.balance value))
              (ground (arith, c.asset_add_lem a.balance value))
              (ground (arith, c.asset_add_lem a.balance value)),
          ground (arith, c.asset_add_lem a.balance value),
        )
      ]

  -- A transfer is its checks, and then a debit and a credit.
  pub record Transferred (from to : ℕ) (quantity : Asset) (t t' : Token) : Type 0 where
    pub distinct : from ≢ to
    pub authorized : c.has_auth from ≡ true
    pub positive : pos 1 ≤ℤ quantity.amount
    pub stat : CurrencyStats
    pub listed : find quantity.symbol.code quantity.symbol.code t.stats ≡ some stat
    pub same_symbol : quantity.symbol ≡ stat.supply.symbol
    pub between : Table Account
    pub debit : Debited from quantity t.accounts between
    pub credit : Credited to quantity (if c.has_auth to then to else from) between t'.accounts
    pub rest :
        t' ≡ record t { accounts = t'.accounts; notified = (t.notified ++ from ∷ []) ++ to ∷ [] }

  -- Once the checks have passed, a transfer is the debit and then the credit.
  pub transfer_effect :
      (from to : ℕ) (quantity : Asset) (memo : String) (t t' : Token)
      → Token.transfer c from to quantity memo t ≡ ok tt t'
      → Transferred from to quantity t t'
  unfolding Token.transfer
  transfer_effect from to quantity memo t t' h =
      elim (Option-cases (find quantity.symbol.code quantity.symbol.code t.stats)) [
        | inl e ↦ ground arith
        | inr (st, e) ↦
            let t₁ : Token = record t { notified = (t.notified ++ from ∷ []) ++ to ∷ [] } in
            let payer : ℕ = if c.has_auth to then to else from in
            let moves : (Token.sub_balance c from quantity >>= λ _.
            Token.add_balance c to quantity payer)
                  t₁
                ≡ ok tt t' =
              ground arith in
            let (_, u, p, q) =
              >>=-ok (Token.sub_balance c from quantity)
                (λ _. Token.add_balance c to quantity payer) t₁ moves in
            let d = sub_balance_effect from quantity t₁ u p in
            let k = add_balance_effect to quantity payer u t' q in
            record {
              distinct = ground arith;
              authorized = ground arith;
              positive = ground arith;
              stat = st;
              listed = e;
              same_symbol = ground arith;
              between = u.accounts;
              debit = d.0;
              credit = k.0;
              rest = ground arith;
            }
      ]

  pub record Issued (to : ℕ) (quantity : Asset) (memo : String) (t t' : Token) : Type 0 where
    pub valid_symbol : c.symbol_is_valid quantity.symbol ≡ true
    pub short_memo : len memo ≤ 256
    pub positive : pos 1 ≤ℤ quantity.amount
    pub stat : CurrencyStats
    pub listed : find quantity.symbol.code quantity.symbol.code t.stats ≡ some stat
    pub authorized : c.has_auth stat.issuer ≡ true
    pub same_symbol : quantity.symbol ≡ stat.supply.symbol
    pub available : quantity.amount ≤ℤ int64 (stat.max_supply.amount -ℤ stat.supply.amount)
    pub supply_range : in_range (stat.supply.amount +ℤ quantity.amount) ≡ true
    pub credit : Credited stat.issuer quantity stat.issuer t.accounts t'.accounts
    pub stats_written :
        t'.stats
        ≡ set_row quantity.symbol.code quantity.symbol.code 0
            (with_supply stat (stat.supply.amount +ℤ quantity.amount))
            t.stats
    pub sent_on : t'.sent ≡ (
        if to == stat.issuer
        then t.sent
        else t.sent ++ Token.inline_transfer stat.issuer to quantity memo ∷ [])
    pub silent : t'.notified ≡ t.notified

  pub issue_effect :
      (to : ℕ) (quantity : Asset) (memo : String) (t t' : Token)
      → Token.issue c to quantity memo t ≡ ok tt t'
      → Issued to quantity memo t t'
  unfolding Token.issue
  issue_effect to quantity memo t t' h =
      elim (Option-cases (find quantity.symbol.code quantity.symbol.code t.stats)) [
        | inl e ↦ ground arith
        | inr (st, e) ↦
            let t₁ : Token = record t {
              stats =
                  set_row quantity.symbol.code quantity.symbol.code 0
                    (with_supply st (st.supply.amount +ℤ quantity.amount)) t.stats;
            } in
            let rest : Action Token ⊤ =
              when (not (to == st.issuer))
                (send_inline (Token.inline_transfer st.issuer to quantity memo)) in
            let moves : (Token.add_balance c st.issuer quantity st.issuer >>= λ _. rest) t₁
                ≡ ok tt t' =
              ground (arith, c.asset_add_lem st.supply quantity) in
            let (_, u, p, q) =
              >>=-ok (Token.add_balance c st.issuer quantity st.issuer) (λ _. rest) t₁ moves in
            let k = add_balance_effect st.issuer quantity st.issuer t₁ u p in
            record {
              valid_symbol = ground arith;
              short_memo = ground arith;
              positive = ground arith;
              stat = st;
              listed = e;
              authorized = ground arith;
              same_symbol = ground arith;
              available = ground arith;
              supply_range = ground (arith, c.asset_add_lem st.supply quantity);
              credit = subst (Credited st.issuer quantity st.issuer t.accounts) (ground arith) k.0;
              stats_written = ground arith;
              sent_on = ground arith;
              silent = ground arith;
            }
      ]

  pub record Retired (quantity : Asset) (t t' : Token) : Type 0 where
    pub positive : pos 1 ≤ℤ quantity.amount
    pub stat : CurrencyStats
    pub listed : find quantity.symbol.code quantity.symbol.code t.stats ≡ some stat
    pub authorized : c.has_auth stat.issuer ≡ true
    pub same_symbol : quantity.symbol ≡ stat.supply.symbol
    pub debit : Debited stat.issuer quantity t.accounts t'.accounts
    pub rest : t' ≡ record t {
      stats =
          set_row quantity.symbol.code quantity.symbol.code 0
            (with_supply stat (stat.supply.amount -ℤ quantity.amount))
            t.stats;
      accounts = t'.accounts;
    }

  pub retire_effect :
      (quantity : Asset) (memo : String) (t t' : Token)
      → Token.retire c quantity memo t ≡ ok tt t'
      → Retired quantity t t'
  unfolding Token.retire
  retire_effect quantity memo t t' h =
      elim (Option-cases (find quantity.symbol.code quantity.symbol.code t.stats)) [
        | inl e ↦ ground arith
        | inr (st, e) ↦
            let t₁ : Token = record t {
              stats =
                  set_row quantity.symbol.code quantity.symbol.code 0
                    (with_supply st (st.supply.amount -ℤ quantity.amount)) t.stats;
            } in
            let moves : Token.sub_balance c st.issuer quantity t₁ ≡ ok tt t' =
              ground (arith, c.asset_sub_lem st.supply quantity) in
            let d = sub_balance_effect st.issuer quantity t₁ t' moves in
            record {
              positive = ground arith;
              stat = st;
              listed = e;
              authorized = ground arith;
              same_symbol = ground arith;
              debit = d.0;
              rest = ground arith;
            }
      ]
