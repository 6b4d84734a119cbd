-- ===== src/Token/Keeps.antt =====
-- contracts/eosio.token/src/eosio.token.cpp: each action keeps the invariant.
use cmcc_eosio_contracts.Common.{
  ℕ, ◌≡◌, refl, sym, ap, ◌∙◌, some, String, ◌==◌, arith, if◌then◌else◌, inl, inr, Bool-cases,
}
use cmcc_eosio_contracts.Common.Int.{
  ℤ, pos, ◌-ℤ◌, ◌+ℤ◌, ◌≤ℤ◌, int64, int64_id, +ℤ_cancel_right, int_laws,
}
use cmcc_eosio_contracts.Chain.Table.{
  Table, find, set_row, EveryRow, find-EveryRow, set_row-EveryRow, find-set_row, set_row-Unique,
}
use cmcc_eosio_contracts.Chain.Asset.{Symbol, Asset}
use cmcc_eosio_contracts.Chain.Action.{Chain, ok}
use cmcc_eosio_contracts.Token.{Account, CurrencyStats, Token}
use cmcc_eosio_contracts.Token
use cmcc_eosio_contracts.Token.Effects.{with_supply, transfer_effect, issue_effect, retire_effect}
use cmcc_eosio_contracts.Token.Invariant.{
  StatOk, symbol_of, AccountOk, supply_of, IsValid, worth, holdings-ge, Debited-holdings,
  Credited-holdings, Debited-ok, Credited-ok, Debited-Unique, Credited-Unique, AccountOk-mono,
}

-- A new supply within its bounds keeps the currencies in order and their symbols as they are.
module _ (k : ℕ) (z : ℤ) (st : CurrencyStats) (stats : Table CurrencyStats)
    (e : find k k stats ≡ some st) where
  abbrev supplied : Table CurrencyStats
  supplied = set_row k k 0 (with_supply st z) stats

  symbol_of-supplied :
      (j : ℕ) (s : Symbol) → symbol_of j stats ≡ some s → symbol_of j supplied ≡ some s
  symbol_of-supplied j s h = ground (arith, find-set_row k k 0 j j (with_supply st z) st stats e)

  supply_of-supplied : (j : ℕ) → supply_of j supplied ≡ (if k == j then z else supply_of j stats)
  supply_of-supplied j = ground (arith, find-set_row k k 0 j j (with_supply st z) st stats e)

  supply_of-grown :
      (value : Asset)
      → value.symbol.code ≡ k
      → z ≡ st.supply.amount +ℤ value.amount
      → (j : ℕ) → supply_of j supplied ≡ supply_of j stats +ℤ worth j value
  supply_of-grown value ek ez j =
      rw (supply_of-supplied j)
        (elim (Bool-cases (k == j)) [ inl hit ↦ grind (int_laws, e) | inr miss ↦ grind int_laws ])

  supply_of-shrunk :
      (value : Asset)
      → value.symbol.code ≡ k
      → z ≡ st.supply.amount -ℤ value.amount
      → (j : ℕ) → supply_of j supplied +ℤ worth j value ≡ supply_of j stats
  supply_of-shrunk value ek ez j =
      rw (supply_of-supplied j)
        (elim (Bool-cases (k == j)) [ inl hit ↦ grind (int_laws, e) | inr miss ↦ grind int_laws ])

  supplied-ok :
      pos 0 ≤ℤ z → z ≤ℤ st.max_supply.amount → EveryRow StatOk stats → EveryRow StatOk supplied
  supplied-ok lo hi h =
      let old = find-EveryRow StatOk k k st stats h e in
      set_row-EveryRow StatOk k k 0 (with_supply st z) stats h
        (record { scoped = refl; coded = old.coded; nonneg = lo; capped = hi; ranged = old.ranged })

module _ (c : Chain) where
  pub transfer-IsValid :
      (from to : ℕ) (quantity : Asset) (memo : String) (t t' : Token)
      → IsValid t
      → Token.transfer c from to quantity memo t ≡ ok tt t'
      → IsValid t'
  transfer-IsValid from to quantity memo t t' v h =
      let x = transfer_effect c from to quantity memo t t' h in
      let payer : ℕ = if c.has_auth to then to else from in
      let stats : t'.stats ≡ t.stats = ap (λ (u : Token). u.stats) x.rest in
      let oks : EveryRow (AccountOk t.stats) t'.accounts =
        Credited-ok t.stats to quantity payer x.between t'.accounts x.credit (omega arith)
          (ground (arith, x.listed, x.same_symbol))
          (Debited-ok t.stats from quantity t.accounts x.between x.debit v.accounts_ok) in
      record {
        stats_unique = rw stats v.stats_unique;
        accounts_unique =
            Credited-Unique to quantity payer x.between t'.accounts x.credit
              (Debited-Unique from quantity t.accounts x.between x.debit v.accounts_unique);
        stats_ok = rw stats v.stats_ok;
        accounts_ok = rw stats oks;
        backed = λ code. rw stats (
            grind (
              int_laws,
              v.backed code,
              Debited-holdings code from quantity t.accounts x.between x.debit,
              Credited-holdings code to quantity payer x.between t'.accounts x.credit,
            ));
      }

  pub issue-IsValid :
      (to : ℕ) (quantity : Asset) (memo : String) (t t' : Token)
      → IsValid t
      → Token.issue c to quantity memo t ≡ ok tt t'
      → IsValid t'
  issue-IsValid to quantity memo t t' v h =
      let x = issue_effect c to quantity memo t t' h in
      let k : ℕ = quantity.symbol.code in
      let old = find-EveryRow StatOk k k x.stat t.stats v.stats_ok x.listed in
      let z : ℤ = x.stat.supply.amount +ℤ quantity.amount in
      let fits : int64 (x.stat.max_supply.amount -ℤ x.stat.supply.amount)
          ≡ x.stat.max_supply.amount -ℤ x.stat.supply.amount =
        int64_id _ (grind int_laws) (grind int_laws) in
      let room : z ≤ℤ x.stat.max_supply.amount = grind (int_laws, x.available, fits) in
      let oks : EveryRow (AccountOk t'.stats) t'.accounts = rw x.stats_written (
        Credited-ok _ x.stat.issuer quantity x.stat.issuer t.accounts t'.accounts x.credit
          (omega (arith, x.positive))
          (symbol_of-supplied k z x.stat t.stats x.listed k quantity.symbol
            (ground (arith, x.listed, x.same_symbol)))
          (AccountOk-mono t.stats _ t.accounts (symbol_of-supplied k z x.stat t.stats x.listed)
            v.accounts_ok)) in
      record {
        stats_unique = rw x.stats_written (set_row-Unique k k 0 _ t.stats v.stats_unique);
        accounts_unique =
            Credited-Unique x.stat.issuer quantity x.stat.issuer t.accounts t'.accounts x.credit
              v.accounts_unique;
        stats_ok = rw x.stats_written (
            supplied-ok k z x.stat t.stats x.listed (grind (int_laws, old.nonneg, x.positive)) room
              v.stats_ok);
        accounts_ok = oks;
        backed = λ code. rw x.stats_written (
            Credited-holdings code x.stat.issuer quantity x.stat.issuer t.accounts t'.accounts
              x.credit
            ∙ ap (λ n. n +ℤ worth code quantity) (v.backed code)
            ∙ sym (supply_of-grown k z x.stat t.stats x.listed quantity refl refl code));
      }

  pub retire-IsValid :
      (quantity : Asset) (memo : String) (t t' : Token)
      → IsValid t
      → Token.retire c quantity memo t ≡ ok tt t'
      → IsValid t'
  retire-IsValid quantity memo t t' v h =
      let x = retire_effect c quantity memo t t' h in
      let k : ℕ = quantity.symbol.code in
      let old = find-EveryRow StatOk k k x.stat t.stats v.stats_ok x.listed in
      let z : ℤ = x.stat.supply.amount -ℤ quantity.amount in
      let stats : t'.stats ≡ _ = ap (λ (u : Token). u.stats) x.rest in
      let covered =
        holdings-ge t.stats x.stat.issuer k x.debit.row t.accounts v.accounts_ok x.debit.found in
      record {
        stats_unique = rw stats (set_row-Unique k k 0 _ t.stats v.stats_unique);
        accounts_unique =
            Debited-Unique x.stat.issuer quantity t.accounts t'.accounts x.debit v.accounts_unique;
        stats_ok = rw stats (
            supplied-ok k z x.stat t.stats x.listed
              (grind (int_laws, covered, x.debit.covered, v.backed k, x.listed))
              (grind (int_laws, old.capped, x.positive)) v.stats_ok);
        accounts_ok = rw stats (
            Debited-ok _ x.stat.issuer quantity t.accounts t'.accounts x.debit (
              AccountOk-mono t.stats _ t.accounts (symbol_of-supplied k z x.stat t.stats x.listed)
                v.accounts_ok));
        backed = λ code. rw stats (
            +ℤ_cancel_right _ _ (worth code quantity) (
              Debited-holdings code x.stat.issuer quantity t.accounts t'.accounts x.debit
              ∙ v.backed code
              ∙ sym (supply_of-shrunk k z x.stat t.stats x.listed quantity refl refl code)));
      }
