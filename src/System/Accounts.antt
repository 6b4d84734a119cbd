-- ===== src/System/Accounts.antt =====
-- contracts/eosio.system/src/eosio.system.cpp: who can create an account with a short or dotted name.
use cmcc_eosio_contracts.Common.{
  ℕ, ◌≡◌, ◌⊎◌, arith, true, false, some, inl, inr, Bool-cases, Option-cases, ◌==◌,
}
use cmcc_eosio_contracts.Common.Int.{pos, ltb_ℤ}
use cmcc_eosio_contracts.Chain.Table.{find, erase_row}
use cmcc_eosio_contracts.Chain.Action.{ok}
use cmcc_eosio_contracts.System.State.{NameBid}
use cmcc_eosio_contracts.System.Tables.{System}
use cmcc_eosio_contracts.System.Host.{SystemHost, core_symbol}
use cmcc_eosio_contracts.System.Names.{newaccount, check_name, claim_name, has_dot}

module _ (h : SystemHost) (creator newact : ℕ) (s s' : System) where
  -- The auction of the name is closed, and the creator won it. The claim takes its row away.
  pub record Claimed : Type 0 where
    pub bid : NameBid
    pub found : find h.self newact s.namebids ≡ some bid
    pub winner : bid.high_bidder ≡ creator
    pub closed : ltb_ℤ bid.high_bid (pos 0) ≡ true
    pub gone : s'.namebids ≡ erase_row h.self newact s.namebids

  -- If an account other than the system creates one with a dot or with fewer than 12 characters in its
  -- name, then it won the closed auction of the name and uses it up, or the name's suffix is its own
  -- name and no auction changes.
  pub newaccount_rules :
      creator == h.self ≡ false
      → has_dot newact ≡ true
      → newaccount h creator newact s ≡ ok tt s'
      → Claimed ⊎ ((creator ≡ h.suffix newact) × (s'.namebids ≡ s.namebids))
  unfolding newaccount check_name claim_name core_symbol
  newaccount_rules other dotted e = elim (Bool-cases (h.suffix newact == newact)) [
    | inr y ↦ inr (ground arith, ground arith)
    | inl y ↦ elim (Option-cases (find h.self newact s.namebids)) [
      | inl f ↦ inr (ground arith, ground arith)
      | inr (b, f) ↦ inl (record {
        bid = b;
        found = f;
        winner = ground arith;
        closed = ground arith;
        gone = ground arith;
      })
    ]
  ]
