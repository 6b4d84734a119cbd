-- ===== src/System/Owed.antt =====
-- contracts/eosio.system/src/eosio.system.cpp: what the account of the name
-- auctions owes, and what a refund adds to it.
use cmcc_eosio_contracts.Common.{
  ℕ, ◌≡◌, refl, sym, ap, arith, if◌then◌else◌, Option-cases, some, none, inl, inr,
}
use cmcc_eosio_contracts.Common.Int.{ℤ, pos, ltb_ℤ, pos_part, neg_part, ◌+ℤ◌, int_laws}
use cmcc_eosio_contracts.Chain.Asset.{Symbol, Asset}
use cmcc_eosio_contracts.Chain.Table.{find, sum, add_row, set_row, sum-add_row, sum-set_row}
use cmcc_eosio_contracts.Chain.Action.{ok, Result-cases}
use cmcc_eosio_contracts.System.State.{NameBid, BidRefund}
use cmcc_eosio_contracts.System.Tables.{System}
use cmcc_eosio_contracts.System.Host.{SystemHost, core_symbol}
use cmcc_eosio_contracts.System.Names.{add_refund}

-- A bid stands until its auction is closed, which turns its sign.
abbrev pub bid_of : ℕ → ℕ → NameBid → ℤ
bid_of s k b = if ltb_ℤ (pos 0) b.high_bid then b.high_bid else pos 0

abbrev pub refund_of : ℕ → ℕ → BidRefund → ℤ
refund_of s k r = r.amount.amount

-- The bids that stand and the refunds that are due.
unfoldable pub owed : System → ℤ
owed s = sum bid_of s.namebids +ℤ sum refund_of s.bidrefunds

module _ (h : SystemHost) where
  made_amount : (z : ℤ) (sym : Symbol) (a : Asset) → h.make_asset z sym ≡ some a → a.amount ≡ z
  made_amount z sym a e = ground (arith, h.make_asset_lem z sym)

  added_amount : (a b c : Asset) → h.asset_add a b ≡ some c → c.amount ≡ a.amount +ℤ b.amount
  added_amount a b c e = ground (arith, h.asset_add_lem a b)

  -- The row that the refund goes to.
  new_refund-sum :
      (bidder newname : ℕ) (b : NameBid) (s s' : System) (c : Symbol) (back : Asset)
      → find newname b.high_bidder s.bidrefunds ≡ none
      → core_symbol h s ≡ ok c s
      → h.make_asset b.high_bid c ≡ some back
      → add_refund h bidder newname b s ≡ ok tt s'
      → sum refund_of s'.bidrefunds ≡ sum refund_of s.bidrefunds +ℤ b.high_bid
  unfolding add_refund
  new_refund-sum bidder newname b s s' c back f g m e =
      let row : BidRefund = record { bidder = b.high_bidder; amount = back } in
      let w : s'.bidrefunds ≡ add_row newname b.high_bidder bidder row s.bidrefunds =
        ground arith in
      let z = made_amount b.high_bid c back m in
      rw (w, sum-add_row refund_of newname b.high_bidder bidder row s.bidrefunds, z) refl

  more_refund-sum :
      (bidder newname : ℕ) (b : NameBid) (s s' : System) (c : Symbol) (back total : Asset)
      (r : BidRefund)
      → find newname b.high_bidder s.bidrefunds ≡ some r
      → core_symbol h s ≡ ok c s
      → h.make_asset b.high_bid c ≡ some back
      → h.asset_add r.amount back ≡ some total
      → add_refund h bidder newname b s ≡ ok tt s'
      → sum refund_of s'.bidrefunds ≡ sum refund_of s.bidrefunds +ℤ b.high_bid
  unfolding add_refund
  more_refund-sum bidder newname b s s' c back total r f g m t e =
      let row : BidRefund = record r { amount = total } in
      let w : s'.bidrefunds ≡ set_row newname b.high_bidder 0 row s.bidrefunds = ground arith in
      let z = made_amount b.high_bid c back m in
      let y = added_amount r.amount back total t in
      let l = sum-set_row refund_of newname b.high_bidder 0 row r s.bidrefunds f in
      rw w (
        omega (
          int_laws,
          ap pos_part z,
          ap neg_part z,
          ap pos_part y,
          ap neg_part y,
          ap pos_part l,
          ap neg_part l,
        ))

  pub add_refund-frame :
      (bidder newname : ℕ) (b : NameBid) (s s' : System)
      → add_refund h bidder newname b s ≡ ok tt s'
      → (s'.namebids ≡ s.namebids) × (s'.events ≡ s.events)
  unfolding add_refund core_symbol
  add_refund-frame bidder newname b s s' e = ground arith

  core_symbol_reads :
      (s s' : System) (c : Symbol) → core_symbol h s ≡ ok c s' → core_symbol h s ≡ ok c s
  unfolding core_symbol
  core_symbol_reads s s' c e = ground arith

  pub add_refund-sum :
      (bidder newname : ℕ) (b : NameBid) (s s' : System)
      → add_refund h bidder newname b s ≡ ok tt s'
      → sum refund_of s'.bidrefunds ≡ sum refund_of s.bidrefunds +ℤ b.high_bid
  unfolding add_refund
  add_refund-sum bidder newname b s s' e = elim (Result-cases (core_symbol h s)) [
    | inr (x, g) ↦ ground arith
    | inl (c, s1, g') ↦
        let g = core_symbol_reads s s1 c g' in
        elim (Option-cases (h.make_asset b.high_bid c)) [
          | inl m ↦ ground arith
          | inr (back, m) ↦ elim (Option-cases (find newname b.high_bidder s.bidrefunds)) [
            | inl f ↦ new_refund-sum bidder newname b s s' c back f g m e
            | inr (r, f) ↦ elim (Option-cases (h.asset_add r.amount back)) [
              | inl t ↦ ground arith
              | inr (total, t) ↦ more_refund-sum bidder newname b s s' c back total r f g m t e
            ]
          ]
        ]
  ]
