-- ===== src/System/Auction.antt =====
-- contracts/eosio.system/src/eosio.system.cpp: what the account of the name auctions owes is what it
-- was paid.
use Prim.Native.Nat.{bit_or}
use cmcc_eosio_contracts.Common.{
  ◌*◌, ◌^◌, ◌%◌, ℕ, ◌≡◌, refl, sym, ap, ◌∙◌, arith, true, false, Option-cases, some, inl, inr, [],
  ◌∷◌, ◌++◌, ◌==◌,
}
use cmcc_eosio_contracts.Common.Int.{
  +ℤ_cancel_right, ℤ, pos, ltb_ℤ, pos_part, neg_part, ◌+ℤ◌, ◌-ℤ◌, int_laws,
}
use cmcc_eosio_contracts.Chain.Asset.{Asset}
use cmcc_eosio_contracts.Chain.Table.{
  find, sum, add_row, set_row, erase_row, sum-add_row, sum-set_row, sum-erase_row,
}
use cmcc_eosio_contracts.Chain.Action.{ok, Result-cases}
use cmcc_eosio_contracts.System.State.{NameBid}
use cmcc_eosio_contracts.System.Tables.{
  System, sent_transfer, deferred_bidrefund, canceled_deferred,
}
use cmcc_eosio_contracts.System.Host.{
  SystemHost, core_symbol, names_account, active_permission, concat,
}
use cmcc_eosio_contracts.System.Names.{
  add_refund, defer_refund, outbid, bidname, bidrefund, first_bid,
}
use cmcc_eosio_contracts.System.Payments.{paid, paid_in, paid_in-append}
use cmcc_eosio_contracts.System.Owed.{bid_of, refund_of, owed, add_refund-frame, add_refund-sum}

-- What has been paid in is what is owed to bidders and what was won, which stays.
unfoldable pub Backed : ℤ → System → Type 0
Backed won s = owed s +ℤ won ≡ paid_in names_account s.events

module _ (h : SystemHost) where
  outbid-sum :
      (bidder newname : ℕ) (amount : ℤ) (b : NameBid) (s s' : System)
      → find h.self newname s.namebids ≡ some b
      → ltb_ℤ (pos 0) amount ≡ true
      → outbid h bidder newname amount b s ≡ ok tt s'
      → (owed s' ≡ owed s +ℤ amount)
        × (paid_in names_account s'.events ≡ paid_in names_account s.events)
  unfolding outbid owed defer_refund
  outbid-sum bidder newname amount b s s' f more e =
      elim (Result-cases (add_refund h bidder newname b s)) [
        | inr (x, g) ↦ (ground arith, ground arith)
        | inl (u, s1, g) ↦
            let row : NameBid = record b {
              high_bidder = bidder;
              high_bid = amount;
              last_bid_time = h.now;
            } in
            let (n, v) = add_refund-frame h bidder newname b s s1 g in
            let r = add_refund-sum h bidder newname b s s1 g in
            let w : s'.namebids ≡ set_row h.self newname bidder row s1.namebids = ground arith in
            let w2 : s'.bidrefunds ≡ s1.bidrefunds = ground arith in
            let stood : ltb_ℤ (pos 0) b.high_bid ≡ true = ground arith in
            let o : bid_of h.self newname b ≡ b.high_bid = rw stood refl in
            let n2 : bid_of h.self newname row ≡ amount = rw more refl in
            let l0 = sum-set_row bid_of h.self newname bidder row b s.namebids f in
            let l : sum bid_of (set_row h.self newname bidder row s.namebids) +ℤ b.high_bid
                ≡ sum bid_of s.namebids +ℤ amount =
              ap (λ z. sum bid_of (set_row h.self newname bidder row s.namebids) +ℤ z) (sym o)
              ∙ (l0 ∙ ap (λ z. sum bid_of s.namebids +ℤ z) n2) in
            let id = bit_or (newname * 2 ^ 64 % 2 ^ 128) b.high_bidder in
            let c1 = canceled_deferred id in
            let d1 = deferred_bidrefund id bidder b.high_bidder newname in
            let w3 : s'.events ≡ (s1.events ++ c1 ∷ []) ++ d1 ∷ [] = ground arith in
            (
              rw (w, n, w2, r) (omega (int_laws, ap pos_part l, ap neg_part l)),
              rw
                  (
                    w3,
                    paid_in-append names_account (s1.events ++ c1 ∷ []) d1,
                    paid_in-append names_account s1.events c1,
                    v,
                  )
                  (omega int_laws),
            )
      ]

  module _ (bidder newname : ℕ) (s s' : System) (other : bidder == names_account ≡ false) where
    -- The state with the transfer of the bid on its way.
    abbrev sent : Asset → System
    sent bid = record s {
      events =
          s.events
          ++ sent_transfer (record { actor = bidder; permission = active_permission } ∷ []) bidder
              names_account bid (concat "bid name " (h.name_to_string newname))
            ∷ [];
    }

    sent-paid :
        (bid : Asset)
        → paid_in names_account (sent bid).events ≡ paid_in names_account s.events +ℤ bid.amount
    sent-paid bid =
        rw
          (
            paid_in-append names_account s.events (
                sent_transfer (record { actor = bidder; permission = active_permission } ∷ [])
                  bidder names_account bid (concat "bid name " (h.name_to_string newname))),
            other,
          )
          (omega int_laws)

    bidname-sum :
        (bid : Asset)
        → bidname h bidder newname bid s ≡ ok tt s'
        → (owed s' ≡ owed s +ℤ bid.amount)
          × (paid_in names_account s'.events ≡ paid_in names_account s.events +ℤ bid.amount)
    unfolding bidname core_symbol owed first_bid
    bidname-sum bid e = elim (Option-cases (find h.self newname s.namebids)) [
      | inl f ↦
          let more : ltb_ℤ (pos 0) bid.amount ≡ true = ground arith in
          let w : s' ≡ record (sent bid) {
            namebids =
                add_row h.self newname bidder (first_bid h bidder newname bid.amount) s.namebids;
          } =
            ground arith in
          (
            rw
                (
                  w,
                  sum-add_row bid_of h.self newname bidder (first_bid h bidder newname bid.amount)
                      s.namebids,
                  more,
                )
                (omega int_laws),
            rw w (sent-paid bid),
          )
      | inr (b, f) ↦
          let w : outbid h bidder newname bid.amount b (sent bid) ≡ ok tt s' = ground arith in
          let more : ltb_ℤ (pos 0) bid.amount ≡ true = ground arith in
          let (x, y) = outbid-sum bidder newname bid.amount b (sent bid) s' f more w in
          (x, y ∙ sent-paid bid)
    ]

    bidrefund-sum :
        bidrefund h bidder newname s ≡ ok tt s'
        → (z : ℤ) × (owed s' +ℤ z ≡ owed s)
          × (paid_in names_account s'.events +ℤ z ≡ paid_in names_account s.events)
    unfolding bidrefund owed
    bidrefund-sum e = elim (Option-cases (find newname bidder s.bidrefunds)) [
      | inl f ↦ (pos 0, ground arith, ground arith)
      | inr (r, f) ↦
          let t =
            sent_transfer
              (record { actor = names_account; permission = active_permission }
                ∷ record { actor = bidder; permission = active_permission }
                ∷ [])
              names_account bidder r.amount
              (concat "refund bid on name " (h.name_to_string newname)) in
          let w : s' ≡ record s {
            bidrefunds = erase_row newname bidder s.bidrefunds;
            events = s.events ++ t ∷ [];
          } =
            ground arith in
          let l = sum-erase_row refund_of newname bidder r s.bidrefunds f in
          let p : paid names_account t ≡ pos 0 -ℤ r.amount.amount = rw other refl in
          (
            r.amount.amount,
            rw w (omega (int_laws, ap pos_part l, ap neg_part l)),
            rw (w, paid_in-append names_account s.events t, p) (omega int_laws),
          )
    ]

    shifted : (a b z k p : ℤ) → b ≡ a +ℤ z → a +ℤ k ≡ p → b +ℤ k ≡ p +ℤ z
    shifted a b z k p e f =
        omega (int_laws, ap pos_part e, ap neg_part e, ap pos_part f, ap neg_part f)

    shifted_back : (a b z k p q : ℤ) → b +ℤ z ≡ a → q +ℤ z ≡ p → a +ℤ k ≡ p → b +ℤ k ≡ q
    shifted_back a b z k p q e g f = +ℤ_cancel_right (b +ℤ k) q z (
        omega (
          int_laws,
          ap pos_part e,
          ap neg_part e,
          ap pos_part f,
          ap neg_part f,
          ap pos_part g,
          ap neg_part g,
        ))

    -- Of what eosio.names has been paid, the part that is not owed to bidders, as a bid of an auction that
    -- is not closed or as a refund that is due, is the same after a bid and after a refund of any account
    -- but eosio.names itself: a bid adds to what is owed just what is paid for it, and a refund takes from
    -- it just what is paid out.
    pub auction-Backed :
        (bid : Asset) (won : ℤ)
        → Backed won s
        → (bidname h bidder newname bid s ≡ ok tt s' → Backed won s')
          × (bidrefund h bidder newname s ≡ ok tt s' → Backed won s')
    unfolding Backed
    auction-Backed bid won v = (
      (λ e.
          let (x, y) = bidname-sum bid e in
          shifted (owed s) (owed s') bid.amount won (paid_in names_account s.events) x v ∙ sym y),
      (λ e.
          let (z, x, y) = bidrefund-sum e in
          shifted_back (owed s) (owed s') z won (paid_in names_account s.events)
            (paid_in names_account s'.events) x y v),
    )
