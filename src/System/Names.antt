-- ===== src/System/Names.antt =====
-- contracts/eosio.system/src/eosio.system.cpp: auctions of names, new accounts and hashes of ABIs.
use Prim.Native.Nat.{bit_and, bit_or}
use cmcc_eosio_contracts.Common.{
  ℕ, zero, suc, ◌*◌, ◌/◌, ◌%◌, ◌^◌, Bool, false, not, ◌||◌, List, [], ◌∷◌, ◌==◌,
}
use cmcc_eosio_contracts.Common.Int.{ℤ, pos, ltb_ℤ}
use cmcc_eosio_contracts.Chain.Asset.{Asset, sym_eq}
use cmcc_eosio_contracts.Chain.Action.{
  on_row, branch, Action, ⊤, or_abort, check, when, require_auth, ◌>>=◌, ◌>>◌,
}
use cmcc_eosio_contracts.System.State.{NameBid}
use cmcc_eosio_contracts.System.Tables.{
  System, Event, emit, find_in, emplace_in, modify_in, erase_in, namebids_table, bidrefunds_table,
  userres_table, abihash_table, set_limits,
}
use cmcc_eosio_contracts.System.Host.{
  SystemHost, ◌-64◌, names_account, core_symbol, asset, zero_core, send_transfer, concat,
  other_symbols,
}
use cmcc_eosio_contracts.System.Ram.{quot}

-- A dot, or the end of the name, among the first 12 characters: a shift by 5 bits at a time.
unfoldable pub has_dot_in : ℕ → ℕ → Bool
has_dot_in zero tmp = false
has_dot_in (suc n) tmp = (bit_and tmp 0x1f == 0) || has_dot_in n (tmp / 2 ^ 5)

unfoldable pub has_dot : ℕ → Bool
has_dot n = has_dot_in 12 (n / 2 ^ 4)

module _ (h : SystemHost) where
  unfoldable pub first_bid : ℕ → ℕ → ℤ → NameBid
  first_bid bidder newname amount = record {
    newname = newname;
    high_bidder = bidder;
    high_bid = amount;
    last_bid_time = h.now;
  }

  -- The one that was the highest bidder can have the bid back.
  unfoldable pub add_refund : ℕ → ℕ → NameBid → Action System ⊤
  add_refund bidder newname current = do
    core ← core_symbol h
    back ← asset h current.high_bid core
    it ← find_in bidrefunds_table newname current.high_bidder
    on_row it
        (λ r. (do
          amount ← or_abort (h.asset_add r.amount back) other_symbols
          modify_in bidrefunds_table newname current.high_bidder 0 (record r { amount = amount })))
        (emplace_in bidrefunds_table newname current.high_bidder bidder
          (record { bidder = current.high_bidder; amount = back }))

  unfoldable pub defer_refund : ℕ → ℕ → NameBid → Action System ⊤
  defer_refund bidder newname current = do
    let deferred_id = bit_or (newname * 2 ^ 64 % 2 ^ 128) current.high_bidder
    emit (Event.canceled_deferred deferred_id)
    emit (Event.deferred_bidrefund deferred_id bidder current.high_bidder newname)

  unfoldable pub outbid : ℕ → ℕ → ℤ → NameBid → Action System ⊤
  outbid bidder newname amount current = do
    check (ltb_ℤ (pos 0) current.high_bid) "this auction has already closed"
    check (ltb_ℤ (quot current.high_bid 10) (amount -64 current.high_bid))
        "must increase bid by 10%"
    check (not (current.high_bidder == bidder)) "account is already highest bidder"
    add_refund bidder newname current
    defer_refund bidder newname current
    modify_in namebids_table h.self newname bidder
        (record current { high_bidder = bidder; high_bid = amount; last_bid_time = h.now })

  unfoldable pub bidname : ℕ → ℕ → Asset → Action System ⊤
  bidname bidder newname bid = do
    require_auth h.chain bidder
    check (h.suffix newname == newname) "you can only bid on top-level suffix"
    check (not (newname == 0)) "the empty name is not a valid account name to bid on"
    check (bit_and newname 0xf == 0) "13 character names are not valid account names to bid on"
    check (bit_and newname 0x1f0 == 0)
        "accounts with 12 character names and no dots can be created without bidding required"
    check (not (h.is_account newname)) "account already exists"
    core ← core_symbol h
    check (sym_eq bid.symbol core) "asset must be system token"
    check (ltb_ℤ (pos 0) bid.amount) "insufficient bid"
    send_transfer (bidder ∷ []) bidder names_account bid
        (concat "bid name " (h.name_to_string newname))
    current ← find_in namebids_table h.self newname
    on_row current (λ b. outbid bidder newname bid.amount b)
        (emplace_in namebids_table h.self newname bidder (first_bid bidder newname bid.amount))

  unfoldable pub bidrefund : ℕ → ℕ → Action System ⊤
  bidrefund bidder newname = do
    it ← find_in bidrefunds_table newname bidder
    r ← or_abort it "refund not found"
    send_transfer (names_account ∷ bidder ∷ []) names_account bidder r.amount
        (concat "refund bid on name " (h.name_to_string newname))
    erase_in bidrefunds_table newname bidder

  -- A name that was won at an auction is claimed from it.
  unfoldable pub claim_name : ℕ → ℕ → Action System ⊤
  claim_name creator newact = do
    it ← find_in namebids_table h.self newact
    current ← or_abort it "no active bid for name"
    check (current.high_bidder == creator) "only highest bidder can claim"
    check (ltb_ℤ current.high_bid (pos 0)) "auction for name is not closed yet"
    erase_in namebids_table h.self newact

  unfoldable pub check_name : ℕ → ℕ → Action System ⊤
  check_name creator newact = when (not (creator == h.self)) (
      when (has_dot newact) (
        branch (h.suffix newact == newact) (claim_name creator newact)
          (check (creator == h.suffix newact) "only suffix may create this account")))

  unfoldable pub newaccount : ℕ → ℕ → Action System ⊤
  newaccount creator newact = do
    check_name creator newact
    zero_asset ← zero_core h
    emplace_in userres_table newact newact newact (record {
      owner = newact;
      net_weight = zero_asset;
      cpu_weight = zero_asset;
      ram_bytes = pos 0;
    })
    set_limits newact (record { ram = pos 0; net = pos 0; cpu = pos 0 })

  unfoldable pub setabi : ℕ → List ℕ → Action System ⊤
  setabi acnt abi = do
    itr ← find_in abihash_table h.self acnt
    on_row itr (λ row. modify_in abihash_table h.self acnt 0 (record row { hash = h.sha256 abi }))
        (emplace_in abihash_table h.self acnt acnt (record { owner = acnt; hash = h.sha256 abi }))
