-- ===== src/System/Pay/Claims.antt =====
-- contracts/eosio.system/src/producer_pay.cpp: new tokens are issued, and a producer claims its pay.
use cmcc_eosio_contracts.Common.{
  ℕ, ◌+◌, ◌-◌, ◌*◌, ◌%◌, ◌^◌, Bool, true, not, ◌&&◌, String, [], ◌∷◌, ◌==◌, ltb, leb, if◌then◌else◌,
}
use cmcc_eosio_contracts.Common.Int.{ℤ, pos, negsuc, int64, leb_ℤ, ltb_ℤ}
use cmcc_eosio_contracts.Chain.Asset.{Symbol, Asset}
use cmcc_eosio_contracts.Chain.Action.{
  Action, ok, err, ⊤, pure, on_row, branch, gets, or_abort, check, when, require_auth, ◌>>=◌, ◌>>◌,
}
use cmcc_eosio_contracts.System.Float.{Double, zero_double}
use cmcc_eosio_contracts.System.State.{GlobalState, ProducerInfo, ProducerInfo2}
use cmcc_eosio_contracts.System.Tables.{
  System, Event, emit, find_in, emplace_in, modify_in, producers_table, producers2_table,
}
use cmcc_eosio_contracts.System.Host.{
  SystemHost, ◌+64◌, ◌-64◌, days, active_permission, core_symbol, asset, send_transfer,
}
use cmcc_eosio_contracts.System.Ram.{set_gstate, quot}
use cmcc_eosio_contracts.System.Voting.Shares.{
  threshold, update_total_votepay_share, update_producer_votepay_share,
}
use cmcc_eosio_contracts.System.Voting.Votes.{min_activated_stake}
use cmcc_eosio_contracts.System.Voting.Actions.{new_shares}
use cmcc_eosio_contracts.Token.{get_supply}

abbrev pub min_pervote_daily_pay : ℤ
min_pervote_daily_pay = pos 1000000

-- The double 0.04879.
abbrev continuous_rate : Double
continuous_rate = 0x3fa8fb00bcbe61d0

-- 52 weeks.
abbrev useconds_per_year : ℤ
useconds_per_year = pos 31449600000000

abbrev pub bpay_account : ℕ
bpay_account = 0x5530ea00f5378000

abbrev pub vpay_account : ℕ
vpay_account = 0x5530ea0375378000

abbrev pub saving_account : ℕ
saving_account = 0x5530ea0306dba6c0

-- `int64_t * uint32_t / uint32_t`, which is computed in int64_t.
abbrev times_64 : ℤ → ℕ → ℤ
times_64 (pos a) n = int64 (pos (a * n))
times_64 (negsuc a) n = pos 0 -64 pos ((a + 1) * n)

-- How new tokens are split.
pub record Split : Type 0 where
  pub to_savings : ℤ
  pub to_per_block_pay : ℤ
  pub to_per_vote_pay : ℤ

unfoldable pub split_tokens : ℤ → Split
split_tokens new_tokens =
    let to_producers = quot new_tokens 5 in
    let to_per_block_pay = quot to_producers 4 in
    record {
      to_savings = new_tokens -64 to_producers;
      to_per_block_pay = to_per_block_pay;
      to_per_vote_pay = to_producers -64 to_per_block_pay;
    }

unfoldable pub with_buckets : ℕ → Split → GlobalState → GlobalState
with_buckets ct split g = record g {
  pervote_bucket = g.pervote_bucket +64 split.to_per_vote_pay;
  perblock_bucket = g.perblock_bucket +64 split.to_per_block_pay;
  last_pervote_bucket_fill = ct;
}

-- A producer's share of the bucket for blocks.
unfoldable pub block_pay : GlobalState → ProducerInfo → ℤ
block_pay g prod =
    if g.total_unpaid_blocks == 0
    then pos 0
    else quot (times_64 g.perblock_bucket prod.unpaid_blocks) g.total_unpaid_blocks

unfoldable pub without_pay : ℤ → ℤ → ProducerInfo → GlobalState → GlobalState
without_pay per_block per_vote prod g = record g {
  pervote_bucket = g.pervote_bucket -64 per_vote;
  perblock_bucket = g.perblock_bucket -64 per_block;
  total_unpaid_blocks = (g.total_unpaid_blocks + (2 ^ 32 - prod.unpaid_blocks)) % 2 ^ 32;
}

module _ (h : SystemHost) where
  abbrev send_core : ℕ → ℕ → ℤ → String → Action System ⊤
  send_core from to z memo = do
    core ← core_symbol h
    a ← asset h z core
    send_transfer (from ∷ []) from to a memo

  -- Another contract's table is read, not changed.
  unfoldable pub token_supply : Symbol → Action System Asset
  token_supply core s = elim (get_supply h.chain core.code h.token) [
    | ok a t ↦ ok a s
    | err e ↦ err e
  ]

  unfoldable pub inflation : ℤ → ℕ → ℤ
  inflation supply usecs =
      let f = h.floats in
      f.to_int (
        f.div (f.mul (f.mul continuous_rate (f.of_int supply)) (f.of_int (pos usecs)))
          (f.of_int useconds_per_year))

  unfoldable pub issue_tokens : ℤ → Action System ⊤
  issue_tokens new_tokens = do
    let split = split_tokens new_tokens
    core ← core_symbol h
    issued ← asset h new_tokens core
    emit (
        Event.sent_issue (record { actor = h.self; permission = active_permission }) h.self issued
          "issue tokens for producer pay and savings")
    send_core h.self saving_account split.to_savings "unallocated inflation"
    send_core h.self bpay_account split.to_per_block_pay "fund per-block bucket"
    send_core h.self vpay_account split.to_per_vote_pay "fund per-vote bucket"
    g ← gets (λ s. s.gstate)
    set_gstate (with_buckets h.now split g)

  unfoldable pub fill_buckets : ℤ → Action System ⊤
  fill_buckets supply = do
    g ← gets (λ s. s.gstate)
    when (ltb g.last_pervote_bucket_fill h.now && not (g.last_pervote_bucket_fill == 0))
        (issue_tokens (inflation supply (h.now - g.last_pervote_bucket_fill)))

  -- A row of shares that is new is treated as if it were updated after the threshold.
  unfoldable pub shares_row : ℕ → ProducerInfo → Action System (ProducerInfo2 × Bool)
  shares_row owner prod = do
    prod2 ← find_in producers2_table h.self owner
    on_row prod2 (λ p. pure (p, leb (threshold h prod) p.last_votepay_share_update))
        (do
          emplace_in producers2_table h.self owner owner (new_shares h owner)
          pure (new_shares h owner, true))

  -- A share of the bucket for votes, at most the bucket.
  unfoldable pub capped_share : Double → Double → ℤ → ℤ
  capped_share share total bucket =
      let f = h.floats in
      let z = f.to_int (f.div (f.mul share (f.of_int bucket)) total) in
      if ltb_ℤ bucket z then bucket else z

  unfoldable pub weight_share : GlobalState → ProducerInfo → ℤ
  weight_share g prod =
      let f = h.floats in
      if f.lt zero_double g.total_producer_vote_weight
      then f.to_int
          (f.div (f.mul (f.of_int g.pervote_bucket) prod.total_votes) g.total_producer_vote_weight)
      else pos 0

  abbrev at_least_daily : ℤ → ℤ
  at_least_daily z = if ltb_ℤ z min_pervote_daily_pay then pos 0 else z

  unfoldable pub vote_pay : ProducerInfo → Double → Action System ℤ
  vote_pay prod new_votepay_share = do
    g ← gets (λ s. s.gstate)
    g2 ← gets (λ s. s.gstate2)
    branch (g2.revision == 0) (pure (at_least_daily (weight_share g prod))) (do
      total ← update_total_votepay_share h h.now zero_double zero_double
      let paid = h.floats.lt zero_double total && not (leb (threshold h prod) h.now)
      pure (
          at_least_daily
            (if paid then capped_share new_votepay_share total g.pervote_bucket else pos 0)))

  unfoldable pub send_pay : ℕ → ℕ → ℤ → String → Action System ⊤
  send_pay account owner z memo = when (ltb_ℤ (pos 0) z) (do
    core ← core_symbol h
    a ← asset h z core
    send_transfer (account ∷ owner ∷ []) account owner a memo)

  -- The pay leaves the buckets, and the producer's count of blocks starts anew.
  unfoldable pub take_pay : ℕ → ProducerInfo → Double → Bool → ℤ → Action System ⊤
  take_pay owner prod new_votepay_share updated_after_threshold per_vote = do
    g ← gets (λ s. s.gstate)
    let per_block = block_pay g prod
    set_gstate (without_pay per_block per_vote prod g)
    share ←
        update_total_votepay_share h h.now (h.floats.neg new_votepay_share)
          (if updated_after_threshold then prod.total_votes else zero_double)
    modify_in producers_table h.self owner 0
        (record prod { last_claim_time = h.now; unpaid_blocks = 0 })
    send_pay bpay_account owner per_block "producer block pay"
    send_pay vpay_account owner per_vote "producer vote pay"

  unfoldable pub pay_producer : ℕ → ProducerInfo → Action System ⊤
  pay_producer owner prod = do
    row ← shares_row owner prod
    new_votepay_share ←
        update_producer_votepay_share h owner (row.0) h.now
          (if row.1 then zero_double else prod.total_votes) true
    per_vote ← vote_pay prod new_votepay_share
    take_pay owner prod new_votepay_share (row.1) per_vote

  unfoldable pub claimrewards : ℕ → Action System ⊤
  claimrewards owner = do
    require_auth h.chain owner
    itr ← find_in producers_table h.self owner
    prod ← or_abort itr "unable to find key"
    check prod.is_active "producer does not have an active key"
    g ← gets (λ s. s.gstate)
    check (leb_ℤ min_activated_stake g.total_activated_stake)
        "cannot claim rewards until the chain is activated (at least 15% of all tokens participate in voting)"
    check (ltb (prod.last_claim_time + days 1) h.now) "already claimed rewards within past day"
    core ← core_symbol h
    supply ← token_supply core
    fill_buckets supply.amount
    pay_producer owner prod
