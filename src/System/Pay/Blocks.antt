-- ===== src/System/Pay/Blocks.antt =====
-- contracts/eosio.system/src/producer_pay.cpp: what the contract does at each block.
use cmcc_eosio_contracts.Common.{ℕ, ◌+◌, ◌-◌, ◌%◌, ◌^◌, Bool, not, ◌&&◌, ◌==◌, ltb, leb}
use cmcc_eosio_contracts.Common.Int.{pos, leb_ℤ, ltb_ℤ}
use cmcc_eosio_contracts.Chain.Table.{Entry}
use cmcc_eosio_contracts.Chain.Action.{
  Action, ⊤, pure, on_row, gets, when, require_auth, ◌>>=◌, ◌>>◌,
}
use cmcc_eosio_contracts.System.State.{GlobalState, NameBid}
use cmcc_eosio_contracts.System.Tables.{
  System, find_in, modify_in, producers_table, namebids_table, least,
}
use cmcc_eosio_contracts.System.Host.{SystemHost, ◌-64◌, days}
use cmcc_eosio_contracts.System.Ram.{set_gstate, set_gstate2, u64}
use cmcc_eosio_contracts.System.Rex.Pool.{channel_namebid_to_rex}
use cmcc_eosio_contracts.System.Voting.Votes.{min_activated_stake}
use cmcc_eosio_contracts.System.Voting.Election.{update_elected_producers}

-- Slots are uint32_t.
abbrev pub slots_since : ℕ → ℕ → ℕ
slots_since a b = (a + (2 ^ 32 - b)) % 2 ^ 32

-- In slots of half a second.
abbrev pub blocks_per_day : ℕ
blocks_per_day = 172800

-- The index by bid: the highest bid comes first of those from half of the numbers on.
abbrev pub by_high_bid : NameBid → ℕ
by_high_bid b = u64 (pos 0 -64 b.high_bid)

abbrev pub from_half : Entry NameBid → Bool
from_half e = leb 0x7fffffffffffffff (by_high_bid e.row)

abbrev pub closed : NameBid → NameBid
closed b = record b { high_bid = pos 0 -64 b.high_bid }

module _ (h : SystemHost) where
  -- More than a day after the last bid, and more than 14 days after the activation of the chain.
  unfoldable pub closes : GlobalState → NameBid → Bool
  closes g b =
      ltb_ℤ (pos 0) b.high_bid
      && ltb (b.last_bid_time + days 1) h.now
      && not (g.thresh_activated_stake_time == 0)
      && ltb (g.thresh_activated_stake_time + days 14) h.now

  abbrev pub close_bid : ℕ → Entry NameBid → Action System ⊤
  close_bid timestamp e = do
    g ← gets (λ s. s.gstate)
    set_gstate (record g { last_name_close = timestamp })
    channel_namebid_to_rex h e.row.high_bid
    modify_in namebids_table h.self e.key 0 (closed e.row)

  unfoldable pub close_auction : ℕ → Action System ⊤
  close_auction timestamp = do
    g ← gets (λ s. s.gstate)
    highest ← gets (λ s. least from_half by_high_bid s.namebids)
    on_row highest (λ e. when (closes g e.row) (close_bid timestamp e)) (pure tt)

  unfoldable pub count_block : ℕ → Action System ⊤
  count_block producer = do
    prod ← find_in producers_table h.self producer
    on_row prod
        (λ p. (do
          g ← gets (λ s. s.gstate)
          set_gstate (record g { total_unpaid_blocks = (g.total_unpaid_blocks + 1) % 2 ^ 32 })
          modify_in producers_table h.self producer 0
              (record p { unpaid_blocks = (p.unpaid_blocks + 1) % 2 ^ 32 })))
        (pure tt)

  unfoldable pub start_presses : Action System ⊤
  start_presses = do
    g ← gets (λ s. s.gstate)
    when (g.last_pervote_bucket_fill == 0)
        (set_gstate (record g { last_pervote_bucket_fill = h.now }))

  -- Once a minute producers are elected, and once a day an auction is closed.
  unfoldable pub each_minute : ℕ → Action System ⊤
  each_minute timestamp = do
    g ← gets (λ s. s.gstate)
    when (ltb 120 (slots_since timestamp g.last_producer_schedule_update)) (do
      update_elected_producers h timestamp
      when (ltb blocks_per_day (slots_since timestamp g.last_name_close)) (close_auction timestamp))

  -- The block's header has its time and its producer.
  unfoldable pub onblock : ℕ → ℕ → Action System ⊤
  onblock timestamp producer = do
    require_auth h.chain h.self
    g2 ← gets (λ s. s.gstate2)
    set_gstate2 (record g2 { last_block_num = timestamp })
    g ← gets (λ s. s.gstate)
    when (leb_ℤ min_activated_stake g.total_activated_stake)
        (do start_presses; count_block producer; each_minute timestamp)
