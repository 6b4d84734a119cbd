-- ===== src/System/Pay/Tests.antt =====
-- A run of a closing, and the theorems on blocks and pay at concrete states.
use cmcc_eosio_contracts.Common.{◌+◌, ◌*◌, ◌≤◌, ◌≡◌, ◌⊎◌, ℕ, arith, refl, true, [], ◌∷◌}
use cmcc_eosio_contracts.Common.Int.{pos, negsuc, ◌≤ℤ◌, ◌+ℤ◌, ◌-ℤ◌, int64}
use cmcc_eosio_contracts.Chain.Table.{Entry, EveryRow, set_row, find}
use cmcc_eosio_contracts.Chain.Action.{ok}
use cmcc_eosio_contracts.Sample.{sys_amount}
use cmcc_eosio_contracts.System.State.{NameBid}
use cmcc_eosio_contracts.System.Tables.{System, least}
use cmcc_eosio_contracts.System.Host.{rex_available, pool}
use cmcc_eosio_contracts.System.Rex.Pool.{channel_namebid_to_rex}
use cmcc_eosio_contracts.System.Sample.{host, start, lent_row}
use cmcc_eosio_contracts.System.Pay.Claims.{split_tokens}
use cmcc_eosio_contracts.System.Pay.Blocks.{closed, closes, close_auction}
use cmcc_eosio_contracts.System.Pay.Closing.{close_auction_lem}
use cmcc_eosio_contracts.System.Pay.Issue.{split_tokens_lem}

split_tokens_lem_example :
    (savings : ℕ) × (votes : ℕ) × (blocks : ℕ) × (split_tokens (pos 1003) ≡ record {
      to_savings = pos savings;
      to_per_block_pay = pos blocks;
      to_per_vote_pay = pos votes;
    })
    × (savings + votes + blocks ≡ 1003)
    × (4 * 1003 ≤ 5 * savings)
    × (3 * (votes + blocks) ≤ 4 * votes)
split_tokens_lem_example = split_tokens_lem 1003 (omega arith)

abbrev bid : ℕ → ℕ → NameBid
bid name amount = record {
  newname = name;
  high_bidder = 5;
  high_bid = pos amount;
  last_bid_time = 0;
}

-- The chain has been active for long, and 70 is bid for the name 3.
abbrev bids : System
bids = record start {
  gstate = record start.gstate { thresh_activated_stake_time = 1 };
  namebids =
      record { scope = 1; key = 2; payer = 5; row = bid 2 40 }
      ∷ record { scope = 1; key = 3; payer = 5; row = bid 3 70 }
      ∷ [];
}

abbrev after_closing : System
after_closing = record bids {
  gstate = record bids.gstate { last_name_close = 99 };
  rexpool =
      record {
        scope = 1;
        key = 0;
        payer = 1;
        row = record lent_row { namebid_proceeds = sys_amount 70 };
      }
      ∷ [];
  namebids =
      record { scope = 1; key = 2; payer = 5; row = bid 2 40 }
      ∷ record { scope = 1; key = 3; payer = 5; row = record (bid 3 70) { high_bid = negsuc 69 } }
      ∷ [];
}

closing_runs : close_auction host 99 bids ≡ ok tt after_closing
unfolding close_auction least closes channel_namebid_to_rex rex_available pool find set_row int64
    ◌+ℤ◌ ◌-ℤ◌
closing_runs = refl

close_auction_lem_example :
    (after_closing.namebids ≡ bids.namebids)
    ⊎ ((e : Entry NameBid) × (e.row.newname ≤ 3)
        × (closes host bids.gstate e.row ≡ true)
        × EveryRow (λ s k b. b.high_bid ≤ℤ e.row.high_bid) bids.namebids
        × (after_closing.namebids ≡ set_row 1 e.key 0 (closed e.row) bids.namebids))
close_auction_lem_example =
    close_auction_lem host (λ s k b. b.newname ≤ 3) 99 bids after_closing tt
      (omega arith, (omega arith, tt)) (refl, (refl, tt)) closing_runs
