-- ===== src/System/Tests.antt =====
-- Runs of the market and of auctions, and their theorems at concrete states.
use Prim.Native.Nat.{bit_or}
use cmcc_eosio_contracts.Common.{
  ◌≢◌, true, ◌⊎◌, ◌==◌, if◌then◌else◌, ℕ, ◌*◌, ◌^◌, ◌%◌, ◌≡◌, refl, [], ◌∷◌,
}
use cmcc_eosio_contracts.Common.Int.{negsuc, pos, ◌+ℤ◌, ◌-ℤ◌, int64}
use cmcc_eosio_contracts.Chain.Table.{erase_row, find, add_row, set_row, sum}
use cmcc_eosio_contracts.Chain.Action.{ok, err}
use cmcc_eosio_contracts.Sample.{sys_amount}
use cmcc_eosio_contracts.System.State.{NameBid}
use cmcc_eosio_contracts.System.Tables.{
  System, sent_transfer, canceled_deferred, deferred_bidrefund,
}
use cmcc_eosio_contracts.System.Host.{core_symbol, names_account, active_permission, ram_symbol}
use cmcc_eosio_contracts.System.Market.{no_fuel, convert}
use cmcc_eosio_contracts.System.Conversion.{convert_enough}
use cmcc_eosio_contracts.System.Names.{
  newaccount, check_name, claim_name, has_dot, has_dot_in, bidname, bidrefund, outbid, add_refund,
  defer_refund,
}
use cmcc_eosio_contracts.System.Ram.{quot}
use cmcc_eosio_contracts.System.Owed.{owed}
use cmcc_eosio_contracts.System.Payments.{paid_in}
use cmcc_eosio_contracts.System.Accounts.{Claimed, newaccount_rules}
use cmcc_eosio_contracts.System.Auction.{Backed, auction-Backed}
use cmcc_eosio_contracts.System.Sample.{resources, host, market, start}

convert_enough_example :
    (convert host 5 (sys_amount 70) ram_symbol market ≢ err no_fuel)
    × (convert host 5 (sys_amount 70) ram_symbol market
        ≡ convert host 2 (sys_amount 70) ram_symbol market)
convert_enough_example = convert_enough host (sys_amount 70) ram_symbol market 3

-- The account 7 bid 100 for a name, and 8 bids 120.
abbrev bid_by : ℕ → ℕ → NameBid
bid_by n z = record {
  newname = 512;
  high_bidder = n;
  high_bid = pos z;
  last_bid_time = 1546300800000000;
}

abbrev bid_of_7 : System
bid_of_7 = record start {
  namebids = record { scope = 1; key = 512; payer = 7; row = bid_by 7 100 } ∷ [];
  events = sent_transfer [] 7 names_account (sys_amount 100) "" ∷ [];
}

bid_of_7-Backed : Backed (pos 0) bid_of_7
unfolding Backed owed paid_in sum ◌+ℤ◌ ◌-ℤ◌
bid_of_7-Backed = refl

abbrev refund_id : ℕ
refund_id = bit_or (512 * 2 ^ 64 % 2 ^ 128) 7

abbrev after_bid : System
after_bid = record start {
  namebids = record { scope = 1; key = 512; payer = 8; row = bid_by 8 120 } ∷ [];
  bidrefunds =
      record {
        scope = 512;
        key = 7;
        payer = 8;
        row = record { bidder = 7; amount = sys_amount 100 };
      }
      ∷ [];
  events =
      sent_transfer [] 7 names_account (sys_amount 100) ""
      ∷ sent_transfer (record { actor = 8; permission = active_permission } ∷ []) 8 names_account
          (sys_amount 120) "bid name "
      ∷ canceled_deferred refund_id
      ∷ deferred_bidrefund refund_id 8 7 512
      ∷ [];
}

bid_runs : bidname host 8 512 (sys_amount 120) bid_of_7 ≡ ok tt after_bid
unfolding bidname outbid add_refund defer_refund core_symbol quot find set_row add_row ◌+ℤ◌ ◌-ℤ◌
    int64
bid_runs = refl

auction-Backed_example :
    (bidname host 8 512 (sys_amount 120) bid_of_7 ≡ ok tt after_bid → Backed (pos 0) after_bid)
    × (bidrefund host 8 512 bid_of_7 ≡ ok tt after_bid → Backed (pos 0) after_bid)
auction-Backed_example =
    auction-Backed host 8 512 bid_of_7 after_bid refl (sys_amount 120) (pos 0) bid_of_7-Backed

-- The account 7 claims a name that it won.
abbrev won : System
won = record start {
  namebids =
      record {
        scope = 1;
        key = 512;
        payer = 7;
        row = record (bid_by 7 100) { high_bid = negsuc 99 };
      }
      ∷ [];
}

abbrev claimed : System
claimed = record start {
  userres =
      record { scope = 8; key = 8; payer = 7; row = resources }
      ∷ record {
        scope = 512;
        key = 512;
        payer = 512;
        row = record {
          owner = 512;
          net_weight = sys_amount 0;
          cpu_weight = sys_amount 0;
          ram_bytes = pos 0;
        };
      }
      ∷ [];
}

dotted : has_dot 512 ≡ true
unfolding has_dot has_dot_in
dotted = refl

claim_runs :
    newaccount host 7 512 won
    ≡ ok tt (record claimed {
      limits = λ n.
          if n == 512 then record { ram = pos 0; net = pos 0; cpu = pos 0 } else start.limits n;
    })
unfolding newaccount check_name claim_name has_dot has_dot_in core_symbol find add_row erase_row
claim_runs = refl

newaccount_rules_example :
    Claimed host 7 512 won (record claimed {
      limits = λ n.
          if n == 512 then record { ram = pos 0; net = pos 0; cpu = pos 0 } else start.limits n;
    })
    ⊎ ((7 ≡ host.suffix 512) × (claimed.namebids ≡ won.namebids))
newaccount_rules_example =
    newaccount_rules host 7 512 won
      (record claimed {
        limits = λ n.
            if n == 512 then record { ram = pos 0; net = pos 0; cpu = pos 0 } else start.limits n;
      })
      refl dotted claim_runs
