-- ===== src/System/State.antt =====
-- contracts/eosio.system/include/eosio.system: the rows of the system contract's tables.
use cmcc_eosio_contracts.Common.{ℕ, Bool, List, String}
use cmcc_eosio_contracts.Common.Int.{ℤ}
use cmcc_eosio_contracts.Chain.Asset.{Asset}
use cmcc_eosio_contracts.System.Float.{Double}

-- A negative `high_bid` is a closed auction waiting to be claimed.
-- `eosio::blockchain_parameters` of the library: packed, and the field that is read.
pub record BlockchainParameters : Type 0 where
  pub max_authority_depth : ℕ
  pub packed : List ℕ

pub record NameBid : Type 0 where
  pub newname : ℕ
  pub high_bidder : ℕ
  pub high_bid : ℤ
  pub last_bid_time : ℕ

pub record BidRefund : Type 0 where
  pub bidder : ℕ
  pub amount : Asset

-- Times are microseconds, block timestamps are slots of half a second.
pub record GlobalState : Type 0 where
  pub max_ram_size : ℕ
  pub total_ram_bytes_reserved : ℕ
  pub total_ram_stake : ℤ
  pub last_producer_schedule_update : ℕ
  pub last_pervote_bucket_fill : ℕ
  pub pervote_bucket : ℤ
  pub perblock_bucket : ℤ
  pub total_unpaid_blocks : ℕ
  pub total_activated_stake : ℤ
  pub thresh_activated_stake_time : ℕ
  pub last_producer_schedule_size : ℕ
  pub total_producer_vote_weight : Double
  pub last_name_close : ℕ

pub record GlobalState2 : Type 0 where
  pub new_ram_per_block : ℕ
  pub last_ram_increase : ℕ
  pub last_block_num : ℕ
  pub total_producer_votepay_share : Double
  pub revision : ℕ

pub record GlobalState3 : Type 0 where
  pub last_vpay_state_update : ℕ
  pub total_vpay_share_change_rate : Double

pub record ProducerInfo : Type 0 where
  pub owner : ℕ
  pub total_votes : Double
  -- A serialized public key.
  pub producer_key : List ℕ
  pub is_active : Bool
  pub url : String
  pub unpaid_blocks : ℕ
  pub last_claim_time : ℕ
  pub location : ℕ

pub record ProducerInfo2 : Type 0 where
  pub owner : ℕ
  pub votepay_share : Double
  pub last_votepay_share_update : ℕ

-- A producer of a schedule.
pub record ProducerKey : Type 0 where
  pub producer_name : ℕ
  pub block_signing_key : List ℕ

pub record VoterInfo : Type 0 where
  pub owner : ℕ
  pub proxy : ℕ
  pub producers : List ℕ
  pub staked : ℤ
  pub last_vote_weight : Double
  pub proxied_vote_weight : Double
  pub is_proxy : Bool
  pub flags1 : ℕ
  pub reserved2 : ℕ
  pub reserved3 : Asset

pub record UserResources : Type 0 where
  pub owner : ℕ
  pub net_weight : Asset
  pub cpu_weight : Asset
  pub ram_bytes : ℤ

pub record DelegatedBandwidth : Type 0 where
  pub from : ℕ
  pub to : ℕ
  pub net_weight : Asset
  pub cpu_weight : Asset

-- The time of a request is in seconds.
pub record RefundRequest : Type 0 where
  pub owner : ℕ
  pub request_time : ℕ
  pub net_amount : Asset
  pub cpu_amount : Asset

pub record Connector : Type 0 where
  pub balance : Asset
  pub weight : Double

pub record ExchangeState : Type 0 where
  pub supply : Asset
  pub base : Connector
  pub quote : Connector

pub record RexPool : Type 0 where
  pub version : ℕ
  pub total_lent : Asset
  pub total_unlent : Asset
  pub total_rent : Asset
  pub total_lendable : Asset
  pub total_rex : Asset
  pub namebid_proceeds : Asset
  pub loan_num : ℕ

pub record RexFund : Type 0 where
  pub version : ℕ
  pub owner : ℕ
  pub balance : Asset

-- The day, in seconds, on which a bucket of REX matures.
pub record Maturity : Type 0 where
  pub first : ℕ
  pub second : ℤ

pub record RexBalance : Type 0 where
  pub version : ℕ
  pub owner : ℕ
  pub vote_stake : Asset
  pub rex_balance : Asset
  pub matured_rex : ℤ
  pub rex_maturities : List Maturity

pub record RexLoan : Type 0 where
  pub version : ℕ
  pub from : ℕ
  pub receiver : ℕ
  pub payment : Asset
  pub balance : Asset
  pub total_staked : Asset
  pub loan_num : ℕ
  pub expiration : ℕ

pub record RexOrder : Type 0 where
  pub version : ℕ
  pub owner : ℕ
  pub rex_requested : Asset
  pub proceeds : Asset
  pub stake_change : Asset
  pub order_time : ℕ
  pub is_open : Bool

pub record RexOrderOutcome : Type 0 where
  pub success : Bool
  pub proceeds : Asset
  pub stake_change : Asset

pub record AbiHash : Type 0 where
  pub owner : ℕ
  pub hash : ℕ
