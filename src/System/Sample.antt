-- ===== src/System/Sample.antt =====
-- contracts/eosio.system: a chain and a state for the tests of the system contract.
use cmcc_eosio_contracts.Common.{
  ℕ, ◌+◌, ◌-◌, ◌*◌, ◌/◌, refl, [], ◌∷◌, some, none, ◌&&◌, if◌then◌else◌, true, false, ltb, leb,
}
use cmcc_eosio_contracts.Common.Int.{pos, pos_part, leb_ℤ}
use cmcc_eosio_contracts.Chain.Asset.{in_range, sym_eq}
use cmcc_eosio_contracts.Sample.{chain, sys_amount}
use cmcc_eosio_contracts.System.State.{ExchangeState, RexPool, RexLoan, UserResources}
use cmcc_eosio_contracts.System.Tables.{System}
use cmcc_eosio_contracts.System.Host.{
  SystemHost, market_key, ramcore_symbol, ram_symbol, rex_symbol,
}
use cmcc_eosio_contracts.Token.History.{empty}

-- Doubles that are natural numbers, enough for the divisions of these runs.
abbrev pub host : SystemHost
host = record {
  chain = record chain { is_account = λ n. false };
  floats = record {
    of_int = pos_part;
    to_int = pos;
    neg = λ x. x;
    add = λ x y. x + y;
    sub = λ x y. x - y;
    mul = λ x y. x * y;
    div = λ x y. x / y;
    pow = λ x y. x;
    abs = λ x. x;
    lt = ltb;
    le = leb;
  };
  make_asset = λ z s. if in_range z && true then some (record { amount = z; symbol = s }) else none;
  make_asset_lem = λ z s. refl;
  asset_le = λ a b. if sym_eq a.symbol b.symbol then some (leb_ℤ a.amount b.amount) else none;
  asset_le_lem = λ a b. refl;
  token = empty;
  to_slot = λ t. 0;
  suffix = λ n. n;
  name_to_string = λ n. "";
  sha256 = λ b. 0;
  no_public_key = [];
  block_timestamp_epoch = 946684800000;
  set_proposed_producers = λ ps. pos 1;
  call_depth = 250;
}

abbrev pub market : ExchangeState
market = record {
  supply = record { amount = pos 1000; symbol = ramcore_symbol };
  base = record { balance = record { amount = pos 5000; symbol = ram_symbol }; weight = 1 };
  quote = record { balance = sys_amount 700; weight = 1 };
}

-- 20 of 100 tokens are lent, and there are 1000 REX.
abbrev pub rex_row : ℕ → ℕ → ℕ → RexPool
rex_row lent unlent rent = record {
  version = 0;
  total_lent = sys_amount lent;
  total_unlent = sys_amount unlent;
  total_rent = sys_amount rent;
  total_lendable = sys_amount 100;
  total_rex = record { amount = pos 1000; symbol = rex_symbol };
  namebid_proceeds = sys_amount 0;
  loan_num = 1;
}

abbrev pub lent_row : RexPool
lent_row = rex_row 20 80 1000

-- A loan that expired.
abbrev pub loan : RexLoan
loan = record {
  version = 0;
  from = 7;
  receiver = 8;
  payment = sys_amount 5;
  balance = sys_amount 0;
  total_staked = sys_amount 20;
  loan_num = 1;
  expiration = 5;
}

abbrev pub resources : UserResources
resources = record {
  owner = 8;
  net_weight = sys_amount 0;
  cpu_weight = sys_amount 20;
  ram_bytes = pos 0;
}

abbrev pub start : System
start = record {
  parameters = record { max_authority_depth = 6; packed = [] };
  gstate = record {
    max_ram_size = 0;
    total_ram_bytes_reserved = 0;
    total_ram_stake = pos 0;
    last_producer_schedule_update = 0;
    last_pervote_bucket_fill = 0;
    pervote_bucket = pos 0;
    perblock_bucket = pos 0;
    total_unpaid_blocks = 0;
    total_activated_stake = pos 0;
    thresh_activated_stake_time = 0;
    last_producer_schedule_size = 0;
    total_producer_vote_weight = 0;
    last_name_close = 0;
  };
  gstate2 = record {
    new_ram_per_block = 0;
    last_ram_increase = 0;
    last_block_num = 0;
    total_producer_votepay_share = 0;
    revision = 0;
  };
  gstate3 = record { last_vpay_state_update = 0; total_vpay_share_change_rate = 0 };
  voters = [];
  producers = [];
  producers2 = [];
  delband = [];
  refunds = [];
  userres = record { scope = 8; key = 8; payer = 7; row = resources } ∷ [];
  namebids = [];
  bidrefunds = [];
  abihash = [];
  rammarket = record { scope = 1; key = market_key; payer = 1; row = market } ∷ [];
  rexpool = record { scope = 1; key = 0; payer = 1; row = lent_row } ∷ [];
  rexfunds = [];
  rexbalance = [];
  rexorders = [];
  cpu_loans = record { scope = 1; key = 1; payer = 7; row = loan } ∷ [];
  net_loans = [];
  limits = λ n. record { ram = pos 0; net = pos 0; cpu = pos 0 };
  events = [];
}
