-- ===== src/Sample.antt =====
-- A chain for the tests: a library that does what it is documented to do, accounts that all exist and
-- have signed, and a time.
use cmcc_eosio_contracts.Common.{◌/◌, ◌%◌, ◌^◌, ℕ, refl, ◌&&◌, true}
use cmcc_eosio_contracts.Common.Int.{pos, ◌+ℤ◌, ◌-ℤ◌}
use cmcc_eosio_contracts.Chain.Asset.{Symbol, Asset, Eosiolib, in_range, of_amount}
use cmcc_eosio_contracts.Chain.Action.{Chain}

abbrev pub lib : Eosiolib
lib = record {
  symbol_is_valid = λ s. true;
  asset_is_valid = λ a. in_range a.amount && true;
  asset_is_valid_lem = λ a. refl;
  asset_add = λ a b. of_amount a b (a.amount +ℤ b.amount);
  asset_add_lem = λ a b. refl;
  asset_sub = λ a b. of_amount a b (a.amount -ℤ b.amount);
  asset_sub_lem = λ a b. refl;
  to_sec = λ t. t / 1000000 % 2 ^ 32;
  to_sec_lem = λ t. refl;
}

-- 2019-01-01 in microseconds.
abbrev pub chain : Chain
chain = record {
  lib = lib;
  self = 1;
  has_auth = λ n. true;
  has_permission = λ l. true;
  is_account = λ n. true;
  now = 1546300800000000;
}

-- The symbol (SYS,4): "SYS" is 0x535953.
abbrev pub sys : Symbol
sys = record { code = 0x535953; precision = 4 }

abbrev pub sys_amount : ℕ → Asset
sys_amount n = record { amount = pos n; symbol = sys }
