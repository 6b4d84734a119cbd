-- ===== src/System/Float.antt =====
-- C++ doubles. A double is its 64-bit pattern; what the contracts compute with doubles is a record of
-- functions on patterns, of which nothing is assumed but what a theorem names.
use cmcc_eosio_contracts.Common.{ℕ, Bool}
use cmcc_eosio_contracts.Common.Int.{ℤ}

abbrev pub Double : Type 0
Double = ℕ

pub record FloatOps : Type 0 where
  pub of_int : ℤ → Double
  -- `int64_t(x)`.
  pub to_int : Double → ℤ
  pub neg : Double → Double
  pub add : Double → Double → Double
  pub sub : Double → Double → Double
  pub mul : Double → Double → Double
  pub div : Double → Double → Double
  pub pow : Double → Double → Double
  pub abs : Double → Double
  -- `x < y`, and `x <= y`.
  pub lt : Double → Double → Bool
  pub le : Double → Double → Bool

-- The doubles 0.0 and 1.0.
abbrev pub zero_double : Double
zero_double = 0

abbrev pub one_double : Double
one_double = 0x3ff0000000000000
