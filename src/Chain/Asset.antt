-- ===== src/Chain/Asset.antt =====
-- Symbols and assets, and the library `eosiolib` that computes with them. The library is not part of
-- the repository: its functions are the fields of a record, with what they are documented to do.
use cmcc_eosio_contracts.Common.{
  ℕ, ◌-◌, ◌^◌, ◌/◌, ◌%◌, ◌≡◌, Bool, true, ◌&&◌, Option, none, some, arith, ◌==◌, if◌then◌else◌,
}
use cmcc_eosio_contracts.Common.Int.{ℤ, pos, negsuc, ◌+ℤ◌, ◌-ℤ◌, leb_ℤ}

pub record Symbol : Type 0 where
  pub code : ℕ
  pub precision : ℕ

pub record Asset : Type 0 where
  pub amount : ℤ
  pub symbol : Symbol

abbrev pub sym_eq : Symbol → Symbol → Bool
sym_eq a b = (a.code == b.code) && (a.precision == b.precision)

pub sym_eq→eq : (a b : Symbol) → sym_eq a b ≡ true → a ≡ b
sym_eq→eq a b h = ground arith

-- An asset's amount lies between -max_amount and max_amount.
abbrev pub max_amount : ℕ
max_amount = 2 ^ 62 - 1

abbrev pub in_range : ℤ → Bool
in_range z = leb_ℤ (negsuc (max_amount - 1)) z && leb_ℤ z (pos max_amount)

-- The result of an operation on two assets, or none where the operation aborts.
abbrev pub of_amount : Asset → Asset → ℤ → Option Asset
of_amount a b z =
    if sym_eq a.symbol b.symbol && in_range z
    then some (record { amount = z; symbol = a.symbol })
    else none

pub record Eosiolib : Type 0 where
  pub symbol_is_valid : Symbol → Bool
  pub asset_is_valid : Asset → Bool
  pub asset_is_valid_lem :
      (a : Asset) → asset_is_valid a ≡ (in_range a.amount && symbol_is_valid a.symbol)
  pub asset_add : Asset → Asset → Option Asset
  pub asset_add_lem : (a b : Asset) → asset_add a b ≡ of_amount a b (a.amount +ℤ b.amount)
  pub asset_sub : Asset → Asset → Option Asset
  pub asset_sub_lem : (a b : Asset) → asset_sub a b ≡ of_amount a b (a.amount -ℤ b.amount)
  -- A time in microseconds as a `time_point_sec`.
  pub to_sec : ℕ → ℕ
  pub to_sec_lem : (t : ℕ) → to_sec t ≡ t / 1000000 % 2 ^ 32
