-- ===== src/System/Host.antt =====
-- contracts/eosio.system/include/eosio.system/eosio.system.hpp: what the system contract asks of the
-- chain and of libraries, its constants, and the arithmetic of int64_t and uint128_t.
use Prim.Native.String
use cmcc_eosio_contracts.Common.{
  ℕ, ◌-◌, ◌*◌, ◌/◌, ◌%◌, ◌^◌, ◌≡◌, ◌&&◌, Bool, false, Option, none, some, String, List, [], ◌∷◌,
  ◌==◌, if◌then◌else◌, is_some,
}
use cmcc_eosio_contracts.Common.Int.{ℤ, pos, negsuc, ◌+ℤ◌, ◌-ℤ◌, int64, ltb_ℤ, leb_ℤ}
use cmcc_eosio_contracts.Chain.Asset.{Symbol, Asset, in_range, sym_eq}
use cmcc_eosio_contracts.Chain.Table.{find}
use cmcc_eosio_contracts.Chain.Action.{Chain, PermissionLevel, Action, ⊤, pure, or_abort, ◌>>=◌}
use cmcc_eosio_contracts.System.Float.{FloatOps}
use cmcc_eosio_contracts.System.State.{RexPool, ProducerKey}
use cmcc_eosio_contracts.System.Tables.{
  System, Event, emit, find_in, rammarket_table, rexpool_table,
}
use cmcc_eosio_contracts.Token.{Token}

pub record SystemHost : Type 0 where
  pub chain : Chain
  pub open chain use *
  pub floats : FloatOps
  -- The constructor, and `<=` between assets, none where it aborts.
  pub make_asset : ℤ → Symbol → Option Asset
  pub make_asset_lem :
      (z : ℤ) (s : Symbol)
      → make_asset z s ≡ (
          if in_range z && chain.lib.symbol_is_valid s
          then some (record { amount = z; symbol = s })
          else none)
  pub asset_le : Asset → Asset → Option Bool
  pub asset_le_lem :
      (a b : Asset)
      → asset_le a b ≡ (if sym_eq a.symbol b.symbol then some (leb_ℤ a.amount b.amount) else none)
  -- The tables of the token contract, which no action of the system contract writes.
  pub token : Token
  -- `block_timestamp` of a time in microseconds: its slot.
  pub to_slot : ℕ → ℕ
  -- `name::suffix` and `name::to_string`.
  pub suffix : ℕ → ℕ
  pub name_to_string : ℕ → String
  pub sha256 : List ℕ → ℕ
  -- `eosio::public_key()`.
  pub no_public_key : List ℕ
  -- `block_timestamp::block_timestamp_epoch`, in milliseconds.
  pub block_timestamp_epoch : ℕ
  -- What the chain answers when a schedule is proposed: its version, or a negative number.
  pub set_proposed_producers : List ProducerKey → ℤ
  -- A call that is nested deeper traps.
  pub call_depth : ℕ

abbrev pub active_permission : ℕ
active_permission = 0x3232eda800000000

abbrev pub ram_account : ℕ
ram_account = 0x5530ea02e6900000

abbrev pub ramfee_account : ℕ
ramfee_account = 0x5530ea02e692d4a0

abbrev pub names_account : ℕ
names_account = 0x5530ea026692b000

abbrev pub rex_account : ℕ
rex_account = 0x5530ea02eae80000

abbrev pub eosio_account : ℕ
eosio_account = 0x5530ea0000000000

abbrev pub ramcore_symbol : Symbol
ramcore_symbol = record { code = 0x45524f434d4152; precision = 4 }

abbrev pub ram_symbol : Symbol
ram_symbol = record { code = 0x4d4152; precision = 0 }

abbrev pub rex_symbol : Symbol
rex_symbol = record { code = 0x584552; precision = 4 }

-- `ramcore_symbol.raw()`.
abbrev pub market_key : ℕ
market_key = 0x45524f434d415204

abbrev pub days : ℕ → ℕ
days n = n * 86400000000

infixl 65 ◌+64◌ ◌-64◌
abbrev pub ◌+64◌ : ℤ → ℤ → ℤ
a +64 b = int64 (a +ℤ b)

abbrev pub ◌-64◌ : ℤ → ℤ → ℤ
a -64 b = int64 (a -ℤ b)

abbrev pub u128 : ℤ → ℕ
u128 (pos n) = n
u128 (negsuc n) = 2 ^ 128 - 1 - n

-- `uint128_t(a) * b / c` in an int64_t: none where the division traps.
unfoldable pub mul_div : ℤ → ℤ → ℤ → Option ℤ
mul_div a b c =
    if u128 c == 0 then none else some (int64 (pos (u128 a * u128 b % 2 ^ 128 / u128 c)))

abbrev pub divide : String
divide = "integer divide by zero"

abbrev pub bad_asset : String
bad_asset = "magnitude of asset amount must be less than 2^62"

abbrev pub other_symbols : String
other_symbols = "attempt to use assets with different symbols"

abbrev pub concat : String → String → String
concat = Prim.Native.String.◌++◌

-- A dereference of the end of a table.
abbrev pub at_end : String
at_end = "cannot use the end iterator"

abbrev pub send_transfer : List ℕ → ℕ → ℕ → Asset → String → Action System ⊤
send_transfer signers from to quantity memo =
    emit (Event.sent_transfer (levels signers) from to quantity memo)
  where
    levels : List ℕ → List PermissionLevel
    levels [] = []
    levels (n ∷ ns) = record { actor = n; permission = active_permission } ∷ levels ns

module _ (h : SystemHost) where
  -- The symbol of the market's row in the contract's own table. `newaccount` reads the table of the
  -- account eosio, which is where the contract runs.
  unfoldable pub core_symbol : Action System Symbol
  core_symbol = do
    m ← find_in rammarket_table h.self market_key
    it ← or_abort m "system contract must first be initialized"
    pure it.quote.balance.symbol

  abbrev pub asset : ℤ → Symbol → Action System Asset
  asset z s = or_abort (h.make_asset z s) bad_asset

  abbrev pub zero_core : Action System Asset
  zero_core = core_symbol >>= asset (pos 0)

  -- The row of the pool, which the table has at most one of.
  unfoldable pub pool : Action System RexPool
  pool = do p ← find_in rexpool_table h.self 0; or_abort p at_end

  unfoldable pub rex_system_initialized : System → Bool
  rex_system_initialized s = is_some (find h.self 0 s.rexpool)

  abbrev has_rex : Option RexPool → Bool
  has_rex none = false
  has_rex (some p) = ltb_ℤ (pos 0) p.total_rex.amount

  unfoldable pub rex_available : System → Bool
  rex_available s = has_rex (find h.self 0 s.rexpool)
