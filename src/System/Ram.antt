-- ===== src/System/Ram.antt =====
-- contracts/eosio.system/src/eosio.system.cpp and src/delegate_bandwidth.cpp: the supply of RAM and the
-- actions that buy and sell it.
use cmcc_eosio_contracts.Common.{
  ℕ, ◌+◌, ◌-◌, ◌*◌, ◌/◌, ◌%◌, ◌^◌, not, [], ◌∷◌, ◌==◌, ltb, leb, is_some,
}
use cmcc_eosio_contracts.Common.Int.{ℤ, pos, negsuc, int64, ltb_ℤ, leb_ℤ}
use cmcc_eosio_contracts.Chain.Asset.{Symbol, Asset, sym_eq}
use cmcc_eosio_contracts.Chain.Action.{
  on_row, Action, ok, err, ⊤, pure, gets, or_abort, check, when, update, require_auth, ◌>>=◌, ◌>>◌,
}
use cmcc_eosio_contracts.System.State.{GlobalState, GlobalState2, UserResources}
use cmcc_eosio_contracts.System.Tables.{
  System, Event, emit, find_in, emplace_in, modify_in, rammarket_table, userres_table, voters_table,
  set_limits,
}
use cmcc_eosio_contracts.System.Host.{
  SystemHost, ◌+64◌, ◌-64◌, active_permission, ram_account, ramfee_account, rex_account,
  ramcore_symbol, ram_symbol, market_key, at_end, core_symbol, asset, zero_core, send_transfer,
}
use cmcc_eosio_contracts.System.Resources.{manages, ram_managed, ram_gift_bytes}
use cmcc_eosio_contracts.System.Market.{add_connector, quote_market, convert_market}
use cmcc_eosio_contracts.System.Rex.Pool.{channel_to_rex}
use cmcc_eosio_contracts.Token.{get_supply}

abbrev pub set_gstate : GlobalState → Action System ⊤
set_gstate g = update (λ s. record s { gstate = g })

abbrev pub set_gstate2 : GlobalState2 → Action System ⊤
set_gstate2 g = update (λ s. record s { gstate2 = g })

-- uint64_t arithmetic, and an int64_t that is read as a uint64_t.
abbrev pub sub_u64 : ℕ → ℕ → ℕ
sub_u64 a b = (a + (2 ^ 64 - b)) % 2 ^ 64

abbrev pub u64 : ℤ → ℕ
u64 (pos n) = n
u64 (negsuc n) = 2 ^ 64 - 1 - n

unfoldable pub free_ram : GlobalState → ℕ
free_ram g = sub_u64 g.max_ram_size g.total_ram_bytes_reserved

-- `a / n` of an int64_t rounds to 0.
unfoldable pub quot : ℤ → ℕ → ℤ
quot (pos a) n = pos (a / n)
quot (negsuc a) n = int64 (pos 0 -64 pos ((a + 1) / n))

-- Half a percent, rounded up.
abbrev pub fee_of : ℤ → ℤ
fee_of z = quot (z +64 pos 199) 200

module _ (h : SystemHost) where
  -- More RAM is for sale.
  unfoldable pub add_base : ℤ → Action System ⊤
  add_base delta = do
    m ← find_in rammarket_table h.self market_key
    e ← or_abort m at_end
    modify_in rammarket_table h.self market_key 0 (record e { base = add_connector delta e.base })

  unfoldable pub setram : ℕ → Action System ⊤
  setram max_ram_size = do
    require_auth h.chain h.self
    g ← gets (λ s. s.gstate)
    check (ltb g.max_ram_size max_ram_size) "ram may only be increased"
    check (ltb max_ram_size (1024 ^ 5)) "ram size is unrealistic"
    check (ltb g.total_ram_bytes_reserved max_ram_size) "attempt to set max below reserved"
    add_base (int64 (pos max_ram_size) -64 int64 (pos g.max_ram_size))
    set_gstate (record g { max_ram_size = max_ram_size })

  -- The product of a uint32_t and a uint16_t, as the compiler converts it, is a uint32_t.
  unfoldable pub new_ram : ℕ → GlobalState2 → ℕ
  new_ram slot g2 = sub_slots slot g2.last_ram_increase * g2.new_ram_per_block % 2 ^ 32
    where
      sub_slots : ℕ → ℕ → ℕ
      sub_slots a b = (a + (2 ^ 32 - b)) % 2 ^ 32

  unfoldable pub update_ram_supply : Action System ⊤
  update_ram_supply = do
    g ← gets (λ s. s.gstate)
    g2 ← gets (λ s. s.gstate2)
    let cbt = h.to_slot h.now
    when (ltb g2.last_ram_increase cbt) (do
      let more = new_ram cbt g2
      set_gstate (record g { max_ram_size = (g.max_ram_size + more) % 2 ^ 64 })
      add_base (pos more)
      set_gstate2 (record g2 { last_ram_increase = cbt }))

  unfoldable pub setramrate : ℕ → Action System ⊤
  setramrate bytes_per_block = do
    require_auth h.chain h.self
    update_ram_supply
    g2 ← gets (λ s. s.gstate2)
    set_gstate2 (record g2 { new_ram_per_block = bytes_per_block })

  unfoldable pub updtrevision : ℕ → Action System ⊤
  updtrevision revision = do
    require_auth h.chain h.self
    g2 ← gets (λ s. s.gstate2)
    check (ltb g2.revision 255) "can not increment revision"
    check (revision == g2.revision + 1) "can only increment revision by one"
    check (leb revision 1) "specified revision is not yet supported by the code"
    set_gstate2 (record g2 { revision = revision })

  -- The weight of a new connector is the double 0.5.
  unfoldable pub init : ℕ → Symbol → Action System ⊤
  init version core = do
    require_auth h.chain h.self
    check (version == 0) "unsupported version for init action"
    itr ← find_in rammarket_table h.self market_key
    check (not (is_some itr)) "system contract has already been initialized"
    supply ← token_supply core
    check (sym_eq supply.symbol core) "specified core symbol does not exist (precision mismatch)"
    check (ltb_ℤ (pos 0) supply.amount) "system token supply must be greater than 0"
    g ← gets (λ s. s.gstate)
    emplace_in rammarket_table h.self market_key h.self (record {
      supply = record { amount = pos 100000000000000; symbol = ramcore_symbol };
      base = record {
        balance = record { amount = int64 (pos (free_ram g)); symbol = ram_symbol };
        weight = 0x3fe0000000000000;
      };
      quote = record {
        balance = record { amount = quot supply.amount 1000; symbol = core };
        weight = 0x3fe0000000000000;
      };
    })
    emit (
        Event.sent_open (record { actor = h.self; permission = active_permission }) rex_account core
          h.self)
    where
      token_supply : Symbol → Action System Asset
      token_supply core s = elim (get_supply h.chain core.code h.token) [
        | ok a t ↦ ok a s
        | err e ↦ err e
      ]

  -- The chain is told of the RAM of an account, unless the system manages it.
  unfoldable pub apply_ram : UserResources → Action System ⊤
  apply_ram res = do
    voter ← find_in voters_table h.self res.owner
    when (not (manages voter ram_managed)) (do
      current ← gets (λ s. s.limits res.owner)
      set_limits res.owner (record current { ram = res.ram_bytes +64 ram_gift_bytes }))

  -- The row of the receiver with the bytes added, written to the table.
  unfoldable pub add_ram_bytes : ℕ → ℤ → Action System UserResources
  add_ram_bytes receiver bytes_out = do
    itr ← find_in userres_table receiver receiver
    on_row itr
        (λ r. (do
          let row : UserResources = record r { ram_bytes = r.ram_bytes +64 bytes_out }
          modify_in userres_table receiver receiver receiver row
          pure row))
        (do
          zero_asset ← zero_core h
          let row : UserResources = record {
            owner = receiver;
            net_weight = zero_asset;
            cpu_weight = zero_asset;
            ram_bytes = bytes_out;
          }
          emplace_in userres_table receiver receiver receiver row
          pure row)

  unfoldable pub pay_fee : ℕ → Asset → Action System ⊤
  pay_fee payer fee = when (ltb_ℤ (pos 0) fee.amount) (do
    send_transfer (payer ∷ []) payer ramfee_account fee "ram fee"
    channel_to_rex h ramfee_account fee)

  unfoldable pub reserve : ℤ → ℤ → Action System ⊤
  reserve bytes_out paid = do
    g ← gets (λ s. s.gstate)
    set_gstate (record g {
      total_ram_bytes_reserved = (g.total_ram_bytes_reserved + u64 bytes_out) % 2 ^ 64;
      total_ram_stake = g.total_ram_stake +64 paid;
    })

  unfoldable pub buyram : ℕ → ℕ → Asset → Action System ⊤
  buyram payer receiver quant = do
    require_auth h.chain payer
    update_ram_supply
    core ← core_symbol h
    check (sym_eq quant.symbol core) "must buy ram with core token"
    check (ltb_ℤ (pos 0) quant.amount) "must purchase a positive amount"
    let fee : Asset = record quant { amount = fee_of quant.amount }
    let quant_after_fee : Asset = record quant { amount = quant.amount -64 fee.amount }
    send_transfer (payer ∷ ram_account ∷ []) payer ram_account quant_after_fee "buy ram"
    pay_fee payer fee
    bytes ← convert_market h quant_after_fee ram_symbol
    check (ltb_ℤ (pos 0) bytes.amount) "must reserve a positive amount"
    reserve bytes.amount quant_after_fee.amount
    res ← add_ram_bytes receiver bytes.amount
    apply_ram res

  unfoldable pub buyrambytes : ℕ → ℕ → ℕ → Action System ⊤
  buyrambytes payer receiver bytes = do
    amount ← asset h (pos bytes) ram_symbol
    core ← core_symbol h
    eosout ← quote_market h amount core
    buyram payer receiver eosout

  unfoldable pub release : ℤ → ℤ → Action System ⊤
  release bytes tokens_out = do
    g ← gets (λ s. s.gstate)
    let stake = g.total_ram_stake -64 tokens_out
    set_gstate (record g {
      total_ram_bytes_reserved = sub_u64 g.total_ram_bytes_reserved (u64 bytes);
      total_ram_stake = stake;
    })
    check (leb_ℤ (pos 0) stake) "error, attempt to unstake more tokens than previously staked"

  unfoldable pub sellram : ℕ → ℤ → Action System ⊤
  sellram account bytes = do
    require_auth h.chain account
    update_ram_supply
    check (ltb_ℤ (pos 0) bytes) "cannot sell negative byte"
    itr ← find_in userres_table account account
    res ← or_abort itr "no resource row"
    check (leb_ℤ bytes res.ram_bytes) "insufficient quota"
    amount ← asset h bytes ram_symbol
    core ← core_symbol h
    tokens_out ← convert_market h amount core
    check (ltb_ℤ (pos 1) tokens_out.amount) "token amount received from selling ram is too low"
    release bytes tokens_out.amount
    let left : UserResources = record res { ram_bytes = res.ram_bytes -64 bytes }
    modify_in userres_table account account account left
    apply_ram left
    send_transfer (ram_account ∷ account ∷ []) ram_account account tokens_out "sell ram"
    when (ltb_ℤ (pos 0) (fee_of tokens_out.amount)) (do
      fee ← asset h (fee_of tokens_out.amount) core
      send_transfer (account ∷ []) account ramfee_account fee "sell ram fee"
      channel_to_rex h ramfee_account fee)
