-- ===== src/System/Staking/Actions.antt =====
-- contracts/eosio.system/src/delegate_bandwidth.cpp: staking and unstaking.
use cmcc_eosio_contracts.Common.{ℕ, ◌+◌, Bool, false, not, ◌&&◌, ◌||◌, ◌==◌, if◌then◌else◌}
use cmcc_eosio_contracts.Common.Int.{ℤ, pos, negsuc, int64, leb_ℤ, ltb_ℤ, ◌==ℤ◌}
use cmcc_eosio_contracts.Chain.Asset.{Asset}
use cmcc_eosio_contracts.Chain.Action.{
  Action, ⊤, pure, on_row, gets, or_abort, check, when, require_auth, ◌>>=◌, ◌>>◌,
}
use cmcc_eosio_contracts.System.State.{UserResources, DelegatedBandwidth}
use cmcc_eosio_contracts.System.Tables.{
  System, find_in, emplace_in, modify_in, erase_in, voters_table, userres_table, delband_table,
  set_limits,
}
use cmcc_eosio_contracts.System.Host.{SystemHost, ◌+64◌, zero_core, other_symbols}
use cmcc_eosio_contracts.System.Resources.{
  ram_managed, net_managed, cpu_managed, manages, ram_gift_bytes, user_is_empty,
}
use cmcc_eosio_contracts.System.Rex.Stake.{update_rex_stake}
use cmcc_eosio_contracts.System.Voting.Votes.{min_activated_stake}
use cmcc_eosio_contracts.System.Staking.Power.{update_voting_power}
use cmcc_eosio_contracts.System.Staking.Refunds.{negated, stake_account, refund_or_transfer}

-- `std::abs` of an int64_t, and `std::max`.
abbrev pub abs_64 : ℤ → ℤ
abs_64 (pos n) = pos n
abs_64 (negsuc n) = int64 (pos (n + 1))

abbrev pub max_64 : ℤ → ℤ → ℤ
max_64 a b = if ltb_ℤ a b then b else a

abbrev pub band_is_empty : DelegatedBandwidth → Bool
band_is_empty d = d.net_weight.amount ==ℤ pos 0 && d.cpu_weight.amount ==ℤ pos 0

module _ (h : SystemHost) where
  abbrev pub plus : Asset → Asset → Action System Asset
  plus a b = or_abort (h.asset_add a b) other_symbols

  -- The row of the stake from one account to another with the deltas added, written to the table.
  unfoldable pub add_delegated : ℕ → ℕ → Asset → Asset → Action System DelegatedBandwidth
  add_delegated from receiver net cpu = do
    itr ← find_in delband_table from receiver
    on_row itr
        (λ d. (do
          net_weight ← plus d.net_weight net
          cpu_weight ← plus d.cpu_weight cpu
          let row : DelegatedBandwidth = record d {
            net_weight = net_weight;
            cpu_weight = cpu_weight;
          }
          modify_in delband_table from receiver 0 row
          pure row))
        (do
          let row : DelegatedBandwidth = record {
            from = from;
            to = receiver;
            net_weight = net;
            cpu_weight = cpu;
          }
          emplace_in delband_table from receiver from row
          pure row)

  unfoldable pub change_delegated : ℕ → ℕ → Asset → Asset → Action System ⊤
  change_delegated from receiver net cpu = do
    d ← add_delegated from receiver net cpu
    check (leb_ℤ (pos 0) d.net_weight.amount) "insufficient staked net bandwidth"
    check (leb_ℤ (pos 0) d.cpu_weight.amount) "insufficient staked cpu bandwidth"
    when (band_is_empty d) (erase_in delband_table from receiver)

  unfoldable pub add_totals : ℕ → ℕ → Asset → Asset → Action System UserResources
  add_totals from receiver net cpu = do
    itr ← find_in userres_table receiver receiver
    on_row itr
        (λ t. (do
          net_weight ← plus t.net_weight net
          cpu_weight ← plus t.cpu_weight cpu
          let row : UserResources = record t { net_weight = net_weight; cpu_weight = cpu_weight }
          modify_in userres_table receiver receiver (if from == receiver then from else 0) row
          pure row))
        (do
          let row : UserResources = record {
            owner = receiver;
            net_weight = net;
            cpu_weight = cpu;
            ram_bytes = pos 0;
          }
          emplace_in userres_table receiver receiver from row
          pure row)

  -- The limits that the chain is told: a managed one stays as it is.
  unfoldable pub apply_totals : ℕ → UserResources → Action System ⊤
  apply_totals receiver tot = do
    voter ← find_in voters_table h.self receiver
    let ram_kept = manages voter ram_managed
    let net_kept = manages voter net_managed
    let cpu_kept = manages voter cpu_managed
    current ← gets (λ s. s.limits receiver)
    when (not (net_kept && cpu_kept)) (
        set_limits receiver (record {
          ram =
              if ram_kept
              then current.ram
              else max_64 (tot.ram_bytes +64 ram_gift_bytes) current.ram;
          net = if net_kept then current.net else tot.net_weight.amount;
          cpu = if cpu_kept then current.cpu else tot.cpu_weight.amount;
        }))

  unfoldable pub change_totals : ℕ → ℕ → Asset → Asset → Action System ⊤
  change_totals from receiver net cpu = do
    tot ← add_totals from receiver net cpu
    check (leb_ℤ (pos 0) tot.net_weight.amount) "insufficient staked total net bandwidth"
    check (leb_ℤ (pos 0) tot.cpu_weight.amount) "insufficient staked total cpu bandwidth"
    apply_totals receiver tot
    when (user_is_empty tot) (erase_in userres_table receiver receiver)

  unfoldable pub check_deltas : Asset → Asset → Action System ⊤
  check_deltas net cpu = do
    check (not (net.amount ==ℤ pos 0) || not (cpu.amount ==ℤ pos 0)) "should stake non-zero amount"
    total ← plus net cpu
    check (leb_ℤ (max_64 (abs_64 net.amount) (abs_64 cpu.amount)) (abs_64 total.amount))
        "net and cpu deltas cannot be opposite signs"

  -- A stake that is transferred is the receiver's own from then on.
  unfoldable pub changebw : ℕ → ℕ → Asset → Asset → Bool → Action System ⊤
  changebw source receiver net cpu transfer = do
    require_auth h.chain source
    check_deltas net cpu
    let from = if transfer then receiver else source
    change_delegated from receiver net cpu
    change_totals from receiver net cpu
    let is_undelegating = ltb_ℤ (net.amount +64 cpu.amount) (pos 0)
    let is_delegating_to_self = not transfer && from == receiver
    when (not (stake_account == source))
        (refund_or_transfer h source from net cpu (is_delegating_to_self || is_undelegating))
    update_rex_stake h from
    total ← plus net cpu
    update_voting_power h from total.amount

  unfoldable pub delegatebw : ℕ → ℕ → Asset → Asset → Bool → Action System ⊤
  delegatebw from receiver net cpu transfer = do
    zero_asset ← zero_core h
    cpu_fits ← or_abort (h.asset_le zero_asset cpu) other_symbols
    check cpu_fits "must stake a positive amount"
    net_fits ← or_abort (h.asset_le zero_asset net) other_symbols
    check net_fits "must stake a positive amount"
    check (ltb_ℤ (pos 0) (net.amount +64 cpu.amount)) "must stake a positive amount"
    check (not transfer || not (from == receiver)) "cannot use transfer flag if delegating to self"
    changebw from receiver net cpu transfer

  unfoldable pub undelegatebw : ℕ → ℕ → Asset → Asset → Action System ⊤
  undelegatebw from receiver net cpu = do
    zero_asset ← zero_core h
    cpu_fits ← or_abort (h.asset_le zero_asset cpu) other_symbols
    check cpu_fits "must unstake a positive amount"
    net_fits ← or_abort (h.asset_le zero_asset net) other_symbols
    check net_fits "must unstake a positive amount"
    check (ltb_ℤ (pos 0) (cpu.amount +64 net.amount)) "must unstake a positive amount"
    g ← gets (λ s. s.gstate)
    check (leb_ℤ min_activated_stake g.total_activated_stake)
        "cannot undelegate bandwidth until the chain is activated (at least 15% of all tokens participate in voting)"
    changebw from receiver (negated net) (negated cpu) false
