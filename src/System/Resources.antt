-- ===== src/System/Resources.antt =====
-- contracts/eosio.system/src/eosio.system.cpp: the resource limits of accounts, and the flags of a
-- voter that say which of them the system account manages; `update_resource_limits` of src/rex.cpp.
use Prim.Native.Nat.{bit_and, bit_or}
use cmcc_eosio_contracts.Common.{
  ℕ, ◌-◌, ◌^◌, Bool, true, false, not, ◌&&◌, ◌||◌, Option, none, some, [], String, ◌==◌,
  if◌then◌else◌, is_some,
}
use cmcc_eosio_contracts.Common.Int.{ℤ, pos, negsuc, ◌==ℤ◌, leb_ℤ}
use cmcc_eosio_contracts.Chain.Action.{
  on_row, Action, ⊤, pure, gets, or_abort, check, when, require_auth, ◌>>=◌, ◌>>◌,
}
use cmcc_eosio_contracts.System.State.{VoterInfo, ProducerInfo, UserResources}
use cmcc_eosio_contracts.System.Tables.{
  System, find_in, emplace_in, modify_in, erase_in, voters_table, userres_table, producers_table,
  set_limits,
}
use cmcc_eosio_contracts.System.Host.{SystemHost, ◌+64◌, core_symbol, asset}

-- The bits of `voter_info::flags1`.
abbrev pub ram_managed : ℕ
ram_managed = 1

abbrev pub net_managed : ℕ
net_managed = 2

abbrev pub cpu_managed : ℕ
cpu_managed = 4

-- `flags` and `field` are uint32_t.
unfoldable pub has_field : ℕ → ℕ → Bool
has_field flags field = not (bit_and flags field == 0)

unfoldable pub set_field : ℕ → ℕ → Bool → ℕ
set_field flags field true = bit_or flags field
set_field flags field false = bit_and flags (2 ^ 32 - 1 - field)

abbrev pub ram_gift_bytes : ℤ
ram_gift_bytes = pos 1400

abbrev pub manages : Option VoterInfo → ℕ → Bool
manages none field = false
manages (some v) field = has_field v.flags1 field

abbrev pub with_flag : ℕ → Bool → VoterInfo → VoterInfo
with_flag field b v = record v { flags1 = set_field v.flags1 field b }

-- A row of a voter as `emplace` constructs it. `asset()` is no amount of no symbol.
abbrev pub new_voter : ℕ → VoterInfo
new_voter account = record {
  owner = account;
  proxy = 0;
  producers = [];
  staked = pos 0;
  last_vote_weight = 0;
  proxied_vote_weight = 0;
  is_proxy = false;
  flags1 = 0;
  reserved2 = 0;
  reserved3 = record { amount = pos 0; symbol = record { code = 0; precision = 0 } };
}

abbrev pub user_is_empty : UserResources → Bool
user_is_empty r =
    r.net_weight.amount ==ℤ pos 0 && r.cpu_weight.amount ==ℤ pos 0 && r.ram_bytes ==ℤ pos 0

abbrev pub ram_or_gift : Option UserResources → ℤ
ram_or_gift none = ram_gift_bytes
ram_or_gift (some r) = ram_gift_bytes +64 r.ram_bytes

abbrev pub net_or_zero : Option UserResources → ℤ
net_or_zero none = pos 0
net_or_zero (some r) = r.net_weight.amount

abbrev pub cpu_or_zero : Option UserResources → ℤ
cpu_or_zero none = pos 0
cpu_or_zero (some r) = r.cpu_weight.amount

module _ (h : SystemHost) where
  unfoldable pub setalimits : ℕ → ℤ → ℤ → ℤ → Action System ⊤
  setalimits account ram net cpu = do
    require_auth h.chain h.self
    ritr ← find_in userres_table account account
    check (not (is_some ritr)) "only supports unlimited accounts"
    vitr ← find_in voters_table h.self account
    check (not (manages vitr ram_managed || manages vitr net_managed || manages vitr cpu_managed))
        "cannot use setalimits on an account with managed resources"
    set_limits account (record { ram = ram; net = net; cpu = cpu })

  -- The row of the voter gets the flag, and a new row if there was none.
  unfoldable pub manage : ℕ → ℕ → Action System ⊤
  manage account field = do
    vitr ← find_in voters_table h.self account
    on_row vitr (λ v. modify_in voters_table h.self account 0 (with_flag field true v))
        (emplace_in voters_table h.self account account (with_flag field true (new_voter account)))

  -- The flag is taken off a row that has it.
  unfoldable pub unmanage : ℕ → ℕ → String → Action System ⊤
  unmanage account field message = do
    vitr ← find_in voters_table h.self account
    check (manages vitr field) message
    v ← or_abort vitr message
    modify_in voters_table h.self account 0 (with_flag field false v)

  unfoldable pub setacctram : ℕ → Option ℤ → Action System ⊤
  setacctram account none = do
    require_auth h.chain h.self
    current ← gets (λ s. s.limits account)
    ritr ← find_in userres_table account account
    unmanage account ram_managed "RAM of account is already unmanaged"
    set_limits account (record current { ram = ram_or_gift ritr })
  setacctram account (some ram_bytes) = do
    require_auth h.chain h.self
    current ← gets (λ s. s.limits account)
    check (leb_ℤ (pos 0) ram_bytes) "not allowed to set RAM limit to unlimited"
    manage account ram_managed
    set_limits account (record current { ram = ram_bytes })

  unfoldable pub setacctnet : ℕ → Option ℤ → Action System ⊤
  setacctnet account none = do
    require_auth h.chain h.self
    current ← gets (λ s. s.limits account)
    ritr ← find_in userres_table account account
    unmanage account net_managed "Network bandwidth of account is already unmanaged"
    set_limits account (record current { net = net_or_zero ritr })
  setacctnet account (some net_weight) = do
    require_auth h.chain h.self
    current ← gets (λ s. s.limits account)
    check (leb_ℤ (negsuc 0) net_weight) "invalid value for net_weight"
    manage account net_managed
    set_limits account (record current { net = net_weight })

  unfoldable pub setacctcpu : ℕ → Option ℤ → Action System ⊤
  setacctcpu account none = do
    require_auth h.chain h.self
    current ← gets (λ s. s.limits account)
    ritr ← find_in userres_table account account
    unmanage account cpu_managed "CPU bandwidth of account is already unmanaged"
    set_limits account (record current { cpu = cpu_or_zero ritr })
  setacctcpu account (some cpu_weight) = do
    require_auth h.chain h.self
    current ← gets (λ s. s.limits account)
    check (leb_ℤ (negsuc 0) cpu_weight) "invalid value for cpu_weight"
    manage account cpu_managed
    set_limits account (record current { cpu = cpu_weight })

  unfoldable pub deactivate : ProducerInfo → ProducerInfo
  deactivate p = record p { producer_key = h.no_public_key; is_active = false }

  unfoldable pub rmvproducer : ℕ → Action System ⊤
  rmvproducer producer = do
    require_auth h.chain h.self
    prod ← find_in producers_table h.self producer
    p ← or_abort prod "producer not found"
    modify_in producers_table h.self producer 0 (deactivate p)

  -- The limits that the chain is told: a managed one stays as it is.
  unfoldable pub apply_limits : ℕ → UserResources → Action System ⊤
  apply_limits receiver tot = do
    voter ← find_in voters_table h.self receiver
    let net_kept = manages voter net_managed
    let cpu_kept = manages voter cpu_managed
    current ← gets (λ s. s.limits receiver)
    when (not (net_kept && cpu_kept)) (
        set_limits receiver (record current {
          net = if net_kept then current.net else tot.net_weight.amount;
          cpu = if cpu_kept then current.cpu else tot.cpu_weight.amount;
        }))

  -- The row of the receiver with the deltas added, written to the table.
  unfoldable pub add_deltas : ℕ → ℕ → ℤ → ℤ → Action System UserResources
  add_deltas from receiver delta_net delta_cpu = do
    tot ← find_in userres_table receiver receiver
    on_row tot
        (λ r. (do
          let row : UserResources = record r {
            net_weight = record (r.net_weight) { amount = r.net_weight.amount +64 delta_net };
            cpu_weight = record (r.cpu_weight) { amount = r.cpu_weight.amount +64 delta_cpu };
          }
          modify_in userres_table receiver receiver 0 row
          pure row))
        (do
          check (leb_ℤ (pos 0) delta_net && leb_ℤ (pos 0) delta_cpu) "logic error, should not occur"
          core ← core_symbol h
          net ← asset h delta_net core
          cpu ← asset h delta_cpu core
          let row : UserResources = record {
            owner = receiver;
            net_weight = net;
            cpu_weight = cpu;
            ram_bytes = pos 0;
          }
          emplace_in userres_table receiver receiver from row
          pure row)

  unfoldable pub update_resource_limits : ℕ → ℕ → ℤ → ℤ → Action System ⊤
  update_resource_limits from receiver delta_net delta_cpu =
      when (not (delta_cpu ==ℤ pos 0 && delta_net ==ℤ pos 0)) (do
        tot ← add_deltas from receiver delta_net delta_cpu
        check (leb_ℤ (pos 0) tot.net_weight.amount) "insufficient staked total net bandwidth"
        check (leb_ℤ (pos 0) tot.cpu_weight.amount) "insufficient staked total cpu bandwidth"
        apply_limits receiver tot
        when (user_is_empty tot) (erase_in userres_table receiver receiver))
