-- ===== src/System/Voting/Actions.antt =====
-- contracts/eosio.system/src/voting.cpp: the actions of voters and producers.
use Prim.Native.String.{len}
use cmcc_eosio_contracts.Common.{
  ℕ, Bool, true, false, not, ◌&&◌, Option, none, some, List, [], ◌∷◌, String, ◌==◌, ltb,
  if◌then◌else◌,
}
use cmcc_eosio_contracts.Common.Int.{pos, ltb_ℤ}
use cmcc_eosio_contracts.Chain.Action.{
  Action, ⊤, pure, on_row, or_abort, check, when, require_auth, ◌>>=◌, ◌>>◌,
}
use cmcc_eosio_contracts.System.Float.{zero_double}
use cmcc_eosio_contracts.System.State.{ProducerInfo, ProducerInfo2, RexBalance}
use cmcc_eosio_contracts.System.Tables.{
  System, find_in, emplace_in, modify_in, producers_table, producers2_table, rexbalance_table,
}
use cmcc_eosio_contracts.System.Host.{SystemHost}
use cmcc_eosio_contracts.System.Resources.{deactivate}
use cmcc_eosio_contracts.System.Rex.Stake.{check_voting_requirement, update_rex_stake}
use cmcc_eosio_contracts.System.Voting.Shares.{update_total_votepay_share}
use cmcc_eosio_contracts.System.Voting.Votes.{update_votes}

-- `==` of packed public keys.
abbrev same_bytes : List ℕ → List ℕ → Bool
same_bytes [] [] = true
same_bytes [] (b ∷ bs) = false
same_bytes (a ∷ rest) [] = false
same_bytes (a ∷ rest) (b ∷ bs) = a == b && same_bytes rest bs

abbrev holds_rex : Option RexBalance → Bool
holds_rex none = false
holds_rex (some r) = ltb_ℤ (pos 0) r.rex_balance.amount

module _ (h : SystemHost) where
  unfoldable pub voteproducer : ℕ → ℕ → List ℕ → Action System ⊤
  voteproducer voter_name proxy producers = do
    require_auth h.chain voter_name
    update_rex_stake h voter_name
    update_votes h voter_name proxy producers true
    rex ← find_in rexbalance_table h.self voter_name
    when (holds_rex rex) (
        check_voting_requirement h voter_name
          "voter holding REX tokens must vote for at least 21 producers or for a proxy")

  abbrev pub new_shares : ℕ → ProducerInfo2
  new_shares producer = record {
    owner = producer;
    votepay_share = zero_double;
    last_votepay_share_update = h.now;
  }

  abbrev registered : List ℕ → String → ℕ → ProducerInfo → ProducerInfo
  registered producer_key url location info = record info {
    producer_key = producer_key;
    is_active = true;
    url = url;
    location = location;
    last_claim_time = if info.last_claim_time == 0 then h.now else info.last_claim_time;
  }

  -- A producer of the time before shares gets a row of shares, and its votes count from then on.
  unfoldable pub add_shares : ℕ → ProducerInfo → Action System ⊤
  add_shares producer prod = do
    prod2 ← find_in producers2_table h.self producer
    on_row prod2 (λ p. pure tt)
        (do
          emplace_in producers2_table h.self producer producer (new_shares producer)
          share ← update_total_votepay_share h h.now zero_double prod.total_votes
          pure tt)

  unfoldable pub regproducer : ℕ → List ℕ → String → ℕ → Action System ⊤
  regproducer producer producer_key url location = do
    check (ltb (len url) 512) "url too long"
    check (not (same_bytes producer_key h.no_public_key))
        "public key should not be the default value"
    require_auth h.chain producer
    prod ← find_in producers_table h.self producer
    on_row prod
        (λ p. (do
          modify_in producers_table h.self producer producer
              (registered producer_key url location p)
          add_shares producer p))
        (do
          emplace_in producers_table h.self producer producer (record {
            owner = producer;
            total_votes = zero_double;
            producer_key = producer_key;
            is_active = true;
            url = url;
            unpaid_blocks = 0;
            last_claim_time = h.now;
            location = location;
          })
          emplace_in producers2_table h.self producer producer (new_shares producer))

  unfoldable pub unregprod : ℕ → Action System ⊤
  unregprod producer = do
    require_auth h.chain producer
    itr ← find_in producers_table h.self producer
    prod ← or_abort itr "producer not found"
    modify_in producers_table h.self producer 0 (deactivate h prod)
