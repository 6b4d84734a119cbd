-- ===== src/System/Pay/Issue.antt =====
-- contracts/eosio.system/src/producer_pay.cpp: how new tokens are split.
use cmcc_eosio_contracts.Common.{ℕ, ◌+◌, ◌*◌, ◌/◌, ◌-◌, ◌<◌, ◌≤◌, ◌≡◌, ◌^◌, arith, refl}
use cmcc_eosio_contracts.Common.Int.{pos, ◌-ℤ◌, int64}
use cmcc_eosio_contracts.System.Host.{◌-64◌}
use cmcc_eosio_contracts.System.Ram.{quot}
use cmcc_eosio_contracts.System.Pay.Claims.{split_tokens}

minus-pos : (a b : ℕ) → b ≤ a → a < 2 ^ 63 → pos a -64 pos b ≡ pos (a - b)
unfolding int64 ◌-ℤ◌
minus-pos a b l r = ground arith

-- New tokens are split so that no token is lost: at least four fifths are saved, and of the rest at least
-- three quarters are for votes.
pub split_tokens_lem :
    (n : ℕ)
    → n < 2 ^ 63
    → (savings : ℕ) × (votes : ℕ) × (blocks : ℕ) × (split_tokens (pos n) ≡ record {
      to_savings = pos savings;
      to_per_block_pay = pos blocks;
      to_per_vote_pay = pos votes;
    })
      × (savings + votes + blocks ≡ n)
      × (4 * n ≤ 5 * savings)
      × (3 * (votes + blocks) ≤ 4 * votes)
unfolding split_tokens quot
split_tokens_lem n r =
    let producers = n / 5 in
    let blocks = producers / 4 in
    let x = minus-pos n producers (omega arith) r in
    let y = minus-pos producers blocks (omega arith) (omega arith) in
    (
      n - producers,
      producers - blocks,
      blocks,
      rw (x, y) refl,
      omega arith,
      omega arith,
      omega arith,
    )
