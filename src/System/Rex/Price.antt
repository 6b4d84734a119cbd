-- ===== src/System/Rex/Price.antt =====
-- contracts/eosio.system/src/rex.cpp: the price of REX in purchases and sales.
use native.Mathlib.Nat.{mul-le-mul, div-mul-le_self, lt-div-mul-add, lt_of_mul-lt-mul_right}
use cmcc_eosio_contracts.Common.{
  ℕ, suc, ◌+◌, ◌-◌, ◌*◌, ◌/◌, ◌%◌, ◌^◌, ◌≤◌, ◌<◌, ◌≡◌, ◌∙◌, arith, some,
}
use cmcc_eosio_contracts.Common.Int.{ℤ, pos, int64, ◌+ℤ◌, ◌-ℤ◌}
use cmcc_eosio_contracts.Chain.Asset.{Asset}
use cmcc_eosio_contracts.Chain.Table.{Table, find, set_row, find-set_row}
use cmcc_eosio_contracts.Chain.Action.{ok}
use cmcc_eosio_contracts.System.State.{RexPool}
use cmcc_eosio_contracts.System.Tables.{System}
use cmcc_eosio_contracts.System.Host.{SystemHost, ◌+64◌, ◌-64◌, mul_div, pool}
use cmcc_eosio_contracts.System.Rex.Pool.{with_purchase, purchase}

-- A product of two amounts divided by a third, rounded down, if the result is an int64_t.
pub mul_div_pos :
    (a b c : ℕ)
    → a < 2 ^ 63
    → b < 2 ^ 63
    → a * b < 2 ^ 63 * suc c
    → mul_div (pos a) (pos b) (pos (suc c)) ≡ some (pos (a * b / suc c))
unfolding mul_div int64
mul_div_pos a b c ha hb h =
    let product : a * b ≤ 2 ^ 63 * 2 ^ 63 =
      mul-le-mul {n₂ = 2 ^ 63} {m₂ = 2 ^ 63} (omega arith) (omega arith) in
    let below = div-mul-le_self (a * b) (suc c) in
    let fits : a * b / suc c < 2 ^ 63 = lt_of_mul-lt-mul_right (suc c) (omega arith) in
    let whole : a * b % 2 ^ 128 ≡ a * b = omega arith in rw whole (ground arith)

pub pos_add : (a b : ℕ) → a + b < 2 ^ 63 → pos a +64 pos b ≡ pos (a + b)
unfolding int64 ◌+ℤ◌
pos_add a b h = ground arith

pub pos_sub : (a b : ℕ) → b ≤ a → a < 2 ^ 63 → pos a -64 pos b ≡ pos (a - b)
unfolding int64 ◌-ℤ◌
pos_sub a b h w = ground arith

-- What is at the key of a row that was there, once it is written.
pub find_written :
    {R : Type 0} (s k payer : ℕ) (r r' : R) (t : Table R)
    → find s k t ≡ some r'
    → find s k (set_row s k payer r t) ≡ some r
find_written s k payer r r' t f = rw (find-set_row s k payer s k r r' t f) (ground arith)

module _ (h : SystemHost) where
  purchase-effect :
      (payment rex_received got : Asset) (s s' : System) (p : RexPool) (r1 : ℤ)
      → find h.self 0 s.rexpool ≡ some p
      → mul_div
          (p.total_lendable.amount +64 payment.amount)
          p.total_rex.amount
          p.total_lendable.amount
        ≡ some r1
      → purchase h payment rex_received s ≡ ok got s'
      → (s'.rexpool
          ≡ set_row h.self 0 0
              (with_purchase (p.total_lendable.amount +64 payment.amount) r1 p)
              s.rexpool)
        × (got.amount ≡ r1 -64 p.total_rex.amount)
  unfolding purchase pool
  purchase-effect payment rex_received got s s' p r1 f m e = ground arith

  -- A purchase from a pool with lendable tokens s0 and REX r0, in amounts that an int64_t holds: the
  -- payment is added to the tokens, the buyer gets the REX that are added, and the REX are at most
  -- those that the price before allows, so that nobody's share loses value.
  pub purchase_price :
      (payment rex_received got : Asset) (s s' : System) (p : RexPool) (a s0 r0 : ℕ)
      → find h.self 0 s.rexpool ≡ some p
      → payment.amount ≡ pos a
      → p.total_lendable.amount ≡ pos (suc s0)
      → p.total_rex.amount ≡ pos r0
      → suc s0 + a < 2 ^ 62
      → r0 < 2 ^ 62
      → (suc s0 + a) * r0 < 2 ^ 62 * suc s0
      → purchase h payment rex_received s ≡ ok got s'
      → (r1 : ℕ) × (find h.self 0 s'.rexpool ≡ some (with_purchase (pos (suc s0 + a)) (pos r1) p))
        × (got.amount ≡ pos (r1 - r0))
        × (r0 ≤ r1)
        × (r1 * suc s0 ≤ r0 * (suc s0 + a))
  unfolding with_purchase
  purchase_price payment rex_received got s s' p a s0 r0 f ea es er hs hr hf e =
      let r1 = (suc s0 + a) * r0 / suc s0 in
      let m = mul_div_pos (suc s0 + a) r0 s0 (omega arith) (omega arith) (omega arith) in
      let total = pos_add (suc s0) a (omega arith) in
      let floor = div-mul-le_self ((suc s0 + a) * r0) (suc s0) in
      let rest = lt-div-mul-add {a = (suc s0 + a) * r0} {b = suc s0} (omega arith) in
      let more : r0 < r1 + 1 =
        lt_of_mul-lt-mul_right (suc s0) {m = r0} {n = r1 + 1} (grind arith) in
      let small : r1 < 2 ^ 62 = lt_of_mul-lt-mul_right (suc s0) (omega arith) in
      let diff = pos_sub r1 r0 (omega arith) (omega arith) in
      let (w, g) =
        purchase-effect payment rex_received got s s' p (pos r1) f (rw (ea, es, er, total) m) e in
      (
        r1,
        rw (w, es, ea, total)
            (find_written h.self 0 0 (with_purchase (pos (suc s0 + a)) (pos r1) p) p s.rexpool f),
        g ∙ rw er diff,
        omega arith,
        grind arith,
      )
