-- ===== src/System/Rex/Sale.antt =====
-- contracts/eosio.system/src/rex.cpp: what `fill_rex_order` pays and what it leaves in the pool.
use native.Mathlib.Nat.{mul-le-mul, div-mul-le_self, le_of_mul-le-mul_right}
use cmcc_eosio_contracts.Common.{
  ℕ, suc, ◌+◌, ◌-◌, ◌*◌, ◌/◌, ◌^◌, ◌≤◌, ◌<◌, ◌≡◌, ◌⊎◌, ◌∙◌, sym, arith, true, false, some, inl, inr,
  Bool-cases, Option-cases, leb,
}
use cmcc_eosio_contracts.Common.Int.{ℤ, pos, int64, ◌-ℤ◌, leb_ℤ}
use cmcc_eosio_contracts.Chain.Asset.{Symbol, Asset}
use cmcc_eosio_contracts.Chain.Table.{find, set_row}
use cmcc_eosio_contracts.Chain.Action.{ok, Result-cases}
use cmcc_eosio_contracts.System.State.{RexPool, RexBalance, RexOrderOutcome}
use cmcc_eosio_contracts.System.Tables.{System}
use cmcc_eosio_contracts.System.Host.{SystemHost, ◌-64◌, mul_div, core_symbol, pool}
use cmcc_eosio_contracts.System.Rex.Orders.{with_sale, fill_rex_order}
use cmcc_eosio_contracts.System.Rex.Frame.{core_symbol-frame}
use cmcc_eosio_contracts.System.Rex.Price.{mul_div_pos, pos_sub, find_written}

le_rest :
    (p u b : ℕ)
    → p < 2 ^ 62
    → u < 2 ^ 62
    → b < 2 ^ 62
    → leb_ℤ (pos p) (pos u -64 pos b) ≡ leb (p + b) u
unfolding int64 ◌-ℤ◌
le_rest p u b hp hu hb = ground arith

-- The two ways an order ends: it is filled, and the tokens that are left unlent are at least a fifth
-- of the lent ones; or nothing changes, since they would not be.
module _ (h : SystemHost) where
  -- The order is paid `paid` tokens, and the tokens and REX go from the pool.
  pub record Filled (s s' : System) (p : RexPool) (o : RexOrderOutcome)
      (paid lent unlent s0 r0 rex : ℕ) : Type 0 where
    pub success : o.success ≡ true
    pub proceeds : o.proceeds.amount ≡ pos paid
    pub row : find h.self 0 s'.rexpool ≡ some (with_sale (pos (r0 - rex)) (pos (s0 - paid)) p)
    pub reserve : paid + lent / 5 ≤ unlent

  pub record Refused (s s' : System) (o : RexOrderOutcome) (paid lent unlent : ℕ) : Type 0 where
    pub failure : o.success ≡ false
    pub proceeds : o.proceeds.amount ≡ pos 0
    pub same : s' ≡ s
    pub short : unlent < paid + lent / 5

  made_amount : (z : ℤ) (sym : Symbol) (a : Asset) → h.make_asset z sym ≡ some a → a.amount ≡ z
  made_amount z sym a e = ground (arith, h.make_asset_lem z sym)

  filled-proceeds :
      (owner : ℕ) (b : RexBalance) (rex : Asset) (o : RexOrderOutcome) (s s' : System) (p : RexPool)
      (paid bound : ℤ)
      → find h.self 0 s.rexpool ≡ some p
      → mul_div rex.amount p.total_lendable.amount p.total_rex.amount ≡ some paid
      → mul_div (pos 2) p.total_lent.amount (pos 10) ≡ some bound
      → leb_ℤ paid (p.total_unlent.amount -64 bound) ≡ true
      → fill_rex_order h owner b rex s ≡ ok o s'
      → o.proceeds.amount ≡ paid
  unfolding fill_rex_order pool
  filled-proceeds owner b rex o s s' p paid bound f m n y e =
      elim (Result-cases (core_symbol h s)) [
        | inr (x, g) ↦ ground arith
        | inl (c, s1, g) ↦
            let same = core_symbol-frame h s s1 c g in
            elim (Option-cases (h.make_asset paid c)) [
              | inl k ↦ ground arith
              | inr (a, k) ↦ let z = made_amount paid c a k in ground arith
            ]
      ]

  fill_rex_order-effect :
      (owner : ℕ) (b : RexBalance) (rex : Asset) (o : RexOrderOutcome) (s s' : System) (p : RexPool)
      (paid bound : ℤ)
      → find h.self 0 s.rexpool ≡ some p
      → mul_div rex.amount p.total_lendable.amount p.total_rex.amount ≡ some paid
      → mul_div (pos 2) p.total_lent.amount (pos 10) ≡ some bound
      → fill_rex_order h owner b rex s ≡ ok o s'
      → ((leb_ℤ paid (p.total_unlent.amount -64 bound) ≡ true)
          × (o.success ≡ true)
          × (o.proceeds.amount ≡ paid)
          × (s'.rexpool
              ≡ set_row h.self 0 0
                  (with_sale
                    (p.total_rex.amount -64 rex.amount)
                    (p.total_lendable.amount -64 paid)
                    p)
                  s.rexpool))
        ⊎ ((leb_ℤ paid (p.total_unlent.amount -64 bound) ≡ false)
            × (o.success ≡ false)
            × (o.proceeds.amount ≡ pos 0)
            × (s' ≡ s))
  unfolding fill_rex_order pool core_symbol
  fill_rex_order-effect owner b rex o s s' p paid bound f m n e =
      elim (Bool-cases (leb_ℤ paid (p.total_unlent.amount -64 bound))) [
        | inl y ↦ inl (
          y,
          ground arith,
          filled-proceeds owner b rex o s s' p paid bound f m n y e,
          ground arith,
        )
        | inr y ↦ inr (y, ground arith, ground arith, ground arith)
      ]

  -- An order of rx REX on a pool with tokens s0 and REX r0, which are at least rx, in amounts that an
  -- int64_t holds: it is worth paid tokens, at most its share of the pool. Either the owner gets just
  -- that, it leaves the pool with the REX, and the unlent tokens that are left are at least a fifth of
  -- the lent ones; or they would not be, and nothing changes.
  pub fill_keeps_reserve :
      (owner : ℕ) (b : RexBalance) (rex : Asset) (o : RexOrderOutcome) (s s' : System) (p : RexPool)
      (rx s0 r0 lent unlent : ℕ)
      → find h.self 0 s.rexpool ≡ some p
      → rex.amount ≡ pos rx
      → p.total_lendable.amount ≡ pos s0
      → p.total_rex.amount ≡ pos (suc r0)
      → p.total_lent.amount ≡ pos lent
      → p.total_unlent.amount ≡ pos unlent
      → rx ≤ suc r0
      → s0 < 2 ^ 62
      → suc r0 < 2 ^ 62
      → lent < 2 ^ 62
      → unlent < 2 ^ 62
      → fill_rex_order h owner b rex s ≡ ok o s'
      → (paid : ℕ) × (paid ≤ s0)
        × (paid * suc r0 ≤ rx * s0)
        × (Filled s s' p o paid lent unlent s0 (suc r0) rx ⊎ Refused s s' o paid lent unlent)
  unfolding with_sale
  fill_keeps_reserve owner b rex o s s' p rx s0 r0 lent unlent f ex es er el eu hx hs hr hl hu e =
      let paid = rx * s0 / suc r0 in
      let floor = div-mul-le_self (rx * s0) (suc r0) in
      let share = mul-le-mul {n₁ = rx} {m₁ = s0} {n₂ = suc r0} {m₂ = s0} hx (omega arith) in
      let all : paid ≤ s0 =
        le_of_mul-le-mul_right {m = paid} {n = s0} {k = suc r0} (grind arith) (omega arith) in
      let m = mul_div_pos rx s0 r0 (omega arith) (omega arith) (grind arith) in
      let n = mul_div_pos 2 lent 9 (omega arith) (omega arith) (omega arith) in
      let rest = le_rest paid unlent (2 * lent / 10) (omega arith) (omega arith) (omega arith) in
      let sold_rex = pos_sub (suc r0) rx hx (omega arith) in
      let left = pos_sub s0 paid all (omega arith) in
      let out =
        fill_rex_order-effect owner b rex o s s' p (pos paid) (pos (2 * lent / 10)) f
          (rw (ex, es, er) m) (rw el n) e in
      (
        paid,
        all,
        floor,
        elim out [
          | inl (y, ok_, pr, w) ↦ inl (record {
            success = ok_;
            proceeds = pr;
            row =
                rw (w, es, er, ex, sold_rex, left)
                  (find_written h.self 0 0 (with_sale (pos (suc r0 - rx)) (pos (s0 - paid)) p) p
                    s.rexpool f);
            reserve =
                let y' : leb_ℤ (pos paid) (pos unlent -64 pos (2 * lent / 10)) ≡ true = rw⁻¹ eu y in
                let g = sym rest ∙ y' in ground arith;
          })
          | inr (y, no_, pr, w) ↦ inr (record {
            failure = no_;
            proceeds = pr;
            same = w;
            short =
                let y' : leb_ℤ (pos paid) (pos unlent -64 pos (2 * lent / 10)) ≡ false =
                  rw⁻¹ eu y in
                let g = sym rest ∙ y' in ground arith;
          })
        ],
      )
