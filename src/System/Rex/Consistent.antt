-- ===== src/System/Rex/Consistent.antt =====
-- contracts/eosio.system/src/rex.cpp: the sum that the pool keeps in `total_lendable`.
use cmcc_eosio_contracts.Common.{ℕ, ◌+◌, ◌≡◌, refl, Bool, some}
use cmcc_eosio_contracts.Common.Int.{
  ℤ, int64, int64_eq, int64_wraps, int_laws, ◌+ℤ◌, ◌-ℤ◌, +ℤ_parts, -ℤ_parts,
}
use cmcc_eosio_contracts.Chain.Table.{
  Table, find, set_row, add_row, EveryRow, set_row-EveryRow, add_row-EveryRow, find-EveryRow,
}
use cmcc_eosio_contracts.System.State.{RexPool}
use cmcc_eosio_contracts.System.Host.{◌+64◌, ◌-64◌}
use cmcc_eosio_contracts.System.Rex.Pool.{with_loan, without_loan, with_channeled, with_purchase}
use cmcc_eosio_contracts.System.Rex.Orders.{with_sale}

-- What can be lent is what is lent and what is not.
abbrev pub Sums : RexPool → Type 0
Sums p = p.total_lendable.amount ≡ p.total_unlent.amount +64 p.total_lent.amount

-- Every row of the pool has the right sum.
unfoldable pub Consistent : Table RexPool → Type 0
Consistent t = EveryRow (λ s k p. Sums p) t

pub with_loan-Sums :
    (payment rented : ℤ) (b : Bool) (p : RexPool) → Sums (with_loan payment rented b p)
unfolding with_loan
with_loan-Sums payment rented b p = refl

pub without_loan-Sums : (rent staked : ℤ) (p : RexPool) → Sums (without_loan rent staked p)
unfolding without_loan
without_loan-Sums rent staked p = refl

-- An amount that is added to a part is added to the sum, wrap-around included.
pub add_to_part : (u l z : ℤ) → (u +64 l) +64 z ≡ (u +64 z) +64 l
add_to_part u l z =
    let (k, j, e) = int64_wraps (u +ℤ l) in
    let (m, n, f) = int64_wraps (u +ℤ z) in
    let p = +ℤ_parts (int64 (u +ℤ l)) z in
    let q = +ℤ_parts (int64 (u +ℤ z)) l in
    let r = +ℤ_parts u l in
    let t = +ℤ_parts u z in
    int64_eq (int64 (u +ℤ l) +ℤ z) (int64 (u +ℤ z) +ℤ l) (j + m) (k + n) (omega int_laws)

pub rest_of : (z l : ℤ) → int64 z ≡ (int64 z -64 l) +64 l
rest_of z l =
    let (k, j, e) = int64_wraps z in
    let (m, n, f) = int64_wraps (int64 z -ℤ l) in
    let p = -ℤ_parts (int64 z) l in
    let q = +ℤ_parts (int64 (int64 z -ℤ l)) l in
    int64_eq z (int64 (int64 z -ℤ l) +ℤ l) (k + m) (j + n) (omega int_laws)

pub with_channeled-Sums : (z : ℤ) (p : RexPool) → Sums p → Sums (with_channeled z p)
unfolding with_channeled
with_channeled-Sums z p e = rw e (add_to_part p.total_unlent.amount p.total_lent.amount z)

pub with_sale-Sums : (r1 s1 : ℤ) (p : RexPool) → Sums (with_sale r1 (int64 s1) p)
unfolding with_sale
with_sale-Sums r1 s1 p = rest_of s1 p.total_lent.amount

pub with_purchase-Sums : (r1 s1 : ℤ) (p : RexPool) → Sums (with_purchase (int64 s1) r1 p)
unfolding with_purchase
with_purchase-Sums r1 s1 p = rest_of s1 p.total_lent.amount

pub set_row-Consistent :
    (s k payer : ℕ) (p : RexPool) (t : Table RexPool)
    → Consistent t
    → Sums p
    → Consistent (set_row s k payer p t)
unfolding Consistent
set_row-Consistent s k payer p t c e = set_row-EveryRow (λ s k p. Sums p) s k payer p t c e

pub add_row-Consistent :
    (s k payer : ℕ) (p : RexPool) (t : Table RexPool)
    → Consistent t
    → Sums p
    → Consistent (add_row s k payer p t)
unfolding Consistent
add_row-Consistent s k payer p t c e = add_row-EveryRow (λ s k p. Sums p) s k payer p t c e

pub find-Consistent :
    (s k : ℕ) (p : RexPool) (t : Table RexPool) → Consistent t → find s k t ≡ some p → Sums p
unfolding Consistent
find-Consistent s k p t c e = find-EveryRow (λ s k p. Sums p) s k p t c e
