-- ===== src/System/Rex/Draining.antt =====
-- contracts/eosio.system/src/rex.cpp: the loop that takes REX from the newest buckets.
use cmcc_eosio_contracts.Common.{
  ◌+◌, ◌≡◌, ◌∙◌, sym, ap, arith, true, inl, inr, Bool-cases, List, [], ◌∷◌,
}
use cmcc_eosio_contracts.Common.Int.{
  ℤ, pos, int64, int64_eq, int64_wraps, int_laws, ◌+ℤ◌, ◌-ℤ◌, +ℤ_parts, -ℤ_parts, ltb_ℤ, ◌==ℤ◌,
}
use cmcc_eosio_contracts.System.State.{Maturity, RexBalance}
use cmcc_eosio_contracts.System.Host.{◌+64◌, ◌-64◌}
use cmcc_eosio_contracts.System.Rex.Balance.{add_all}
use cmcc_eosio_contracts.System.Rex.Buckets.{held, add_all-shift, add_all-zero, int64_twice}
use cmcc_eosio_contracts.System.Rex.Savings.{min_64, drain, take_newest, moved, moves_all}

-- What is left of a bucket, and what is moved of it.
parts_of : (a x drex d : ℤ) → (a +64 (x -64 drex)) +64 (d +64 drex) ≡ (a +64 x) +64 d
parts_of a x drex d =
    let (k1, j1, e1) = int64_wraps (x -ℤ drex) in
    let (k2, j2, e2) = int64_wraps (a +ℤ (x -64 drex)) in
    let (k3, j3, e3) = int64_wraps (d +ℤ drex) in
    let (k4, j4, e4) = int64_wraps (a +ℤ x) in
    let p1 = -ℤ_parts x drex in
    let p2 = +ℤ_parts a (x -64 drex) in
    let p3 = +ℤ_parts d drex in
    let p4 = +ℤ_parts a x in
    let p5 = +ℤ_parts (a +64 (x -64 drex)) (d +64 drex) in
    let p6 = +ℤ_parts (a +64 x) d in
    int64_eq ((a +64 (x -64 drex)) +ℤ (d +64 drex)) ((a +64 x) +ℤ d) (j1 + j2 + j3 + k4)
      (k1 + k2 + k3 + j4) (omega int_laws)

-- What is taken from the matured REX.
rest_taken : (a m w d : ℤ) → (m -64 (w -64 d)) ≡ m +64 (d -64 w)
rest_taken a m w d =
    let (k1, j1, e1) = int64_wraps (w -ℤ d) in
    let (k2, j2, e2) = int64_wraps (d -ℤ w) in
    int64_eq (m -ℤ (w -64 d)) (m +ℤ (d -64 w)) (k1 + k2) (j1 + j2) (omega int_laws)

taken_back : (a w d : ℤ) → (a +64 (d -64 w)) +64 w ≡ a +64 d
taken_back a w d =
    let (k1, j1, e1) = int64_wraps (d -ℤ w) in
    let (k2, j2, e2) = int64_wraps (a +ℤ (d -64 w)) in
    int64_eq ((a +64 (d -64 w)) +ℤ w) (a +ℤ d) (j1 + j2) (k1 + k2) (omega int_laws)

add_all-drain :
    (m wanted : ℤ) (x : Maturity) (done : ℤ × List Maturity)
    → int64 m ≡ m
    → add_all m (drain wanted x done).1 +64 (drain wanted x done).0
      ≡ add_all (m +64 x.second) done.1 +64 done.0
unfolding add_all
add_all-drain m wanted x (d, ys) w =
    let drex = min_64 (wanted -64 d) x.second in
    let left = x.second -64 drex in
    let whole : (add_all m ys +64 left) +64 (d +64 drex) ≡ add_all (m +64 x.second) ys +64 d =
      parts_of (add_all m ys) x.second drex d
      ∙ ap (λ z. z +64 d) (sym (add_all-shift m x.second ys)) in
    elim (Bool-cases (left ==ℤ pos 0)) [
      | inl e ↦
          let gone : left ≡ pos 0 = ground arith in
          let same : add_all m ys ≡ add_all m ys +64 left =
            sym (ap (λ z. add_all m ys +64 z) gone ∙ add_all-zero m ys w) in
          rw e (ap (λ z. z +64 (d +64 drex)) same ∙ whole)
      | inr e ↦ rw e (ap (λ z. z +64 (d +64 drex)) (add_all-shift m left ys) ∙ whole)
    ]

add_all-take_newest :
    (m wanted : ℤ) (xs : List Maturity)
    → int64 m ≡ m
    → add_all m (take_newest wanted xs).1 +64 (take_newest wanted xs).0 ≡ add_all m xs
unfolding add_all take_newest
add_all-take_newest m wanted [] w = add_all-zero m [] w
add_all-take_newest m wanted (x ∷ xs) w =
    let rest = add_all-take_newest (m +64 x.second) wanted xs (int64_twice (m +ℤ x.second)) in
    elim (Bool-cases (ltb_ℤ (take_newest wanted xs).0 wanted)) [
      | inl e ↦ rw e (add_all-drain m wanted x (take_newest wanted xs) w ∙ rest)
      | inr e ↦ rw e rest
    ]

pub held-moved :
    (wanted : ℤ) (rb : RexBalance)
    → int64 rb.matured_rex ≡ rb.matured_rex
    → moves_all wanted rb ≡ true
    → held (moved wanted rb) +64 wanted ≡ held rb
unfolding held moved moves_all
held-moved wanted rb w a =
    let d = (take_newest wanted rb.rex_maturities).0 in
    let ys = (take_newest wanted rb.rex_maturities).1 in
    let rest = add_all-take_newest rb.matured_rex wanted rb.rex_maturities w in
    elim (Bool-cases (ltb_ℤ d wanted)) [
      | inl e ↦ rw e (
          ap (λ z. add_all z ys +64 wanted) (rest_taken wanted rb.matured_rex wanted d)
          ∙ (ap (λ z. z +64 wanted) (add_all-shift rb.matured_rex (d -64 wanted) ys)
              ∙ (taken_back (add_all rb.matured_rex ys) wanted d ∙ rest)))
      | inr e ↦
          let same : d ≡ wanted = ground arith in
          rw e (ap (λ z. add_all rb.matured_rex ys +64 z) (sym same) ∙ rest)
    ]
