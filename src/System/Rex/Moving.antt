-- ===== src/System/Rex/Moving.antt =====
-- contracts/eosio.system/src/rex.cpp: REX that is moved to savings stays with its owner.
use cmcc_eosio_contracts.Common.{
  ℕ, ◌≡◌, ◌∙◌, refl, sym, ap, arith, true, false, not, if◌then◌else◌, some, inl, inr, Bool-cases,
  List, [], ◌∷◌, leb,
}
use cmcc_eosio_contracts.Common.Int.{ℤ, pos, int64, ◌+ℤ◌, ◌-ℤ◌, ltb_ℤ, ◌==ℤ◌}
use cmcc_eosio_contracts.Chain.Asset.{Asset}
use cmcc_eosio_contracts.Chain.Table.{Table, find, set_row, find-set_row}
use cmcc_eosio_contracts.Chain.Action.{ok}
use cmcc_eosio_contracts.System.Tables.{System}
use cmcc_eosio_contracts.System.Rex.Loans.{runrex}
use cmcc_eosio_contracts.System.Rex.Account.{refresh_account}
use cmcc_eosio_contracts.System.State.{Maturity, RexBalance}
use cmcc_eosio_contracts.System.Host.{SystemHost, ◌+64◌, ◌-64◌}
use cmcc_eosio_contracts.System.Rex.Balance.{
  pop_matured, add_all, matured, without_savings, savings, take_bucket, with_bucket, end_of_days,
  read_rex_savings, process_rex_maturities, put_rex_savings,
}
use cmcc_eosio_contracts.System.Rex.Buckets.{
  held, add_all-zero, int64_twice, add64_assoc, add_all-pop_matured, add_all-add_bucket,
  add_all-take_bucket, +ℤ_swap,
}
use cmcc_eosio_contracts.System.Rex.Savings.{mvtosavings, take_newest, moved, moves_all}
use cmcc_eosio_contracts.System.Rex.Draining.{held-moved}

stored-pop_matured :
    (now : ℕ) (m : ℤ) (xs : List Maturity)
    → int64 m ≡ m
    → int64 (pop_matured now m xs).0 ≡ (pop_matured now m xs).0
unfolding pop_matured
stored-pop_matured now m [] w = w
stored-pop_matured now m (x ∷ xs) w = elim (Bool-cases (leb x.first now)) [
  | inl e ↦ rw e (stored-pop_matured now (m +64 x.second) xs (int64_twice (m +ℤ x.second)))
  | inr e ↦ rw e w
]

stored-matured :
    (now : ℕ) (rb : RexBalance)
    → int64 rb.matured_rex ≡ rb.matured_rex
    → int64 (matured now (without_savings rb)).matured_rex
      ≡ (matured now (without_savings rb)).matured_rex
unfolding matured without_savings
stored-matured now rb w =
    stored-pop_matured now rb.matured_rex (take_bucket end_of_days rb.rex_maturities).1 w

-- The savings that are taken out, the REX that matures, and the REX that is moved, put back with them.
moving-row :
    (now : ℕ) (wanted : ℤ) (rb : RexBalance)
    → int64 rb.matured_rex ≡ rb.matured_rex
    → moves_all wanted (matured now (without_savings rb)) ≡ true
    → held (
        with_bucket end_of_days
          (savings rb +64 wanted)
          (moved wanted (matured now (without_savings rb))))
      ≡ held rb
unfolding held matured with_bucket without_savings savings
moving-row now wanted rb w a =
    let s = savings rb in
    let others = (without_savings rb).rex_maturities in
    let x = matured now (without_savings rb) in
    let y = moved wanted x in
    let put : held (with_bucket end_of_days (s +64 wanted) y) ≡ held y +64 (s +64 wanted) =
      add_all-add_bucket y.matured_rex end_of_days (s +64 wanted) y.rex_maturities in
    let turned : held y +64 (s +64 wanted) ≡ (held y +64 wanted) +64 s =
      ap (λ z. held y +64 z) (ap int64 (+ℤ_swap s wanted)) ∙ add64_assoc (held y) wanted s in
    let back : held y +64 wanted ≡ held x =
      held-moved wanted x (stored-pop_matured now rb.matured_rex others w) a in
    let aged : held x ≡ held (without_savings rb) = add_all-pop_matured now rb.matured_rex others in
    let whole : held (without_savings rb) +64 s ≡ held rb =
      add_all-take_bucket rb.matured_rex end_of_days rb.rex_maturities w in
    put ∙ (turned ∙ (ap (λ z. z +64 s) (back ∙ aged) ∙ whole))

stored-moved :
    (wanted : ℤ) (rb : RexBalance)
    → int64 rb.matured_rex ≡ rb.matured_rex
    → int64 (moved wanted rb).matured_rex ≡ (moved wanted rb).matured_rex
unfolding moved
stored-moved wanted rb w =
    let d = (take_newest wanted rb.rex_maturities).0 in
    elim (Bool-cases (ltb_ℤ d wanted)) [
      | inl e ↦ rw e (int64_twice (rb.matured_rex -ℤ (wanted -64 d)))
      | inr e ↦ rw e w
    ]

-- Nothing is put back if there is nothing to put.
abbrev put_back : ℤ → RexBalance → RexBalance
put_back z rb = if not (z ==ℤ pos 0) then with_bucket end_of_days z rb else rb

held-put_back :
    (z : ℤ) (rb : RexBalance)
    → int64 rb.matured_rex ≡ rb.matured_rex
    → held (put_back z rb) ≡ held (with_bucket end_of_days z rb)
unfolding held with_bucket
held-put_back z rb w = elim (Bool-cases (z ==ℤ pos 0)) [
  | inr e ↦ rw e refl
  | inl e ↦
      let none : z ≡ pos 0 = ground arith in
      rw e (
        sym (
          add_all-add_bucket rb.matured_rex end_of_days z rb.rex_maturities
          ∙ (ap (λ y. add_all rb.matured_rex rb.rex_maturities +64 y) none
              ∙ add_all-zero rb.matured_rex rb.rex_maturities w)))
]

find-written :
    (s k p : ℕ) (r r' : RexBalance) (t : Table RexBalance)
    → find s k t ≡ some r'
    → find s k (set_row s k p r t) ≡ some r
find-written s k p r r' t f = ground (arith, find-set_row s k p s k r r' t f)

module _ (h : SystemHost) (owner : ℕ) (rex : Asset) (s s1 s2 s' : System) (in_order : Asset)
    (rb : RexBalance) where
  mvtosavings-row :
      runrex h 2 s ≡ ok tt s1
      → refresh_account h owner false s1 ≡ ok in_order s2
      → find h.self owner s2.rexbalance ≡ some rb
      → mvtosavings h owner rex s ≡ ok tt s'
      → let x = matured (h.to_sec h.now) (without_savings rb) in
        (moves_all rex.amount x ≡ true)
        × (find h.self owner s'.rexbalance
            ≡ some (put_back (savings rb +64 rex.amount) (moved rex.amount x)))
  unfolding mvtosavings read_rex_savings process_rex_maturities put_rex_savings
  mvtosavings-row g1 g2 g3 e =
      let x = matured (h.to_sec h.now) (without_savings rb) in
      let y = moved rex.amount x in
      let t1 = set_row h.self owner 0 (without_savings rb) s2.rexbalance in
      let t2 = set_row h.self owner 0 x t1 in
      let t3 = set_row h.self owner 0 y t2 in
      let f1 = find-written h.self owner 0 (without_savings rb) rb s2.rexbalance g3 in
      let f2 = find-written h.self owner 0 x (without_savings rb) t1 f1 in
      let f3 = find-written h.self owner 0 y x t2 f2 in
      let f4 =
        find-written h.self owner 0 (with_bucket end_of_days (savings rb +64 rex.amount) y) y t3
          f3 in
      (ground arith, ground arith)

  -- For the state after the maintenance that `mvtosavings` starts with, and the owner's row in it, whose
  -- matured REX is an int64_t: if `mvtosavings` succeeds, then the row that the owner has after it holds
  -- just the REX that the row held, in its buckets, its savings and its matured REX together.
  pub moving_keeps_rex :
      runrex h 2 s ≡ ok tt s1
      → refresh_account h owner false s1 ≡ ok in_order s2
      → find h.self owner s2.rexbalance ≡ some rb
      → int64 rb.matured_rex ≡ rb.matured_rex
      → mvtosavings h owner rex s ≡ ok tt s'
      → (after : RexBalance) × (find h.self owner s'.rexbalance ≡ some after)
        × (held after ≡ held rb)
  moving_keeps_rex g1 g2 g3 w e =
      let (a, f) = mvtosavings-row g1 g2 g3 e in
      let now = h.to_sec h.now in
      let x = matured now (without_savings rb) in
      let v = stored-moved rex.amount x (stored-matured now rb w) in
      (
        put_back (savings rb +64 rex.amount) (moved rex.amount x),
        f,
        held-put_back (savings rb +64 rex.amount) (moved rex.amount x) v
            ∙ moving-row now rex.amount rb w a,
      )
