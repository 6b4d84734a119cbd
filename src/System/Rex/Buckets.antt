-- ===== src/System/Rex/Buckets.antt =====
-- contracts/eosio.system/src/rex.cpp: the REX of an owner, matured or in buckets, through what is done
-- to the buckets.
use cmcc_eosio_contracts.Common.{
  ℕ, ◌+◌, ◌≡◌, ◌∙◌, refl, sym, ap, arith, false, inl, inr, Bool-cases, List, [], ◌∷◌, ◌==◌, leb,
}
use cmcc_eosio_contracts.Common.Int.{
  ℤ, pos, int64, int64_eq, int64_wraps, int_laws, ◌+ℤ◌, ◌≤ℤ◌, +ℤ_parts, ltb_ℤ,
}
use cmcc_eosio_contracts.System.State.{Maturity, RexBalance}
use cmcc_eosio_contracts.System.Host.{◌+64◌, ◌-64◌}
use cmcc_eosio_contracts.System.Rex.Balance.{
  add_bucket, take_bucket, pop_matured, add_all, matured, consolidated, without_savings, savings,
  with_bucket, end_of_days,
}
use cmcc_eosio_contracts.System.Rex.Pieces.{
  Ripened, Added, Taken, pop_matured-Ripened, add_bucket-Added, take_bucket-Taken,
}
use cmcc_eosio_contracts.System.Rex.Consistent.{add_to_part, rest_of}

-- All the REX of a row.
unfoldable pub held : RexBalance → ℤ
held rb = add_all rb.matured_rex rb.rex_maturities

pub add64_assoc : (a b c : ℤ) → a +64 (b +64 c) ≡ (a +64 b) +64 c
add64_assoc a b c =
    let (k, j, e) = int64_wraps (b +ℤ c) in
    let (m, n, f) = int64_wraps (a +ℤ b) in
    let p = +ℤ_parts a (int64 (b +ℤ c)) in
    let q = +ℤ_parts (int64 (a +ℤ b)) c in
    let r = +ℤ_parts b c in
    let t = +ℤ_parts a b in
    int64_eq (a +ℤ int64 (b +ℤ c)) (int64 (a +ℤ b) +ℤ c) (j + m) (k + n) (omega int_laws)

pub add_all-shift : (a b : ℤ) (xs : List Maturity) → add_all (a +64 b) xs ≡ add_all a xs +64 b
unfolding add_all
add_all-shift a b [] = refl
add_all-shift a b (x ∷ xs) =
    ap (λ z. add_all z xs) (add_to_part a b x.second) ∙ add_all-shift (a +64 x.second) b xs

pub add_all-add_bucket :
    (m : ℤ) (day : ℕ) (z : ℤ) (xs : List Maturity)
    → add_all m (add_bucket day z xs) ≡ add_all m xs +64 z
unfolding add_all add_bucket
add_all-add_bucket m day z [] = refl
add_all-add_bucket m day z (x ∷ []) = elim (Bool-cases (x.first == day)) [
  | inl e ↦ rw e (add64_assoc m x.second z)
  | inr e ↦ rw e refl
]
add_all-add_bucket m day z (x ∷ y ∷ ys) = add_all-add_bucket (m +64 x.second) day z (y ∷ ys)

pub add_all-pop_matured :
    (now : ℕ) (m : ℤ) (xs : List Maturity)
    → add_all (pop_matured now m xs).0 (pop_matured now m xs).1 ≡ add_all m xs
unfolding add_all pop_matured
add_all-pop_matured now m [] = refl
add_all-pop_matured now m (x ∷ xs) = elim (Bool-cases (leb x.first now)) [
  | inl e ↦ rw e (add_all-pop_matured now (m +64 x.second) xs)
  | inr e ↦ rw e refl
]

pub int64_twice : (z : ℤ) → int64 (int64 z) ≡ int64 z
int64_twice z = let (k, j, e) = int64_wraps z in int64_eq (int64 z) z j k (omega int_laws)

-- Nothing is added to a value that is stored.
pub add_all-zero :
    (m : ℤ) (xs : List Maturity) → int64 m ≡ m → add_all m xs +64 pos 0 ≡ add_all m xs
unfolding add_all
add_all-zero m [] w = let same : m +ℤ pos 0 ≡ m = omega int_laws in ap int64 same ∙ w
add_all-zero m (x ∷ xs) w = add_all-zero (m +64 x.second) xs (int64_twice (m +ℤ x.second))

pub add_all-take_bucket :
    (m : ℤ) (day : ℕ) (xs : List Maturity)
    → int64 m ≡ m
    → add_all m (take_bucket day xs).1 +64 (take_bucket day xs).0 ≡ add_all m xs
unfolding add_all take_bucket
add_all-take_bucket m day [] w = add_all-zero m [] w
add_all-take_bucket m day (x ∷ []) w = elim (Bool-cases (x.first == day)) [
  | inl e ↦ rw e refl
  | inr e ↦ rw e (add_all-zero m (x ∷ []) w)
]
add_all-take_bucket m day (x ∷ y ∷ ys) w =
    add_all-take_bucket (m +64 x.second) day (y ∷ ys) (int64_twice (m +ℤ x.second))

pub +ℤ_swap : (a b : ℤ) → a +ℤ b ≡ b +ℤ a
+ℤ_swap a b = omega int_laws

only_zero : (t : ℤ) → pos 0 ≤ℤ t → ltb_ℤ (pos 0) t ≡ false → t ≡ pos 0
only_zero t p e = ground arith

add_all-consolidated :
    (day : ℕ) (in_order : ℤ) (rb : RexBalance)
    → int64 rb.matured_rex ≡ rb.matured_rex
    → int64 in_order ≡ in_order
    → pos 0 ≤ℤ add_all (rb.matured_rex -64 in_order) rb.rex_maturities
    → held (consolidated day in_order rb) ≡ held rb
unfolding held consolidated add_all
add_all-consolidated day in_order rb w v p =
    let total = add_all (rb.matured_rex -64 in_order) rb.rex_maturities in
    let back = rest_of rb.matured_rex in_order in
    let whole : add_all rb.matured_rex rb.rex_maturities ≡ in_order +64 total =
      ap (λ z. add_all z rb.rex_maturities)
        (sym w ∙ (back ∙ ap (λ z. (z -64 in_order) +64 in_order) w))
      ∙ (add_all-shift (rb.matured_rex -64 in_order) in_order rb.rex_maturities
          ∙ ap int64 (+ℤ_swap total in_order)) in
    elim (Bool-cases (ltb_ℤ (pos 0) total)) [
      | inl e ↦ rw e (sym whole)
      | inr e ↦
          let none_left : total ≡ pos 0 = only_zero total p e in
          rw e (sym (whole ∙ (ap (λ z. in_order +64 z) none_left ∙ add_all-zero in_order [] v)))
    ]

-- For a row whose matured REX, like the REX in an order, is an int64_t: maturing moves just the buckets
-- at the front that are of no later time than now, up to the first later one, to the matured REX, and
-- keeps what is held; an amount that is added joins the last bucket, if that is of the same day, and is
-- a new last bucket if not, and adds just itself; the savings that are taken out are the last bucket, if
-- that is the one that never matures, and nothing if not, and the rest stays; consolidating leaves the
-- REX in the order as matured, and loses nothing, if the order asks for no more than there is.
pub buckets_keep_rex :
    (now day : ℕ) (z in_order : ℤ) (rb : RexBalance)
    → int64 rb.matured_rex ≡ rb.matured_rex
    → int64 in_order ≡ in_order
    → pos 0 ≤ℤ add_all (rb.matured_rex -64 in_order) rb.rex_maturities
    → Ripened now rb.matured_rex rb.rex_maturities
        (matured now rb).matured_rex
        (matured now rb).rex_maturities
      × (held (matured now rb) ≡ held rb)
      × Added day z rb.rex_maturities (with_bucket day z rb).rex_maturities
      × (held (with_bucket day z rb) ≡ held rb +64 z)
      × Taken end_of_days rb.rex_maturities (savings rb) (without_savings rb).rex_maturities
      × (held (without_savings rb) +64 savings rb ≡ held rb)
      × ((consolidated day in_order rb).matured_rex ≡ in_order)
      × (held (consolidated day in_order rb) ≡ held rb)
unfolding held matured with_bucket without_savings savings consolidated
buckets_keep_rex now day z in_order rb w v p = (
  pop_matured-Ripened now rb.matured_rex rb.rex_maturities,
  add_all-pop_matured now rb.matured_rex rb.rex_maturities,
  add_bucket-Added day z rb.rex_maturities,
  add_all-add_bucket rb.matured_rex day z rb.rex_maturities,
  take_bucket-Taken end_of_days rb.rex_maturities,
  add_all-take_bucket rb.matured_rex end_of_days rb.rex_maturities w,
  refl,
  add_all-consolidated day in_order rb w v p,
)
