-- ===== src/System/Rex/Pieces.antt =====
-- contracts/eosio.system/src/rex.cpp: which buckets mature, are the savings, or get a new amount.
use cmcc_eosio_contracts.Common.{
  ℕ, ◌<◌, ◌≤◌, ◌≡◌, ◌≢◌, refl, ap, arith, inl, inr, Bool-cases, List, [], ◌∷◌, ◌++◌, ◌==◌, leb, All,
}
use cmcc_eosio_contracts.Common.Int.{ℤ, pos}
use cmcc_eosio_contracts.System.State.{Maturity}
use cmcc_eosio_contracts.System.Host.{◌+64◌}
use cmcc_eosio_contracts.System.Rex.Balance.{bucket, add_bucket, take_bucket, pop_matured, add_all}

abbrev pub LastIsNot : ℕ → List Maturity → Type 0
LastIsNot day [] = Unit
LastIsNot day (x ∷ []) = x.first ≢ day
LastIsNot day (x ∷ y ∷ ys) = LastIsNot day (y ∷ ys)

-- What is taken as the bucket of a day: the last one, if it is of that day, and nothing if not.
pub data Taken (day : ℕ) (xs : List Maturity) (z : ℤ) (ys : List Maturity) : Type 0 where
  whole : (x : Maturity) → xs ≡ ys ++ x ∷ [] → x.first ≡ day → z ≡ x.second → Taken day xs z ys
  nothing : xs ≡ ys → LastIsNot day xs → z ≡ pos 0 → Taken day xs z ys

-- An amount goes to the last bucket, if that is of the day, and to a new last one if not.
pub data Added (day : ℕ) (z : ℤ) (xs ys : List Maturity) : Type 0 where
  joined :
      (zs : List Maturity) (x : Maturity)
      → xs ≡ zs ++ x ∷ []
      → x.first ≡ day
      → ys ≡ zs ++ bucket day (x.second +64 z) ∷ []
      → Added day z xs ys
  appended : LastIsNot day xs → ys ≡ xs ++ bucket day z ∷ [] → Added day z xs ys

abbrev pub FirstAfter : ℕ → List Maturity → Type 0
FirstAfter now [] = Unit
FirstAfter now (x ∷ xs) = now < x.first

-- The buckets at the front that are of no later time than now have gone to the matured amount.
pub record Ripened (now : ℕ) (m : ℤ) (xs : List Maturity) (m' : ℤ) (ys : List Maturity)
    : Type 0 where
  pub gone : List Maturity
  pub parts : xs ≡ gone ++ ys
  pub due : All (λ x. x.first ≤ now) gone
  pub rest : FirstAfter now ys
  pub amount : m' ≡ add_all m gone

Taken-more :
    (day : ℕ) (x y : Maturity) (ys zs : List Maturity) (z : ℤ)
    → Taken day (y ∷ ys) z zs
    → Taken day (x ∷ y ∷ ys) z (x ∷ zs)
Taken-more day x y ys zs z (whole w e f g) = whole w (ap (λ l. x ∷ l) e) f g
Taken-more day x y ys zs z (nothing e f g) = nothing (ap (λ l. x ∷ l) e) f g

pub take_bucket-Taken :
    (day : ℕ) (xs : List Maturity) → Taken day xs (take_bucket day xs).0 (take_bucket day xs).1
unfolding take_bucket
take_bucket-Taken day [] = nothing refl tt refl
take_bucket-Taken day (x ∷ []) = elim (Bool-cases (x.first == day)) [
  | inl e ↦ rw e (whole x refl (ground arith) refl)
  | inr e ↦ rw e (nothing refl (ground arith) refl)
]
take_bucket-Taken day (x ∷ y ∷ ys) =
    Taken-more day x y ys (take_bucket day (y ∷ ys)).1 (take_bucket day (y ∷ ys)).0
      (take_bucket-Taken day (y ∷ ys))

Added-more :
    (day : ℕ) (x y : Maturity) (ys zs : List Maturity) (z : ℤ)
    → Added day z (y ∷ ys) zs
    → Added day z (x ∷ y ∷ ys) (x ∷ zs)
Added-more day x y ys zs z (joined ws w e f g) =
    joined (x ∷ ws) w (ap (λ l. x ∷ l) e) f (ap (λ l. x ∷ l) g)
Added-more day x y ys zs z (appended f g) = appended f (ap (λ l. x ∷ l) g)

pub add_bucket-Added : (day : ℕ) (z : ℤ) (xs : List Maturity) → Added day z xs (add_bucket day z xs)
unfolding add_bucket
add_bucket-Added day z [] = appended tt refl
add_bucket-Added day z (x ∷ []) = elim (Bool-cases (x.first == day)) [
  | inl e ↦ rw e (joined [] x refl (ground arith) refl)
  | inr e ↦ rw e (appended (ground arith) refl)
]
add_bucket-Added day z (x ∷ y ∷ ys) =
    Added-more day x y ys (add_bucket day z (y ∷ ys)) z (add_bucket-Added day z (y ∷ ys))

pub pop_matured-Ripened :
    (now : ℕ) (m : ℤ) (xs : List Maturity)
    → Ripened now m xs (pop_matured now m xs).0 (pop_matured now m xs).1
unfolding pop_matured add_all
pop_matured-Ripened now m [] = record {
  gone = [];
  parts = refl;
  due = tt;
  rest = tt;
  amount = refl;
}
pop_matured-Ripened now m (x ∷ xs) =
    let r = pop_matured-Ripened now (m +64 x.second) xs in
    elim (Bool-cases (leb x.first now)) [
      | inl e ↦ rw e (record {
        gone = x ∷ r.gone;
        parts = ap (λ l. x ∷ l) r.parts;
        due = (ground arith, r.due);
        rest = r.rest;
        amount = r.amount;
      })
      | inr e ↦
          rw e (record { gone = []; parts = refl; due = tt; rest = ground arith; amount = refl })
    ]
