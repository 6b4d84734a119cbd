-- ===== src/System/Voting/Lookups.antt =====
-- contracts/eosio.system/src/voting.cpp: the map of a vote's changes,
-- read producer by producer.
use cmcc_eosio_contracts.Common.{
  ℕ, ◌<◌, ◌≤◌, ◌≡◌, Bool, true, false, ◌||◌, Option, some, none, inl, inr, arith, refl, ◌&&◌,
  Bool-cases, List, [], ◌∷◌, ◌==◌, ltb, All, if◌then◌else◌,
}
use cmcc_eosio_contracts.System.Float.{Double, zero_double}
use cmcc_eosio_contracts.System.Voting.Deltas.{Delta, change_at, change_each}

abbrev pub Increasing : List ℕ → Type 0
Increasing [] = Unit
Increasing (p ∷ ps) = All (λ q. p < q) ps × Increasing ps

abbrev pub member : ℕ → List ℕ → Bool
member q [] = false
member q (p ∷ ps) = q == p || member q ps

abbrev pub Sorted : List Delta → Type 0
Sorted [] = Unit
Sorted (d ∷ ds) = All (λ e. d.producer < e.producer) ds × Sorted ds

-- The change of a producer and whether the producer is newly voted for.
unfoldable pub lookup : ℕ → List Delta → Option (Double × Bool)
lookup q [] = none
lookup q (d ∷ ds) = if q == d.producer then some (d.change, d.is_new) else lookup q ds

abbrev base : Option (Double × Bool) → Double
base none = zero_double
base (some x) = x.0

lookup_below :
    (q p : ℕ) (ds : List Delta) → q ≤ p → All (λ e. p < e.producer) ds → lookup q ds ≡ none
unfolding lookup
lookup_below q p [] h a = refl
lookup_below q p (d ∷ ds) h a = ground (arith, lookup_below q p ds h a.1)

above-change_at :
    (n p : ℕ) (f : Double → Double) (b : Bool) (ds : List Delta)
    → n < p
    → All (λ e. n < e.producer) ds
    → All (λ e. n < e.producer) (change_at p f b ds)
unfolding change_at
above-change_at n p f b [] h a = (h, tt)
above-change_at n p f b (d ∷ ds) h a = elim (Bool-cases (p == d.producer)) [
  | inl e ↦ rw e a
  | inr e ↦ elim (Bool-cases (ltb p d.producer)) [
    | inl l ↦ rw e (rw l (h, a))
    | inr l ↦ rw e (rw l (a.0, above-change_at n p f b ds h a.1))
  ]
]

All-above :
    (p q : ℕ) (ds : List Delta)
    → p < q
    → All (λ e. q < e.producer) ds
    → All (λ e. p < e.producer) ds
All-above p q [] h a = tt
All-above p q (d ∷ ds) h a = (omega (arith, a.0), All-above p q ds h a.1)

change_at-Sorted :
    (p : ℕ) (f : Double → Double) (b : Bool) (ds : List Delta)
    → Sorted ds
    → Sorted (change_at p f b ds)
unfolding change_at
change_at-Sorted p f b [] s = (tt, tt)
change_at-Sorted p f b (d ∷ ds) s = elim (Bool-cases (p == d.producer)) [
  | inl e ↦ rw e s
  | inr e ↦ elim (Bool-cases (ltb p d.producer)) [
    | inl l ↦
        let k : p < d.producer = ground arith in
        rw e (rw l ((k, All-above p d.producer ds k s.0), s))
    | inr l ↦
        let k : d.producer < p = ground arith in
        rw e (rw l (above-change_at d.producer p f b ds k s.0, change_at-Sorted p f b ds s.1))
  ]
]

lookup-change_at :
    (q p : ℕ) (f : Double → Double) (b : Bool) (ds : List Delta)
    → Sorted ds
    → lookup q (change_at p f b ds)
      ≡ (if q == p then some (f (base (lookup p ds)), b) else lookup q ds)
unfolding lookup change_at
lookup-change_at q p f b [] s = ground arith
lookup-change_at q p f b (d ∷ ds) s =
    let below : p < d.producer → lookup p ds ≡ none =
      λ l. lookup_below p d.producer ds (omega arith) s.0 in
    ground (arith, lookup-change_at q p f b ds s.1, below)

change_each-Sorted :
    (ps : List ℕ) (f : Double → Double) (b : Bool) (ds : List Delta)
    → Sorted ds
    → Sorted (change_each ps f b ds)
unfolding change_each
change_each-Sorted [] f b ds s = s
change_each-Sorted (p ∷ ps) f b ds s =
    change_each-Sorted ps f b (change_at p f b ds) (change_at-Sorted p f b ds s)

absent : (p : ℕ) (ps : List ℕ) → All (λ q. p < q) ps → member p ps ≡ false
absent p [] a = refl
absent p (q ∷ ps) a = ground (arith, absent p ps a.1)

lookup-change_each :
    (q : ℕ) (ps : List ℕ) (f : Double → Double) (b : Bool) (ds : List Delta)
    → Increasing ps
    → Sorted ds
    → lookup q (change_each ps f b ds)
      ≡ (if member q ps then some (f (base (lookup q ds)), b) else lookup q ds)
unfolding change_each
lookup-change_each q [] f b ds i s = refl
lookup-change_each q (p ∷ ps) f b ds i s =
    let sorted = change_at-Sorted p f b ds s in
    let rest = lookup-change_each q ps f b (change_at p f b ds) i.1 sorted in
    let here = lookup-change_at q p f b ds s in
    elim (Bool-cases (q == p)) [
      | inl e ↦
          let same : q ≡ p = ground arith in
          let gone : member q ps ≡ false = rw same (absent p ps i.0) in ground arith
      | inr e ↦ ground arith
    ]

-- The changes of one vote: from the producers of the old vote, and to those of the new one.
abbrev pub ballot : (Double → Double) → (Double → Double) → List ℕ → List ℕ → List Delta
ballot take give old new = change_each new give true (change_each old take false [])

pub lookup-ballot :
    (take give : Double → Double) (old new : List ℕ) (q : ℕ)
    → Increasing old
    → Increasing new
    → Sorted (ballot take give old new)
      × (lookup q (ballot take give old new) ≡ (
          if member q new
          then some (give (if member q old then take zero_double else zero_double), true)
          else (if member q old then some (take zero_double, false) else none)))
unfolding lookup
lookup-ballot take give old new q i j =
    let s = change_each-Sorted old take false [] tt in
    let first = lookup-change_each q old take false [] i tt in
    let second = lookup-change_each q new give true (change_each old take false []) j s in
    (
      change_each-Sorted new give true (change_each old take false []) s,
      elim (Bool-cases (member q old)) [
        | inl a ↦ elim (Bool-cases (member q new)) [ inl b ↦ ground arith | inr b ↦ ground arith ]
        | inr a ↦ elim (Bool-cases (member q new)) [ inl b ↦ ground arith | inr b ↦ ground arith ]
      ],
    )

pub Increasing-if : (b : Bool) (ps : List ℕ) → Increasing ps → Increasing (if b then ps else [])
Increasing-if true ps i = i
Increasing-if false ps i = tt

pub member-if :
    (q : ℕ) (b : Bool) (ps : List ℕ) → member q (if b then ps else []) ≡ (b && member q ps)
member-if q true ps = refl
member-if q false ps = refl
