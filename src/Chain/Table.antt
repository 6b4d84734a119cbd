-- ===== src/Chain/Table.antt =====
-- A database table (`eosio::multi_index`) as the rows that it holds. A row is found by its scope and
-- its primary key, and remembers the account that pays for its storage.
use cmcc_eosio_contracts.Common.{
  ℕ, ◌≡◌, refl, sym, subst₂, subst₃, inl, inr, Bool, Bool-cases, true, not, ◌&&◌, Option, none,
  some, List, [], ◌∷◌, arith, ◌==◌, if◌then◌else◌, is_some, All,
}
use cmcc_eosio_contracts.Common.Int.{ℤ, pos, ◌+ℤ◌, ◌≤ℤ◌, int_laws}

pub record Entry (R : Type 0) : Type 0 where
  pub scope : ℕ
  pub key : ℕ
  pub payer : ℕ
  pub row : R

abbrev pub Table : Type 0 → Type 0
Table R = List (Entry R)

module _ {R : Type 0} where
  abbrev pub at_key : Entry R → ℕ → ℕ → Bool
  at_key e s k = (e.scope == s) && (e.key == k)

  pub at_key-eq : (e : Entry R) (s k : ℕ) → at_key e s k ≡ true → (e.scope ≡ s) × (e.key ≡ k)
  at_key-eq e s k h = ground arith

  unfoldable pub find : ℕ → ℕ → Table R → Option R
  find s k [] = none
  find s k (e ∷ t) = if at_key e s k then some e.row else find s k t

  unfoldable pub payer_of : ℕ → ℕ → Table R → Option ℕ
  payer_of s k [] = none
  payer_of s k (e ∷ t) = if at_key e s k then some e.payer else payer_of s k t

  -- A new row goes to the end.
  unfoldable pub add_row : ℕ → ℕ → ℕ → R → Table R → Table R
  add_row s k p r [] = record { scope = s; key = k; payer = p; row = r } ∷ []
  add_row s k p r (e ∷ t) = e ∷ add_row s k p r t

  -- The payer 0 is `same_payer`: the row keeps the one that it has.
  unfoldable pub set_row : ℕ → ℕ → ℕ → R → Table R → Table R
  set_row s k p r [] = []
  set_row s k p r (e ∷ t) =
      if at_key e s k
      then record e { payer = if p == 0 then e.payer else p; row = r } ∷ t
      else e ∷ set_row s k p r t

  unfoldable pub erase_row : ℕ → ℕ → Table R → Table R
  erase_row s k [] = []
  erase_row s k (e ∷ t) = if at_key e s k then t else e ∷ erase_row s k t

  -- No two rows share a scope and a key.
  abbrev pub Unique : Table R → Type 0
  Unique [] = Unit
  Unique (e ∷ t) = (find e.scope e.key t ≡ none) × Unique t

  pub find-add_row :
      (s k p i j : ℕ) (r : R) (t : Table R)
      → find s k t ≡ none
      → find i j (add_row s k p r t) ≡ (if (s == i) && (k == j) then some r else find i j t)
  unfolding find add_row
  find-add_row s k p i j r [] h = refl
  find-add_row s k p i j r (e ∷ t) h = ground (arith, find-add_row s k p i j r t)

  pub find-set_row :
      (s k p i j : ℕ) (r r' : R) (t : Table R)
      → find s k t ≡ some r'
      → find i j (set_row s k p r t) ≡ (if (s == i) && (k == j) then some r else find i j t)
  unfolding find set_row
  find-set_row s k p i j r r' [] h = cc
  find-set_row s k p i j r r' (e ∷ t) h = ground (arith, find-set_row s k p i j r r' t)

  -- A new row is paid by its payer, and a write may change the payer of a row.
  pub payer_of-add_row :
      (s k p i j : ℕ) (r : R) (t : Table R)
      → find s k t ≡ none
      → payer_of i j (add_row s k p r t) ≡ (if (s == i) && (k == j) then some p else payer_of i j t)
  unfolding find payer_of add_row
  payer_of-add_row s k p i j r [] h = refl
  payer_of-add_row s k p i j r (e ∷ t) h = ground (arith, payer_of-add_row s k p i j r t)

  pub payer_of-set_row :
      (s k p i j : ℕ) (r r' : R) (t : Table R)
      → find s k t ≡ some r'
      → payer_of i j (set_row s k p r t)
        ≡ (if (s == i) && (k == j) && not (p == 0) then some p else payer_of i j t)
  unfolding find payer_of set_row
  payer_of-set_row s k p i j r r' [] h = cc
  payer_of-set_row s k p i j r r' (e ∷ t) h = ground (arith, payer_of-set_row s k p i j r r' t)

  pub find-erase_row :
      (s k i j : ℕ) (t : Table R)
      → Unique t
      → find i j (erase_row s k t) ≡ (if (s == i) && (k == j) then none else find i j t)
  unfolding find erase_row
  find-erase_row s k i j [] u = ground arith
  find-erase_row s k i j (e ∷ t) u = ground (arith, find-erase_row s k i j t u.1)

  pub erase_row-add_row :
      (s k p : ℕ) (r : R) (t : Table R) → find s k t ≡ none → erase_row s k (add_row s k p r t) ≡ t
  unfolding find erase_row add_row
  erase_row-add_row s k p r [] h = ground arith
  erase_row-add_row s k p r (e ∷ t) h = ground (arith, erase_row-add_row s k p r t)

  pub add_row-Unique :
      (s k p : ℕ) (r : R) (t : Table R) → find s k t ≡ none → Unique t → Unique (add_row s k p r t)
  unfolding find add_row
  add_row-Unique s k p r [] h u = (refl, tt)
  add_row-Unique s k p r (e ∷ t) h u =
      ground (arith, add_row-Unique s k p r t, find-add_row s k p e.scope e.key r t)

  -- A write changes no key.
  pub has-set_row :
      (s k p i j : ℕ) (r : R) (t : Table R)
      → is_some (find i j (set_row s k p r t)) ≡ is_some (find i j t)
  unfolding find set_row
  has-set_row s k p i j r [] = refl
  has-set_row s k p i j r (e ∷ t) = ground (arith, has-set_row s k p i j r t)

  absent_after_set :
      (s k p i j : ℕ) (r : R) (t : Table R)
      → find i j t ≡ none
      → find i j (set_row s k p r t) ≡ none
  unfolding find set_row
  absent_after_set s k p i j r [] h = refl
  absent_after_set s k p i j r (e ∷ t) h = ground (arith, absent_after_set s k p i j r t)

  pub set_row-Unique : (s k p : ℕ) (r : R) (t : Table R) → Unique t → Unique (set_row s k p r t)
  unfolding set_row
  set_row-Unique s k p r [] u = tt
  set_row-Unique s k p r (e ∷ t) u =
      ground (arith, set_row-Unique s k p r t u.1, absent_after_set s k p e.scope e.key r t u.0)

  absent_after_erase :
      (s k i j : ℕ) (t : Table R) → find i j t ≡ none → find i j (erase_row s k t) ≡ none
  unfolding find erase_row
  absent_after_erase s k i j [] h = refl
  absent_after_erase s k i j (e ∷ t) h = ground (arith, absent_after_erase s k i j t)

  pub erase_row-Unique : (s k : ℕ) (t : Table R) → Unique t → Unique (erase_row s k t)
  unfolding erase_row
  erase_row-Unique s k [] u = tt
  erase_row-Unique s k (e ∷ t) u =
      ground (arith, erase_row-Unique s k t u.1, absent_after_erase s k e.scope e.key t u.0)

-- A predicate on a key and a row, over all the rows.
abbrev pub EveryRow : {R : Type 0} → (ℕ → ℕ → R → Type 0) → Table R → Type 0
EveryRow P = All (λ e. P e.scope e.key e.row)

module _ {R : Type 0} (P : ℕ → ℕ → R → Type 0) where
  pub find-EveryRow : (s k : ℕ) (r : R) (t : Table R) → EveryRow P t → find s k t ≡ some r → P s k r
  unfolding find
  find-EveryRow s k r [] h e = cc
  find-EveryRow s k r (x ∷ t) h e = elim (Bool-cases (at_key x s k)) [
    | inl hit ↦ subst₃ P (at_key-eq x s k hit).0 (at_key-eq x s k hit).1 (ground arith) h.0
    | inr miss ↦ find-EveryRow s k r t h.1 (ground arith)
  ]

  pub add_row-EveryRow :
      (s k p : ℕ) (r : R) (t : Table R) → EveryRow P t → P s k r → EveryRow P (add_row s k p r t)
  unfolding add_row
  add_row-EveryRow s k p r [] h q = (q, tt)
  add_row-EveryRow s k p r (e ∷ t) h q = (h.0, add_row-EveryRow s k p r t h.1 q)

  pub set_row-EveryRow :
      (s k p : ℕ) (r : R) (t : Table R) → EveryRow P t → P s k r → EveryRow P (set_row s k p r t)
  unfolding set_row
  set_row-EveryRow s k p r [] h q = tt
  set_row-EveryRow s k p r (e ∷ t) h q = elim (Bool-cases (at_key e s k)) [
    | inl hit ↦
        rw hit (
          subst₂ (λ i j. P i j r) (sym (at_key-eq e s k hit).0) (sym (at_key-eq e s k hit).1) q,
          h.1,
        )
    | inr miss ↦ rw miss (h.0, set_row-EveryRow s k p r t h.1 q)
  ]

  pub erase_row-EveryRow : (s k : ℕ) (t : Table R) → EveryRow P t → EveryRow P (erase_row s k t)
  unfolding erase_row
  erase_row-EveryRow s k [] h = tt
  erase_row-EveryRow s k (e ∷ t) h = ground (arith, erase_row-EveryRow s k t h.1)

-- The sum of a measure over the rows.
module _ {R : Type 0} (f : ℕ → ℕ → R → ℤ) where
  unfoldable pub sum : Table R → ℤ
  sum [] = pos 0
  sum (e ∷ t) = f e.scope e.key e.row +ℤ sum t

  pub sum-add_row : (s k p : ℕ) (r : R) (t : Table R) → sum (add_row s k p r t) ≡ sum t +ℤ f s k r
  unfolding sum add_row
  sum-add_row s k p r [] = omega int_laws
  sum-add_row s k p r (e ∷ t) = grind (int_laws, sum-add_row s k p r t)

  pub sum-set_row :
      (s k p : ℕ) (r r' : R) (t : Table R)
      → find s k t ≡ some r'
      → sum (set_row s k p r t) +ℤ f s k r' ≡ sum t +ℤ f s k r
  unfolding sum find set_row
  sum-set_row s k p r r' [] h = cc
  sum-set_row s k p r r' (e ∷ t) h = grind (int_laws, sum-set_row s k p r r' t)

  pub sum-erase_row :
      (s k : ℕ) (r : R) (t : Table R)
      → find s k t ≡ some r
      → sum (erase_row s k t) +ℤ f s k r ≡ sum t
  unfolding sum find erase_row
  sum-erase_row s k r [] h = cc
  sum-erase_row s k r (e ∷ t) h = grind (int_laws, sum-erase_row s k r t)

  sum_nonneg : (t : Table R) → EveryRow (λ s k r. pos 0 ≤ℤ f s k r) t → pos 0 ≤ℤ sum t
  unfolding sum
  sum_nonneg [] h = omega arith
  sum_nonneg (e ∷ t) h = let rest = sum_nonneg t h.1 in let here = h.0 in omega int_laws

  -- A part of a sum of parts that are not negative is at most the sum.
  pub find-le-sum :
      (s k : ℕ) (r : R) (t : Table R)
      → EveryRow (λ s k r. pos 0 ≤ℤ f s k r) t
      → find s k t ≡ some r
      → f s k r ≤ℤ sum t
  unfolding sum find
  find-le-sum s k r [] h e = cc
  find-le-sum s k r (x ∷ t) h e = grind (int_laws, sum_nonneg t h.1, find-le-sum s k r t h.1)

pub EveryRow-map :
    {R : Type 0} (P Q : ℕ → ℕ → R → Type 0) (t : Table R)
    → ((s k : ℕ) (r : R) → P s k r → Q s k r)
    → EveryRow P t
    → EveryRow Q t
EveryRow-map P Q [] imp h = tt
EveryRow-map P Q (e ∷ t) imp h = (imp e.scope e.key e.row h.0, EveryRow-map P Q t imp h.1)
