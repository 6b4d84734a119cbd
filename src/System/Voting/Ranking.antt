-- ===== src/System/Voting/Ranking.antt =====
-- contracts/eosio.system/src/voting.cpp: the index of the producers by their votes is in order, and an
-- election takes the first of it.
use mathlib.Core.List.{Perm}
use mathlib.Core.List.Perm
use cmcc_eosio_contracts.Common.{
  ℕ, zero, suc, ◌≤◌, ◌≡◌, ◌⊎◌, All, true, false, ◌||◌, List, [], ◌∷◌, ◌++◌, length, inl, inr, arith,
  refl, ap, Bool-cases,
}
use cmcc_eosio_contracts.Chain.Table.{Entry, Table, EveryRow}
use cmcc_eosio_contracts.System.Float.{Double}
use cmcc_eosio_contracts.System.State.{ProducerInfo, ProducerKey}
use cmcc_eosio_contracts.System.Host.{SystemHost}
use cmcc_eosio_contracts.System.Voting.Election.{
  key_of_producer, by_votes, ranks_before, insert_ranked, ranked, electable, top,
}

abbrev pub keys_of : List (Entry ProducerInfo) → List ProducerKey
keys_of [] = []
keys_of (e ∷ es) = key_of_producer e.row ∷ keys_of es

All-right : {A : Type 0} (P : A → Type 0) (xs ys : List A) → All P (xs ++ ys) → All P ys
All-right P [] ys a = a
All-right P (x ∷ xs) ys a = All-right P xs ys a.1

module _ (h : SystemHost) where
  -- No producer ranks before an earlier one.
  abbrev pub InRank : List (Entry ProducerInfo) → Type 0
  InRank [] = Unit
  InRank (e ∷ es) = All (λ x. ranks_before h x e ≡ false) es × InRank es

  -- There is no more producer, or the next one cannot be elected.
  abbrev pub NoNext : List (Entry ProducerInfo) → Type 0
  NoNext [] = Unit
  NoNext (e ∷ es) = electable h e.row ≡ false

  -- No producer that can be elected has more votes than one that was chosen before it.
  abbrev pub NoMore : Entry ProducerInfo → Entry ProducerInfo → Type 0
  NoMore c x = electable h x.row ≡ true → h.floats.lt c.row.total_votes x.row.total_votes ≡ false

  -- The first producers of a list, up to a number, and up to the first that cannot be elected.
  pub record FirstOf (n : ℕ) (es : List (Entry ProducerInfo)) (keys : List ProducerKey)
      : Type 0 where
    pub chosen : List (Entry ProducerInfo)
    pub others : List (Entry ProducerInfo)
    pub parts : es ≡ chosen ++ others
    pub able : All (λ e. electable h e.row ≡ true) chosen
    pub few : length chosen ≤ n
    pub enough : (length chosen ≡ n) ⊎ NoNext others
    pub keys_are : keys ≡ keys_of chosen

  pub top-FirstOf : (n : ℕ) (es : List (Entry ProducerInfo)) → FirstOf n es (top h n es)
  unfolding top
  top-FirstOf zero es = record {
    chosen = [];
    others = es;
    parts = refl;
    able = tt;
    few = omega arith;
    enough = inl refl;
    keys_are = refl;
  }
  top-FirstOf (suc n) [] = record {
    chosen = [];
    others = [];
    parts = refl;
    able = tt;
    few = omega arith;
    enough = inr tt;
    keys_are = refl;
  }
  top-FirstOf (suc n) (e ∷ es) =
      let r = top-FirstOf n es in
      let few : length r.chosen ≤ n = r.few in
      elim (Bool-cases (electable h e.row)) [
        | inl b ↦ rw b (record {
          chosen = e ∷ r.chosen;
          others = r.others;
          parts = ap (λ l. e ∷ l) r.parts;
          able = (b, r.able);
          few = omega arith;
          enough = elim r.enough [ inl x ↦ inl (ap suc x) | inr y ↦ inr y ];
          keys_are = ap (λ l. key_of_producer e.row ∷ l) r.keys_are;
        })
        | inr b ↦ rw b (record {
          chosen = [];
          others = e ∷ es;
          parts = refl;
          able = tt;
          few = omega arith;
          enough = inr b;
          keys_are = refl;
        })
      ]

  insert_ranked-Perm :
      (e : Entry ProducerInfo) (es : List (Entry ProducerInfo))
      → Perm (insert_ranked h e es) (e ∷ es)
  unfolding insert_ranked
  insert_ranked-Perm e [] = Perm.rfl
  insert_ranked-Perm e (x ∷ xs) = elim (Bool-cases (ranks_before h e x)) [
    | inl b ↦ rw b (Perm.rfl)
    | inr b ↦ rw b (Perm.trans (Perm.cons x (insert_ranked-Perm e xs)) (Perm.swap _ _ _))
  ]

  pub ranked-Perm : (t : Table ProducerInfo) → Perm (ranked h t) t
  unfolding ranked
  ranked-Perm [] = Perm.rfl
  ranked-Perm (e ∷ t) = Perm.trans (insert_ranked-Perm e (ranked h t)) (Perm.cons e (ranked-Perm t))

  module _ (number : Double → Type 0) where
    abbrev pub Numbers : Table ProducerInfo → Type 0
    Numbers = EveryRow (λ s k p. number (by_votes h p) × number p.total_votes)

    insert_ranked-Numbers :
        (e : Entry ProducerInfo) (t : Table ProducerInfo)
        → number (by_votes h e.row) × number e.row.total_votes
        → Numbers t
        → Numbers (insert_ranked h e t)
    unfolding insert_ranked
    insert_ranked-Numbers e [] p c = (p, tt)
    insert_ranked-Numbers e (x ∷ xs) p c = elim (Bool-cases (ranks_before h e x)) [
      | inl b ↦ rw b (p, c)
      | inr b ↦ rw b (c.0, insert_ranked-Numbers e xs p c.1)
    ]

    pub ranked-Numbers : (t : Table ProducerInfo) → Numbers t → Numbers (ranked h t)
    unfolding ranked
    ranked-Numbers [] c = tt
    ranked-Numbers (e ∷ t) c = insert_ranked-Numbers e (ranked h t) c.0 (ranked-Numbers t c.1)

    module _
        (opposite : (x y : Double)
          → number x
          → number y
          → h.floats.lt (h.floats.neg x) (h.floats.neg y) ≡ h.floats.lt y x) where
      later-NoMore :
          (c : Entry ProducerInfo) (xs : List (Entry ProducerInfo))
          → electable h c.row ≡ true
          → number c.row.total_votes
          → Numbers xs
          → All (λ x. ranks_before h x c ≡ false) xs
          → All (NoMore c) xs
      unfolding by_votes
      later-NoMore c [] a p n r = tt
      later-NoMore c (x ∷ xs) a p n r = (
        (λ b.
            let o = opposite x.row.total_votes c.row.total_votes n.0.1 p in
            let l = r.0 in ground arith),
        later-NoMore c xs a p n.1 r.1,
      )

      pub chosen-NoMore :
          (cs os : List (Entry ProducerInfo))
          → InRank (cs ++ os)
          → Numbers (cs ++ os)
          → All (λ e. electable h e.row ≡ true) cs
          → All (λ c. All (NoMore c) os) cs
      chosen-NoMore [] os r n a = tt
      chosen-NoMore (c ∷ cs) os r n a = (
        later-NoMore c os a.0 n.0.1
            (All-right (λ x. (number (by_votes h x.row) × number x.row.total_votes)) cs os n.1)
            (All-right (λ x. ranks_before h x c ≡ false) cs os r.0),
        chosen-NoMore cs os r.1 n.1 a.1,
      )

    module _ (asym : (x y : Double) → h.floats.lt x y ≡ true → h.floats.lt y x ≡ false)
        (weak : (x y z : Double)
          → number x
          → number y
          → number z
          → h.floats.lt x z ≡ true
          → (h.floats.lt x y || h.floats.lt y z) ≡ true) where
      ranks_before_asym :
          (a b : Entry ProducerInfo) → ranks_before h a b ≡ true → ranks_before h b a ≡ false
      ranks_before_asym a b e =
          let x = by_votes h a.row in let y = by_votes h b.row in ground (arith, asym x y, asym y x)

      ranks_before_trans :
          (a b c : Entry ProducerInfo)
          → number (by_votes h a.row)
          → number (by_votes h b.row)
          → number (by_votes h c.row)
          → ranks_before h a b ≡ true
          → ranks_before h b c ≡ true
          → ranks_before h a c ≡ true
      ranks_before_trans a b c p q r e f =
          let x = by_votes h a.row in
          let y = by_votes h b.row in
          let z = by_votes h c.row in
          ground (
            arith,
            asym x y,
            asym y z,
            asym z x,
            weak x z y p r q,
            weak y x z q p r,
            weak z y x r q p,
            weak z x y r p q,
          )

      later-All :
          (e x : Entry ProducerInfo) (xs : List (Entry ProducerInfo))
          → number (by_votes h e.row)
          → number (by_votes h x.row)
          → Numbers xs
          → ranks_before h e x ≡ true
          → All (λ y. ranks_before h y x ≡ false) xs
          → All (λ y. ranks_before h y e ≡ false) xs
      later-All e x [] p q c b a = tt
      later-All e x (y ∷ ys) p q c b a = (
        elim (Bool-cases (ranks_before h y e)) [
          | inl l ↦ let l2 = ranks_before_trans y e x c.0.0 p q l b in let l3 = a.0 in cc
          | inr l ↦ l
        ],
        later-All e x ys p q c.1 b a.1,
      )

      insert_ranked-All :
          (e x : Entry ProducerInfo) (xs : List (Entry ProducerInfo))
          → ranks_before h e x ≡ false
          → All (λ y. ranks_before h y x ≡ false) xs
          → All (λ y. ranks_before h y x ≡ false) (insert_ranked h e xs)
      unfolding insert_ranked
      insert_ranked-All e x [] b a = (b, tt)
      insert_ranked-All e x (y ∷ ys) b a = elim (Bool-cases (ranks_before h e y)) [
        | inl l ↦ rw l (b, a)
        | inr l ↦ rw l (a.0, insert_ranked-All e x ys b a.1)
      ]

      insert_ranked-InRank :
          (e : Entry ProducerInfo) (xs : List (Entry ProducerInfo))
          → number (by_votes h e.row)
          → Numbers xs
          → InRank xs
          → InRank (insert_ranked h e xs)
      unfolding insert_ranked
      insert_ranked-InRank e [] p c r = (tt, tt)
      insert_ranked-InRank e (x ∷ xs) p c r = elim (Bool-cases (ranks_before h e x)) [
        | inl b ↦ rw b ((ranks_before_asym e x b, later-All e x xs p c.0.0 c.1 b r.0), r)
        | inr b ↦ rw b (insert_ranked-All e x xs b r.0, insert_ranked-InRank e xs p c.1 r.1)
      ]

      pub ranked-InRank : (t : Table ProducerInfo) → Numbers t → InRank (ranked h t)
      unfolding ranked
      ranked-InRank [] c = tt
      ranked-InRank (e ∷ t) c =
          insert_ranked-InRank e (ranked h t) c.0.0 (ranked-Numbers t c.1) (ranked-InRank t c.1)
