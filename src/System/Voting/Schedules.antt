-- ===== src/System/Voting/Schedules.antt =====
-- contracts/eosio.system/src/voting.cpp: what an election may propose.
use mathlib.Core.List.{Perm}
use mathlib.Core.List.Perm
use cmcc_eosio_contracts.Common.{
  ℕ, ◌<◌, ◌≤◌, ◌≡◌, ◌⊎◌, ◌%◌, ◌^◌, All, Bool-cases, true, false, ◌||◌, List, [], ◌∷◌, ◌++◌, ltb,
  length, inl, inr, arith, ap, suc, refl, subst, ◌∙◌,
}
use cmcc_eosio_contracts.Common.Int.{pos, leb_ℤ}
use cmcc_eosio_contracts.Chain.Table.{Entry, Table}
use cmcc_eosio_contracts.Chain.Action.{ok}
use cmcc_eosio_contracts.System.Float.{Double}
use cmcc_eosio_contracts.System.State.{ProducerInfo, ProducerKey}
use cmcc_eosio_contracts.System.Tables.{System, proposed_producers}
use cmcc_eosio_contracts.System.Host.{SystemHost}
use cmcc_eosio_contracts.System.Voting.Election.{
  insert_by_name, sort_by_name, electable, ranked, top_producers, update_elected_producers,
}
use cmcc_eosio_contracts.System.Voting.Ranking.{
  keys_of, InRank, NoNext, NoMore, chosen-NoMore, ranked-Numbers, top-FirstOf, ranked-Perm, Numbers,
  ranked-InRank,
}

abbrev pub SortedByName : List ProducerKey → Type 0
SortedByName [] = Unit
SortedByName (p ∷ ps) = All (λ q. p.producer_name ≤ q.producer_name) ps × SortedByName ps

length-insert_by_name :
    (p : ProducerKey) (ps : List ProducerKey) → length (insert_by_name p ps) ≡ suc (length ps)
unfolding insert_by_name
length-insert_by_name p [] = refl
length-insert_by_name p (q ∷ qs) = ground (arith, length-insert_by_name p qs)

length-sort_by_name : (ps : List ProducerKey) → length (sort_by_name ps) ≡ length ps
unfolding sort_by_name
length-sort_by_name [] = refl
length-sort_by_name (p ∷ ps) =
    length-insert_by_name p (sort_by_name ps) ∙ ap suc (length-sort_by_name ps)

insert_by_name-Perm :
    (p : ProducerKey) (ps : List ProducerKey) → Perm (insert_by_name p ps) (p ∷ ps)
unfolding insert_by_name
insert_by_name-Perm p [] = Perm.rfl
insert_by_name-Perm p (q ∷ qs) = elim (Bool-cases (ltb q.producer_name p.producer_name)) [
  | inl b ↦ rw b (Perm.trans (Perm.cons q (insert_by_name-Perm p qs)) (Perm.swap _ _ _))
  | inr b ↦ rw b Perm.rfl
]

sort_by_name-Perm : (ps : List ProducerKey) → Perm (sort_by_name ps) ps
unfolding sort_by_name
sort_by_name-Perm [] = Perm.rfl
sort_by_name-Perm (p ∷ ps) =
    Perm.trans (insert_by_name-Perm p (sort_by_name ps)) (Perm.cons p (sort_by_name-Perm ps))

insert_by_name-All :
    (n : ℕ) (p : ProducerKey) (ps : List ProducerKey)
    → n ≤ p.producer_name
    → All (λ q. n ≤ q.producer_name) ps
    → All (λ q. n ≤ q.producer_name) (insert_by_name p ps)
unfolding insert_by_name
insert_by_name-All n p [] l a = (l, tt)
insert_by_name-All n p (q ∷ qs) l a = elim (Bool-cases (ltb q.producer_name p.producer_name)) [
  | inl b ↦ rw b (a.0, insert_by_name-All n p qs l a.1)
  | inr b ↦ rw b (l, a)
]

later_names :
    (n m : ℕ) (ps : List ProducerKey)
    → n ≤ m
    → All (λ q. m ≤ q.producer_name) ps
    → All (λ q. n ≤ q.producer_name) ps
later_names n m [] l a = tt
later_names n m (q ∷ qs) l a = (omega (arith, a.0), later_names n m qs l a.1)

insert_by_name-SortedByName :
    (p : ProducerKey) (ps : List ProducerKey) → SortedByName ps → SortedByName (insert_by_name p ps)
unfolding insert_by_name
insert_by_name-SortedByName p [] s = (tt, tt)
insert_by_name-SortedByName p (q ∷ qs) s = elim (Bool-cases (ltb q.producer_name p.producer_name)) [
  | inl b ↦
      let l : q.producer_name ≤ p.producer_name = ground arith in
      rw b (insert_by_name-All q.producer_name p qs l s.0, insert_by_name-SortedByName p qs s.1)
  | inr b ↦
      let l : p.producer_name ≤ q.producer_name = ground arith in
      rw b ((l, later_names p.producer_name q.producer_name qs l s.0), s)
]

sort_by_name-SortedByName : (ps : List ProducerKey) → SortedByName (sort_by_name ps)
unfolding sort_by_name
sort_by_name-SortedByName [] = tt
sort_by_name-SortedByName (p ∷ ps) =
    insert_by_name-SortedByName p (sort_by_name ps) (sort_by_name-SortedByName ps)

length-keys_of : (es : List (Entry ProducerInfo)) → length (keys_of es) ≡ length es
length-keys_of [] = refl
length-keys_of (e ∷ es) = ap suc (length-keys_of es)

module _ (h : SystemHost) where
  -- All the producers in the order of their votes, and the keys of the first of them.
  pub record Elected (t : Table ProducerInfo) (keys : List ProducerKey) : Type 0 where
    pub chosen : List (Entry ProducerInfo)
    pub others : List (Entry ProducerInfo)
    pub everyone : Perm (chosen ++ others) t
    pub in_rank : InRank h (chosen ++ others)
    pub able : All (λ e. electable h e.row ≡ true) chosen
    pub best : All (λ c. All (NoMore h c) others) chosen
    pub few : length chosen ≤ 21
    pub enough : (length chosen ≡ 21) ⊎ NoNext h others
    pub keys_are : keys ≡ keys_of chosen

  -- Nothing is proposed, or the elected producers by their names are.
  pub data Outcome (last : ℕ) (keys : List ProducerKey) (s s' : System) : Type 0 where
    too_few : length keys < last → s'.events ≡ s.events → Outcome last keys s s'
    proposed :
        (schedule : List ProducerKey)
        → s'.events ≡ s.events ++ proposed_producers schedule ∷ []
        → Perm schedule keys
        → SortedByName schedule
        → last ≤ length schedule
        → Outcome last keys s s'

  Elected-few :
      (t : Table ProducerInfo) (keys : List ProducerKey) → Elected t keys → length keys ≤ 21
  Elected-few t keys r = rw (r.keys_are, length-keys_of r.chosen) r.few

  module _ (number : Double → Type 0)
      (asym : (x y : Double) → h.floats.lt x y ≡ true → h.floats.lt y x ≡ false)
      (weak : (x y z : Double)
        → number x
        → number y
        → number z
        → h.floats.lt x z ≡ true
        → (h.floats.lt x y || h.floats.lt y z) ≡ true)
      (opposite : (x y : Double)
        → number x
        → number y
        → h.floats.lt (h.floats.neg x) (h.floats.neg y) ≡ h.floats.lt y x) where
    top_producers-Elected :
        (t : Table ProducerInfo) → Numbers h number t → Elected t (top_producers h t)
    unfolding top_producers
    top_producers-Elected t c =
        let r = top-FirstOf h 21 (ranked h t) in
        let in_order = ranked-InRank h number asym weak t c in
        let numbers = ranked-Numbers h number t c in
        record {
          chosen = r.chosen;
          others = r.others;
          everyone = subst (λ l. Perm l t) r.parts (ranked-Perm h t);
          in_rank = subst (InRank h) r.parts in_order;
          able = r.able;
          best =
              chosen-NoMore h number opposite r.chosen r.others (subst (InRank h) r.parts in_order)
                (subst (Numbers h number) r.parts numbers) r.able;
          few = r.few;
          enough = r.enough;
          keys_are = r.keys_are;
        }

    -- For doubles of which < is asymmetric, and on numbers negatively transitive and turned around by the
    -- change of sign, and producers whose votes and keys in the index are numbers: if an election
    -- succeeds, then the elected are the first of all the producers, in an order in which none ranks
    -- before an earlier one, namely those before the first that is not active or has no votes, and 21 of
    -- them at most; and no active producer that is left out has more votes than one that is elected. If
    -- they are fewer than in the last schedule that was taken on, nothing is proposed; if not, a schedule
    -- of just the elected is, sorted by name. The size of the last schedule does not fall.
    pub election_lem :
        (t : ℕ) (s s' : System) (u : Unit)
        → Numbers h number s.producers
        → update_elected_producers h t s ≡ ok u s'
        → Elected s.producers (top_producers h s.producers)
          × Outcome s.gstate.last_producer_schedule_size (top_producers h s.producers) s s'
          × (s.gstate.last_producer_schedule_size ≤ s'.gstate.last_producer_schedule_size)
    unfolding update_elected_producers
    election_lem t s s' u c e =
        let elected = top_producers h s.producers in
        let first = top_producers-Elected s.producers c in
        let few : length elected ≤ 21 = Elected-few s.producers elected first in
        let same = length-sort_by_name elected in
        (
          first,
          elim (Bool-cases (ltb (length elected) s.gstate.last_producer_schedule_size)) [
            | inl b ↦ too_few (ground arith) (ground arith)
            | inr b ↦
                proposed (sort_by_name elected) (ground arith) (sort_by_name-Perm elected)
                  (sort_by_name-SortedByName elected) (ground arith)
          ],
          elim (Bool-cases (ltb (length elected) s.gstate.last_producer_schedule_size)) [
            | inl b ↦ ground arith
            | inr b ↦
                elim (Bool-cases
                  (leb_ℤ (pos 0) (h.set_proposed_producers (sort_by_name elected)))) [
                    | inl x ↦
                        let w : s'.gstate.last_producer_schedule_size ≡ length elected % 2 ^ 16 =
                          ground arith in
                        let v : length elected % 2 ^ 16 ≡ length elected = omega arith in
                        rw (w, v) (ground arith)
                    | inr x ↦ ground arith
                  ]
          ],
        )
