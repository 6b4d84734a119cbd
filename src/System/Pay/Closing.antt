-- ===== src/System/Pay/Closing.antt =====
-- contracts/eosio.system/src/producer_pay.cpp: the auction that is closed is that of the highest bid.
use cmcc_eosio_contracts.Common.{
  ℕ, ◌≤◌, ◌≡◌, ◌⊎◌, ◌∙◌, Bool, true, some, none, inl, inr, All, [], ◌∷◌, arith, refl, ap, subst,
  Option-cases, Bool-cases, leb,
}
use cmcc_eosio_contracts.Common.Int.{ℤ, pos, negsuc, ◌-ℤ◌, ◌≤ℤ◌, int64, ltb_ℤ}
use cmcc_eosio_contracts.Chain.Asset.{in_range}
use cmcc_eosio_contracts.Chain.Table.{Entry, Table, EveryRow, set_row}
use cmcc_eosio_contracts.Chain.Action.{ok, Result-cases}
use cmcc_eosio_contracts.Chain.Keeps.{Keeps}
use cmcc_eosio_contracts.System.State.{GlobalState, NameBid}
use cmcc_eosio_contracts.System.Tables.{System, least, before}
use cmcc_eosio_contracts.System.Host.{SystemHost, ◌-64◌, pool}
use cmcc_eosio_contracts.System.Keeping.{step_laws}
use cmcc_eosio_contracts.System.Ram.{u64}
use cmcc_eosio_contracts.System.Rex.Pool.{channel_namebid_to_rex}
use cmcc_eosio_contracts.System.Pay.Blocks.{
  by_high_bid, from_half, closed, closes, close_bid, close_auction,
}

module _ {R : Type 0} (above : Entry R → Bool) (by : R → ℕ) where
  abbrev AtLeast : ℕ → Entry R → Type 0
  AtLeast n x = above x ≡ true → n ≤ by x.row

  AtLeast-weaken : (n m : ℕ) (t : Table R) → m ≤ n → All (AtLeast n) t → All (AtLeast m) t
  AtLeast-weaken n m [] l c = tt
  AtLeast-weaken n m (x ∷ t) l c = (λ a. omega (arith, c.0 a), AtLeast-weaken n m t l c.1)

  no_least : (n : ℕ) (t : Table R) → least above by t ≡ none → All (AtLeast n) t
  unfolding least
  no_least n [] q = tt
  no_least n (x ∷ t) q = elim (Bool-cases (above x)) [
    | inl a ↦ ground arith
    | inr a ↦ (λ b. ground arith, no_least n t (ground arith))
  ]

  -- The first row of an index comes before each of the rows that are looked at.
  least-AtLeast :
      (t : Table R) (e : Entry R) → least above by t ≡ some e → All (AtLeast (by e.row)) t
  unfolding least
  least-AtLeast [] e q = tt
  least-AtLeast (x ∷ t) e q = elim (Option-cases (least above by t)) [
    | inl r ↦ (
      λ a. let w : x ≡ e = ground arith in subst (λ z. by z.row ≤ by x.row) w (omega arith),
      no_least (by e.row) t r,
    )
    | inr (y, r) ↦
        let c = least-AtLeast t y r in
        elim (Bool-cases (above x)) [
          | inl a ↦ elim (Bool-cases (before by y x)) [
            | inl b ↦
                let w : y ≡ e = ground arith in
                subst (λ z. All (AtLeast (by z.row)) (x ∷ t)) w (λ d. ground arith, c)
            | inr b ↦
                let w : x ≡ e = ground arith in
                let l : by x.row ≤ by y.row = ground arith in
                subst (λ z. All (AtLeast (by z.row)) (x ∷ t)) w
                  (λ d. omega arith, AtLeast-weaken (by y.row) (by x.row) t l c)
          ]
          | inr a ↦
              let w : y ≡ e = ground arith in
              subst (λ z. All (AtLeast (by z.row)) (x ∷ t)) w (λ d. ground arith, c)
        ]
  ]

  least-EveryRow :
      (P : ℕ → ℕ → R → Type 0) (t : Table R) (e : Entry R)
      → EveryRow P t
      → least above by t ≡ some e
      → P e.scope e.key e.row
  unfolding least
  least-EveryRow P [] e c q = ground arith
  least-EveryRow P (x ∷ t) e c q = elim (Option-cases (least above by t)) [
    | inl r ↦ elim (Bool-cases (above x)) [
      | inl a ↦ let w : x ≡ e = ground arith in subst (λ z. P z.scope z.key z.row) w c.0
      | inr a ↦ ground arith
    ]
    | inr (y, r) ↦
        let d = least-EveryRow P t y c.1 r in
        elim (Bool-cases (above x)) [
          | inl a ↦ elim (Bool-cases (before by y x)) [
            | inl b ↦ let w : y ≡ e = ground arith in subst (λ z. P z.scope z.key z.row) w d
            | inr b ↦ let w : x ≡ e = ground arith in subst (λ z. P z.scope z.key z.row) w c.0
          ]
          | inr a ↦ let w : y ≡ e = ground arith in subst (λ z. P z.scope z.key z.row) w d
        ]
  ]

-- A bid that is not negative stands in the half of the index that is looked at, and higher bids first.
high_first :
    (a b : ℤ)
    → in_range a ≡ true
    → in_range b ≡ true
    → ltb_ℤ (pos 0) a ≡ true
    → (leb 0x7fffffffffffffff (u64 (pos 0 -64 b)) ≡ true → u64 (pos 0 -64 a) ≤ u64 (pos 0 -64 b))
    → b ≤ℤ a
unfolding int64 ◌-ℤ◌
high_first (pos a) (pos b) x y z w = ground arith
high_first (pos a) (negsuc b) x y z w = ground arith
high_first (negsuc a) b x y z w = ground arith

high_bids :
    (e : Entry NameBid) (t : Table NameBid)
    → ltb_ℤ (pos 0) e.row.high_bid ≡ true
    → in_range e.row.high_bid ≡ true
    → EveryRow (λ s k b. in_range b.high_bid ≡ true) t
    → All (AtLeast from_half by_high_bid (by_high_bid e.row)) t
    → EveryRow (λ s k b. b.high_bid ≤ℤ e.row.high_bid) t
high_bids e [] p r c l = tt
high_bids e (x ∷ t) p r c l =
    (high_first e.row.high_bid x.row.high_bid r c.0 p l.0, high_bids e t p r c.1 l.1)

closes-positive :
    (h : SystemHost) (g : GlobalState) (b : NameBid)
    → closes h g b ≡ true
    → ltb_ℤ (pos 0) b.high_bid ≡ true
unfolding closes
closes-positive h g b e = ground arith

module _ (h : SystemHost) where
  abbrev SameBids : Table NameBid → System → Type 0
  SameBids t s = s.namebids ≡ t

  channel-SameBids : (t : Table NameBid) (z : ℤ) → Keeps (SameBids t) (channel_namebid_to_rex h z)
  unfolding channel_namebid_to_rex pool
  channel-SameBids t z = search step_laws depth 40 fits 4000

  close_bid-row :
      (timestamp : ℕ) (e : Entry NameBid) (s s' : System) (u : Unit)
      → close_bid h timestamp e s ≡ ok u s'
      → s'.namebids ≡ set_row h.self e.key 0 (closed e.row) s.namebids
  close_bid-row timestamp e s s' u q =
      let g : GlobalState = record s.gstate { last_name_close = timestamp } in
      let s₁ : System = record s { gstate = g } in
      elim (Result-cases (channel_namebid_to_rex h e.row.high_bid s₁)) [
        | inr (m, x) ↦ ground arith
        | inl (v, s₂, x) ↦
            let same = (channel-SameBids s.namebids e.row.high_bid).kept s₁ s₂ v refl x in
            let w : s'.namebids ≡ set_row h.self e.key 0 (closed e.row) s₂.namebids =
              ground arith in
            w ∙ ap (set_row h.self e.key 0 (closed e.row)) same
      ]

  -- If amounts are in range, then a successful attempt to close an auction either leaves all bids
  -- alone, or closes, by turning its bid negative, one row of the table that may be closed and whose bid
  -- is at least as high as any bid.
  pub close_auction_lem :
      (P : ℕ → ℕ → NameBid → Type 0) (timestamp : ℕ) (s s' : System) (u : Unit)
      → EveryRow P s.namebids
      → EveryRow (λ s k b. in_range b.high_bid ≡ true) s.namebids
      → close_auction h timestamp s ≡ ok u s'
      → (s'.namebids ≡ s.namebids)
        ⊎ ((e : Entry NameBid) × P e.scope e.key e.row
            × (closes h s.gstate e.row ≡ true)
            × EveryRow (λ s k b. b.high_bid ≤ℤ e.row.high_bid) s.namebids
            × (s'.namebids ≡ set_row h.self e.key 0 (closed e.row) s.namebids))
  unfolding close_auction
  close_auction_lem P timestamp s s' u c r q =
      elim (Option-cases (least from_half by_high_bid s.namebids)) [
        | inl n ↦ inl (ground arith)
        | inr (e, n) ↦ elim (Bool-cases (closes h s.gstate e.row)) [
          | inr a ↦ inl (ground arith)
          | inl a ↦
              let p : ltb_ℤ (pos 0) e.row.high_bid ≡ true = closes-positive h s.gstate e.row a in
              let l = least-AtLeast from_half by_high_bid s.namebids e n in
              let f =
                least-EveryRow from_half by_high_bid (λ s k b. in_range b.high_bid ≡ true)
                  s.namebids e r n in
              let g = least-EveryRow from_half by_high_bid P s.namebids e c n in
              inr (
                e,
                g,
                a,
                high_bids e s.namebids p f r l,
                close_bid-row timestamp e s s' u (ground arith),
              )
        ]
      ]
