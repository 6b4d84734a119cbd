-- ===== src/System/Staking/Ledger.antt =====
-- contracts/eosio.system/src/delegate_bandwidth.cpp: the table of delegations as a ledger, which forgets
-- whether a row without a stake is in the table.
use cmcc_eosio_contracts.Common.{
  ℕ, ◌≡◌, ◌∙◌, refl, sym, ap, arith, Option-cases, Bool-cases, Option, Bool, some, none, inl, inr,
  true, false, ◌==◌, ◌&&◌, not, if◌then◌else◌, subst₂,
}
use cmcc_eosio_contracts.Common.Int.{ℤ, pos, ◌+ℤ◌, ◌-ℤ◌, int_laws}
use cmcc_eosio_contracts.Chain.Asset.{Asset}
use cmcc_eosio_contracts.Chain.Table.{
  Table, Unique, find, add_row, set_row, erase_row, find-add_row, find-set_row, find-erase_row,
  add_row-Unique, set_row-Unique, erase_row-Unique,
}
use cmcc_eosio_contracts.Chain.Action.{ok, >>=-ok, when, require_auth}
use cmcc_eosio_contracts.Chain.Keeps.{Keeps, when-Keeps}
use cmcc_eosio_contracts.System.State.{DelegatedBandwidth}
use cmcc_eosio_contracts.System.Tables.{System}
use cmcc_eosio_contracts.System.Host.{SystemHost, core_symbol}
use cmcc_eosio_contracts.System.Staking.Refunds.{negated, stake_account, refund_or_transfer}
use cmcc_eosio_contracts.System.Staking.Quiet.{IgnoresRefunds, refund_or_transfer-Keeps}
use cmcc_eosio_contracts.System.Staking.Refunding.{Small, opposite-amount}
use cmcc_eosio_contracts.System.Staking.Stakes.{
  All3, auth-All3, deltas-All3, totals-All3, weighed-All3,
}
use cmcc_eosio_contracts.System.Staking.Actions.{
  add_delegated, change_delegated, band_is_empty, changebw, check_deltas, change_totals, delegatebw,
  undelegatebw,
}
use cmcc_eosio_contracts.System.Staking.Backed.{added}

-- What one account has staked for another, for NET and for CPU.
abbrev pub Ledger : Type 0
Ledger = ℕ → ℕ → ℤ × ℤ

abbrev weights : Option DelegatedBandwidth → ℤ × ℤ
weights none = (pos 0, pos 0)
weights (some d) = (d.net_weight.amount, d.cpu_weight.amount)

abbrev pub ledger : System → Ledger
ledger s n m = weights (find n m s.delband)

-- A stake is added in one place.
abbrev pub stake : ℕ → ℕ → ℤ → ℤ → Ledger → Ledger
stake from receiver net cpu l n m =
    if (from == n) && (receiver == m) then ((l n m).0 +ℤ net, (l n m).1 +ℤ cpu) else l n m

-- The table of the state after has unique keys, and is the one before with a stake added.
pub record Implements (f : Ledger → Ledger) (s s' : System) : Type 0 where
  pub unique : Unique s'.delband
  pub same_ledger : (n m : ℕ) → ledger s' n m ≡ f (ledger s) n m

zero_plus : (z : ℤ) → z ≡ pos 0 +ℤ z
zero_plus z = omega int_laws

at_new :
    (n m i j : ℕ) (d : DelegatedBandwidth) (a b : ℤ) (s s' : System)
    → find n m s.delband ≡ none
    → s'.delband ≡ add_row n m n d s.delband
    → d.net_weight.amount ≡ pos 0 +ℤ a
    → d.cpu_weight.amount ≡ pos 0 +ℤ b
    → ledger s' i j ≡ stake n m a b (ledger s) i j
at_new n m i j d a b s s' f w x y =
    rw (w, find-add_row n m n i j d s.delband f)
      (elim (Bool-cases ((n == i) && (m == j))) [
        | inr c ↦ rw c refl
        | inl c ↦
            let p : n ≡ i = ground arith in
            let q : m ≡ j = ground arith in
            let g : find i j s.delband ≡ none = rw (sym p, sym q) f in rw (c, g) (rw (x, y) refl)
      ])

-- A row without a stake can go.
at_erased :
    (n m i j : ℕ) (d : DelegatedBandwidth) (s s' : System)
    → Unique s.delband
    → find n m s.delband ≡ some d
    → band_is_empty d ≡ true
    → s'.delband ≡ erase_row n m s.delband
    → ledger s' i j ≡ ledger s i j
at_erased n m i j d s s' u f e w =
    rw (w, find-erase_row n m i j s.delband u)
      (elim (Bool-cases ((n == i) && (m == j))) [
        | inr c ↦ rw c refl
        | inl c ↦
            let p : n ≡ i = ground arith in
            let q : m ≡ j = ground arith in
            let g : find i j s.delband ≡ some d = rw (sym p, sym q) f in
            let x : d.net_weight.amount ≡ pos 0 = ground arith in
            let y : d.cpu_weight.amount ≡ pos 0 = ground arith in rw (c, g) (rw (x, y) refl)
      ])

moved_on :
    (s s₁ s' : System) (f : Ledger → Ledger)
    → s'.delband ≡ s₁.delband
    → Implements f s s₁
    → Implements f s s'
moved_on s s₁ s' f w i = record {
  unique = rw w i.unique;
  same_ledger = λ n m. ap (λ t. weights (find n m t)) w ∙ i.same_ledger n m;
}

moved_from :
    (s s₁ s' : System) (n m : ℕ) (a b : ℤ)
    → s₁.delband ≡ s.delband
    → Implements (stake n m a b) s₁ s'
    → Implements (stake n m a b) s s'
moved_from s s₁ s' n m a b w i = record {
  unique = i.unique;
  same_ledger =
      λ j k. i.same_ledger j k ∙ ap (λ t. stake n m a b (λ x y. weights (find x y t)) j k) w;
}

at_old :
    (n m i j : ℕ) (d x : DelegatedBandwidth) (a b : ℤ) (s s' : System)
    → find n m s.delband ≡ some x
    → s'.delband ≡ set_row n m 0 d s.delband
    → d.net_weight.amount ≡ x.net_weight.amount +ℤ a
    → d.cpu_weight.amount ≡ x.cpu_weight.amount +ℤ b
    → ledger s' i j ≡ stake n m a b (ledger s) i j
at_old n m i j d x a b s s' f w v r =
    rw (w, find-set_row n m 0 i j d x s.delband f)
      (elim (Bool-cases ((n == i) && (m == j))) [
        | inr c ↦ rw c refl
        | inl c ↦
            let p : n ≡ i = ground arith in
            let q : m ≡ j = ground arith in
            let g : find i j s.delband ≡ some x = rw (sym p, sym q) f in rw (c, g) (rw (v, r) refl)
      ])

module _ (h : SystemHost) where
  add_delegated-Implements :
      (n m : ℕ) (a b : Asset) (d : DelegatedBandwidth) (s s' : System)
      → Unique s.delband
      → add_delegated h n m a b s ≡ ok d s'
      → Implements (stake n m a.amount b.amount) s s' × (find n m s'.delband ≡ some d)
  unfolding add_delegated
  add_delegated-Implements n m a b d s s' u e = elim (Option-cases (find n m s.delband)) [
    | inl f ↦
        let w : s'.delband ≡ add_row n m n d s.delband = ground arith in
        let net : d.net_weight.amount ≡ a.amount = ground arith in
        let cpu : d.cpu_weight.amount ≡ b.amount = ground arith in
        let x = zero_plus a.amount in
        let y = zero_plus b.amount in
        (
          record {
            unique = rw w (add_row-Unique n m n d s.delband f u);
            same_ledger = λ i j. at_new n m i j d a.amount b.amount s s' f w (net ∙ x) (cpu ∙ y);
          },
          rw w (ground (arith, find-add_row n m n n m d s.delband f)),
        )
    | inr (x, f) ↦ elim (Option-cases (h.asset_add x.net_weight a)) [
      | inl p ↦ ground arith
      | inr (y, p) ↦ elim (Option-cases (h.asset_add x.cpu_weight b)) [
        | inl q ↦ ground arith
        | inr (z, q) ↦
            let w : s'.delband ≡ set_row n m 0 d s.delband = ground arith in
            let v : d.net_weight.amount ≡ x.net_weight.amount +ℤ a.amount =
              ground (arith, added h x.net_weight a y p) in
            let r : d.cpu_weight.amount ≡ x.cpu_weight.amount +ℤ b.amount =
              ground (arith, added h x.cpu_weight b z q) in
            (
              record {
                unique = rw w (set_row-Unique n m 0 d s.delband u);
                same_ledger = λ i j. at_old n m i j d x a.amount b.amount s s' f w v r;
              },
              rw w (ground (arith, find-set_row n m 0 n m d x s.delband f)),
            )
      ]
    ]
  ]

  change_delegated-Implements :
      (n m : ℕ) (a b : Asset) (s s' : System) (v : Unit)
      → Unique s.delband
      → change_delegated h n m a b s ≡ ok v s'
      → Implements (stake n m a.amount b.amount) s s'
  unfolding change_delegated
  change_delegated-Implements n m a b s s' v u e =
      let (d, s₁, e₁, f₁) = >>=-ok (add_delegated h n m a b) _ s e in
      let (i, f) = add_delegated-Implements n m a b d s s₁ u e₁ in
      elim (Bool-cases (band_is_empty d)) [
        | inr x ↦
            let w : s'.delband ≡ s₁.delband = ground arith in
            moved_on s s₁ s' (stake n m a.amount b.amount) w i
        | inl x ↦
            let w : s'.delband ≡ erase_row n m s₁.delband = ground arith in
            record {
              unique = rw w (erase_row-Unique n m s₁.delband i.unique);
              same_ledger = λ j k. at_erased n m j k d s₁ s' i.unique f x w ∙ i.same_ledger j k;
            }
      ]

  abbrev SameBand : Table DelegatedBandwidth → System → Type 0
  SameBand t s = s.delband ≡ t

  refunds_ignored : (t : Table DelegatedBandwidth) → IgnoresRefunds (SameBand t)
  refunds_ignored t = record { put_refunds = λ x s p. p; put_events = λ x s p. p }

  transfer-SameBand :
      (t : Table DelegatedBandwidth) (c : Bool) (n m : ℕ) (a b : Asset) (r : Bool)
      → Keeps (SameBand t) (when c (refund_or_transfer h n m a b r))
  transfer-SameBand t c n m a b r =
      when-Keeps c (refund_or_transfer-Keeps h (refunds_ignored t) n m a b r)

  changebw-Implements :
      (n m : ℕ) (a b : Asset) (t : Bool) (s s' : System) (v : Unit)
      → Unique s.delband
      → changebw h n m a b t s ≡ ok v s'
      → Implements (stake (if t then m else n) m a.amount b.amount) s s'
  unfolding changebw All3
  changebw-Implements n m a b t s s' v u e =
      let from = if t then m else n in
      let (u0, s0, e0, f0) = >>=-ok (require_auth h.chain n) _ s e in
      let (u1, s1, e1, f1) = >>=-ok (check_deltas h a b) _ s0 f0 in
      let (u2, s2, e2, f2) = >>=-ok (change_delegated h from m a b) _ s1 f1 in
      let (u3, s3, e3, f3) = >>=-ok (change_totals h from m a b) _ s2 f2 in
      let (u4, s4, e4, f4) = >>=-ok (when (not (stake_account == n)) _) _ s3 f3 in
      let k0 = (auth-All3 h s n).kept s s0 u0 (refl, refl, refl) e0 in
      let (r1, v1, d1) = (deltas-All3 h s a b).kept s0 s1 u1 k0 e1 in
      let (r3, v3, d3) = (totals-All3 h s2 from m a b).kept s2 s3 u3 (refl, refl, refl) e3 in
      let d4 =
        (transfer-SameBand s3.delband (not (stake_account == n)) n from a b _).kept s3 s4 u4 refl
          e4 in
      let (r5, v5, d5) = (weighed-All3 h s4 from a b).kept s4 s' v (refl, refl, refl) f4 in
      let i = change_delegated-Implements from m a b s1 s2 u2 (rw d1 u) e2 in
      moved_on s s2 s' (stake from m a.amount b.amount) (d5 ∙ (d4 ∙ d3))
        (moved_from s s1 s2 from m a.amount b.amount d1 i)

  delegatebw-runs :
      (n m : ℕ) (a b : Asset) (t : Bool) (s s' : System) (v : Unit)
      → delegatebw h n m a b t s ≡ ok v s'
      → changebw h n m a b t s ≡ ok v s'
  unfolding delegatebw core_symbol
  delegatebw-runs n m a b t s s' v e = ground arith

  undelegatebw-runs :
      (n m : ℕ) (a b : Asset) (s s' : System) (v : Unit)
      → undelegatebw h n m a b s ≡ ok v s'
      → changebw h n m (negated a) (negated b) false s ≡ ok v s'
  unfolding undelegatebw core_symbol
  undelegatebw-runs n m a b s s' v e = ground arith

  -- The table of delegations is a ledger of what each account has staked for each other: if its keys are
  -- unique, a successful delegation adds its amounts in one place, that of the receiver's own stake if
  -- it is transferred, changes no other place, and leaves the keys unique.
  pub delegatebw-Implements :
      (n m : ℕ) (a b : Asset) (t : Bool) (s s' : System) (v : Unit)
      → Unique s.delband
      → delegatebw h n m a b t s ≡ ok v s'
      → Implements (stake (if t then m else n) m a.amount b.amount) s s'
  delegatebw-Implements n m a b t s s' v u e =
      changebw-Implements n m a b t s s' v u (delegatebw-runs n m a b t s s' v e)

  -- If the keys of the table of delegations are unique, a successful undelegation, whose amounts have an
  -- opposite in an int64_t, takes them from one place of the ledger, changes no other place, and leaves
  -- the keys unique.
  pub undelegatebw-Implements :
      (n m : ℕ) (a b : Asset) (s s' : System) (v : Unit)
      → Unique s.delband
      → Small a.amount
      → Small b.amount
      → undelegatebw h n m a b s ≡ ok v s'
      → Implements (stake n m (pos 0 -ℤ a.amount) (pos 0 -ℤ b.amount)) s s'
  undelegatebw-Implements n m a b s s' v u sa sb e =
      subst₂ (λ x y. Implements (stake n m x y) s s') (opposite-amount a sa) (opposite-amount b sb)
        (changebw-Implements n m (negated a) (negated b) false s s' v u
          (undelegatebw-runs n m a b s s' v e))
