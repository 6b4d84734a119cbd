-- ===== src/System/Keeping.antt =====
-- contracts/eosio.system: what reading a row and writing it back keeps.
use cmcc_eosio_contracts.Common.{ℕ, ◌≡◌, subst, sym, arith, some, inl, inr, Option-cases, String}
use cmcc_eosio_contracts.Chain.Table.{Table, find, set_row, add_row}
use cmcc_eosio_contracts.Chain.Action.{Action, ⊤, or_abort, ◌>>=◌}
use cmcc_eosio_contracts.Chain.Keeps.{
  Keeps, >>-Keeps, >>=-Keeps, check-Keeps, gets-Keeps, or_abort-Keeps, pure-Keeps, update-Keeps,
  when-Keeps, on_row-Keeps, branch-Keeps,
}
use cmcc_eosio_contracts.System.Tables.{Lens, find_in, emplace_in, modify_in}

module _ {S R : Type 0} (l : Lens S (Table R)) (s k p : ℕ) (e : String) (f : R → R) where
  abbrev pub rewrite_row : Action S ⊤
  rewrite_row = (find_in l s k >>= (λ r. or_abort r e)) >>= (λ r. modify_in l s k p (f r))

  pub rewrite_row-Keeps :
      {P : S → Type 0}
      → ((t : S) (r : R)
          → find s k (l.get t) ≡ some r
          → P t
          → P (l.put (set_row s k p (f r) (l.get t)) t))
      → Keeps P rewrite_row
  rewrite_row-Keeps {P} g = record {
    kept = λ t t' u c q. elim (Option-cases (find s k (l.get t))) [
      | inl a ↦ ground arith
      | inr (r, a) ↦
          let w : t' ≡ l.put (set_row s k p (f r) (l.get t)) t = ground arith in
          subst P (sym w) (g t r a c)
    ];
  }

pub emplaced-Keeps :
    {S R : Type 0} {P : S → Type 0} (l : Lens S (Table R)) (s k p : ℕ) (r : R)
    → ((x : Table R) (t : S) → P t → P (l.put x t))
    → Keeps P (emplace_in l s k p r)
emplaced-Keeps {P = P} l s k p r g = record {
  kept = λ t t' u c q. elim (Option-cases (find s k (l.get t))) [
    | inr (x, a) ↦ ground arith
    | inl a ↦
        let w : t' ≡ l.put (add_row s k p r (l.get t)) t = ground arith in
        subst P (sym w) (g (add_row s k p r (l.get t)) t c)
  ];
}

-- For actions that are nothing but steps that leave what is kept alone.
pub ruleset step_laws = (
  >>-Keeps, >>=-Keeps, check-Keeps, gets-Keeps, or_abort-Keeps, pure-Keeps, update-Keeps,
  when-Keeps, on_row-Keeps, branch-Keeps, emplaced-Keeps,
)
