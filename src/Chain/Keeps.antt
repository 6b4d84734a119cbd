-- ===== src/Chain/Keeps.antt =====
-- What an action keeps: a predicate of the state that holds after it, if it held before.
use cmcc_eosio_contracts.Common.{◌≡◌, refl, Bool, true, false, Option, none, some, String, arith}
use cmcc_eosio_contracts.Chain.Action.{
  Action, ok, ⊤, pure, gets, or_abort, check, when, branch, on_row, update, ◌>>=◌, ◌>>◌, >>=-ok,
}

pub record Keeps {S A : Type 0} (P : S → Type 0) (m : Action S A) : Type 0 where
  pub kept : (s s' : S) (a : A) → P s → m s ≡ ok a s' → P s'

module _ {S : Type 0} {P : S → Type 0} where
  pub >>=-Keeps :
      {A B : Type 0} {m : Action S A} {f : A → Action S B}
      → Keeps P m
      → ((a : A) → Keeps P (f a))
      → Keeps P (m >>= f)
  >>=-Keeps {m = m} {f = f} p q = record {
    kept = λ s s'' b v e.
        let (a, s', e1, e2) = >>=-ok m f s e in (q a).kept s' s'' b (p.kept s s' a v e1) e2;
  }

  pub >>-Keeps :
      {B : Type 0} {m : Action S ⊤} {k : Action S B} → Keeps P m → Keeps P k → Keeps P (m >> k)
  >>-Keeps p q = >>=-Keeps p (λ u. q)

  pub check-Keeps : (b : Bool) (e : String) → Keeps P (check b e)
  check-Keeps true e = record { kept = λ s s' a v h. ground arith }
  check-Keeps false e = record { kept = λ s s' a v h. ground arith }

  pub gets-Keeps : {A : Type 0} (f : S → A) → Keeps P (gets f)
  gets-Keeps f = record { kept = λ s s' a v h. ground arith }

  pub pure-Keeps : {A : Type 0} (a : A) → Keeps P (pure a)
  pure-Keeps a = record { kept = λ s s' a v h. ground arith }

  pub or_abort-Keeps : {A : Type 0} (o : Option A) (e : String) → Keeps P (or_abort o e)
  or_abort-Keeps none e = record { kept = λ s s' a v h. ground arith }
  or_abort-Keeps (some a) e = record { kept = λ s s' a v h. ground arith }

  pub when-Keeps : (b : Bool) {m : Action S ⊤} → Keeps P m → Keeps P (when b m)
  when-Keeps true p = record { kept = λ s s' a v h. p.kept s s' a v h }
  when-Keeps false p = record { kept = λ s s' a v h. ground arith }

  pub update-Keeps : {f : S → S} → ((s : S) → P s → P (f s)) → Keeps P (update f)
  update-Keeps {f} p = record { kept = λ s s' a v h. let w = p s v in ground arith }

  pub on_row-Keeps :
      {R A : Type 0} (o : Option R) {f : R → Action S A} {m : Action S A}
      → ((r : R) → Keeps P (f r))
      → Keeps P m
      → Keeps P (on_row o f m)
  on_row-Keeps none p q = record { kept = λ s s' a v h. q.kept s s' a v h }
  on_row-Keeps (some r) p q = record { kept = λ s s' a v h. (p r).kept s s' a v h }

  pub branch-Keeps :
      {A : Type 0} (b : Bool) {m k : Action S A} → Keeps P m → Keeps P k → Keeps P (branch b m k)
  branch-Keeps true p q = record { kept = λ s s' a v h. p.kept s s' a v h }
  branch-Keeps false p q = record { kept = λ s s' a v h. q.kept s s' a v h }

  -- The value that is known to be there.
  pub known-Keeps :
      {B A : Type 0} (o : Option B) (e : String) {f : B → Action S A}
      → ((b : B) → o ≡ some b → Keeps P (f b))
      → Keeps P (or_abort o e >>= f)
  known-Keeps none e p = record { kept = λ s s' a v h. ground arith }
  known-Keeps (some b) e p = record { kept = λ s s' a v h. (p b refl).kept s s' a v h }
