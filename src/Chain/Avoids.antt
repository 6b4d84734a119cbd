-- ===== src/Chain/Avoids.antt =====
-- A message that an action does not abort with.
use cmcc_eosio_contracts.Common.{
  ◌≢◌, Bool, true, false, Option, none, some, String, inl, inr, arith,
}
use cmcc_eosio_contracts.Chain.Action.{
  Action, err, ⊤, pure, gets, or_abort, check, when, update, on_row, ◌>>=◌, ◌>>◌, Result-cases,
}

pub record Avoids {S A : Type 0} (e : String) (m : Action S A) : Type 0 where
  pub avoided : (s : S) → m s ≢ err e

module _ {S : Type 0} {e : String} where
  pub >>=-Avoids :
      {A B : Type 0} {m : Action S A} {f : A → Action S B}
      → Avoids e m
      → ((a : A) → Avoids e (f a))
      → Avoids e (m >>= f)
  >>=-Avoids {m = m} {f = f} p q = record {
    avoided = λ s x. elim (Result-cases (m s)) [
      | inl (a, s', r) ↦ (q a).avoided s' (ground arith)
      | inr (y, r) ↦ p.avoided s (ground arith)
    ];
  }

  pub >>-Avoids :
      {B : Type 0} {m : Action S ⊤} {k : Action S B} → Avoids e m → Avoids e k → Avoids e (m >> k)
  >>-Avoids p q = >>=-Avoids p (λ u. q)

  pub check-Avoids : (b : Bool) (x : String) → x ≢ e → Avoids {S = S} e (check b x)
  check-Avoids true x u = record { avoided = λ s h. ground arith }
  check-Avoids false x u = record { avoided = λ s h. ground arith }

  pub gets-Avoids : {A : Type 0} (f : S → A) → Avoids e (gets f)
  gets-Avoids f = record { avoided = λ s h. ground arith }

  pub pure-Avoids : {A : Type 0} (a : A) → Avoids {S = S} e (pure a)
  pure-Avoids a = record { avoided = λ s h. ground arith }

  pub or_abort-Avoids :
      {A : Type 0} (o : Option A) (x : String) → x ≢ e → Avoids {S = S} e (or_abort o x)
  or_abort-Avoids none x u = record { avoided = λ s h. ground arith }
  or_abort-Avoids (some a) x u = record { avoided = λ s h. ground arith }

  pub when-Avoids : (b : Bool) {m : Action S ⊤} → Avoids e m → Avoids e (when b m)
  when-Avoids true p = record { avoided = λ s h. p.avoided s h }
  when-Avoids false p = record { avoided = λ s h. ground arith }

  pub update-Avoids : (f : S → S) → Avoids e (update f)
  update-Avoids f = record { avoided = λ s h. ground arith }

  pub on_row-Avoids :
      {R A : Type 0} (o : Option R) {f : R → Action S A} {m : Action S A}
      → ((r : R) → Avoids e (f r))
      → Avoids e m
      → Avoids e (on_row o f m)
  on_row-Avoids none p q = record { avoided = λ s h. q.avoided s h }
  on_row-Avoids (some r) p q = record { avoided = λ s h. (p r).avoided s h }

pub ruleset avoid_laws = (
  >>-Avoids, >>=-Avoids, check-Avoids, gets-Avoids, or_abort-Avoids, pure-Avoids, when-Avoids,
  update-Avoids, on_row-Avoids,
)
