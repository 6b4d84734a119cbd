-- ===== src/Chain/Action.antt =====
-- An action of a contract: it reads and writes the contract's state, or aborts with a message, and
-- then nothing that it wrote is kept. `Chain` is what the chain tells the action that runs.
use cmcc_eosio_contracts.Common.{
  ℕ, ◌≡◌, ◌⊎◌, inl, inr, refl, Bool, true, false, Option, none, some, String,
}
use cmcc_eosio_contracts.Chain.Asset.{Eosiolib}
use cmcc_eosio_contracts.Chain.Table.{Table, find, add_row}

pub record PermissionLevel : Type 0 where
  pub actor : ℕ
  pub permission : ℕ

pub record Chain : Type 0 where
  pub lib : Eosiolib
  pub open lib use *
  pub self : ℕ
  pub has_auth : ℕ → Bool
  pub has_permission : PermissionLevel → Bool
  pub is_account : ℕ → Bool
  -- The time of the block in microseconds.
  pub now : ℕ

pub data Result (S A : Type 0) : Type 0 where
  ok : A → S → Result S A
  err : String → Result S A

abbrev pub Action : Type 0 → Type 0 → Type 0
Action S A = S → Result S A

abbrev pub ⊤ : Type 0
⊤ = Unit

module _ {S A : Type 0} where
  abbrev pub pure : A → Action S A
  pure a s = ok a s

  abbrev pub abort : String → Action S A
  abort e s = err e

  abbrev pub gets : (S → A) → Action S A
  gets f s = ok (f s) s

  abbrev pub or_abort : Option A → String → Action S A
  or_abort none e = abort e
  or_abort (some a) e = pure a

infixl 5 ◌>>=◌ ◌>>◌
abbrev pub ◌>>=◌ : {S A B : Type 0} → Action S A → (A → Action S B) → Action S B
◌>>=◌ m f s = elim (m s) [ ok a s' ↦ f a s' | err e ↦ err e ]

abbrev pub ◌>>◌ : {S B : Type 0} → Action S ⊤ → Action S B → Action S B
m >> k = m >>= λ _. k

module _ {S : Type 0} where
  abbrev pub check : Bool → String → Action S ⊤
  check true e s = ok tt s
  check false e s = err e

  abbrev pub update : (S → S) → Action S ⊤
  update f s = ok tt (f s)

  -- The branch of an `if` with no `else`.
  abbrev pub when : Bool → Action S ⊤ → Action S ⊤
  when true m s = m s
  when false m s = ok tt s

  -- The two branches of an `if`, and those on an iterator that may be at the end of its table.
  abbrev pub branch : {A : Type 0} → Bool → Action S A → Action S A → Action S A
  branch true m k s = m s
  branch false m k s = k s

  abbrev pub on_row : {R A : Type 0} → Option R → (R → Action S A) → Action S A → Action S A
  on_row none f m s = m s
  on_row (some r) f m s = f r s

  abbrev pub require_auth : Chain → ℕ → Action S ⊤
  require_auth c account = check (c.has_auth account) "missing authority"

-- `multi_index::emplace`: the chain aborts where the key is taken.
abbrev pub emplace : {R : Type 0} → ℕ → ℕ → ℕ → R → Table R → Option (Table R)
emplace s k p r t = elim (find s k t) [ none ↦ some (add_row s k p r t) | some _ ↦ none ]

abbrev pub taken : String
taken = "could not insert object, most likely a uniqueness constraint was violated"

-- A successful bind is two successes.
pub >>=-ok :
    {S A B : Type 0} (m : Action S A) (f : A → Action S B) (s : S) {b : B} {s'' : S}
    → (m >>= f) s ≡ ok b s''
    → (a : A) × (s' : S) × (m s ≡ ok a s') × (f a s' ≡ ok b s'')
>>=-ok {S} {A} {B} m f s {b} {s''} h = go (m s) refl h
  where
    go :
        (r : Result S A)
        → m s ≡ r
        → (elim r [ ok a s' ↦ f a s' | err e ↦ err e ]) ≡ ok b s''
        → (a : A) × (s' : S) × (m s ≡ ok a s') × (f a s' ≡ ok b s'')
    go (ok a s') e h' = (a, s', e, h')
    go (err x) e h' = cc

pub Result-cases :
    {S A : Type 0} (r : Result S A)
    → ((a : A) × (s : S) × (r ≡ ok a s)) ⊎ ((e : String) × (r ≡ err e))
Result-cases (ok a s) = inl (a, s, refl)
Result-cases (err e) = inr (e, refl)
