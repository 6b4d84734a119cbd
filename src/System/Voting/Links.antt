-- ===== src/System/Voting/Links.antt =====
-- contracts/eosio.system/src/voting.cpp: which proxy a voter uses. The proxies form no cycle, so a
-- change of a weight is passed on in a number of calls that is known.
use cmcc_eosio_contracts.Common.{
  ℕ, suc, ◌<◌, ◌≡◌, ◌≢◌, Bool, true, false, Option, none, some, arith, Bool-cases, inl, inr, ◌==◌,
  if◌then◌else◌,
}
use cmcc_eosio_contracts.Chain.Table.{Table, find, set_row, add_row, find-set_row, find-add_row}
use cmcc_eosio_contracts.System.State.{VoterInfo}

abbrev pub proxy_in : Option VoterInfo → ℕ
proxy_in none = 0
proxy_in (some v) = v.proxy

abbrev pub flag_in : Option VoterInfo → Bool
flag_in none = false
flag_in (some v) = v.is_proxy

-- A rank in which a voter that uses no proxy is the last of all.
abbrev pub below : ℕ → (ℕ → ℕ) → ℕ → ℕ
below q rank k = if k == q then 0 else suc (rank k)

module _ (self : ℕ) where
  unfoldable pub proxy_of : Table VoterInfo → ℕ → ℕ
  proxy_of t n = proxy_in (find self n t)

  unfoldable pub is_proxy_of : Table VoterInfo → ℕ → Bool
  is_proxy_of t n = flag_in (find self n t)

  -- A proxy uses no proxy, and a rank falls from a voter to its proxy.
  pub record Ranked (rank : ℕ → ℕ) (t : Table VoterInfo) : Type 0 where
    pub free : (n : ℕ) → is_proxy_of t n ≡ true → proxy_of t n ≡ 0
    pub falls : (n : ℕ) → proxy_of t n ≢ 0 → rank (proxy_of t n) < rank n

  pub record SameLinks (t₀ t : Table VoterInfo) : Type 0 where
    pub same_proxy : (n : ℕ) → proxy_of t n ≡ proxy_of t₀ n
    pub same_flag : (n : ℕ) → is_proxy_of t n ≡ is_proxy_of t₀ n

  pub same-Ranked :
      (rank : ℕ → ℕ) (t₀ t : Table VoterInfo) → SameLinks t₀ t → Ranked rank t₀ → Ranked rank t
  same-Ranked rank t₀ t e r = record {
    free = λ n p. grind (arith, r.free n, e.same_proxy n, e.same_flag n);
    falls = λ n p. rw (e.same_proxy n) (r.falls n (λ q. p (rw (e.same_proxy n) q)));
  }

  pub set_row-SameLinks :
      (n : ℕ) (v w : VoterInfo) (t₀ t : Table VoterInfo)
      → find self n t ≡ some v
      → w.proxy ≡ v.proxy
      → w.is_proxy ≡ v.is_proxy
      → SameLinks t₀ t
      → SameLinks t₀ (set_row self n 0 w t)
  unfolding proxy_of is_proxy_of
  set_row-SameLinks n v w t₀ t e p q l = record {
    same_proxy = λ k. ground (arith, find-set_row self n 0 self k w v t e, l.same_proxy k);
    same_flag = λ k. ground (arith, find-set_row self n 0 self k w v t e, l.same_flag k);
  }

  pub set_row-Ranked :
      (rank : ℕ → ℕ) (n p : ℕ) (v w : VoterInfo) (t : Table VoterInfo)
      → find self n t ≡ some v
      → (w.is_proxy ≡ true → w.proxy ≡ 0)
      → (w.proxy ≢ 0 → rank w.proxy < rank n)
      → Ranked rank t
      → Ranked rank (set_row self n p w t)
  unfolding proxy_of is_proxy_of
  set_row-Ranked rank n p v w t e a b r = record {
    free = λ k. ground (arith, find-set_row self n p self k w v t e, r.free k);
    falls = λ k. ground (arith, find-set_row self n p self k w v t e, r.falls k);
  }

  pub add_row-Ranked :
      (rank : ℕ → ℕ) (n p : ℕ) (w : VoterInfo) (t : Table VoterInfo)
      → find self n t ≡ none
      → w.proxy ≡ 0
      → Ranked rank t
      → Ranked rank (add_row self n p w t)
  unfolding proxy_of is_proxy_of
  add_row-Ranked rank n p w t e a r = record {
    free = λ k. ground (arith, find-add_row self n p self k w t e, r.free k);
    falls = λ k. ground (arith, find-add_row self n p self k w t e, r.falls k);
  }

  pub below-Ranked :
      (rank : ℕ → ℕ) (q : ℕ) (t : Table VoterInfo)
      → proxy_of t q ≡ 0
      → Ranked rank t
      → Ranked (below q rank) t
  below-Ranked rank q t e r = record {
    free = r.free;
    falls = λ k u. elim (Bool-cases (k == q)) [
      | inl a ↦ ground arith
      | inr a ↦ elim (Bool-cases (proxy_of t k == q)) [
        | inl b ↦ ground arith
        | inr b ↦ let w = r.falls k u in ground arith
      ]
    ];
  }
