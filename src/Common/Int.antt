-- ===== src/Common/Int.antt =====
-- Signed integers over the native numbers, under the library's names, and the wrap-around of int64_t.
use Prim.Native.Nat.{ℕ, suc, ◌+◌, ◌-◌, ◌%◌, ◌^◌, ◌≤◌, ◌<◌, ◌*◌, ◌/◌}
use mathlib.Core.Path.{◌≡◌, ap}
use mathlib.Core.Logic.{inl, inr}
use mathlib.Core.Bool.{Bool}
use native.Mathlib.Omega.{arith}
use cmcc_eosio_contracts.Common.Tests.{ltb, leb, ◌==◌, if◌then◌else◌, Bool-cases}

-- `negsuc n` is -(n + 1).
pub data ℤ : Type 0 where
  pos : ℕ → ℤ
  negsuc : ℕ → ℤ

abbrev pub pos_part : ℤ → ℕ
pos_part (pos n) = n
pos_part (negsuc n) = 0

abbrev pub neg_part : ℤ → ℕ
neg_part (pos n) = 0
neg_part (negsuc n) = suc n

abbrev pub sub_ℕ : ℕ → ℕ → ℤ
sub_ℕ a b = if leb b a then pos (a - b) else negsuc (b - a - 1)

infixl 65 ◌+ℤ◌ ◌-ℤ◌
infix 50 ◌≤ℤ◌
unfoldable pub ◌+ℤ◌ : ℤ → ℤ → ℤ
a +ℤ b = sub_ℕ (pos_part a + pos_part b) (neg_part a + neg_part b)

unfoldable pub ◌-ℤ◌ : ℤ → ℤ → ℤ
a -ℤ b = sub_ℕ (pos_part a + neg_part b) (neg_part a + pos_part b)

abbrev pub ◌≤ℤ◌ : ℤ → ℤ → Type 0
a ≤ℤ b = pos_part a + neg_part b ≤ pos_part b + neg_part a

abbrev pub ltb_ℤ : ℤ → ℤ → Bool
ltb_ℤ a b = ltb (pos_part a + neg_part b) (pos_part b + neg_part a)

abbrev pub leb_ℤ : ℤ → ℤ → Bool
leb_ℤ a b = leb (pos_part a + neg_part b) (pos_part b + neg_part a)

infix 50 ◌==ℤ◌
abbrev pub ◌==ℤ◌ : ℤ → ℤ → Bool
a ==ℤ b = (pos_part a + neg_part b) == (pos_part b + neg_part a)

-- With one lemma for each operation `omega` works with the operations shut.
pub +ℤ_parts :
    (a b : ℤ)
    → pos_part (a +ℤ b) + neg_part a + neg_part b ≡ neg_part (a +ℤ b) + pos_part a + pos_part b
unfolding ◌+ℤ◌
+ℤ_parts a b = ground arith

pub -ℤ_parts :
    (a b : ℤ)
    → pos_part (a -ℤ b) + neg_part a + pos_part b ≡ neg_part (a -ℤ b) + pos_part a + neg_part b
unfolding ◌-ℤ◌
-ℤ_parts a b = ground arith

pub eq_of_parts : (a b : ℤ) → pos_part a + neg_part b ≡ pos_part b + neg_part a → a ≡ b
eq_of_parts a b h = ground arith

pub ruleset int_laws = (arith, +ℤ_parts, -ℤ_parts, eq_of_parts)

pub +ℤ_cancel : (a b : ℤ) → a +ℤ b -ℤ b ≡ a
+ℤ_cancel a b = omega int_laws

pub +ℤ_cancel_right : (a b c : ℤ) → a +ℤ c ≡ b +ℤ c → a ≡ b
+ℤ_cancel_right a b c h = omega (int_laws, ap pos_part h, ap neg_part h)

-- The bit pattern of an integer in 64 bits, and the int64_t that a pattern stands for.
abbrev to_bits64 : ℤ → ℕ
to_bits64 (pos n) = n % 2 ^ 64
to_bits64 (negsuc n) = 2 ^ 64 - 1 - n % 2 ^ 64

abbrev of_bits64 : ℕ → ℤ
of_bits64 w = if ltb w (2 ^ 63) then pos w else negsuc (2 ^ 64 - 1 - w)

-- What is stored in an int64_t: a value out of range wraps around.
unfoldable pub int64 : ℤ → ℤ
int64 z = of_bits64 (to_bits64 z)

-- A value in range is stored as it is.
pub int64_id : (z : ℤ) → negsuc (2 ^ 63 - 1) ≤ℤ z → z ≤ℤ pos (2 ^ 63 - 1) → int64 z ≡ z
unfolding int64
int64_id (pos n) lo hi = ground arith
int64_id (negsuc n) lo hi = ground arith

-- A value and what is stored of it differ by a multiple of 2^64.
pub int64_wraps :
    (z : ℤ)
    → (k : ℕ) × (j : ℕ) × (pos_part z + neg_part (int64 z) + j * 2 ^ 64
        ≡ neg_part z + pos_part (int64 z) + k * 2 ^ 64)
unfolding int64
int64_wraps (pos n) = elim (Bool-cases (ltb (n % 2 ^ 64) (2 ^ 63))) [
  | inl e ↦ (n / 2 ^ 64, 0, ground arith)
  | inr e ↦ (n / 2 ^ 64 + 1, 0, ground arith)
]
int64_wraps (negsuc n) = elim (Bool-cases (ltb (2 ^ 64 - 1 - n % 2 ^ 64) (2 ^ 63))) [
  | inl e ↦ (0, n / 2 ^ 64 + 1, ground arith)
  | inr e ↦ (0, n / 2 ^ 64, ground arith)
]

pub int64_range : (z : ℤ) → (pos_part (int64 z) < 2 ^ 63) × (neg_part (int64 z) ≤ 2 ^ 63)
unfolding int64
int64_range (pos n) = ground arith
int64_range (negsuc n) = ground arith

-- Values that differ by a multiple of 2^64 are stored alike.
pub int64_eq :
    (a b : ℤ) (k j : ℕ)
    → pos_part a + neg_part b + j * 2 ^ 64 ≡ neg_part a + pos_part b + k * 2 ^ 64
    → int64 a ≡ int64 b
int64_eq a b k j h =
    let (ka, ja, ea) = int64_wraps a in
    let (kb, jb, eb) = int64_wraps b in
    let (pa, na) = int64_range a in let (pb, nb) = int64_range b in omega int_laws

pub int64-+ℤ : (a b : ℤ) → int64 (int64 a +ℤ b) ≡ int64 (a +ℤ b)
int64-+ℤ a b =
    let (k, j, e) = int64_wraps a in
    let p = +ℤ_parts (int64 a) b in
    let q = +ℤ_parts a b in int64_eq (int64 a +ℤ b) (a +ℤ b) j k (omega int_laws)
