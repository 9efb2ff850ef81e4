-- ===== src/Base/Int.antt =====
-- Go's int, for counters that are stepped up and down: signed, and without a bound, since no counter
-- here passes the number of calls made.
use Prim.Native.Nat.{ℕ, zero, suc, ◌+◌}
use mathlib.Core.Path.{◌≡◌, refl}
use mathlib.Core.Bool.{Bool, true, false}
use native.Mathlib.Omega.{arith}
use fi_mcp_kit.Base.Tests.{leb, ltb}

-- `negsuc n` is -(n + 1).
pub data ℤ : Type 0 where
  pos : ℕ → ℤ
  negsuc : ℕ → ℤ

-- x++
abbrev pub inc : ℤ → ℤ
inc (pos n) = pos (suc n)
inc (negsuc zero) = pos 0
inc (negsuc (suc n)) = negsuc n

-- x--
abbrev pub dec : ℤ → ℤ
dec (pos zero) = negsuc 0
dec (pos (suc n)) = pos n
dec (negsuc n) = negsuc (suc n)

-- x-- so many times
abbrev pub dec_by : ℕ → ℤ → ℤ
dec_by zero x = x
dec_by (suc n) x = dec_by n (dec x)

-- x >= n, for a number n that is not negative
abbrev pub at_least : ℤ → ℕ → Bool
at_least (pos m) n = leb n m
at_least (negsuc m) n = false

pub dec-inc : (x : ℤ) → dec (inc x) ≡ x
dec-inc (pos n) = refl
dec-inc (negsuc zero) = refl
dec-inc (negsuc (suc n)) = refl

pub dec_by-pos : (n k : ℕ) → dec_by n (pos (n + k)) ≡ pos k
dec_by-pos zero k = ground arith
dec_by-pos (suc n) k = ground (arith, dec_by-pos n k)

-- x < y
abbrev pub lt_int : ℤ → ℤ → Bool
lt_int (pos m) (pos n) = ltb m n
lt_int (pos m) (negsuc n) = false
lt_int (negsuc m) (pos n) = true
lt_int (negsuc m) (negsuc n) = ltb n m

pub lt_int_irrefl : (x : ℤ) → lt_int x x ≡ false
lt_int_irrefl (pos m) = ground arith
lt_int_irrefl (negsuc m) = ground arith

pub lt_int_asym : (x y : ℤ) → lt_int x y ≡ true → lt_int y x ≡ false
lt_int_asym x y h = ground arith

pub lt_int_trans : (x y z : ℤ) → lt_int x y ≡ false → lt_int y z ≡ false → lt_int x z ≡ false
lt_int_trans x y z h g = ground arith
