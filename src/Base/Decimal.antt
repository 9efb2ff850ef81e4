-- ===== src/Base/Decimal.antt =====
-- Numbers in decimal, as the program writes them.
use fi_mcp_kit.Base.Tests.{ltb, if◌then◌else◌}
use Prim.Native.Nat.{ℕ, zero, suc, ◌-◌, ◌*◌, ◌/◌, ◌≤◌, ◌<◌}
use mathlib.Core.Path.{◌≡◌, ap, ◌∙◌}
use native.Mathlib.Omega.{arith}
use Prim.Native.String.{String, ◌++◌ as cat}
use mathlib.Core.List.{List, [], ◌∷◌}

-- strconv.Itoa on a number that is not negative: the digits, the last one split off at a time. A
-- number has at most as many digits as its successor counts.
abbrev pub nth : ℕ → List String → String
nth n [] = ""
nth zero (d ∷ ds) = d
nth (suc n) (d ∷ ds) = nth n ds

abbrev pub digit : ℕ → String
digit n = nth n ("0" ∷ "1" ∷ "2" ∷ "3" ∷ "4" ∷ "5" ∷ "6" ∷ "7" ∷ "8" ∷ "9" ∷ [])

unfoldable pub digits : ℕ → ℕ → String
digits zero n = ""
digits (suc fuel) n =
    let rest = digits fuel (n / 10) in
    if ltb n 10 then digit n else cat rest (digit (n - n / 10 * 10))

unfoldable pub itoa : ℕ → String
unfolding digits
itoa n = digits (suc n) n

-- A number of one digit, and one of more.
digits_small : (f n : ℕ) → n < 10 → digits (suc f) n ≡ digit n
unfolding digits
digits_small f n h = ground arith

digits_large :
    (f n : ℕ) → 10 ≤ n → digits (suc f) n ≡ cat (digits f (n / 10)) (digit (n - n / 10 * 10))
unfolding digits
digits_large f n h = ground arith

pub itoa_small : (n : ℕ) → n < 10 → itoa n ≡ digit n
unfolding itoa
itoa_small n h = digits_small n n h

pub itoa_two : (n : ℕ) → 10 ≤ n → n < 100 → itoa n ≡ cat (digit (n / 10)) (digit (n - n / 10 * 10))
unfolding itoa
itoa_two zero h k = absurd (omega arith)
itoa_two (suc m) h k =
    digits_large (suc m) (suc m) h
    ∙ ap (λ (s : String). cat s (digit (suc m - suc m / 10 * 10)))
        (digits_small m (suc m / 10) (omega arith))
