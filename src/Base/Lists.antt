-- ===== src/Base/Lists.antt =====
-- Lists measured by native numbers, under the library's names, and the predicates on their members.
use Prim.Native.Nat.{ℕ, zero, suc, ◌+◌, min}
use Prim.Native.String.{String}
use mathlib.Core.Path.{◌≡◌, refl, ap}
use mathlib.Core.Bool.{Bool, true, false, ◌||◌}
use mathlib.Core.List.{List, [], ◌∷◌, ◌++◌}
use native.Mathlib.Omega.{arith}
use text.Mathlib.Text.{◌==◌ as str_eq}
use fi_mcp_kit.Base.Tests.{if◌then◌else◌}

module _ {ℓ} {A : Type ℓ} where
  abbrev pub length : List A → ℕ
  length [] = 0
  length (x ∷ xs) = suc (length xs)

  abbrev pub take : ℕ → List A → List A
  take zero xs = []
  take (suc n) [] = []
  take (suc n) (x ∷ xs) = x ∷ take n xs

  pub length-append : (xs ys : List A) → length (xs ++ ys) ≡ length xs + length ys
  length-append [] ys = omega arith
  length-append (x ∷ xs) ys = omega (arith, length-append xs ys)

  pub length-take : (n : ℕ) (xs : List A) → length (take n xs) ≡ min n (length xs)
  length-take zero xs = omega arith
  length-take (suc n) [] = omega arith
  length-take (suc n) (x ∷ xs) = omega (arith, length-take n xs)

  -- How many entries pass a test.
  abbrev pub count_if : (A → Bool) → List A → ℕ
  count_if p [] = 0
  count_if p (x ∷ xs) = (if p x then 1 else 0) + count_if p xs

  -- The entries that pass a test, in order.
  abbrev pub keep_if : (A → Bool) → List A → List A
  keep_if p [] = []
  keep_if p (x ∷ xs) = if p x then x ∷ keep_if p xs else keep_if p xs

  pub count_if-append :
      (p : A → Bool) (xs ys : List A) → count_if p (xs ++ ys) ≡ count_if p xs + count_if p ys
  count_if-append p [] ys = omega arith
  count_if-append p (x ∷ xs) ys = omega (arith, count_if-append p xs ys)

  -- One entry taken out of a list.
  pub count_if-split :
      (p : A → Bool) (before after : List A) (x : A) (l : List A)
      → l ≡ before ++ (x ∷ after)
      → count_if p l ≡ (if p x then 1 else 0) + count_if p (before ++ after)
  count_if-split p before after x l e = omega (
    arith,
    ap (count_if p) e,
    count_if-append p before (x ∷ after),
    count_if-append p before after,
  )

  pub length-split :
      (before after : List A) (x : A) (l : List A)
      → l ≡ before ++ (x ∷ after)
      → length l ≡ suc (length (before ++ after))
  length-split before after x l e =
      omega (arith, ap length e, length-append before (x ∷ after), length-append before after)

  abbrev pub any_of : (A → Bool) → List A → Bool
  any_of p [] = false
  any_of p (x ∷ xs) = if p x then true else any_of p xs

module _ {ℓ κ} {A : Type ℓ} (P : A → Type κ) where
  -- Every entry satisfies `P`.
  abbrev pub All : List A → Type κ
  All [] = Unit
  All (x ∷ xs) = P x × All xs

  pub All-append : (xs ys : List A) → All xs → All ys → All (xs ++ ys)
  All-append [] ys h k = k
  All-append (x ∷ xs) ys h k = (h.0, All-append xs ys h.1 k)

-- `for _, s := range l { if s == x { … } }`
abbrev pub contains : List String → String → Bool
contains l x = any_of (λ s. str_eq s x) l

pub contains-append :
    (n x : String) (l : List String) → contains (l ++ (x ∷ [])) n ≡ (contains l n || str_eq x n)
contains-append n x [] = ground arith
contains-append n x (s ∷ l) = ground (arith, contains-append n x l)

-- How often a text stands in a list.
abbrev pub times : String → List String → ℕ
times n = count_if (λ s. str_eq s n)

pub times_absent : (n : String) (l : List String) → contains l n ≡ false → times n l ≡ 0
times_absent n [] h = refl
times_absent n (s ∷ l) h = ground (arith, times_absent n l)
