-- ===== src/Profiles/Sort.antt =====
-- sortByPriority: a bubble sort in place, here on the list of the slice's elements.
use fi_mcp_kit.Base.{ℕ, zero, suc, ◌-◌, Bool, List, [], ◌∷◌, length, if◌then◌else◌}

module _ {ℓ κ} {A : Type ℓ} {K : Type κ} (lt : K → K → Bool) (key : A → K) where
  -- `for j := 0; j < n; j++`: the entry at hand sinks past those of a higher priority.
  unfoldable pub pass : ℕ → List A → List A
  pass zero l = l
  pass (suc n) [] = []
  pass (suc n) (x ∷ []) = x ∷ []
  pass (suc n) (x ∷ y ∷ rest) =
      let swapped = pass n (x ∷ rest) in
      let kept = pass n (y ∷ rest) in if lt (key x) (key y) then y ∷ swapped else x ∷ kept

  -- The outer loop, by the number of comparisons n-i-1 of its next pass.
  unfoldable pub passes : ℕ → List A → List A
  unfolding pass
  passes zero l = l
  passes (suc n) l = passes n (pass (suc n) l)

  unfoldable pub bubble_sort : List A → List A
  unfolding passes
  bubble_sort l = passes (length l - 1) l
