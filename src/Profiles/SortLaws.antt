-- ===== src/Profiles/SortLaws.antt =====
-- sortByPriority sorts, and is stable.
use fi_mcp_kit.Base.{
  ℕ, zero, suc, ◌-◌, ◌≡◌, ◌∙◌, refl, ap, subst, inl, inr, not, ◌&&◌, count_if, Bool, true, false,
  List, [], ◌∷◌, ◌++◌, arith, All, keep_if, length, Bool-cases,
}
use fi_mcp_kit.Profiles.Sort.{pass, passes, bubble_sort}

-- What a strict order on priorities has to be: irreflexive, and its complement transitive.
pub record StrictOrder {κ} {K : Type κ} (lt : K → K → Bool) : Type κ where
  pub lt_irrefl : (x : K) → lt x x ≡ false
  pub not_lt_trans : (x y z : K) → lt x y ≡ false → lt y z ≡ false → lt x z ≡ false
  pub lt_asym : (x y : K) → lt x y ≡ true → lt y x ≡ false

module _ {ℓ κ} {A : Type ℓ} {K : Type κ} (lt : K → K → Bool) (key : A → K) where
  -- The priority of the first is not below the other's.
  abbrev pub AtLeast : A → A → Type 0
  AtLeast x y = lt (key x) (key y) ≡ false

  -- Of no entry does the priority exceed an earlier one's.
  abbrev pub Descending : List A → Type ℓ
  Descending [] = Unit
  Descending (x ∷ l) = All (AtLeast x) l × Descending l

  -- Neither priority exceeds the other.
  abbrev pub tied : K → A → Bool
  tied k x = not (lt k (key x)) && not (lt (key x) k)

module _ {ℓ κ} {A : Type ℓ} {K : Type κ} (lt : K → K → Bool) (order : StrictOrder lt)
    (key : A → K) where
  -- One pass over the front part of a list: its least entry sinks to the end of the part.
  record Sunk {ι} (P : A → Type ι) (n : ℕ) (a b : List A) : Type (ℓ ⊔ ι) where
    front : List A
    least : A
    result : pass lt key n (a ++ b) ≡ front ++ (least ∷ b)
    size : length front ≡ n
    above : All (λ x. AtLeast lt key x least) a
    above_front : All (λ x. AtLeast lt key x least) front
    kept : All P a → All P front × P least

  Sunk-pass {ι} : (P : A → Type ι) (n : ℕ) (a b : List A) → length a ≡ suc n → Sunk P n a b
  unfolding pass
  Sunk-pass P n [] b e = absurd (omega (arith, e))
  Sunk-pass P zero (x ∷ y ∷ a) b e = absurd (omega (arith, e))
  Sunk-pass P zero (x ∷ []) b e = record {
    front = [];
    least = x;
    result = refl;
    size = refl;
    above = (order.lt_irrefl (key x), tt);
    above_front = tt;
    kept = λ h. (tt, h.0);
  }
  Sunk-pass P (suc n) (x ∷ []) b e = absurd (omega (arith, e))
  Sunk-pass P (suc n) (x ∷ y ∷ a) b e = elim (Bool-cases (lt (key x) (key y))) [
    | inl below ↦
        let s = Sunk-pass P n (x ∷ a) b (omega (arith, e)) in
        let top = order.not_lt_trans _ _ _ (order.lt_asym _ _ below) s.above.0 in
        record {
          front = y ∷ s.front;
          least = s.least;
          result = rw below (ap (◌∷◌ y) s.result);
          size = omega (arith, s.size);
          above = (s.above.0, (top, s.above.1));
          above_front = (top, s.above_front);
          kept = λ h. let k = s.kept (h.0, h.1.1) in ((h.1.0, k.0), k.1);
        }
    | inr not_below ↦
        let s = Sunk-pass P n (y ∷ a) b (omega (arith, e)) in
        let top = order.not_lt_trans _ _ _ not_below s.above.0 in
        record {
          front = x ∷ s.front;
          least = s.least;
          result = rw not_below (ap (◌∷◌ x) s.result);
          size = omega (arith, s.size);
          above = (top, s.above);
          above_front = (top, s.above_front);
          kept = λ h. let k = s.kept h.1 in ((h.0, k.0), k.1);
        }
  ]

  All-zip :
      (x : A) (b front : List A)
      → All (λ y. AtLeast lt key y x) front
      → All (λ y. All (AtLeast lt key y) b) front
      → All (λ y. All (AtLeast lt key y) (x ∷ b)) front
  All-zip x b [] h k = tt
  All-zip x b (y ∷ l) h k = ((h.0, k.0), All-zip x b l h.1 k.1)

  passes-Descending :
      (n : ℕ) (a b : List A)
      → length a ≡ suc n
      → Descending lt key b
      → All (λ x. All (AtLeast lt key x) b) a
      → Descending lt key (passes lt key n (a ++ b))
  unfolding passes
  passes-Descending n [] b e d h = absurd (omega (arith, e))
  passes-Descending zero (x ∷ y ∷ a) b e d h = absurd (omega (arith, e))
  passes-Descending zero (x ∷ []) b e d h = (h.0, d)
  passes-Descending (suc n) (x ∷ a) b e d h =
      let s = Sunk-pass (λ y. All (AtLeast lt key y) b) (suc n) (x ∷ a) b e in
      let k = s.kept h in
      rw s.result (
        passes-Descending n s.front (s.least ∷ b) s.size (k.1, d)
          (All-zip s.least b s.front s.above_front k.0))

  append_nil : (l : List A) → l ++ [] ≡ l
  append_nil [] = refl
  append_nil (x ∷ l) = ap (◌∷◌ x) (append_nil l)

  All-Unit : (l : List A) → All (λ x. All (AtLeast lt key x) []) l
  All-Unit [] = tt
  All-Unit (x ∷ l) = (tt, All-Unit l)

  bubble_sort-Descending : (l : List A) → Descending lt key (bubble_sort lt key l)
  unfolding bubble_sort passes
  bubble_sort-Descending [] = tt
  bubble_sort-Descending (x ∷ l) =
      let size : suc (length l) - 1 ≡ length l = omega arith in
      rw size (
        subst (λ q. Descending lt key (passes lt key (length l) q)) (append_nil (x ∷ l))
          (passes-Descending (length l) (x ∷ l) [] refl tt (All-Unit (x ∷ l))))

  -- What a pass keeps, where the test does not hold of two entries of different priorities.
  keep_if-pass :
      (p : A → Bool)
      → ((x y : A) → p x ≡ true → p y ≡ true → lt (key x) (key y) ≡ false)
      → (n : ℕ) (l : List A) → keep_if p (pass lt key n l) ≡ keep_if p l
  unfolding pass
  keep_if-pass p apart zero l = refl
  keep_if-pass p apart (suc n) [] = refl
  keep_if-pass p apart (suc n) (x ∷ []) = refl
  keep_if-pass p apart (suc n) (x ∷ y ∷ l) =
      ground (arith, keep_if-pass p apart n (x ∷ l), keep_if-pass p apart n (y ∷ l), apart x y)

  keep_if-passes :
      (p : A → Bool)
      → ((x y : A) → p x ≡ true → p y ≡ true → lt (key x) (key y) ≡ false)
      → (n : ℕ) (l : List A) → keep_if p (passes lt key n l) ≡ keep_if p l
  unfolding passes
  keep_if-passes p apart zero l = refl
  keep_if-passes p apart (suc n) l =
      keep_if-passes p apart n (pass lt key (suc n) l) ∙ keep_if-pass p apart (suc n) l

  tied-apart :
      (k : K) (x y : A)
      → tied lt key k x ≡ true
      → tied lt key k y ≡ true
      → lt (key x) (key y) ≡ false
  tied-apart k x y h g = order.not_lt_trans (key x) k (key y) (ground arith) (ground arith)

  count_if-pass : (p : A → Bool) (n : ℕ) (l : List A) → count_if p (pass lt key n l) ≡ count_if p l
  unfolding pass
  count_if-pass p zero l = refl
  count_if-pass p (suc n) [] = refl
  count_if-pass p (suc n) (x ∷ []) = refl
  count_if-pass p (suc n) (x ∷ y ∷ l) =
      ground (arith, count_if-pass p n (x ∷ l), count_if-pass p n (y ∷ l))

  count_if-passes :
      (p : A → Bool) (n : ℕ) (l : List A) → count_if p (passes lt key n l) ≡ count_if p l
  unfolding passes
  count_if-passes p zero l = refl
  count_if-passes p (suc n) l =
      count_if-passes p n (pass lt key (suc n) l) ∙ count_if-pass p (suc n) l

  -- For a strict order on priorities, sortByPriority puts the tools into descending order of priority,
  -- keeps the order of those of one priority, and every tool as often as it was there.
  pub bubble_sort_lem :
      (l : List A)
      → Descending lt key (bubble_sort lt key l)
        × ((k : K) → keep_if (tied lt key k) (bubble_sort lt key l) ≡ keep_if (tied lt key k) l)
        × ((p : A → Bool) → count_if p (bubble_sort lt key l) ≡ count_if p l)
  bubble_sort_lem l = (
    bubble_sort-Descending l,
    λ k. unfold bubble_sort in keep_if-passes (tied lt key k) (tied-apart k) (length l - 1) l,
    λ p. unfold bubble_sort in count_if-passes p (length l - 1) l,
  )
