-- ===== src/Base/Run.antt =====
-- Code that may panic, and code that also changes a state that it shares.

pub data Run {ℓ} (A : Type ℓ) : Type ℓ where
  returns : A → Run A
  panics : Run A

-- A panic leaves no state behind: nothing here recovers from one.
abbrev pub Eff : Type 0 → Type 0 → Type 0
Eff S A = S → Run (A × S)

infixl 5 ◌>>=◌ ◌>>◌
abbrev pub ◌>>=◌ : {S A B : Type 0} → Eff S A → (A → Eff S B) → Eff S B
◌>>=◌ m f s = elim (m s) [ returns (a, t) ↦ f a t | panics ↦ panics ]

abbrev pub ◌>>◌ : {S A B : Type 0} → Eff S A → Eff S B → Eff S B
m >> n = m >>= λ _. n

abbrev pub pure : {S A : Type 0} → A → Eff S A
pure a s = returns (a, s)
