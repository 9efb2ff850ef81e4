-- ===== src/Profiles/LimitLaws.antt =====
-- What the limit of a profile leaves of a list of tools.
use fi_mcp_kit.Base.{
  ℕ, zero, suc, ◌≤◌, ◌≡◌, refl, ap, inl, inr, Bool-cases, length-take, String, true, false, List,
  [], ◌∷◌, ◌++◌, min, arith, length, take, ltb,
}
use fi_mcp_kit.Base.Int.{ℤ, pos, negsuc}
use fi_mcp_kit.Profiles.Filter.{FilterResult, limit}

module _ {T : Type 0} (name_of : T → String) where
  -- A list cut at a length.
  record Cut (n : ℕ) (xs : List T) : Type 0 where
    rest : List T
    whole_list : take n xs ++ rest ≡ xs
    short : length (take n xs) ≡ min n (length xs)

  Cut-at : (n : ℕ) (xs : List T) → Cut n xs
  Cut-at n xs = record { rest = (go n xs).0; whole_list = (go n xs).1; short = length-take n xs }
    where
      go : (k : ℕ) (ys : List T) → (rest : List T) × (take k ys ++ rest ≡ ys)
      go zero ys = (ys, refl)
      go (suc k) [] = ([], refl)
      go (suc k) (y ∷ ys) = ((go k ys).0, ap (◌∷◌ y) (go k ys).1)

  append_nil : (l : List T) → l ++ [] ≡ l
  append_nil [] = refl
  append_nil (x ∷ l) = ap (◌∷◌ x) (append_nil l)

  -- What the limit does to a list.
  pub record Limited (m : ℤ) (before : ℕ) (l : List T) (r : FilterResult T) : Type 0 where
    pub gone : List T
    pub all : r.tools ++ gone ≡ l
    pub count : r.total_after ≡ length r.tools
    pub total : r.total_before ≡ before
    pub nothing : r.truncated ≡ false → gone ≡ []
    pub exact : r.truncated ≡ true → m ≡ pos (length r.tools)
    pub bound : (n : ℕ) → m ≡ pos (suc n) → length r.tools ≤ suc n

  pub limit-Limited :
      (m : ℤ) (profile : String) (before : ℕ) (l : List T)
      → Limited m before l (limit name_of m profile before l)
  unfolding limit
  limit-Limited (pos (suc n)) profile before l = elim (Bool-cases (ltb (suc n) (length l))) [
    | inl longer ↦
        let c = Cut-at (suc n) l in
        simp longer record {
          gone = c.rest;
          all = c.whole_list;
          count = refl;
          total = refl;
          nothing = λ e. cc;
          exact = λ e. ap pos (ground (arith, longer, c.short));
          bound = λ k e. ground (arith, c.short, e);
        }
    | inr fits ↦ simp fits record {
      gone = [];
      all = append_nil l;
      count = refl;
      total = refl;
      nothing = λ e. refl;
      exact = λ e. cc;
      bound = λ k e. ground (arith, fits, e);
    }
  ]
  limit-Limited (pos zero) profile before l = record {
    gone = [];
    all = append_nil l;
    count = refl;
    total = refl;
    nothing = λ e. refl;
    exact = λ e. cc;
    bound = λ k e. ground (arith, e);
  }
  limit-Limited (negsuc n) profile before l = record {
    gone = [];
    all = append_nil l;
    count = refl;
    total = refl;
    nothing = λ e. refl;
    exact = λ e. cc;
    bound = λ k e. cc;
  }
