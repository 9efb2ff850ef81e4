-- ===== src/Base/Dict.antt =====
-- Go's maps with string keys, as association lists. A key stands at most once; what the program
-- does in map order is stated so that no order matters.
use Prim.Native.Nat.{ℕ, suc, ◌+◌}
use Prim.Native.String.{String}
use mathlib.Core.Path.{◌≡◌, refl}
use mathlib.Core.Logic.{◌≢◌}
use mathlib.Core.Bool.{true, false}
use mathlib.Core.List.{List, [], ◌∷◌}
use mathlib.Core.Option.{Option, none, some}
use native.Mathlib.Omega.{arith}
use text.Mathlib.Text.{◌==◌ as str_eq}
use text.Mathlib.TextEquality.{eq_iff}
use text.Mathlib.TextPositions.{eq_refl}
use fi_mcp_kit.Base.Lists.{length}
use fi_mcp_kit.Base.Tests.{if◌then◌else◌}

abbrev pub Dict {ℓ} : Type ℓ → Type ℓ
Dict V = List (String × V)

module _ {ℓ} {V : Type ℓ} where
  -- v, ok := m[k]
  unfoldable pub lookup : String → Dict V → Option V
  lookup k [] = none
  lookup k ((key, value) ∷ others) = elim (str_eq key k) [
    | true ↦ some value
    | false ↦ lookup k others
  ]

  -- m[k] = v: in place where the key stands, at the end where it does not.
  unfoldable pub insert : String → V → Dict V → Dict V
  insert k new [] = (k, new) ∷ []
  insert k new ((key, value) ∷ others) = elim (str_eq key k) [
    | true ↦ (k, new) ∷ others
    | false ↦ (key, value) ∷ insert k new others
  ]

  -- delete(m, k)
  unfoldable pub erase : String → Dict V → Dict V
  erase k [] = []
  erase k ((key, value) ∷ others) = elim (str_eq key k) [
    | true ↦ erase k others
    | false ↦ (key, value) ∷ erase k others
  ]

  -- A read behind a write.
  pub lookup-insert :
      (written asked : String) (new : V) (d : Dict V)
      → lookup asked (insert written new d)
        ≡ (if str_eq written asked then some new else lookup asked d)
  unfolding lookup insert
  lookup-insert written asked new [] = ground arith
  lookup-insert written asked new ((key, value) ∷ others) =
      let rest = lookup-insert written asked new others in
      ground (arith, rest, eq_iff key written, eq_iff key asked, eq_iff written asked)

  -- A read behind a delete.
  pub lookup-erase :
      (gone asked : String) (d : Dict V)
      → lookup asked (erase gone d) ≡ (if str_eq gone asked then none else lookup asked d)
  unfolding lookup erase
  lookup-erase gone asked [] = ground arith
  lookup-erase gone asked ((key, value) ∷ others) =
      let rest = lookup-erase gone asked others in
      ground (arith, rest, eq_iff key gone, eq_iff key asked, eq_iff gone asked)

  pub lookup-insert_self : (k : String) (v : V) (m : Dict V) → lookup k (insert k v m) ≡ some v
  lookup-insert_self k v m = simp (lookup-insert, eq_refl)

  -- m[k], where a missing key reads as the zero value.
  unfoldable pub read : V → String → Dict V → V
  read z k m = elim (lookup k m) [ none ↦ z | some v ↦ v ]

  pub read-insert :
      (z : V) (k j : String) (v : V) (m : Dict V)
      → read z j (insert k v m) ≡ (if str_eq k j then v else read z j m)
  unfolding read
  read-insert z k j v m = ground (arith, lookup-insert k j v m)

  pub read-erase :
      (z : V) (k j : String) (m : Dict V)
      → read z j (erase k m) ≡ (if str_eq k j then z else read z j m)
  unfolding read
  read-erase z k j m = ground (arith, lookup-erase k j m)

  -- A number summed over the values.
  abbrev pub total : (V → ℕ) → Dict V → ℕ
  total f [] = 0
  total f ((j, v) ∷ m) = f v + total f m

  -- A write replaces the key's share of the sum.
  pub total-insert :
      (f : V → ℕ) (z : V) (k : String) (v : V) (m : Dict V)
      → f z ≡ 0
      → total f (insert k v m) + f (read z k m) ≡ total f m + f v
  unfolding insert read lookup
  total-insert f z k v [] h = omega arith
  total-insert f z k v ((j, w) ∷ m) h = ground (arith, total-insert f z k v m h)

  -- No key stands twice.
  abbrev pub Distinct : Dict V → Type ℓ
  Distinct [] = Unit
  Distinct ((j, v) ∷ m) = (lookup j m ≡ none) × Distinct m

  pub insert-Distinct : (k : String) (v : V) (m : Dict V) → Distinct m → Distinct (insert k v m)
  unfolding insert lookup
  insert-Distinct k v [] d = (refl, tt)
  insert-Distinct k v ((j, w) ∷ m) d =
      ground (arith, insert-Distinct k v m d.1, lookup-insert k j v m, eq_iff j k, eq_iff k j)

  pub erase-Distinct : (k : String) (m : Dict V) → Distinct m → Distinct (erase k m)
  unfolding erase
  erase-Distinct k [] d = tt
  erase-Distinct k ((j, w) ∷ m) d =
      ground (arith, erase-Distinct k m d.1, lookup-erase k j m, eq_iff j k, eq_iff k j)

  erase_missing : (f : V → ℕ) (k : String) (m : Dict V) → lookup k m ≡ none → erase k m ≡ m
  unfolding erase lookup
  erase_missing f k [] h = refl
  erase_missing f k ((j, w) ∷ m) h = ground (arith, erase_missing f k m)

  -- A delete takes the key's share off the sum.
  pub total-erase :
      (f : V → ℕ) (z : V) (k : String) (m : Dict V)
      → f z ≡ 0
      → Distinct m
      → total f (erase k m) + f (read z k m) ≡ total f m
  unfolding erase read lookup
  total-erase f z k [] h d = omega arith
  total-erase f z k ((j, w) ∷ m) h d =
      ground (arith, total-erase f z k m h d.1, erase_missing f k m, eq_iff j k)

  -- The second of two writes of a key wins.
  pub insert-insert : (k : String) (v w : V) (m : Dict V) → insert k v (insert k w m) ≡ insert k v m
  unfolding insert
  insert-insert k v w [] = ground (arith, eq_refl k)
  insert-insert k v w ((j, u) ∷ m) = ground (arith, insert-insert k v w m, eq_refl k)

  -- To write what a key has changes nothing.
  pub insert-lookup_self :
      (k : String) (v : V) (m : Dict V) → lookup k m ≡ some v → insert k v m ≡ m
  unfolding insert lookup
  insert-lookup_self k v [] h = cc
  insert-lookup_self k v ((j, w) ∷ m) h = ground (arith, insert-lookup_self k v m, eq_iff j k)

  -- A value that is not the zero value stands under its key.
  pub lookup_of_read :
      (z : V) (k : String) (v : V) (m : Dict V) → read z k m ≡ v → v ≢ z → lookup k m ≡ some v
  unfolding read
  lookup_of_read z k v m h ne = ground (arith, h, ne)

  pub erase-nil : (k : String) → erase k [] ≡ []
  unfolding erase
  erase-nil k = refl

  -- Whether a key stands, as a number.
  abbrev pub standing : Option V → ℕ
  standing none = 0
  standing (some v) = 1

  pub length-insert :
      (k : String) (v : V) (m : Dict V)
      → length (insert k v m) + standing (lookup k m) ≡ suc (length m)
  unfolding insert lookup
  length-insert k v [] = omega arith
  length-insert k v ((j, w) ∷ m) = ground (arith, length-insert k v m)

  pub length-erase :
      (k : String) (m : Dict V) → Distinct m → length (erase k m) + standing (lookup k m) ≡ length m
  unfolding erase lookup
  length-erase k [] d = omega arith
  length-erase k ((j, w) ∷ m) d =
      ground (arith, length-erase k m d.1, erase_missing (λ v. 0) k m, eq_iff j k)
