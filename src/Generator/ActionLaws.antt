-- ===== src/Generator/ActionLaws.antt =====
-- Lists of the actions of GenerateManifests (pkg/generator/manifests.go), and what a file system makes of
-- them.
use fi_mcp_kit.Base.{◌≡◌, refl, ◌∙◌, ap, String, Bool, true, false, List, [], ◌∷◌, ◌++◌, map}
use fi_mcp_kit.Base.Run.{Run, returns, panics}
use fi_mcp_kit.Base.Value.{Value}
use fi_mcp_kit.Generator.Manifests.{
  Action, make_dir, write_yaml, deref_nil, marshal_error, act, go_on, run_actions,
}

-- The paths that are written.
abbrev pub paths : List Action → List String
paths [] = []
paths (write_yaml p v ∷ actions) = p ∷ paths actions
paths (_ ∷ actions) = paths actions

pub paths-append : (a b : List Action) → paths (a ++ b) ≡ paths a ++ paths b
paths-append [] b = refl
paths-append (make_dir p ∷ a) b = paths-append a b
paths-append (write_yaml p v ∷ a) b = ap (λ l. p ∷ l) (paths-append a b)
paths-append (deref_nil ∷ a) b = paths-append a b
paths-append (marshal_error ∷ a) b = paths-append a b

pub append_nil {ℓ} : {A : Type ℓ} (l : List A) → l ++ [] ≡ l
append_nil [] = refl
append_nil (x ∷ l) = ap (λ t. x ∷ t) (append_nil l)

pub append_assoc {ℓ} : {A : Type ℓ} (a b c : List A) → (a ++ b) ++ c ≡ a ++ (b ++ c)
append_assoc [] b c = refl
append_assoc (x ∷ a) b c = ap (λ t. x ∷ t) (append_assoc a b c)

pub map_append : (f : String → String) (a b : List String) → map f (a ++ b) ≡ map f a ++ map f b
map_append f [] b = refl
map_append f (x ∷ a) b = ap (λ l. f x ∷ l) (map_append f a b)

-- What a file system makes of two lists of actions: the second starts where the first has worked.
module _ {W : Type 0} (mkdir : String → W → Bool × W) (write : String → Value → W → Bool × W) where
  go_on-go_on :
      (f g : W → Run (Bool × W)) (r : Run (Bool × W))
      → go_on mkdir write (λ w. go_on mkdir write g (f w)) r
        ≡ go_on mkdir write g (go_on mkdir write f r)
  go_on-go_on f g panics = refl
  go_on-go_on f g (returns (false, w)) = refl
  go_on-go_on f g (returns (true, w)) = refl

  nothing_left : (r : Run (Bool × W)) → go_on mkdir write (run_actions mkdir write []) r ≡ r
  unfolding run_actions
  nothing_left panics = refl
  nothing_left (returns (false, w)) = refl
  nothing_left (returns (true, w)) = refl

  run_actions-append :
      (a b : List Action) (w : W)
      → run_actions mkdir write (a ++ b) w
        ≡ go_on mkdir write (run_actions mkdir write b) (run_actions mkdir write a w)
  unfolding run_actions
  run_actions-append [] b w = refl
  run_actions-append (x ∷ a) b w =
      ap (λ f. go_on mkdir write f (act mkdir write x w)) (λ i t. run_actions-append a b t i)
      ∙ go_on-go_on (run_actions mkdir write a) (run_actions mkdir write b) (act mkdir write x w)

-- On every file system, `last` is run exactly where all of `before` have worked.
abbrev pub RunsLast : List Action → Action → List Action → Type 1
RunsLast before last actions =
    (W : Type 0) (mkdir : String → W → Bool × W) (write : String → Value → W → Bool × W) (w : W)
    → run_actions mkdir write actions w
      ≡ go_on mkdir write (act mkdir write last) (run_actions mkdir write before w)

pub append-RunsLast :
    (before : List Action) (last : Action) → RunsLast before last (before ++ last ∷ [])
unfolding run_actions
append-RunsLast before last W mkdir write w =
    run_actions-append mkdir write before (last ∷ []) w
    ∙ ap (λ f. go_on mkdir write f (run_actions mkdir write before w))
        (λ i t. nothing_left mkdir write (act mkdir write last t) i)
