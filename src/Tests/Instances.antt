-- ===== src/Tests/Instances.antt =====
-- The theorems on several programs of one manifest, at concrete moves.
use pipitor.Base.{ℕ, true, false, List, [], ◌∷◌, some, ◌≡◌, refl}
use pipitor.Commands.Instances.{
  Move, goes, dies, start, go, die, step, run_all, is_inside, is_bound,
}
use pipitor.Commands.Instances.Exclusive.{run_all-exclusive}
use pipitor.Commands.Instances.Left.{run_all-left}

-- The first program serves, and the second one is refused.
abbrev two : List (ℕ × Move)
two = (0, goes true) ∷ (0, goes true) ∷ (1, goes true) ∷ (0, goes true) ∷ (1, goes true) ∷ []

run_all-exclusive_example :
    (is_inside ((run_all two start).phase 1) ≡ true → ◌≡◌ {A = ℕ} 1 0)
    × (is_bound ((run_all two start).phase 0) ≡ true → (run_all two start).socket ≡ some 0)
unfolding run_all step go is_inside
run_all-exclusive_example = run_all-exclusive two 0 1 refl

-- The first program is killed while it serves; the second one starts.
abbrev killed : List (ℕ × Move)
killed = (0, goes true) ∷ (0, goes true) ∷ (0, goes true) ∷ (0, dies) ∷ []

abbrev restarted : List (ℕ × Move)
restarted = (1, goes true) ∷ (1, goes true) ∷ (1, goes true) ∷ []

run_all-left_example :
    ((run_all restarted (run_all killed start)).socket ≡ some 0)
    × (is_bound ((run_all restarted (run_all killed start)).phase 1) ≡ false)
unfolding run_all step go die is_bound
run_all-left_example = run_all-left killed restarted 0 1 refl refl
