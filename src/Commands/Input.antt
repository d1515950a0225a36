-- ===== src/Commands/Input.antt =====
-- `input_verifier` of src/bin/pipitor/twitter_login.rs: the loop that asks for a PIN.
use pipitor.Base.{ℕ, zero, suc, List, [], ◌∷◌, Option, none, some, ◌≡◌, refl}

-- What the standard input gives next: a line, or an error.
pub data Line (S : Type 0) : Type 0 where
  entered : S → Line S
  failed : Line S

-- `stdin.next()`: `none` at the end of the input, which is then given again each time.
abbrev next_line : {S : Type 0} → List (Line S) → Option (Line S)
next_line [] = none
next_line (l ∷ ls) = some l

-- The number of prompts, and the line that is returned, if any is within the fuel.
unfoldable pub input_verifier : {S : Type 0} → ℕ → List (Line S) → ℕ × Option (Line S)
input_verifier zero stdin = (0, none)
input_verifier (suc fuel) stdin = elim (next_line stdin) [
  | some l ↦ (1, some l)
  | none ↦ let (prompts, line) = input_verifier fuel stdin in (suc prompts, line)
]

input_verifier-nil : {S : Type 0} (fuel : ℕ) → input_verifier {S = S} fuel [] ≡ (fuel, none)
unfolding input_verifier
input_verifier-nil zero = refl
input_verifier-nil {S} (suc fuel) = rw (input_verifier-nil {S = S} fuel) refl

-- A line or an error is returned after one prompt; at the end of the input the loop prompts for ever.
pub input_verifier_lem :
    {S : Type 0} (fuel : ℕ) (l : Line S) (ls : List (Line S))
    → (input_verifier (suc fuel) (l ∷ ls) ≡ (1, some l))
      × (input_verifier {S = S} fuel [] ≡ (fuel, none))
unfolding input_verifier
input_verifier_lem {S} fuel l ls = (refl, input_verifier-nil {S = S} fuel)
