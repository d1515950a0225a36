-- ===== src/Util/ConcatBody.antt =====
-- src/util/concat_body.rs: the future that reads a whole body. A body is a stream of chunks, in which
-- `none` is an error.
use pipitor.Base.{
  ℕ, List, [], ◌∷◌, ◌++◌, append_assoc, append-nil, Option, none, some, ◌≡◌, refl, sym, ap, ◌∙◌,
}

pub data State : Type 0 where
  init : State
  once streaming : List ℕ → State

-- A chunk in the loop of `poll`.
unfoldable pub add : State → List ℕ → State
add init chunk = once chunk
add (once first) chunk = streaming (first ++ chunk)
add (streaming buf) chunk = streaming (buf ++ chunk)

-- `mem::replace`, after the loop.
unfoldable pub finish : State → List ℕ
finish init = []
finish (once buf) = buf
finish (streaming buf) = buf

unfoldable pub poll : State → List (Option (List ℕ)) → Option (List ℕ)
unfolding add finish
poll state [] = some (finish state)
poll state (none ∷ chunks) = none
poll state (some chunk ∷ chunks) = poll (add state chunk) chunks

unfoldable pub concat_body : List (Option (List ℕ)) → Option (List ℕ)
unfolding poll
concat_body chunks = poll init chunks

abbrev pub flat : List (List ℕ) → List ℕ
flat [] = []
flat (c ∷ cs) = c ++ flat cs

-- The chunks, if none of them is an error.
abbrev pub chunks_of : List (Option (List ℕ)) → Option (List (List ℕ))
chunks_of [] = some []
chunks_of (none ∷ cs) = none
chunks_of (some c ∷ cs) = elim (chunks_of cs) [ none ↦ none | some rest ↦ some (c ∷ rest) ]

-- What the state holds.
held-add : (s : State) (chunk : List ℕ) → finish (add s chunk) ≡ finish s ++ chunk
unfolding finish add
held-add init chunk = refl
held-add (once first) chunk = refl
held-add (streaming buf) chunk = refl

abbrev joined : List ℕ → Option (List (List ℕ)) → Option (List ℕ)
joined before none = none
joined before (some cs) = some (before ++ flat cs)

joined-cons :
    (before c : List ℕ) (rest : Option (List (List ℕ)))
    → joined (before ++ c) rest
      ≡ joined before (elim rest [ none ↦ none | some cs ↦ some (c ∷ cs) ])
joined-cons before c none = refl
joined-cons before c (some cs) = ap some (append_assoc before c (flat cs))

poll_lem :
    (s : State) (body : List (Option (List ℕ))) → poll s body ≡ joined (finish s) (chunks_of body)
unfolding poll finish add
poll_lem s [] = ap some (sym (append-nil (finish s)))
poll_lem s (none ∷ body) = refl
poll_lem s (some c ∷ body) =
    poll_lem (add s c) body
    ∙ ap (λ before. joined before (chunks_of body)) (held-add s c)
    ∙ joined-cons (finish s) c (chunks_of body)

-- The body is its chunks one after the other, if none of them is an error.
pub concat_body_lem :
    (body : List (Option (List ℕ))) → concat_body body ≡ joined [] (chunks_of body)
unfolding concat_body finish
concat_body_lem body = poll_lem init body
