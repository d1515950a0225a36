-- ===== src/Websub/Callback/Bytes.antt =====
-- Little-endian bytes, and the removal of the most significant zeroes.
use mathlib.Core.List.{reverse, reverse-append, reverse-reverse, reverse-cons}
use pipitor.Base.{
  ℕ, zero, suc, ◌+◌, ◌-◌, ◌*◌, ◌/◌, ◌%◌, ◌^◌, ◌<◌, Bool, true, false, not, List, [], ◌∷◌, ◌++◌,
  ◌==◌, if◌then◌else◌, length, length-append, take, replicate, All, Option, none, some, ◌≡◌, refl,
  arith, append-nil, ap, sym, ◌∙◌, Bool-cases, Option-cases, inl, inr, ==_iff,
}
use mathlib.Core.Option
use native.Mathlib.Nat.{pow-suc}

-- `Iterator::position`.
pub position : (ℕ → Bool) → List ℕ → Option ℕ
position p [] = none
position p (x ∷ xs) = if p x then some 0 else Option.map suc (position p xs)

-- `id.iter().rev().position(|&b| b != 0).unwrap_or(id.len())`.
pub zeroes : List ℕ → ℕ
unfolding position
zeroes id = Option.get_or (position (λ b. not (b == 0)) (reverse id)) (length id)

unfoldable pub take_to_nonzero : List ℕ → List ℕ
unfolding zeroes
take_to_nonzero id = take (length id - zeroes id) id

-- The `k` low bytes of a number.
unfoldable pub le_bytes : ℕ → ℕ → List ℕ
le_bytes zero n = []
le_bytes (suc k) n = n % 256 ∷ le_bytes k (n / 256)

-- `u64::from_le_bytes`.
unfoldable pub from_le : List ℕ → ℕ
from_le [] = 0
from_le (x ∷ xs) = x + 256 * from_le xs

pub length-le_bytes : (k n : ℕ) → length (le_bytes k n) ≡ k
unfolding le_bytes
length-le_bytes zero n = refl
length-le_bytes (suc k) n = ap suc (length-le_bytes k (n / 256))

pub le_bytes-All : (k n : ℕ) → All (λ b. b < 256) (le_bytes k n)
unfolding le_bytes
le_bytes-All zero n = tt
le_bytes-All (suc k) n = (omega arith, le_bytes-All k (n / 256))

pub from_le-le_bytes : (k n : ℕ) → n < 256 ^ k → from_le (le_bytes k n) ≡ n
unfolding from_le le_bytes
from_le-le_bytes zero n h = omega arith
from_le-le_bytes (suc k) n h =
    let fits : n / 256 < 256 ^ k = omega (arith, pow-suc 256 k) in
    omega (arith, from_le-le_bytes k (n / 256) fits)

pub from_le-zeros : (k : ℕ) (xs : List ℕ) → from_le (xs ++ replicate k 0) ≡ from_le xs
unfolding from_le
from_le-zeros zero [] = refl
from_le-zeros (suc k) [] = omega (arith, from_le-zeros k [])
from_le-zeros k (x ∷ xs) = omega (arith, from_le-zeros k xs)

-- The leading zeros of a list, as `position` counts them.
leading : List ℕ → ℕ
unfolding position
leading ys = Option.get_or (position (λ b. not (b == 0)) ys) (length ys)

leading-cons : (y : ℕ) (ys : List ℕ) → leading (y ∷ ys) ≡ (if y == 0 then suc (leading ys) else 0)
unfolding leading
leading-cons y ys = ground (arith, Option-cases (position (λ b. not (b == 0)) ys))

leading_zero : (y : ℕ) (ys : List ℕ) → (y == 0) ≡ true → leading (y ∷ ys) ≡ suc (leading ys)
leading_zero y ys e = ground (arith, leading-cons y ys)

leading_nonzero : (y : ℕ) (ys : List ℕ) → (y == 0) ≡ false → leading (y ∷ ys) ≡ 0
leading_nonzero y ys e = ground (arith, leading-cons y ys)

unsplit_zero :
    {n k : ℕ} (y : ℕ) {ys : List ℕ} (zs : List ℕ)
    → n ≡ suc k
    → y ≡ 0
    → ys ≡ replicate k 0 ++ zs
    → y ∷ ys ≡ replicate n 0 ++ zs
unsplit_zero y zs e z s = rw (e, z, s)

leading-split : (ys : List ℕ) → (zs : List ℕ) × (ys ≡ replicate (leading ys) 0 ++ zs)
unfolding leading
leading-split [] = ([], refl)
leading-split (y ∷ ys) = elim (Bool-cases (y == 0)) [
  | inl e ↦
      let (zs, split) = leading-split ys in
      (zs, unsplit_zero y zs (leading_zero y ys e) ((==_iff y 0).0 e) split)
  | inr e ↦ (y ∷ ys, ap (λ n. replicate n 0 ++ y ∷ ys) (sym (leading_nonzero y ys e)))
]

replicate-append-cons :
    (k : ℕ) (x : ℕ) (xs : List ℕ) → replicate k x ++ x ∷ xs ≡ x ∷ replicate k x ++ xs
replicate-append-cons zero x xs = refl
replicate-append-cons (suc k) x xs = ap (◌∷◌ x) (replicate-append-cons k x xs)

reverse-replicate : (k : ℕ) (x : ℕ) → reverse (replicate k x) ≡ replicate k x
reverse-replicate zero x = refl
reverse-replicate (suc k) x =
    reverse-cons x (replicate k x)
    ∙ rw (reverse-replicate k x) (replicate-append-cons k x [] ∙ ap (◌∷◌ x) (append-nil _))

take_of_append : (n : ℕ) (xs ys : List ℕ) → length xs ≡ n → take n (xs ++ ys) ≡ xs
take_of_append zero [] ys h = refl
take_of_append zero (x ∷ xs) ys h = absurd (omega arith)
take_of_append (suc n) [] ys h = absurd (omega arith)
take_of_append (suc n) (x ∷ xs) ys h = ap (◌∷◌ x) (take_of_append n xs ys (omega arith))

length-replicate : (k x : ℕ) → length (replicate k x) ≡ k
length-replicate zero x = refl
length-replicate (suc k) x = ap suc (length-replicate k x)

length-reverse : (xs : List ℕ) → length (reverse xs) ≡ length xs
length-reverse [] = refl
length-reverse (x ∷ xs) =
    ap length (reverse-cons x xs)
    ∙ omega (arith, length-append (reverse xs) (x ∷ []), length-reverse xs)

zeroes-leading : (id : List ℕ) → zeroes id ≡ leading (reverse id)
unfolding zeroes leading
zeroes-leading id =
    ap (Option.get_or (position (λ b. not (b == 0)) (reverse id))) (sym (length-reverse id))

trailing-split : (id : List ℕ) → (front : List ℕ) × (id ≡ front ++ replicate (zeroes id) 0)
trailing-split id =
    let (zs, split) = leading-split (reverse id) in
    (
      reverse zs,
      sym (reverse-reverse id)
          ∙ ap reverse split
          ∙ reverse-append (replicate (leading (reverse id)) 0) zs
          ∙ ap (◌++◌ (reverse zs)) (reverse-replicate (leading (reverse id)) 0)
          ∙ ap (λ n. reverse zs ++ replicate n 0) (sym (zeroes-leading id)),
    )

-- What `take_to_nonzero` drops is zeros.
pub take_to_nonzero-split :
    (id : List ℕ)
    → (k : ℕ) × (id ≡ take_to_nonzero id ++ replicate k 0)
      × (length (take_to_nonzero id) + k ≡ length id)
unfolding take_to_nonzero
take_to_nonzero-split id =
    let (front, whole) = trailing-split id in
    let k : ℕ = zeroes id in
    let size : length id ≡ length front + k =
      ap length whole ∙ omega (arith, length-append front (replicate k 0), length-replicate k 0) in
    let kept : take (length id - k) id ≡ front =
      ap (take (length id - k)) whole
      ∙ take_of_append (length id - k) front (replicate k 0) (omega arith) in
    (k, rw kept whole, omega (arith, ap length kept))

pub All-prefix {κ} : (P : ℕ → Type κ) (xs ys : List ℕ) → All P (xs ++ ys) → All P xs
All-prefix P [] ys h = tt
All-prefix P (x ∷ xs) ys h = (h.0, All-prefix P xs ys h.1)
