-- ===== src/Base/Ints.antt =====
-- Sets of integers, as lists.
use Prim.Native.Nat.{◌≤◌, ◌<◌}
use mathlib.Core.Path.{◌≡◌, refl}
use mathlib.Core.Bool.{Bool, true, false, not, ◌&&◌}
use mathlib.Core.Logic.{inl, inr}
use mathlib.Core.List.{List, [], ◌∷◌}
use native.Mathlib.Omega.{arith}
use pipitor.Base.Tests.{if◌then◌else◌, Bool-cases}
use pipitor.Base.Lists.{length, any, retain, All}
use pipitor.Base.Int.{ℤ, int_eq, int_eq_iff}

abbrev pub int_in : ℤ → List ℤ → Bool
int_in a = any (λ x. int_eq x a)

-- `collect::<HashSet<_>>()`.
abbrev pub int_set : List ℤ → List ℤ
int_set [] = []
int_set (x ∷ xs) = if int_in x xs then int_set xs else x ∷ int_set xs

-- No integer stands twice in the list.
abbrev pub UniqueInts : List ℤ → Type 0
UniqueInts [] = Unit {0}
UniqueInts (x ∷ xs) = (int_in x xs ≡ false) × UniqueInts xs

pub int_in-int_set : (a : ℤ) (xs : List ℤ) → int_in a (int_set xs) ≡ int_in a xs
int_in-int_set a [] = refl
int_in-int_set a (x ∷ xs) = ground (arith, int_in-int_set a xs, int_eq_iff x a)

pub int_set-UniqueInts : (xs : List ℤ) → UniqueInts (int_set xs)
int_set-UniqueInts [] = tt
int_set-UniqueInts (x ∷ xs) = ground (arith, int_set-UniqueInts xs, int_in-int_set x xs)

pub int_in-retain :
    (a : ℤ) (p : ℤ → Bool) (xs : List ℤ) → int_in a (retain p xs) ≡ (p a && int_in a xs)
int_in-retain a p [] = ground arith
int_in-retain a p (x ∷ xs) = ground (arith, int_in-retain a p xs, int_eq_iff x a)

-- The integers but one.
abbrev pub without : ℤ → List ℤ → List ℤ
without a = retain (λ x. not (int_eq x a))

length-without_le : (a : ℤ) (xs : List ℤ) → length (without a xs) ≤ length xs
length-without_le a [] = omega arith
length-without_le a (x ∷ xs) = ground (arith, length-without_le a xs)

length-without : (a : ℤ) (xs : List ℤ) → int_in a xs ≡ true → length (without a xs) < length xs
length-without a [] h = ground arith
length-without a (x ∷ xs) h = ground (arith, length-without a xs, length-without_le a xs)

keeps :
    (a x : ℤ) (ys : List ℤ)
    → int_eq x a ≡ false
    → int_in x ys ≡ true
    → int_in x (without a ys) ≡ true
keeps a x ys ne h = ground (arith, int_in-retain x (λ z. not (int_eq z a)) ys)

distinct : (a : ℤ) (xs : List ℤ) → int_in a xs ≡ false → All (λ x. int_eq x a ≡ false) xs
distinct a [] h = tt
distinct a (x ∷ xs) h = ground (arith, distinct a xs)

All-kept :
    (a : ℤ) (xs ys : List ℤ)
    → int_in a xs ≡ false
    → All (λ x. int_in x ys ≡ true) xs
    → All (λ x. int_in x (without a ys) ≡ true) xs
All-kept a [] ys h k = tt
All-kept a (x ∷ xs) ys h k = ground (arith, keeps a x ys, All-kept a xs ys)

-- Distinct integers that stand in a list are not more than the list is long.
pub length-subset :
    (xs ys : List ℤ) → UniqueInts xs → All (λ x. int_in x ys ≡ true) xs → length xs ≤ length ys
length-subset [] ys u h = omega arith
length-subset (x ∷ xs) ys u h =
    let shorter = length-subset xs (without x ys) u.1 (All-kept x xs ys u.0 h.1) in
    omega (arith, shorter, length-without x ys h.0)

-- If they are as many, every integer of the list is among them.
pub subset-full :
    (xs ys : List ℤ)
    → UniqueInts xs
    → All (λ x. int_in x ys ≡ true) xs
    → length ys ≡ length xs
    → (a : ℤ) → int_in a ys ≡ true
    → int_in a xs ≡ true
subset-full xs ys u h e a k = elim (Bool-cases (int_in a xs)) [
  | inl there ↦ there
  | inr missing ↦
      let shorter = length-subset xs (without a ys) u (All-kept a xs ys missing h) in
      absurd (omega (arith, shorter, length-without a ys k, e))
]
