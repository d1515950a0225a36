-- ===== src/Twitter/Entities/Bytes.antt =====
-- The offsets in bytes that src/util.rs finds, for a text in two or more parts.
use pipitor.Base.{
  ℕ, zero, suc, ◌+◌, ◌-◌, ◌≤◌, List, [], ◌∷◌, ◌++◌, append_assoc, none, some, leb, ltb, ◌==◌, false,
  length, take, drop, if◌then◌else◌, ◌≡◌, refl, sym, ap, ◌∙◌, ◌&&◌, arith, Bool-cases, inl, inr,
}
use pipitor.Twitter.Entities.{
  len_utf8, byte_len, split_at, count, char_index_to_byte_index, replace_range, replace_from,
  replace_char_range, replaced, absent, wrapping_sub,
}

len_utf8-positive : (c : ℕ) → 1 ≤ len_utf8 c
unfolding len_utf8
len_utf8-positive c = ground arith

pub byte_len-append : (a b : List ℕ) → byte_len (a ++ b) ≡ byte_len a + byte_len b
unfolding byte_len
byte_len-append [] b = omega arith
byte_len-append (c ∷ a) b = omega (arith, byte_len-append a b)

pub take-drop {ℓ} : {A : Type ℓ} (n : ℕ) (s : List A) → take n s ++ drop n s ≡ s
take-drop zero s = refl
take-drop (suc n) [] = refl
take-drop (suc n) (c ∷ s) = ap (λ t. c ∷ t) (take-drop n s)

pub split_at-append : (a b : List ℕ) → split_at (a ++ b) (byte_len a) ≡ some (a, b)
unfolding split_at byte_len
split_at-append [] [] = refl
split_at-append [] (c ∷ b) = refl
split_at-append (c ∷ a) b =
    let positive : 1 ≤ len_utf8 c = len_utf8-positive c in
    let rest : len_utf8 c + byte_len a - len_utf8 c ≡ byte_len a = omega arith in
    let nonzero : ((len_utf8 c + byte_len a) == 0) ≡ false = ground arith in
    let fits : ltb (len_utf8 c + byte_len a) (len_utf8 c) ≡ false = ground arith in
    rw (nonzero, fits, rest, split_at-append a b)

count_lem :
    (s : List ℕ) (bi ci k : ℕ)
    → count s bi ci (suc (ci + k))
      ≡ (if ltb k (length s) then some (bi + byte_len (take (suc k) s)) else none)
unfolding count byte_len
count_lem [] bi ci k = ground arith
count_lem (c ∷ s) bi ci zero = ground arith
count_lem (c ∷ s) bi ci (suc k) = ground (arith, count_lem s (bi + len_utf8 c) (suc ci) k)

-- A text has the offsets of its first characters, up to its end.
pub char_index_to_byte_index_lem :
    (s : List ℕ) (i : ℕ)
    → char_index_to_byte_index s i ≡ (if leb i (length s) then some (byte_len (take i s)) else none)
unfolding char_index_to_byte_index byte_len
char_index_to_byte_index_lem s zero = ground arith
char_index_to_byte_index_lem s (suc k) = ground (arith, count_lem s 0 0 k)

pub replace_range_lem :
    (kept old after with : List ℕ)
    → replace_range (kept ++ old ++ after) (byte_len kept) (byte_len kept + byte_len old) with
      ≡ some (kept ++ with ++ after)
unfolding replace_range
replace_range_lem kept old after with = rw (
  replace_range,
  sym (byte_len-append kept old),
  split_at-append (kept ++ old) after,
  split_at-append kept old,
)

whole : (kept rest : List ℕ) (n : ℕ) → kept ++ rest ≡ kept ++ take n rest ++ drop n rest
whole kept rest n =
    sym (append_assoc kept (take n rest) (drop n rest) ∙ ap (λ t. kept ++ t) (take-drop n rest))

module _ (with : List ℕ) where
  replace_from_lem :
      (kept rest : List ℕ) (n : ℕ)
      → replace_from (kept ++ rest) (byte_len kept) n with ≡ (
          if leb n (length rest)
          then replaced (byte_len kept) (kept ++ with ++ drop n rest)
          else absent)
  unfolding replace_from
  replace_from_lem kept rest n =
      rw (replace_from, split_at-append kept rest, char_index_to_byte_index_lem rest n)
        (elim (Bool-cases (leb n (length rest))) [
          | inr e ↦ rw e
          | inl e ↦
              rw (e, whole kept rest n)
                (rw (replace_range_lem kept (take n rest) (drop n rest) with))
        ])

  -- After the part of the text that is done, the characters of the range are replaced.
  pub replace_char_range_lem :
      (kept rest : List ℕ) (p q : ℕ)
      → replace_char_range (kept ++ rest) (byte_len kept) p q with ≡ (
          if leb p (length rest) && leb (wrapping_sub q p) (length (drop p rest))
          then replaced
              (byte_len (kept ++ take p rest))
              ((kept ++ take p rest) ++ with ++ drop (wrapping_sub q p) (drop p rest))
          else absent)
  unfolding replace_char_range
  replace_char_range_lem kept rest p q =
      rw (replace_char_range, split_at-append kept rest, char_index_to_byte_index_lem rest p)
        (elim (Bool-cases (leb p (length rest))) [
          | inr e ↦ rw e
          | inl e ↦
              rw (e, whole kept rest p, sym (byte_len-append kept (take p rest)))
                (replace_from_lem (kept ++ take p rest) (drop p rest) (wrapping_sub q p))
        ])
