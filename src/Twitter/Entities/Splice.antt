-- ===== src/Twitter/Entities/Splice.antt =====
-- `expand_urls` of src/twitter/models.rs against the replacement of ranges of characters.
use pipitor.Base.{
  ℕ, zero, suc, ◌+◌, ◌-◌, ◌^◌, ◌≤◌, ◌<◌, List, [], ◌∷◌, ◌++◌, append_assoc, some, Bool, true, false,
  ◌&&◌, leb, ltb, length, take, drop, if◌then◌else◌, All, ◌≡◌, refl, sym, ap, ◌∙◌, arith, leb→le,
  Bool-cases, inl, inr,
}
use pipitor.Twitter.Entities.{
  byte_len, replace_char_range, replaced, absent, wrapping_sub, Url, Entities, Invalid,
  start_after_end, overlap, out_of_range, Expanded, expanded, invalid, sort_by_start, merged,
  expand_each, expand_urls,
}
use pipitor.Twitter.Entities.Bytes.{byte_len-append, replace_char_range_lem}

-- The URLs follow each other from the character at `off` to the end of a text of `len`.
unfoldable pub is_spaced : ℕ → ℕ → List Url → Bool
is_spaced off len [] = true
is_spaced off len (u ∷ us) =
    leb u.start u.end && leb off u.start && leb u.end len && is_spaced u.end len us

-- `rest`, which starts at the character at `off`, with the URLs in place of their ranges.
unfoldable pub splice : ℕ → List ℕ → List Url → List ℕ
splice off rest [] = rest
splice off rest (u ∷ us) =
    take (u.start - off) rest ++ u.expanded_url ++ splice u.end (drop (u.end - off) rest) us

-- No URL ends at a character whose index is below the number of bytes that precede `rest` in the
-- expanded text.
unfoldable pub is_within : ℕ → ℕ → List ℕ → List Url → Bool
is_within bytes off rest [] = true
is_within bytes off rest (u ∷ us) =
    leb bytes u.end
    && is_within (bytes + byte_len (take (u.start - off) rest) + byte_len u.expanded_url) u.end
        (drop (u.end - off) rest) us

-- The indices fit in a `usize`.
abbrev pub IsUsize : Url → Type 0
IsUsize u = (u.start < 2 ^ 64) × (u.end < 2 ^ 64)

length-drop : {A : Type 0} (n : ℕ) (s : List A) → length (drop n s) ≡ length s - n
length-drop zero s = omega arith
length-drop (suc n) [] = omega arith
length-drop (suc n) (c ∷ s) = omega (arith, length-drop n s)

drop-nil : {A : Type 0} (n : ℕ) → drop {A = A} n [] ≡ []
drop-nil zero = refl
drop-nil (suc n) = refl

drop-drop : {A : Type 0} (m n : ℕ) (s : List A) → drop m (drop n s) ≡ drop (n + m) s
drop-drop m zero s = ap (λ k. drop k s) (omega arith)
drop-drop m (suc n) [] = drop-nil m ∙ sym (drop-nil (suc n + m))
drop-drop m (suc n) (c ∷ s) =
    drop-drop m n s ∙ ap (λ k. drop k (c ∷ s)) {x = suc (n + m)} (omega arith)

wrapping_sub_lem : (a b : ℕ) → a < 2 ^ 64 → b ≤ a → wrapping_sub a b ≡ a - b
unfolding wrapping_sub
wrapping_sub_lem a b small h = omega arith

wrapping_sub-wraps : (a b : ℕ) → b < 2 ^ 64 → a < b → wrapping_sub a b ≡ 2 ^ 64 + a - b
unfolding wrapping_sub
wrapping_sub-wraps a b small h = omega arith

-- A range of characters is replaced if it lies in the text that is left.
replace-range :
    (kept rest : List ℕ) (off : ℕ) (u : Url)
    → off + length rest < 2 ^ 64
    → IsUsize u
    → u.start ≤ u.end
    → replace_char_range
        (kept ++ rest)
        (byte_len kept)
        (wrapping_sub u.start off)
        (wrapping_sub u.end off)
        u.expanded_url
      ≡ (if leb off u.start && leb u.end (off + length rest)
          then replaced
              (byte_len (kept ++ take (u.start - off) rest))
              (kept ++ take (u.start - off) rest ++ u.expanded_url ++ drop (u.end - off) rest)
          else absent)
replace-range kept rest off u small (s_small, e_small) order =
    rw
      (replace_char_range_lem u.expanded_url kept rest (wrapping_sub u.start off)
        (wrapping_sub u.end off))
      (elim (Bool-cases (leb off u.start)) [
        | inr e ↦
            let far : leb (2 ^ 64 + u.start - off) (length rest) ≡ false = ground arith in
            rw (e, wrapping_sub-wraps u.start off (omega arith) (ground arith), far) refl
        | inl e ↦
            let le : off ≤ u.start = leb→le _ _ e in
            let sum : u.start - off + (u.end - off - (u.start - off)) ≡ u.end - off = omega arith in
            let tests : (leb (u.start - off) (length rest)
                  && leb (u.end - off - (u.start - off)) (length rest - (u.start - off)))
                ≡ leb u.end (off + length rest) =
              ground arith in
            rw
              (
                e,
                wrapping_sub_lem u.start off s_small le,
                wrapping_sub_lem u.end off e_small (omega arith),
                wrapping_sub_lem (u.end - off) (u.start - off) (omega arith) (omega arith),
                drop-drop (u.end - off - (u.start - off)) (u.start - off) rest,
                length-drop (u.start - off) rest,
                sum,
                tests,
              )
              refl
      ])

-- What becomes of the URLs from `u` on: they are expanded, or refused.
abbrev pub Meets : Expanded (List ℕ) → Bool → Bool → List ℕ → Type 0
Meets r true within text = r ≡ (if within then expanded text else invalid overlap)
Meets r false within text = (e : Invalid) × (r ≡ invalid e)

Meets-overlap : (spaced : Bool) (text : List ℕ) → Meets (invalid overlap) spaced false text
Meets-overlap true text = refl
Meets-overlap false text = (overlap, refl)

expand_each_lem :
    (us : List Url) (kept rest : List ℕ) (off : ℕ)
    → off + length rest < 2 ^ 64
    → All IsUsize us
    → Meets
        (expand_each (kept ++ rest) (byte_len kept) off us)
        (is_spaced off (off + length rest) us)
        (is_within (byte_len kept) off rest us)
        (kept ++ splice off rest us)
unfolding expand_each is_spaced is_within splice
expand_each_lem [] kept rest off small usize = refl
expand_each_lem (u ∷ us) kept rest off small (u_usize, usize) =
    elim (Bool-cases (leb u.start u.end)) [
      | inr e ↦
          let after : ltb u.end u.start ≡ true = ground arith in
          rw (e, after) (start_after_end, refl)
      | inl ordered ↦
          let order : u.start ≤ u.end = leb→le _ _ ordered in
          let not_after : ltb u.end u.start ≡ false = ground arith in
          rw (ordered, not_after, replace-range kept rest off u small u_usize order)
            (elim (Bool-cases (leb off u.start && leb u.end (off + length rest))) [
              | inr far ↦ rw far (elim (Bool-cases (ltb u.end (byte_len kept))) [
                | inl low ↦ rw low (overlap, refl)
                | inr high ↦ rw high (out_of_range, refl)
              ])
              | inl near ↦ rw near (elim (Bool-cases (ltb u.end (byte_len kept))) [
                | inl low ↦
                    let below : leb (byte_len kept) u.end ≡ false = ground arith in
                    rw (low, below) (Meets-overlap (is_spaced u.end (off + length rest) us) _)
                | inr high ↦
                    let above : leb (byte_len kept) u.end ≡ true = ground arith in
                    let before : List ℕ = take (u.start - off) rest in
                    let after : List ℕ = drop (u.end - off) rest in
                    let same : u.end + length after ≡ off + length rest =
                      ground (arith, length-drop (u.end - off) rest) in
                    let ih =
                      expand_each_lem us (kept ++ before ++ u.expanded_url) after u.end
                        (omega (arith, same)) usize in
                    let tail : List ℕ = splice u.end after us in
                    rw
                      (
                        high,
                        above,
                        sym same,
                        sym (append_assoc kept (before ++ u.expanded_url) tail),
                        sym (append_assoc kept before u.expanded_url),
                        sym (byte_len-append kept before),
                        sym (byte_len-append (kept ++ before) u.expanded_url),
                      )
                      ih
              ])
            ])
    ]

-- The texts of at most 2 ^ 64 bytes and indices in a `usize` that `expand_urls` is given.
module _ (text : List ℕ) (e : Entities) where
  abbrev pub urls : List Url
  urls = sort_by_start (merged e)

  -- If the URLs of a Tweet, its media among them, follow each other within its text, then each is in
  -- place of its range of characters in the result, unless one of them ends at a character whose index is
  -- below the number of bytes before it in the result, for which the Tweet is refused as overlapping;
  -- if they do not, then the Tweet is refused. No slice panics.
  pub expand_urls-Meets :
      length text < 2 ^ 64
      → All IsUsize urls
      → Meets
          (expand_urls text (some e))
          (is_spaced 0 (length text) urls)
          (is_within 0 0 text urls)
          (splice 0 text urls)
  unfolding expand_urls byte_len
  expand_urls-Meets small usize =
      rw (ap (λ n. is_spaced 0 n urls) {x = length text} {y = 0 + length text} (omega arith))
        (expand_each_lem urls [] text 0 (omega arith) usize)
