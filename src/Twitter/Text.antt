-- ===== src/Twitter/Text.antt =====
-- src/twitter/text.rs. A text is the list of its characters' code points.
use pipitor.Base.{
  ℕ, suc, ◌+◌, ◌-◌, ◌*◌, ◌/◌, ◌%◌, ◌^◌, ◌≤◌, ◌<◌, List, [], ◌∷◌, ◌++◌, ltb, leb, if◌then◌else◌,
  length, length-append, take, ◌≡◌, refl, arith, Bool-cases, inl, inr, ltb→lt, zero,
}

abbrev pub max_weighted_tweet_length : ℕ
max_weighted_tweet_length = 280

abbrev pub transformed_url_length : ℕ
transformed_url_length = 23

-- `max_len - 1` wraps in a release build.
unfoldable pub sanitize : List ℕ → ℕ → List ℕ
sanitize s max_len =
    if ltb (max_len / 2) (length s)
    then take ((max_len / 2 + 2 ^ 64 - 1) % 2 ^ 64) s ++ 0x2026 ∷ []
    else s

length-take : (n : ℕ) (s : List ℕ) → n ≤ length s → length (take n s) ≡ n
length-take zero s h = refl
length-take (suc n) [] h = absurd (omega arith)
length-take (suc n) (c ∷ s) h = omega (arith, length-take n s (omega arith))

-- A sanitized text takes at most half of the limit in characters, each of which weighs at most 2;
-- a text that is short enough is left alone, and a longer one ends with an ellipsis.
pub length-sanitize :
    (s : List ℕ) (max_len : ℕ)
    → 2 ≤ max_len
    → max_len < 2 ^ 64
    → (2 * length (sanitize s max_len) ≤ max_len)
      × (sanitize s max_len
          ≡ (if leb (length s) (max_len / 2) then s else take (max_len / 2 - 1) s ++ 0x2026 ∷ []))
unfolding sanitize
length-sanitize s max_len two small =
    let n : ℕ = max_len / 2 in
    let wrap : (n + 2 ^ 64 - 1) % 2 ^ 64 ≡ n - 1 = omega arith in
    elim (Bool-cases (ltb (max_len / 2) (length s))) [
      | inl e ↦ (
        rw (e, wrap)
            (omega (
              arith,
              ltb→lt _ _ e,
              length-append (take (n - 1) s) (0x2026 ∷ []),
              length-take (n - 1) s (omega (arith, ltb→lt _ _ e)),
            )),
        rw (e, wrap) (ground arith),
      )
      | inr e ↦ (rw e (ground arith), rw e (ground arith))
    ]
