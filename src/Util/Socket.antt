-- ===== src/Util/Socket.antt =====
-- `Addr` of src/socket.rs, as it is read from a text, the list of its bytes. The parse of an IP address
-- is the standard library's.
use pipitor.Base.{
  ℕ, List, [], ◌∷◌, Option, none, some, ◌==◌, if◌then◌else◌, ◌≡◌, refl, arith, Option-cases, inl,
  inr,
}

pub data Addr (S : Type 0) : Type 0 where
  tcp : S → Addr S
  unix : List ℕ → Addr S

-- `str::strip_prefix`.
unfoldable pub strip_prefix : List ℕ → List ℕ → Option (List ℕ)
strip_prefix [] s = some s
strip_prefix (p ∷ ps) [] = none
strip_prefix (p ∷ ps) (c ∷ s) = if p == c then strip_prefix ps s else none

-- `tcp://` and `unix://`.
abbrev pub tcp_prefix : List ℕ
tcp_prefix = b't' ∷ b'c' ∷ b'p' ∷ b':' ∷ b'/' ∷ b'/' ∷ []

abbrev pub unix_prefix : List ℕ
unix_prefix = b'u' ∷ b'n' ∷ b'i' ∷ b'x' ∷ b':' ∷ b'/' ∷ b'/' ∷ []

module _ {S : Type 0} (parse : List ℕ → Option S) where
  abbrev tcp_of : Option S → Option (Addr S)
  tcp_of none = none
  tcp_of (some addr) = some (tcp addr)

  abbrev unix_of : Option (List ℕ) → Option (Addr S)
  unix_of none = none
  unix_of (some path) = some (unix path)

  unfoldable pub visit_str : List ℕ → Option (Addr S)
  unfolding strip_prefix
  visit_str v = elim (strip_prefix tcp_prefix v) [
    | some addr ↦ tcp_of (parse addr)
    | none ↦ unix_of (strip_prefix unix_prefix v)
  ]

  -- With the path taken out of the text itself.
  unfoldable pub visit_string : List ℕ → Option (Addr S)
  unfolding strip_prefix visit_str
  visit_string v = elim (strip_prefix unix_prefix v) [
    | some path ↦ some (unix path)
    | none ↦ visit_str v
  ]

  -- No text starts with both prefixes.
  strip_prefix-unix :
      (v path : List ℕ) → strip_prefix unix_prefix v ≡ some path → strip_prefix tcp_prefix v ≡ none
  unfolding strip_prefix
  strip_prefix-unix [] path h = absurd (cc h)
  strip_prefix-unix (c ∷ s) path h = ground arith

  pub visit_string-visit_str : (v : List ℕ) → visit_string v ≡ visit_str v
  unfolding visit_string visit_str
  visit_string-visit_str v = elim (Option-cases (strip_prefix unix_prefix v)) [
    | inr (path, e) ↦ rw (visit_string, e) (rw (visit_str, strip_prefix-unix v path e) (rw e refl))
    | inl e ↦ rw (visit_string, e) refl
  ]
