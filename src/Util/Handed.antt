-- ===== src/Util/Handed.antt =====
-- How src/util/serde_wrapper.rs, `serde_delegate` and `deserialize_from_str` of src/util.rs, and `Addr` of
-- src/socket.rs take a text from a deserializer, which hands it over in one of several forms. A text is the
-- list of its bytes. The crate `serde` forwards a form that a visitor does not take to another one.
use pipitor.Base.{ℕ, Bool, List, Option, none, some, if◌then◌else◌, ◌≡◌, refl, Bool-cases, inl, inr}
use pipitor.Base.Options.{◌>>=◌}
use mathlib.Core.Option
use pipitor.Util.Socket.{Addr, visit_str, visit_string, visit_string-visit_str}

pub data Handed : Type 0 where
  str borrowed_str string : List ℕ → Handed
  bytes borrowed_bytes byte_buf : List ℕ → Handed
  other : Handed

-- `Cow<str>`.
pub data Cow : Type 0 where
  borrowed owned : List ℕ → Cow

abbrev pub text_of_cow : Cow → List ℕ
text_of_cow (borrowed s) = s
text_of_cow (owned s) = s

-- The forms that serde forwards to: those of a `str` to `visit_str`, those of bytes to `visit_bytes`.
pub record Forwards (forward : Handed → Handed) : Type 0 where
  pub borrowed_str_to : (s : List ℕ) → forward (borrowed_str s) ≡ str s
  pub string_to : (s : List ℕ) → forward (string s) ≡ str s
  pub borrowed_bytes_to : (v : List ℕ) → forward (borrowed_bytes v) ≡ bytes v
  pub byte_buf_to : (v : List ℕ) → forward (byte_buf v) ≡ bytes v
  pub other_to : forward other ≡ other

-- `is_utf8` is the test of `str::from_utf8` and `String::from_utf8`.
module _ (is_utf8 : List ℕ → Bool) where
  abbrev pub from_utf8 : List ℕ → Option (List ℕ)
  from_utf8 v = if is_utf8 v then some v else none

  -- The text, whatever its form.
  abbrev pub text_of : Handed → Option (List ℕ)
  text_of (str s) = some s
  text_of (borrowed_str s) = some s
  text_of (string s) = some s
  text_of (bytes v) = from_utf8 v
  text_of (borrowed_bytes v) = from_utf8 v
  text_of (byte_buf v) = from_utf8 v
  text_of other = none

  -- `Serde<Cow<str>>::deserialize`, which takes every form.
  unfoldable pub cow : Handed → Option Cow
  cow (str s) = some (owned s)
  cow (borrowed_str s) = some (borrowed s)
  cow (string s) = some (owned s)
  cow (bytes v) = from_utf8 v >>= λ s. some (owned s)
  cow (borrowed_bytes v) = from_utf8 v >>= λ s. some (borrowed s)
  cow (byte_buf v) = from_utf8 v >>= λ s. some (owned s)
  cow other = none

  pub cow-text_of : (h : Handed) → Option.map text_of_cow (cow h) ≡ text_of h
  unfolding cow
  cow-text_of (str s) = refl
  cow-text_of (borrowed_str s) = refl
  cow-text_of (string s) = refl
  cow-text_of (bytes v) = elim (Bool-cases (is_utf8 v)) [ inl e ↦ rw e refl | inr e ↦ rw e refl ]
  cow-text_of (borrowed_bytes v) = elim (Bool-cases (is_utf8 v)) [
    | inl e ↦ rw e refl
    | inr e ↦ rw e refl
  ]
  cow-text_of (byte_buf v) = elim (Bool-cases (is_utf8 v)) [ inl e ↦ rw e refl | inr e ↦ rw e refl ]
  cow-text_of other = refl

  -- `Serde<Regex>::deserialize`.
  unfoldable pub regex : {R : Type 0} → (List ℕ → Option R) → Handed → Option R
  unfolding cow
  regex parse h = cow h >>= λ c. parse (text_of_cow c)

  module _ (forward : Handed → Handed) (f : Forwards forward) where
    -- The visitors of `deserialize_from_str`, and of `Filter` for a text, take `str` and bytes.
    abbrev take_two : {T : Type 0} → (List ℕ → Option T) → Handed → Option T
    take_two parse (str s) = parse s
    take_two parse (borrowed_str s) = none
    take_two parse (string s) = none
    take_two parse (bytes v) = from_utf8 v >>= parse
    take_two parse (borrowed_bytes v) = none
    take_two parse (byte_buf v) = none
    take_two parse other = none

    unfoldable pub deserialize_from_str : {T : Type 0} → (List ℕ → Option T) → Handed → Option T
    deserialize_from_str parse (str s) = parse s
    deserialize_from_str parse (bytes v) = from_utf8 v >>= parse
    deserialize_from_str parse h = take_two parse (forward h)

    pub deserialize_from_str-text_of :
        {T : Type 0} (parse : List ℕ → Option T) (h : Handed)
        → deserialize_from_str parse h ≡ (text_of h >>= parse)
    unfolding deserialize_from_str
    deserialize_from_str-text_of parse (str s) = refl
    deserialize_from_str-text_of parse (borrowed_str s) = rw (f.borrowed_str_to s) refl
    deserialize_from_str-text_of parse (string s) = rw (f.string_to s) refl
    deserialize_from_str-text_of parse (bytes v) = refl
    deserialize_from_str-text_of parse (borrowed_bytes v) = rw (f.borrowed_bytes_to v) refl
    deserialize_from_str-text_of parse (byte_buf v) = rw (f.byte_buf_to v) refl
    deserialize_from_str-text_of parse other = rw f.other_to refl

    module _ {S : Type 0} (parse : List ℕ → Option S) where
      -- The visitor of `Addr` takes owned texts too.
      abbrev take_addr : Handed → Option (Addr S)
      take_addr (str s) = visit_str parse s
      take_addr (borrowed_str s) = none
      take_addr (string s) = visit_string parse s
      take_addr (bytes v) = from_utf8 v >>= visit_str parse
      take_addr (borrowed_bytes v) = none
      take_addr (byte_buf v) = from_utf8 v >>= visit_string parse
      take_addr other = none

      unfoldable pub addr : Handed → Option (Addr S)
      addr (borrowed_str s) = take_addr (forward (borrowed_str s))
      addr (borrowed_bytes v) = take_addr (forward (borrowed_bytes v))
      addr h = take_addr h

      pub addr-text_of : (h : Handed) → addr h ≡ (text_of h >>= visit_str parse)
      unfolding addr
      addr-text_of (str s) = refl
      addr-text_of (borrowed_str s) = rw (f.borrowed_str_to s) refl
      addr-text_of (string s) = visit_string-visit_str parse s
      addr-text_of (bytes v) = refl
      addr-text_of (borrowed_bytes v) = rw (f.borrowed_bytes_to v) refl
      addr-text_of (byte_buf v) = elim (Bool-cases (is_utf8 v)) [
        | inl e ↦ rw e (visit_string-visit_str parse v)
        | inr e ↦ rw e refl
      ]
      addr-text_of other = refl
