-- ===== src/Websub/Callback.antt =====
-- src/websub.rs: the callback ids. Texts are lists of bytes.
-- The crate `base64` (with `URL_SAFE_NO_PAD`) and the test of `http` for a URI are the parameter
-- `Library`.
mod Bytes
use pipitor.Base.{
  String, Bool, ℕ, ◌+◌, ◌-◌, ◌*◌, ◌/◌, ◌^◌, ◌<◌, ◌≤◌, List, ◌++◌, ltb, if◌then◌else◌, length,
  replicate, All, Option, none, some, ◌≡◌, arith, ap, sym, subst, ◌∙◌,
}
use Bytes.{
  take_to_nonzero, from_le-le_bytes, le_bytes-All, length-le_bytes, take_to_nonzero-split,
  All-prefix,
}
use Bytes.{le_bytes, from_le}

pub record Library : Type 0 where
  pub encode : List ℕ → List ℕ
  pub decode : List ℕ → Option (List ℕ)
  pub decode-encode : (bs : List ℕ) → All (λ b. b < 256) bs → decode (encode bs) ≡ some bs
  pub length-encode : (bs : List ℕ) → length (encode bs) ≡ (4 * length bs + 2) / 3
  -- What `http::Request::post` takes.
  pub is_uri : String → Bool

-- `i64::to_le_bytes`, at a number that is not negative.
abbrev pub to_le_bytes : ℕ → List ℕ
to_le_bytes = le_bytes 8

module _ (b : Library) where
  unfoldable pub encode_callback_id : List ℕ → List ℕ
  unfolding take_to_nonzero
  encode_callback_id id = b.encode (take_to_nonzero id)

  -- `buf` starts with nine zeros, and its first eight bytes are the number.
  decode_slice : List ℕ → Option ℕ
  decode_slice bytes =
      if ltb 8 (length bytes)
      then none
      else some (from_le (bytes ++ replicate (8 - length bytes) 0))

  decode_bytes : Option (List ℕ) → Option ℕ
  unfolding decode_slice
  decode_bytes none = none
  decode_bytes (some bytes) = decode_slice bytes

  unfoldable pub decode_callback_id : List ℕ → Option ℕ
  unfolding decode_bytes
  decode_callback_id id = if ltb 11 (length id) then none else decode_bytes (b.decode id)

  decode_slice_prefix :
      (n k : ℕ) (bs : List ℕ)
      → length bs + k ≡ 8
      → from_le (bs ++ replicate k 0) ≡ n
      → decode_slice bs ≡ some n
  unfolding decode_slice
  decode_slice_prefix n k bs h e =
      let pad : 8 - length bs ≡ k = omega arith in
      ground (arith, ap (λ j. from_le (bs ++ replicate j 0)) pad)

  decode_callback_id-encode :
      (bs : List ℕ)
      → All (λ x. x < 256) bs
      → length bs ≤ 8
      → decode_callback_id (b.encode bs) ≡ decode_slice bs
  unfolding decode_callback_id
  decode_callback_id-encode bs small short =
      ground (arith, b.decode-encode bs small, b.length-encode bs)

  -- Every id that fits eight bytes is read back from its callback.
  pub decode-encode_callback_id :
      (id : ℕ) → id < 2 ^ 64 → decode_callback_id (encode_callback_id (to_le_bytes id)) ≡ some id
  unfolding encode_callback_id
  decode-encode_callback_id id h =
      let bytes : List ℕ = to_le_bytes id in
      let (k, whole, size) = take_to_nonzero-split bytes in
      let sized : length (take_to_nonzero bytes) + k ≡ 8 = size ∙ length-le_bytes 8 id in
      let small : All (λ x. x < 256) (take_to_nonzero bytes) =
        All-prefix _ _ (replicate k 0) (subst (All (λ x. x < 256)) whole (le_bytes-All 8 id)) in
      decode_callback_id-encode (take_to_nonzero bytes) small (omega arith)
      ∙ decode_slice_prefix id k _ sized (ap from_le (sym whole) ∙ from_le-le_bytes 8 id h)
