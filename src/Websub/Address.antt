-- ===== src/Websub/Address.antt =====
-- Callback addresses: `hub::make_callback`, `subscriber::prepare_callback_prefix` and the way in
-- which `Service::call` reads the id of a request's path.
-- A `Uri` (of the crate `http`) is cut into what stands before the path and the path, in bytes;
-- `de_callback` has refused a callback with a query part.
use pipitor.Base.{
  ℕ, ◌^◌, ◌<◌, String, Bool, true, false, List, [], ◌∷◌, ◌++◌, ◌==◌, ltb, if◌then◌else◌, Option,
  none, some, ◌≡◌, refl, arith, ==_refl, Bool-cases, inl, inr,
}
use pipitor.Websub.Callback.{
  Library, to_le_bytes, encode_callback_id, decode_callback_id, decode-encode_callback_id,
}

pub record Uri : Type 0 where
  pub origin : String
  pub path : List ℕ

-- `str::strip_prefix`.
pub strip_prefix : List ℕ → List ℕ → Option (List ℕ)
strip_prefix [] s = some s
strip_prefix (p ∷ ps) [] = none
strip_prefix (p ∷ ps) (c ∷ s) = if p == c then strip_prefix ps s else none

-- `str::ends_with`, of one byte.
unfoldable pub ends_with : ℕ → List ℕ → Bool
ends_with c [] = false
ends_with c (x ∷ []) = x == c
ends_with c (x ∷ y ∷ s) = ends_with c (y ∷ s)

unfoldable pub prepare_callback_prefix : Uri → Uri
unfolding ends_with
prepare_callback_prefix prefix =
    if ends_with b'/' prefix.path then prefix else record prefix { path = prefix.path ++ b'/' ∷ [] }

-- What `Service::call` makes of the path of a request.
pub data CallbackId : Type 0 where
  found : ℕ → CallbackId
  bad_request not_found : CallbackId

module _ (b : Library) where
  unfoldable pub make_callback : Uri → ℕ → Uri
  make_callback prefix id = record prefix {
    path = prefix.path ++ encode_callback_id b (to_le_bytes id);
  }

  -- `i64::try_from`.
  to_id : Option ℕ → CallbackId
  to_id none = CallbackId.bad_request
  to_id (some n) = if ltb n (2 ^ 63) then CallbackId.found n else CallbackId.bad_request

  stripped_id : Option (List ℕ) → CallbackId
  unfolding to_id
  stripped_id none = CallbackId.not_found
  stripped_id (some text) = to_id (decode_callback_id b text)

  unfoldable pub callback_id : Uri → List ℕ → CallbackId
  unfolding stripped_id strip_prefix
  callback_id callback path = stripped_id (strip_prefix callback.path path)

  strip_prefix-append : (ps s : List ℕ) → strip_prefix ps (ps ++ s) ≡ some s
  unfolding strip_prefix
  strip_prefix-append [] s = refl
  strip_prefix-append (p ∷ ps) s = rw (==_refl p) (strip_prefix-append ps s)

  -- A request to the callback that was made for an id is read as that id.
  pub callback_id-make_callback :
      (callback : Uri) (n : ℕ)
      → n < 2 ^ 63
      → callback_id callback (make_callback callback n).path ≡ CallbackId.found n
  unfolding callback_id make_callback
  callback_id-make_callback callback n h =
      rw
        (
          strip_prefix-append callback.path (encode_callback_id b (to_le_bytes n)),
          decode-encode_callback_id b n (omega arith),
          stripped_id,
        )
        (ground arith)

ends_with-append : (c : ℕ) (s : List ℕ) → ends_with c (s ++ c ∷ []) ≡ true
unfolding ends_with
ends_with-append c [] = ==_refl c
ends_with-append c (x ∷ []) = ==_refl c
ends_with-append c (x ∷ y ∷ s) = ends_with-append c (y ∷ s)

-- A prepared prefix ends with a slash, and preparing it again leaves it as it is.
pub prepare_callback_prefix_lem :
    (u : Uri)
    → (ends_with b'/' (prepare_callback_prefix u).path ≡ true)
      × (prepare_callback_prefix (prepare_callback_prefix u) ≡ prepare_callback_prefix u)
unfolding prepare_callback_prefix
prepare_callback_prefix_lem u = elim (Bool-cases (ends_with b'/' u.path)) [
  | inl e ↦ (rw (e, e), rw (e, e))
  | inr e ↦ (rw (e, ends_with-append b'/' u.path), rw (e, ends_with-append b'/' u.path))
]
