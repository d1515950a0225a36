-- ===== src/Websub/Service/Call.antt =====
-- src/websub/subscriber/service.rs: `Service::call`, the handler of the subscriber's server, and
-- the task `verify_signature` that it spawns for a pushed feed.
pub mod Push
use pipitor.Base.{
  ℕ, ◌+◌, ◌^◌, String, Bool, true, false, List, [], ◌∷◌, ◌++◌, ◌==◌, ◌&&◌, ◌≡◌, find, Option, none,
  some, if◌then◌else◌,
}
use pipitor.Websub.Callback.{Library}
use pipitor.Websub.Address.{Uri, CallbackId, callback_id}
use pipitor.Websub.Store.{Db, Subscription}
use pipitor.Websub.Hub.{Request, Outcome, done, ◌>>=◌}
use pipitor.Websub.Service.{Verify, Response, Verified, answered, status_not_found, verify_intent}
use pipitor.Feed.MediaType.{MediaType, Mime, from_str}

-- The request that the server got. A body is a stream of chunks, in which `none` is an error.
pub record HttpRequest : Type 0 where
  pub path : List ℕ
  pub query : Option String
  pub content_type : Option (List ℕ)
  pub signature : Option (List ℕ)
  pub body : List (Option (List ℕ))

-- An incremental message authentication code, the crates `hmac` and `sha1`: absorbing two chunks
-- one after the other is absorbing them at once.
pub record Mac : Type 1 where
  pub State : Type 0
  pub start : List ℕ → State
  pub update : State → List ℕ → State
  pub finalize : State → List ℕ
  pub update-nil : (s : State) → update s [] ≡ s
  pub update-update : (s : State) (x y : List ℕ) → update (update s x) y ≡ update s (x ++ y)

-- The other crates: the parsers of the query, of the content type's header and of hexadecimal
-- digits into a buffer of the given length, and the feed parser.
pub record Parsers (F : Type 0) : Type 0 where
  pub verify : String → Option Verify
  pub mime : List ℕ → Option Mime
  pub hex : ℕ → List ℕ → Option (List ℕ)
  pub feed : MediaType → List ℕ → Option F

-- The spawned task `verify_signature`, less the body.
pub record Task : Type 0 where
  pub kind : MediaType
  pub signature : List ℕ
  pub topic : String
  pub secret : List ℕ

pub record Called : Type 0 where
  pub answer : Verified
  pub task : Option Task

abbrev pub empty_response : ℕ → Response
empty_response status = record { status = status; body = "" }

-- `signature_header.iter().position(|&b| b == b'=')` and the two sides of the split.
unfoldable pub split_signature : List ℕ → Option (List ℕ × List ℕ)
split_signature [] = none
split_signature (c ∷ s) =
    if c == b'='
    then some ([], s)
    else elim (split_signature s) [ none ↦ none | some (method, hex) ↦ some (c ∷ method, hex) ]

abbrev pub bytes_eq : List ℕ → List ℕ → Bool
bytes_eq [] [] = true
bytes_eq [] (y ∷ ys) = false
bytes_eq (x ∷ xs) [] = false
bytes_eq (x ∷ xs) (y ∷ ys) = x == y && bytes_eq xs ys

-- `b"sha1"`.
abbrev pub sha1 : List ℕ
sha1 = b's' ∷ b'h' ∷ b'a' ∷ b'1' ∷ []

abbrev pub refuse : ℕ → Db → Outcome Called
refuse status d = done (record { answer = answered (empty_response status) d; task = none })

module _ {F : Type 0} (b : Library) (callback : Uri) (p : Parsers F) where
  -- The lookup of the subscription and the task.
  unfoldable pub push_to : MediaType → List ℕ → ℕ → Db → Outcome Called
  push_to kind signature id d = elim (find (λ s. s.id == id) d.subscriptions) [
    | none ↦ refuse 410 d
    | some s ↦ done (record {
      answer = answered (empty_response 200) d;
      task =
          some (record { kind = kind; signature = signature; topic = s.topic; secret = s.secret });
    })
  ]

  -- The signature's method and digits.
  unfoldable pub check_signature : MediaType → Option (List ℕ × List ℕ) → ℕ → Db → Outcome Called
  unfolding push_to
  check_signature kind none id d = refuse 400 d
  check_signature kind (some (method, digits)) id d =
      if bytes_eq method sha1
      then elim (p.hex 20 digits) [
        | none ↦ refuse 400 d
        | some signature ↦ push_to kind signature id d
      ]
      else refuse 406 d

  unfoldable pub push : Option MediaType → Option (List ℕ) → ℕ → Db → Outcome Called
  unfolding check_signature
  push none header id d = refuse 415 d
  push (some kind) none id d = refuse 200 d
  push (some kind) (some header) id d = check_signature kind (split_signature header) id d

  -- The media type of the content type's header.
  abbrev pub media_type : Option (List ℕ) → Option MediaType
  media_type none = none
  media_type (some header) = from_str (p.mime header)

  unfoldable pub dispatch : ℕ → ℕ → CallbackId → HttpRequest → Option String → Db → Outcome Called
  unfolding push
  dispatch margin now CallbackId.not_found req query d = refuse 404 d
  dispatch margin now CallbackId.bad_request req query d = refuse 400 d
  dispatch margin now (CallbackId.found id) req (some q) d = do
    w ← verify_intent b callback margin now id (p.verify q) d
    done (record { answer = w; task = none })
  dispatch margin now (CallbackId.found id) req none d =
      push (media_type req.content_type) req.signature id d

  unfoldable pub call : ℕ → ℕ → HttpRequest → Db → Outcome Called
  unfolding dispatch
  call margin now req d = dispatch margin now (callback_id b callback req.path) req req.query d

module _ (m : Mac) where
  open m use {State, start, update, finalize}

  -- `try_fold`: the content and the code over the chunks, if none fails.
  unfoldable pub fold_body : List ℕ → State → List (Option (List ℕ)) → Option (List ℕ × State)
  fold_body content mac [] = some (content, mac)
  fold_body content mac (none ∷ chunks) = none
  fold_body content mac (some chunk ∷ chunks) =
      fold_body (content ++ chunk) (update mac chunk) chunks

  module _ {F : Type 0} (p : Parsers F) where
    unfoldable pub sent : Task → Option (List ℕ × State) → Option (String × F)
    sent t none = none
    sent t (some (content, mac)) =
        if bytes_eq (finalize mac) t.signature
        then elim (p.feed t.kind content) [ none ↦ none | some feed ↦ some (t.topic, feed) ]
        else none

    -- What the task sends to the channel, if the subscriber still has the receiver.
    unfoldable pub verify_signature : Bool → Task → List (Option (List ℕ)) → Option (String × F)
    unfolding sent
    verify_signature is_open t body =
        let it = sent t (fold_body [] (start t.secret) body) in if is_open then it else none
