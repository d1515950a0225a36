-- ===== src/Websub/Service/Call/Push.antt =====
-- Pushed feeds: what reaches the channel, and what a removed subscription answers.
use pipitor.Base.{
  ℕ, ◌^◌, ◌<◌, String, Bool, true, false, List, [], ◌∷◌, ◌++◌, ◌==◌, ◌≡◌, ◌↔◌, find, Option, none,
  some, refl, sym, ap, ◌∙◌, arith, append_assoc, Option-cases, inl, inr, ==_refl, retain, not,
  append-nil,
}
use pipitor.Websub.Callback.{Library}
use pipitor.Websub.Address.{Uri, CallbackId, callback_id, make_callback, callback_id-make_callback}
use pipitor.Websub.Store.{Db, Subscription, delete_subscriptions}
use pipitor.Websub.Hub.{done}
use pipitor.Websub.Service.{answered}
use pipitor.Websub.Service.Call.{
  HttpRequest, Mac, Parsers, Task, Called, empty_response, split_signature, bytes_eq, sha1, refuse,
  push_to, check_signature, push, media_type, call, fold_body, verify_signature, dispatch, sent,
}
use pipitor.Feed.MediaType.{MediaType}

bytes_eq-eq : (xs ys : List ℕ) → bytes_eq xs ys ≡ true → xs ≡ ys
bytes_eq-eq [] [] h = refl
bytes_eq-eq [] (y ∷ ys) h = ground arith
bytes_eq-eq (x ∷ xs) [] h = ground arith
bytes_eq-eq (x ∷ xs) (y ∷ ys) h = ground (arith, bytes_eq-eq xs ys)

bytes_eq_refl : (xs : List ℕ) → bytes_eq xs xs ≡ true
bytes_eq_refl [] = refl
bytes_eq_refl (x ∷ xs) = ground (arith, ==_refl x, bytes_eq_refl xs)

prepend : List ℕ → Option (List ℕ) → Option (List ℕ)
prepend chunk none = none
prepend chunk (some rest) = some (chunk ++ rest)

none-ne-some {ℓ} : {A : Type ℓ} {a : A} → none ≡ some a → ⊥
none-ne-some h = cc

-- The content of a body whose chunks all arrived.
unfoldable pub content_of : List (Option (List ℕ)) → Option (List ℕ)
unfolding prepend
content_of [] = some []
content_of (none ∷ chunks) = none
content_of (some chunk ∷ chunks) = prepend chunk (content_of chunks)

module _ (m : Mac) where
  open m use {State, start, update, finalize, update-update, update-nil}

  -- `fold_body` from any accumulator.
  folded : List ℕ → State → Option (List ℕ) → Option (List ℕ × State)
  folded content mac none = none
  folded content mac (some rest) = some (content ++ rest, update mac rest)

  folded-prepend :
      (content chunk : List ℕ) (mac : State) (o : Option (List ℕ))
      → folded (content ++ chunk) (update mac chunk) o ≡ folded content mac (prepend chunk o)
  unfolding folded prepend
  folded-prepend content chunk mac none = refl
  folded-prepend content chunk mac (some rest) = rw (append_assoc, update-update)

  fold_body-content_of :
      (content : List ℕ) (mac : State) (body : List (Option (List ℕ)))
      → fold_body m content mac body ≡ folded content mac (content_of body)
  unfolding fold_body folded content_of
  fold_body-content_of content mac [] = rw (append-nil content, update-nil mac)
  fold_body-content_of content mac (none ∷ chunks) = refl
  fold_body-content_of content mac (some chunk ∷ chunks) =
      fold_body-content_of (content ++ chunk) (update mac chunk) chunks
      ∙ folded-prepend content chunk mac (content_of chunks)

  module _ {F : Type 0} (p : Parsers F) (t : Task) (body : List (Option (List ℕ))) (topic : String)
      (feed : F) where
    -- The code of the whole content under the secret is the signature, and the content is a feed.
    abbrev pub IsAuthentic : List ℕ → Type 0
    IsAuthentic content =
        (finalize (update (start t.secret) content) ≡ t.signature)
        × (p.feed t.kind content ≡ some feed)
        × (topic ≡ t.topic)

    sent-IsAuthentic :
        (content : List ℕ)
        → sent m p t (folded [] (start t.secret) (some content)) ≡ some (topic, feed)
        → IsAuthentic content
    unfolding sent folded
    sent-IsAuthentic content h =
        ground (arith, bytes_eq-eq (finalize (update (start t.secret) content)) t.signature)

    IsAuthentic-sent :
        (content : List ℕ)
        → IsAuthentic content
        → sent m p t (folded [] (start t.secret) (some content)) ≡ some (topic, feed)
    unfolding sent folded
    IsAuthentic-sent content (code, parsed, same) =
        rw (code, bytes_eq_refl t.signature, parsed, same)

    sent_of_content :
        (o : Option (List ℕ))
        → content_of body ≡ o
        → verify_signature m p true t body ≡ sent m p t (folded [] (start t.secret) o)
    unfolding verify_signature
    sent_of_content o e =
        ap (sent m p t) (fold_body-content_of [] (start t.secret) body)
        ∙ ap (λ c. sent m p t (folded [] (start t.secret) c)) e

    sent-none : sent m p t (folded [] (start t.secret) none) ≡ none
    unfolding sent folded
    sent-none = refl

    verify_signature_open :
        (verify_signature m p true t body ≡ some (topic, feed))
        ↔ ((content : List ℕ) × (content_of body ≡ some content) × IsAuthentic content)
    verify_signature_open = (
      λ h. elim (Option-cases (content_of body)) [
        | inl e ↦ absurd (none-ne-some (sym (sent_of_content none e ∙ sent-none) ∙ h))
        | inr (content, e) ↦
            (content, e, sent-IsAuthentic content (sym (sent_of_content (some content) e) ∙ h))
      ],
      λ (content, e, authentic).
          sent_of_content (some content) e ∙ IsAuthentic-sent content authentic,
    )

    -- A feed is sent to the channel exactly when the channel is open, the whole body arrived, its code under the
    -- subscription's secret is the signature of the request, and it parses as that feed.
    pub verify_signature_iff :
        (is_open : Bool)
        → (verify_signature m p is_open t body ≡ some (topic, feed)) ↔ (
            (is_open ≡ true)
            × (content : List ℕ) × (content_of body ≡ some content)
            × IsAuthentic content)
    unfolding verify_signature
    verify_signature_iff true = (
      λ h. let (content, whole, is) = verify_signature_open.0 h in (refl, content, whole, is),
      λ (_, content, whole, is). verify_signature_open.1 (content, whole, is),
    )
    verify_signature_iff false = (λ h. absurd (none-ne-some h), λ (e, _, _, _). absurd (cc e))

module _ {F : Type 0} (b : Library) (callback : Uri) (p : Parsers F) (margin now : ℕ)
    (req : HttpRequest) (d : Db) where
  -- The subscription that the task is about, and what the response leaves.
  abbrev pub IsTaskOf : MediaType → List ℕ → ℕ → Task → Called → Type 0
  IsTaskOf kind signature id t c =
      (s : Subscription) × (find (λ q. q.id == id) d.subscriptions ≡ some s)
      × (t.kind ≡ kind)
      × (t.signature ≡ signature)
      × (t.topic ≡ s.topic)
      × (t.secret ≡ s.secret)
      × (c.answer ≡ answered (empty_response 200) d)

  push_to-IsTaskOf :
      (kind : MediaType) (signature : List ℕ) (id : ℕ) (t : Task) (c : Called)
      → push_to b callback p kind signature id d ≡ done c
      → c.task ≡ some t
      → IsTaskOf kind signature id t c
  unfolding push_to
  push_to-IsTaskOf kind signature id t c run e = ground arith

  -- A header `sha1=...` whose digits are the signature.
  abbrev pub IsSigned : List ℕ → List ℕ → Type 0
  IsSigned header signature =
      (digits : List ℕ) × (split_signature header ≡ some (sha1, digits))
      × (p.hex 20 digits ≡ some signature)

  check_signature-IsTaskOf :
      (kind : MediaType) (o : Option (List ℕ × List ℕ)) (id : ℕ) (t : Task) (c : Called)
      → check_signature b callback p kind o id d ≡ done c
      → c.task ≡ some t
      → (digits : List ℕ) × (o ≡ some (sha1, digits))
        × (p.hex 20 digits ≡ some t.signature)
        × IsTaskOf kind t.signature id t c
  unfolding check_signature push_to
  check_signature-IsTaskOf kind none id t c run e = ground arith
  check_signature-IsTaskOf kind (some (method, digits)) id t c run e =
      (digits, ground (arith, bytes_eq-eq method sha1), ground arith, ground arith)

  -- The headers of a push, and the task that they lead to.
  abbrev pub IsPush : Option MediaType → Option (List ℕ) → ℕ → Task → Called → Type 0
  IsPush k g id t c =
      (kind : MediaType) × (header : List ℕ) × (k ≡ some kind)
      × (g ≡ some header)
      × IsSigned header t.signature
      × IsTaskOf kind t.signature id t c

  push-IsPush :
      (k : Option MediaType) (g : Option (List ℕ)) (id : ℕ) (t : Task) (c : Called)
      → push b callback p k g id d ≡ done c
      → c.task ≡ some t
      → IsPush k g id t c
  unfolding push
  push-IsPush none g id t c run e = ground arith
  push-IsPush (some kind) none id t c run e = ground arith
  push-IsPush (some kind) (some header) id t c run e =
      let (digits, o, hex, task) =
        check_signature-IsTaskOf kind (split_signature header) id t c run e in
      (kind, header, refl, refl, (digits, o, hex), task)

  dispatch-IsPush :
      (i : CallbackId) (query : Option String) (t : Task) (c : Called)
      → dispatch b callback p margin now i req query d ≡ done c
      → c.task ≡ some t
      → (id : ℕ) × (i ≡ CallbackId.found id)
        × (query ≡ none)
        × IsPush (media_type b callback p req.content_type) req.signature id t c
  unfolding dispatch
  dispatch-IsPush CallbackId.not_found query t c run e = ground arith
  dispatch-IsPush CallbackId.bad_request query t c run e = ground arith
  dispatch-IsPush (CallbackId.found id) (some q) t c run e = ground arith
  dispatch-IsPush (CallbackId.found id) none t c run e =
      (id, refl, refl, push-IsPush _ _ id t c run e)

  -- A request spawns a task only if it is a push, with no query part, to the callback of a stored
  -- subscription, of a feed's media type and with a `sha1` signature; the task then checks that
  -- signature with that subscription's secret, and the answer is 200 and changes nothing.
  pub call-IsPush :
      (t : Task) (c : Called)
      → call b callback p margin now req d ≡ done c
      → c.task ≡ some t
      → (id : ℕ) × (callback_id b callback req.path ≡ CallbackId.found id)
        × (req.query ≡ none)
        × IsPush (media_type b callback p req.content_type) req.signature id t c
  unfolding call
  call-IsPush t c run e = dispatch-IsPush _ _ t c run e

-- No deleted row is found.
find-retain :
    (p : Subscription → Bool) (rs : List Subscription) → find p (retain (λ s. not (p s)) rs) ≡ none
find-retain p [] = refl
find-retain p (s ∷ rs) = ground (arith, find-retain p rs)

module _ {F : Type 0} (b : Library) (callback : Uri) (p : Parsers F) where
  -- A signed push to a subscription that was removed is answered with 410, so that the hub ends
  -- the subscription.
  call-unsubscribe :
      (margin now id : ℕ) (d : Db) (req : HttpRequest) (kind : MediaType)
      (header digits signature : List ℕ)
      → id < 2 ^ 63
      → req.path ≡ (make_callback b callback id).path
      → req.query ≡ none
      → media_type b callback p req.content_type ≡ some kind
      → req.signature ≡ some header
      → split_signature header ≡ some (sha1, digits)
      → p.hex 20 digits ≡ some signature
      → let d' = delete_subscriptions (λ s. s.id == id) d in
        call b callback p margin now req d' ≡ refuse 410 d'
  unfolding call dispatch push check_signature push_to delete_subscriptions
  call-unsubscribe margin now id d req kind header digits signature small path query media signed
        split hex =
      rw (
        path,
        callback_id-make_callback b callback id small,
        query,
        media,
        signed,
        split,
        hex,
        find-retain (λ s. s.id == id) d.subscriptions,
        push_to,
      )
