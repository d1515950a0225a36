-- ===== src/Delivery/Genuine.antt =====
-- Where the feeds come from that reach the application.
use pipitor.Base.{
  ℕ, String, true, List, some, ◌≡◌, ap, subst, Option-cases, Bool-cases, inl, inr, ◌⊎◌,
}
use mathlib.Core.List.{Memᴰ}
use mathlib.Core.List.Memᴰ
use pipitor.Feed.MediaType.{MediaType}
use pipitor.Feed.Convert.{RawFeed, Feed, parse, to_feed}
use pipitor.Util.ConcatBody.{concat_body}
use pipitor.Websub.Callback.{Library}
use pipitor.Websub.Address.{Uri}
use pipitor.Websub.Service.Call.{HttpRequest, Mac, Parsers, Task}
use pipitor.Websub.Service.Call.Push.{content_of, IsAuthentic, verify_signature_iff}
use pipitor.Websub.Discovery.{
  Crates, Fetched, Found, found, discover, kind_of, take_hubs, parsed, read_body, read_response,
}
use pipitor.Websub.Lifecycle.{World, Reach}
use pipitor.Websub.Lifecycle.Pushes.{IsWanted, Reach-IsWanted}
use pipitor.Delivery.{Arrives, pushed, fetched}

found-sent : {x : String × Feed} {a r : Found} → found a ≡ found r → Memᴰ x r.sent → Memᴰ x a.sent
found-sent {x} {a} {r} e k = let same : r ≡ a = cc e in subst (λ (q : Found). Memᴰ x q.sent) same k

-- A discovery sends nothing but the feed that the response is, less the hubs.
module _ (crates : Crates) (topic : String) (f : Feed) where
  abbrev pub IsFetched : Fetched → Type 0
  IsFetched res =
      (kind : MediaType) × (content : List ℕ) × (raw : RawFeed) × (kind_of crates res.content_type
        ≡ some kind)
      × (concat_body res.body ≡ some content)
      × (parse crates.readers kind content ≡ some raw)
      × (f ≡ to_feed (take_hubs crates.declares raw).1)

  discover-IsFetched :
      (answer : Fetched) (r : Found)
      → discover crates true topic (some answer) ≡ found r
      → Memᴰ (topic, f) r.sent
      → IsFetched answer
  unfolding discover read_body parsed
  discover-IsFetched answer r e k = elim (Bool-cases (crates.is_uri topic)) [
    | inr bad ↦ absurd (cc (rw (discover, bad) at e))
    | inl good ↦ elim (Option-cases (kind_of crates answer.content_type)) [
      | inl n ↦ absurd (Memᴰ.not-nil (found-sent (rw (discover, good, read_response, n) at e) k))
      | inr (kind, y) ↦ elim (Option-cases (concat_body answer.body)) [
        | inl n ↦ absurd (cc (rw (discover, good, read_response, y, n) at e))
        | inr (content, whole) ↦ elim (Option-cases (parse crates.readers kind content)) [
          | inl n ↦
              absurd
                (Memᴰ.not-nil (found-sent (rw (discover, good, read_response, y, whole, n) at e) k))
          | inr (raw, is_feed) ↦
              let same =
                Memᴰ.eq_of_singleton
                  (found-sent (rw (discover, good, read_response, y, whole, is_feed) at e) k) in
              (kind, content, raw, y, whole, is_feed, ap (λ x. x.1) same)
        ]
      ]
    ]
  ]

module _ (b : Library) (callback : Uri) (m : Mac) (p : Parsers Feed) (crates : Crates)
    (web : String → Fetched → Type 0) where
  -- A feed with the signature of a hub under a secret of a subscription to the topic, with which the
  -- program has asked its hub, or one that is in an answer of the web to a request for the topic.
  abbrev pub IsGenuine : String → Feed → Type 0
  IsGenuine topic f =
      ((w : World) × (id : ℕ) × (t : Task) × (req : HttpRequest) × (content : List ℕ) × Reach b
          callback w
        × IsWanted b callback w id t
        × (content_of req.body ≡ some content)
        × IsAuthentic m p t req.body topic f content)
      ⊎ ((answer : Fetched) × web topic answer × IsFetched crates topic f answer)

  pub Arrives-IsGenuine :
      (topic : String) (f : Feed) → Arrives b callback m p crates web topic f → IsGenuine topic f
  Arrives-IsGenuine topic f (pushed {w} margin now req t c r run task sent) =
      let (id, _, wanted) = Reach-IsWanted b callback p margin now req t c r run task in
      let (_, content, whole, authentic) =
        (verify_signature_iff m p t req.body topic f true).0 sent in
      inl (w, id, t, req, content, r, wanted, whole, authentic)
  Arrives-IsGenuine topic f (fetched answer r given e k) =
      inr (answer, given, discover-IsFetched crates topic f answer r e k)
