-- ===== src/Websub/Discovery/Hubs.antt =====
-- The hubs and the updates that a discovery of src/websub/subscriber/service.rs leads to.
use pipitor.Base.{
  ℕ, suc, All, ◌/◌, String, Bool, true, List, [], ◌∷◌, map, Option, none, some, ◌≡◌, refl,
}
use pipitor.Websub.Callback.{Library}
use pipitor.Websub.Address.{Uri, make_callback}
use pipitor.Websub.Store.{Db, IsValid}
use pipitor.Websub.Store.Integrity.{with_pending, with_pending-IsValid}
use pipitor.Websub.Hub.{Form, Request, Rng, done, new_row, gen_secret, subscribe}
use pipitor.Websub.Hub.Create.{fresh_draw, fresh_draw-not-taken, create_subscription_lem}
use pipitor.Feed.MediaType.{MediaType}
use pipitor.Feed.Extension.{ExtensionMap, get, take_media_description}
use pipitor.Feed.Extension.Precedence.{nowhere, descriptions, take_media_description_lem}
use pipitor.Feed.Convert.{Item, Channel, RawFeed, rss, parse, from_rss, or, to_feed}
use pipitor.Util.ConcatBody.{concat_body}
use pipitor.Websub.Discovery.{
  Crates, Fetched, found, take_hubs, kind_of, parsed, read_body, read_response, discover,
  subscribe_each, then_subscribe, discover_and_subscribe,
}

descriptions-nil : (m : ExtensionMap) → descriptions [] m ≡ nowhere
unfolding descriptions get
descriptions-nil [] = refl
descriptions-nil ((prefix, m) ∷ rest) = descriptions-nil rest

-- Without namespaces no description is one of Media RSS.
take_media_description-nil : (m : ExtensionMap) → take_media_description m [] ≡ none
take_media_description-nil m = rw (take_media_description_lem m []) (rw (descriptions-nil m) refl)

or-none : (o : Option String) → or o none ≡ o
or-none none = refl
or-none (some s) = refl

summaries :
    (items : List Item)
    → map (λ e. e.summary) (map (λ i. from_rss i []) items) ≡ map (λ i. i.description) items
unfolding from_rss
summaries [] = refl
summaries (i ∷ items) =
    rw (take_media_description-nil i.extensions, or-none i.description, summaries items) refl

-- The entries of an RSS feed that a discovery has taken the hubs out of have no other summary than
-- their `description`: the descriptions of Media RSS are not found any more.
take_hubs-summary :
    (declares : String → String → Bool) (c : Channel)
    → map (λ e. e.summary) (to_feed (take_hubs declares (rss c)).1).entries
      ≡ map (λ i. i.description) c.items
unfolding take_hubs to_feed
take_hubs-summary declares c = summaries c.items

module _ (b : Library) (callback : Uri) (rng : ℕ → Rng) (topic : String) where
  -- The draws for each hub have an id that is not taken when its turn comes.
  abbrev pub Drawn : ℕ → List String → Db → Type 0
  Drawn i [] d = Unit {0}
  Drawn i (hub ∷ hubs) d =
      (x : ℕ) × (fresh_draw (rng i).u64s d ≡ some x)
      × Drawn (suc i) hubs (with_pending (new_row b hub topic (rng i) (x / 2)) d)

  -- One request for each hub, in order: to subscribe to the topic.
  abbrev pub Asks : List String → List Request → Type 0
  Asks [] [] = Unit {0}
  Asks [] (r ∷ rs) = ⊥
  Asks (hub ∷ hubs) [] = ⊥
  Asks (hub ∷ hubs) (r ∷ rs) =
      (r.hub ≡ hub)
      × ((u : Uri) × (k : List ℕ) × (r.form ≡ Form.subscribes u topic k))
      × Asks hubs rs

  subscribe_each_lem :
      (c : Crates) (is_open : Bool) (hubs : List String) (i : ℕ) (d : Db)
      → IsValid d
      → All (λ hub. b.is_uri hub ≡ true) hubs
      → Drawn i hubs d
      → (rs : List Request) × (d' : Db) × (subscribe_each c is_open topic b callback rng i hubs d
          ≡ done (rs, d'))
        × IsValid d'
        × Asks hubs rs
  unfolding subscribe_each subscribe
  subscribe_each_lem c is_open [] i d v uris w = ([], d, refl, v, tt)
  subscribe_each_lem c is_open (hub ∷ hubs) i d v (uri, uris) (x, e, w) =
      let row = new_row b hub topic (rng i) (x / 2) in
      let free = fresh_draw-not-taken (rng i).u64s d e in
      let (rs, d', run, v', asks) =
        subscribe_each_lem c is_open hubs (suc i) (with_pending row d)
          (with_pending-IsValid row d v free) uris w in
      (
        record {
          hub = hub;
          form = Form.subscribes (make_callback b callback (x / 2)) topic (gen_secret b (rng i));
        }
            ∷ rs,
        d',
        rw (create_subscription_lem b hub topic (rng i) d v, e, uri, run) refl,
        v',
        (refl, (_, _, refl), asks),
      )

  -- The discovery of a topic that is a URI, whose response is a feed with URIs for hubs, sends the feed to the channel, one request
  -- to subscribe to each of the hubs of the feed, in order, and keeps the tables valid.
  pub discover_and_subscribe_lem :
      (c : Crates) (res : Fetched) (kind : MediaType) (content : List ℕ) (raw : RawFeed) (d : Db)
      → c.is_uri topic ≡ true
      → kind_of c res.content_type ≡ some kind
      → concat_body res.body ≡ some content
      → parse c.readers kind content ≡ some raw
      → IsValid d
      → All (λ hub. b.is_uri hub ≡ true) (take_hubs c.declares raw).0
      → Drawn 0 (take_hubs c.declares raw).0 d
      → (discover c true topic (some res)
          ≡ found (record {
            hubs = some (take_hubs c.declares raw).0;
            sent = (topic, to_feed (take_hubs c.declares raw).1) ∷ [];
          }))
        × (rs : List Request) × (d' : Db) × (discover_and_subscribe c true topic b callback rng
              (some res)
              (some d)
            ≡ found (some (done (rs, d'))))
        × IsValid d'
        × Asks (take_hubs c.declares raw).0 rs
  unfolding discover discover_and_subscribe read_body parsed then_subscribe
  discover_and_subscribe_lem c res kind content raw d address k body feed v uris w =
      let (rs, d', run, v', asks) =
        subscribe_each_lem c true (take_hubs c.declares raw).0 0 d v uris w in
      let discovered : discover c true topic (some res)
          ≡ found (record {
            hubs = some (take_hubs c.declares raw).0;
            sent = (topic, to_feed (take_hubs c.declares raw).1) ∷ [];
          }) =
        rw (address, read_response, k, body, feed) refl in
      (discovered, rs, d', rw (discover_and_subscribe, discovered, run) refl, v', asks)
