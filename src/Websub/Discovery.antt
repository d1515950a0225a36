-- ===== src/Websub/Discovery.antt =====
-- src/websub/subscriber/service.rs: `discover`, which fetches a topic and looks for its hubs, and
-- `discover_and_subscribe`, both of which panic at a topic that is no URI. The response is an argument: `none` is a request that failed. `is_open` is
-- whether the subscriber still has the receiver of the channel.
pub mod Hubs
use pipitor.Base.{
  ℕ, suc, String, Bool, true, false, ◌&&◌, List, [], ◌∷◌, ◌++◌, map, retain, Option, none, some,
  find, str_eq, if◌then◌else◌,
}
use pipitor.Websub.Callback.{Library}
use pipitor.Websub.Address.{Uri}
use pipitor.Websub.Store.{Db}
use pipitor.Websub.Hub.{Request, Rng, Outcome, done, ◌>>=◌, after, subscribe}
use pipitor.Feed.MediaType.{MediaType, Mime, from_str}
use pipitor.Feed.Extension.{
  Extension, extension, Elements, no_elements, element, ExtensionMap, get, is_some_of,
}
use pipitor.Feed.Convert.{
  Link, AtomFeed, Channel, RawFeed, atom, rss, Feed, Readers, parse, to_feed,
}
use pipitor.Util.ConcatBody.{concat_body}

abbrev pub ns_atom : String
ns_atom = "http://www.w3.org/2005/Atom"

-- Whether the element is in the namespace of Atom: by a declaration of the prefix on the element
-- itself, or else by that of the channel. `declares prefix k` is `k.strip_prefix("xmlns:") ==
-- Some(prefix)`.
unfoldable pub is_atom : (String → String → Bool) → String → Bool → List (String × String) → Bool
is_atom declares prefix prefix_is_atom attrs = elim (find (λ a. declares prefix a.0) attrs) [
  | none ↦ prefix_is_atom
  | some a ↦ str_eq a.1 ns_atom
]

abbrev pub to_list : Option String → List String
to_list none = []
to_list (some s) = s ∷ []

module _ (declares : String → String → Bool) where
  -- The links to hubs among the elements of a name.
  unfoldable pub hub_links : String → Bool → Elements → List String
  unfolding is_atom
  hub_links prefix prefix_is_atom no_elements = []
  hub_links prefix prefix_is_atom (element (extension value attrs inner) es) =
      let rest = hub_links prefix prefix_is_atom es in
      if is_atom declares prefix prefix_is_atom attrs && is_some_of "hub" (get "rel" attrs)
      then to_list (get "href" attrs) ++ rest
      else rest

  unfoldable pub prefix_links : String → Bool → List (String × Elements) → List String
  unfolding hub_links
  prefix_links prefix prefix_is_atom [] = []
  prefix_links prefix prefix_is_atom ((name, es) ∷ rest) =
      let links = prefix_links prefix prefix_is_atom rest in
      if str_eq name "link" then hub_links prefix prefix_is_atom es ++ links else links

  unfoldable pub rss_hub_links : ExtensionMap → List (String × String) → List String
  unfolding prefix_links
  rss_hub_links [] namespaces = []
  rss_hub_links ((prefix, m) ∷ rest) namespaces =
      prefix_links prefix (is_some_of ns_atom (get prefix namespaces)) m
      ++ rss_hub_links rest namespaces

  -- The hubs of a feed, and the feed once they have been taken out of it.
  unfoldable pub take_hubs : RawFeed → List String × RawFeed
  unfolding rss_hub_links
  take_hubs (atom f) =
      (map (λ l. l.href) (retain (λ l. str_eq l.rel "hub") f.links), atom (record f { links = [] }))
  take_hubs (rss c) =
      (rss_hub_links c.extensions c.namespaces, rss (record c { extensions = []; namespaces = [] }))

-- The response to the request for the topic.
pub record Fetched : Type 0 where
  pub content_type : Option (List ℕ)
  pub body : List (Option (List ℕ))

-- What `discover` gives: the hubs, if the response was a feed, and what it sent to the channel.
pub record Found : Type 0 where
  pub hubs : Option (List String)
  pub sent : List (String × Feed)

pub data Discovered {ℓ} (A : Type ℓ) : Type ℓ where
  found : A → Discovered A
  panicked request_failed body_failed no_connection : Discovered A

-- The crates, and the test of a prefix.
pub record Crates : Type 0 where
  pub mime : List ℕ → Option Mime
  pub readers : Readers
  pub declares : String → String → Bool
  pub is_uri : String → Bool

-- The media type; a response without one is taken for XML.
abbrev pub kind_of : Crates → Option (List ℕ) → Option MediaType
kind_of c none = some MediaType.xml
kind_of c (some header) = from_str (c.mime header)

module _ (c : Crates) (is_open : Bool) (topic : String) where
  -- With the type and the body of the response.
  unfoldable pub parsed : Option RawFeed → Found
  unfolding take_hubs
  parsed none = record { hubs = none; sent = [] }
  parsed (some raw) = record {
    hubs = some (take_hubs c.declares raw).0;
    sent = if is_open then (topic, to_feed (take_hubs c.declares raw).1) ∷ [] else [];
  }

  unfoldable pub read_body : MediaType → Option (List ℕ) → Discovered Found
  unfolding parsed
  read_body kind none = body_failed
  read_body kind (some body) = found (parsed (parse c.readers kind body))

  unfoldable pub read_response : Option Fetched → Discovered Found
  unfolding read_body
  read_response none = request_failed
  read_response (some res) = elim (kind_of c res.content_type) [
    | none ↦ found (record { hubs = none; sent = [] })
    | some kind ↦ read_body kind (concat_body res.body)
  ]

  -- `http::Request::get` is unwrapped.
  unfoldable pub discover : Option Fetched → Discovered Found
  unfolding read_response
  discover res = if c.is_uri topic then read_response res else panicked

  module _ (b : Library) (callback : Uri) (rng : ℕ → Rng) where
    -- The loop over the hubs; `rng` has the draws for the `i`th and the following ones.
    unfoldable pub subscribe_each : ℕ → List String → Db → Outcome (List Request × Db)
    subscribe_each i [] d = done ([], d)
    subscribe_each i (hub ∷ hubs) d = do
      (r, d') ← subscribe b callback hub topic (rng i) d
      after (r ∷ []) (subscribe_each (suc i) hubs d')

    -- `none` if no hubs were looked for; the tables are there if a connection can be had.
    unfoldable pub then_subscribe :
        Option (List String) → Option Db → Discovered (Option (Outcome (List Request × Db)))
    unfolding subscribe_each
    then_subscribe none conn = found none
    then_subscribe (some hubs) none = no_connection
    then_subscribe (some hubs) (some d) = found (some (subscribe_each 0 hubs d))

    unfoldable pub discover_and_subscribe :
        Option Fetched → Option Db → Discovered (Option (Outcome (List Request × Db)))
    unfolding discover then_subscribe
    discover_and_subscribe res conn = elim (discover res) [
      | found f ↦ then_subscribe f.hubs conn
      | panicked ↦ panicked
      | request_failed ↦ request_failed
      | body_failed ↦ body_failed
      | no_connection ↦ no_connection
    ]
