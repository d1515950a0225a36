-- ===== src/Tests/Texts.antt =====
-- The theorems on the texts of Tweets and on feeds at concrete inputs.
use pipitor.Base.{ℕ, String, true, false, List, [], ◌∷◌, none, some, ◌≡◌, refl, arith}
use pipitor.Twitter.Entities.{
  Url, byte_len, len_utf8, merged, sort_by_start, insert_by_start, expand_urls, invalid, overlap,
}
use pipitor.Twitter.Entities.Splice.{is_spaced, is_within, splice, expand_urls-Meets}
use pipitor.Feed.Extension.{
  Extension, extension, no_elements, element, no_children, children, ExtensionMap, get,
  take_description, take_content_description, take_media_description,
}
use pipitor.Feed.Extension.Precedence.{
  described, described_children, descriptions, map_elements, groups, group_children,
  take_media_description_lem,
}
use pipitor.Feed.MediaType.{MediaType}
use pipitor.Feed.Convert.{Item, Channel, parse, to_feed, rss}
use pipitor.Websub.Discovery.{Crates, Fetched, found, take_hubs, discover}
use pipitor.Websub.Discovery.Hubs.{discover_and_subscribe_lem}
use pipitor.Util.ConcatBody.{concat_body}
use pipitor.Tests.Data.{padded, callback, db, db-IsValid, rng}

-- Seven characters with two short URLs, of which the first one is long when it is expanded.
abbrev text : List ℕ
text = 97 ∷ 120 ∷ 120 ∷ 98 ∷ 121 ∷ 121 ∷ 99 ∷ []

abbrev long : Url
long = record { expanded_url = 1 ∷ 2 ∷ 3 ∷ 4 ∷ 5 ∷ 6 ∷ 7 ∷ 8 ∷ []; start = 1; end = 3 }

abbrev short : Url
short = record { expanded_url = 9 ∷ []; start = 4; end = 6 }

-- The URLs do not overlap, but the Tweet is refused.
expand_urls-Meets_example :
    expand_urls text (some (record { urls = short ∷ []; media = long ∷ [] })) ≡ invalid overlap
unfolding is_spaced is_within splice sort_by_start merged insert_by_start byte_len len_utf8
expand_urls-Meets_example =
    expand_urls-Meets text (record { urls = short ∷ []; media = long ∷ [] }) (omega arith)
      ((omega arith, omega arith), ((omega arith, omega arith), tt))

-- An element with a text and without children, and one with a description.
abbrev leaf : String → Extension
leaf v = extension (some v) [] no_children

abbrev holder : String → Extension
holder v = extension none [] (children "description" (element (leaf v) no_elements) no_children)

abbrev media : ExtensionMap
media =
    (
      "media",
      ("content", element (holder "of the content") no_elements)
          ∷ ("description", element (leaf "of the entry") no_elements)
          ∷ ("group", element (holder "of the group") no_elements)
          ∷ [],
    )
    ∷ []

abbrev namespaces : List (String × String)
namespaces =
    ("media", "http://search.yahoo.com/mrss/") ∷ ("atom", "http://www.w3.org/2005/Atom") ∷ []

take_media_description_lem_example : take_media_description media namespaces ≡ some "of the content"
unfolding descriptions map_elements groups group_children get take_description
    take_content_description described described_children
take_media_description_lem_example = take_media_description_lem media namespaces

abbrev item : Item
item = record {
  title = some "news";
  guid = none;
  link = some "https://feed/1";
  description = none;
  content = none;
  extensions = media;
}

-- A link of the channel to a hub.
abbrev link : Extension
link = extension none (("rel", "hub") ∷ ("href", "https://other") ∷ []) no_children

abbrev channel : Channel
channel = record {
  title = "news";
  link = "https://feed";
  items = item ∷ [];
  extensions = ("atom", ("link", element link no_elements) ∷ []) ∷ [];
  namespaces = namespaces;
}

abbrev pub crates : Crates
crates = record {
  mime = λ header. none;
  readers = record { read_atom = λ content. none; read_rss = λ content. some channel };
  declares = λ prefix k. false;
  is_uri = λ u. true;
}

abbrev pub response : Fetched
response = record { content_type = none; body = some (1 ∷ []) ∷ some (2 ∷ []) ∷ [] }

discover_and_subscribe_lem_example :
    discover crates true "https://feed" (some response)
    ≡ found (record {
      hubs = some ("https://other" ∷ []);
      sent = ("https://feed", to_feed (take_hubs (λ prefix k. false) (rss channel)).1) ∷ [];
    })
unfolding concat_body parse take_hubs get
discover_and_subscribe_lem_example =
    (discover_and_subscribe_lem padded callback (λ i. rng) "https://feed" crates response
      MediaType.xml (1 ∷ 2 ∷ []) (rss channel) db refl refl refl refl db-IsValid (refl, tt)
      (20, refl, tt)).0
