-- ===== src/Feed/Convert.antt =====
-- src/feed.rs: `Feed`, and the conversion of the feeds that the crates `atom_syndication` and `rss`
-- parse. Of their types, the records below have the fields that the program reads.
use pipitor.Base.{
  ℕ, String, Bool, List, [], ◌∷◌, map, first, find, Option, none, some, str_eq, if◌then◌else◌, ◌≡◌,
  refl, Bool-cases, inl, inr,
}
use pipitor.Base.Int.{ℤ}
use pipitor.Manifest.Matching.{Entry}
use pipitor.Feed.MediaType.{MediaType}
use pipitor.Feed.Extension.{ExtensionMap, take_media_description}

pub record Link : Type 0 where
  pub href : String
  pub rel : String

pub record AtomEntry : Type 0 where
  pub title : String
  pub id : String
  pub updated : ℤ
  pub links : List Link
  pub summary : Option String
  -- `content`, and its value.
  pub content : Option (Option String)
  pub extensions : ExtensionMap

pub record AtomFeed : Type 0 where
  pub title : String
  pub id : String
  pub links : List Link
  pub entries : List AtomEntry
  pub namespaces : List (String × String)

pub record Guid : Type 0 where
  pub value : String
  pub is_permalink : Bool

pub record Item : Type 0 where
  pub title : Option String
  pub guid : Option Guid
  pub link : Option String
  pub description : Option String
  pub content : Option String
  pub extensions : ExtensionMap

pub record Channel : Type 0 where
  pub title : String
  pub link : String
  pub items : List Item
  pub extensions : ExtensionMap
  pub namespaces : List (String × String)

pub data RawFeed : Type 0 where
  atom : AtomFeed → RawFeed
  rss : Channel → RawFeed

pub record Feed : Type 0 where
  pub title : String
  pub id : String
  pub entries : List Entry

abbrev pub or {ℓ} : {A : Type ℓ} → Option A → Option A → Option A
or none o = o
or (some a) o = some a

abbrev pub is_alternate : Link → Bool
is_alternate l = str_eq l.rel "alternate"

abbrev pub href_of : Option Link → Option String
href_of none = none
href_of (some l) = some l.href

-- The choice of the link in `from_atom`.
unfoldable pub alternate : List Link → Option Link
alternate [] = none
alternate (l ∷ links) = if is_alternate l then some l else or (find is_alternate links) (some l)

abbrev pub flatten : Option (Option String) → Option String
flatten none = none
flatten (some o) = o

unfoldable pub from_atom : AtomEntry → List (String × String) → Entry
unfolding alternate
from_atom e namespaces = record {
  title = some e.title;
  id = some e.id;
  link = href_of (alternate e.links);
  summary = or e.summary (take_media_description e.extensions namespaces);
  content = flatten e.content;
  updated = some e.updated;
}

-- The identifier as a link.
abbrev pub permalink : Option Guid → Option String
permalink none = none
permalink (some g) = if g.is_permalink then some g.value else none

abbrev pub guid_value : Option Guid → Option String
guid_value none = none
guid_value (some g) = some g.value

unfoldable pub from_rss : Item → List (String × String) → Entry
from_rss i namespaces = record {
  title = i.title;
  id = guid_value i.guid;
  link = or i.link (permalink i.guid);
  summary = or i.description (take_media_description i.extensions namespaces);
  content = i.content;
  updated = none;
}

unfoldable pub to_feed : RawFeed → Feed
unfolding from_atom from_rss
to_feed (atom f) = record {
  title = f.title;
  id = f.id;
  entries = map (λ e. from_atom e f.namespaces) f.entries;
}
to_feed (rss c) = record {
  title = c.title;
  id = c.link;
  entries = map (λ i. from_rss i c.namespaces) c.items;
}

-- The crates' parsers.
pub record Readers : Type 0 where
  pub read_atom : List ℕ → Option AtomFeed
  pub read_rss : List ℕ → Option Channel

abbrev pub as_atom : Option AtomFeed → Option RawFeed
as_atom none = none
as_atom (some f) = some (atom f)

abbrev pub as_rss : Option Channel → Option RawFeed
as_rss none = none
as_rss (some c) = some (rss c)

-- `RawFeed::parse`.
unfoldable pub parse : Readers → MediaType → List ℕ → Option RawFeed
parse r MediaType.atom content = as_atom (r.read_atom content)
parse r MediaType.rss content = as_rss (r.read_rss content)
parse r MediaType.xml content = or (as_atom (r.read_atom content)) (as_rss (r.read_rss content))

-- The link of an Atom entry is its first alternate one, or else its first one.
pub alternate_lem :
    (links : List Link) → alternate links ≡ or (find is_alternate links) (first links)
unfolding alternate
alternate_lem [] = refl
alternate_lem (l ∷ links) = elim (Bool-cases (is_alternate l)) [
  | inl e ↦ rw e refl
  | inr e ↦ rw e refl
]
