-- ===== src/Feed/MediaType.antt =====
-- src/feed.rs: `MediaType` and its `FromStr`. The parse of a `Mime` is the crate `mime`'s.
use pipitor.Base.{String, Bool, false, ◌&&◌, ◌||◌, Option, none, some, str_eq, if◌then◌else◌}

pub data MediaType : Type 0 where
  atom rss xml : MediaType

pub record Mime : Type 0 where
  pub type_ : String
  pub subtype : String
  pub suffix : Option String

abbrev pub has_xml_suffix : Mime → Bool
has_xml_suffix m = elim m.suffix [ none ↦ false | some s ↦ str_eq s "xml" ]

-- `from_str`, after the parse.
unfoldable pub from_str : Option Mime → Option MediaType
from_str none = none
from_str (some m) =
    if str_eq m.type_ "application" && str_eq m.subtype "atom" && has_xml_suffix m
    then some atom
    else if str_eq m.type_ "application"
        && (str_eq m.subtype "rss" || str_eq m.subtype "rdf")
        && has_xml_suffix m
    then some rss
    else if (str_eq m.type_ "application" || str_eq m.type_ "text") && str_eq m.subtype "xml"
    then some xml
    else none
