-- ===== src/Feed/Extension.antt =====
-- src/feed.rs: `take_media_description_atom` and `take_media_description_rss`, which are one macro. A
-- `BTreeMap` is the list of its entries in the order of its keys, which is that of its iteration. An
-- element from which a value is taken is not looked at again.
pub mod Precedence
use pipitor.Base.{
  ℕ, String, Bool, true, false, List, [], ◌∷◌, ◌++◌, Option, none, some, str_eq, if◌then◌else◌,
}

-- `atom::extension::Extension` and `rss::extension::Extension`: the fields that are read.
mutual
  pub data Extension : Type 0 where
    extension : Option String → List (String × String) → Children → Extension

  pub data Elements : Type 0 where
    no_elements : Elements
    element : Extension → Elements → Elements

  pub data Children : Type 0 where
    no_children : Children
    children : String → Elements → Children → Children

-- `BTreeMap::get`.
unfoldable pub get : String → List (String × String) → Option String
get key [] = none
get key ((k, v) ∷ rest) = if str_eq k key then some v else get key rest

abbrev pub is_some_of : String → Option String → Bool
is_some_of s none = false
is_some_of s (some t) = str_eq t s

abbrev pub ns_mrss : String
ns_mrss = "http://search.yahoo.com/mrss/"

-- The first value among the elements.
unfoldable pub take_description : Elements → Option String
take_description no_elements = none
take_description (element (extension none attrs inner) es) = take_description es
take_description (element (extension (some v) attrs inner) es) = some v

-- The inner loop of `take_content_description`: what is returned, if anything is.
unfoldable pub description_child : Children → Option (Option String)
unfolding take_description
description_child no_children = none
description_child (children name es rest) =
    if str_eq name "description" then some (take_description es) else description_child rest

unfoldable pub take_content_description : Elements → Option String
unfolding description_child
take_content_description no_elements = none
take_content_description (element (extension v attrs inner) es) = elim (description_child inner) [
  | none ↦ take_content_description es
  | some returned ↦ returned
]

-- `entry_description` and `group_description`, or the value that is returned at once.
pub data Scan : Type 0 where
  scanned : Option String → Option String → Scan
  returned : String → Scan

-- What follows in the loop, unless the function has returned.
abbrev pub and_then : Scan → (Option String → Option String → Scan) → Scan
and_then (scanned entry group) next = next entry group
and_then (returned v) next = returned v

-- `get_or_insert`, if there is a value.
abbrev pub or_insert : Option String → Option String → Option String
or_insert (some old) v = some old
or_insert none v = v

-- The loop over the children of an element of a group.
unfoldable pub scan_group : Children → Option String → Option String → Scan
scan_group no_children entry group = scanned entry group
scan_group (children name es rest) entry group =
    if str_eq name "description"
    then scan_group rest entry (or_insert group (take_description es))
    else if str_eq name "content"
    then elim (take_content_description es) [
      | some v ↦ returned v
      | none ↦ scan_group rest entry group
    ]
    else scan_group rest entry group

unfoldable pub scan_groups : Elements → Option String → Option String → Scan
scan_groups no_elements entry group = scanned entry group
scan_groups (element (extension v attrs inner) es) entry group =
    and_then (scan_group inner entry group) (λ entry' group'. scan_groups es entry' group')

-- The loop over the elements of a prefix of Media RSS.
unfoldable pub scan_map : List (String × Elements) → Option String → Option String → Scan
scan_map [] entry group = scanned entry group
scan_map ((name, es) ∷ rest) entry group =
    if str_eq name "description"
    then scan_map rest (or_insert entry (take_description es)) group
    else if str_eq name "content"
    then elim (take_content_description es) [
      | some v ↦ returned v
      | none ↦ scan_map rest entry group
    ]
    else if str_eq name "group"
    then and_then (scan_groups es entry group) (λ entry' group'. scan_map rest entry' group')
    else scan_map rest entry group

abbrev pub ExtensionMap : Type 0
ExtensionMap = List (String × List (String × Elements))

unfoldable pub scan : List (String × String) → ExtensionMap → Option String → Option String → Scan
scan namespaces [] entry group = scanned entry group
scan namespaces ((prefix, map) ∷ rest) entry group =
    if is_some_of ns_mrss (get prefix namespaces)
    then and_then (scan_map map entry group) (λ entry' group'. scan namespaces rest entry' group')
    else scan namespaces rest entry group

-- The end of the function.
abbrev pub settle : Scan → Option String
settle (scanned entry group) = or_insert group entry
settle (returned v) = some v

unfoldable pub take_media_description : ExtensionMap → List (String × String) → Option String
take_media_description extensions namespaces = settle (scan namespaces extensions none none)
