-- ===== src/Feed/Extension/Precedence.antt =====
-- The precedence of the descriptions of Media RSS, src/feed.rs.
use pipitor.Base.{
  String, List, [], ◌∷◌, ◌++◌, Option, none, some, first, str_eq, if◌then◌else◌, ◌≡◌, refl, ap,
  fun_ext, ◌∙◌, Bool-cases, inl, inr,
}
use pipitor.Feed.Extension.{
  extension, Elements, no_elements, element, Children, no_children, children, get, is_some_of,
  ns_mrss, take_description, description_child, take_content_description, Scan, scanned, returned,
  and_then, or_insert, scan_group, scan_groups, scan_map, scan, ExtensionMap, settle,
  take_media_description,
}

abbrev pub to_list : Option String → List String
to_list none = []
to_list (some v) = v ∷ []

-- The texts of the `media:description` elements of a group's child or of a `media:content` element: one
-- for each child of that name, if it has a text.
unfoldable pub described_children : Children → List (Option String)
described_children no_children = []
described_children (children name es rest) =
    let others = described_children rest in
    if str_eq name "description" then take_description es ∷ others else others

-- Those of all `media:content` elements of one parent.
unfoldable pub described : Elements → List (Option String)
described no_elements = []
described (element (extension v attrs inner) es) = described_children inner ++ described es

-- Only the first one counts, with or without a text.
abbrev pub leading : List (Option String) → Option String
leading [] = none
leading (o ∷ os) = o

description_child-described : (cs : Children) → description_child cs ≡ first (described_children cs)
unfolding description_child described_children
description_child-described no_children = refl
description_child-described (children name es rest) =
    elim (Bool-cases (str_eq name "description")) [
      | inl e ↦ rw e refl
      | inr e ↦ rw e (description_child-described rest)
    ]

settle-described :
    (os rest : List (Option String)) (d : Option (Option String))
    → d ≡ first os
    → elim d as (λ x. Option String) [ none ↦ leading rest | some v ↦ v ] ≡ leading (os ++ rest)
settle-described [] rest d e = rw e refl
settle-described (o ∷ os) rest d e = rw e refl

take_content_description-described :
    (es : Elements) → take_content_description es ≡ leading (described es)
unfolding take_content_description described
take_content_description-described no_elements = refl
take_content_description-described (element (extension v attrs inner) es) =
    ap (λ r. elim (description_child inner) as (λ x. Option String) [ none ↦ r | some w ↦ w ])
      (take_content_description-described es)
    ∙ settle-described (described_children inner) (described es) (description_child inner)
        (description_child-described inner)

-- What some elements of a document hold: the descriptions of its `media:content` elements, those of
-- the document itself and those of its groups, in the order of the document.
pub record Descriptions : Type 0 where
  pub of_content : List String
  pub of_entry : List String
  pub of_groups : List String

abbrev pub nowhere : Descriptions
nowhere = record { of_content = []; of_entry = []; of_groups = [] }

infixl 5 ◌and◌
abbrev pub ◌and◌ : Descriptions → Descriptions → Descriptions
d and e = record {
  of_content = d.of_content ++ e.of_content;
  of_entry = d.of_entry ++ e.of_entry;
  of_groups = d.of_groups ++ e.of_groups;
}

-- A child of a group, by its name.
abbrev pub in_group : String → Elements → Descriptions
in_group name es =
    if str_eq name "description"
    then record nowhere { of_groups = to_list (take_description es) }
    else if str_eq name "content"
    then record nowhere { of_content = to_list (leading (described es)) }
    else nowhere

unfoldable pub group_children : Children → Descriptions
group_children no_children = nowhere
group_children (children name es rest) = in_group name es and group_children rest

unfoldable pub groups : Elements → Descriptions
groups no_elements = nowhere
groups (element (extension v attrs inner) es) = group_children inner and groups es

-- An element of the document, by its name.
abbrev pub in_entry : String → Elements → Descriptions
in_entry name es =
    if str_eq name "description"
    then record nowhere { of_entry = to_list (take_description es) }
    else if str_eq name "content"
    then record nowhere { of_content = to_list (leading (described es)) }
    else if str_eq name "group"
    then groups es
    else nowhere

unfoldable pub map_elements : List (String × Elements) → Descriptions
map_elements [] = nowhere
map_elements ((name, es) ∷ rest) = in_entry name es and map_elements rest

-- Only prefixes of the Media RSS namespace count.
unfoldable pub descriptions : List (String × String) → ExtensionMap → Descriptions
descriptions namespaces [] = nowhere
descriptions namespaces ((prefix, map) ∷ rest) =
    (if is_some_of ns_mrss (get prefix namespaces) then map_elements map else nowhere)
    and descriptions namespaces rest

abbrev outcome_of : List String → List String → List String → Option String → Option String → Scan
outcome_of (v ∷ vs) es gs entry group = returned v
outcome_of [] es gs entry group = scanned (or_insert entry (first es)) (or_insert group (first gs))

-- The loops' state after the descriptions.
abbrev outcome : Descriptions → Option String → Option String → Scan
outcome d = outcome_of d.of_content d.of_entry d.of_groups

or_insert-none : (o : Option String) → or_insert o none ≡ o
or_insert-none none = refl
or_insert-none (some v) = refl

or_insert-append :
    (o : Option String) (xs ys : List String)
    → or_insert (or_insert o (first xs)) (first ys) ≡ or_insert o (first (xs ++ ys))
or_insert-append none [] ys = refl
or_insert-append none (x ∷ xs) ys = refl
or_insert-append (some v) xs ys = refl

and_then-outcome_of :
    (c es gs c' es' gs' : List String) (entry group : Option String)
    → and_then (outcome_of c es gs entry group) (outcome_of c' es' gs')
      ≡ outcome_of (c ++ c') (es ++ es') (gs ++ gs') entry group
and_then-outcome_of (v ∷ c) es gs c' es' gs' entry group = refl
and_then-outcome_of [] es gs (v ∷ c') es' gs' entry group = refl
and_then-outcome_of [] es gs [] es' gs' entry group =
    rw (or_insert-append entry es es', or_insert-append group gs gs') refl

-- A loop that goes on after `s` as `f` does.
and_then-outcome :
    (s : Scan) (f : Option String → Option String → Scan) (d e : Descriptions)
    (entry group : Option String)
    → s ≡ outcome d entry group
    → ((x y : Option String) → f x y ≡ outcome e x y)
    → and_then s f ≡ outcome (d and e) entry group
and_then-outcome s f d e entry group hs hf =
    ap (λ t. and_then t f) hs
    ∙ ap (λ g. and_then (outcome d entry group) g) (fun_ext (λ x. fun_ext (λ y. hf x y)))
    ∙ and_then-outcome_of d.of_content d.of_entry d.of_groups e.of_content e.of_entry e.of_groups
        entry group

-- The three branches of a child, before a loop that goes on as `f` does.
module _ (f : Option String → Option String → Scan) (entry group : Option String) where
  and_then-of_groups :
      (o : Option String)
      → f entry (or_insert group o)
        ≡ and_then (outcome (record nowhere { of_groups = to_list o }) entry group) f
  and_then-of_groups none = rw (or_insert-none entry) refl
  and_then-of_groups (some v) = rw (or_insert-none entry) refl

  and_then-of_entry :
      (o : Option String)
      → f (or_insert entry o) group
        ≡ and_then (outcome (record nowhere { of_entry = to_list o }) entry group) f
  and_then-of_entry none = rw (or_insert-none group) refl
  and_then-of_entry (some v) = rw (or_insert-none group) refl

  and_then-of_content :
      (o : Option String)
      → elim o as (λ x. Scan) [ some v ↦ returned v | none ↦ f entry group ]
        ≡ and_then (outcome (record nowhere { of_content = to_list o }) entry group) f
  and_then-of_content none = rw (or_insert-none entry, or_insert-none group) refl
  and_then-of_content (some v) = refl

  and_then-nowhere : f entry group ≡ and_then (outcome nowhere entry group) f
  and_then-nowhere = rw (or_insert-none entry, or_insert-none group) refl

scan_group_lem :
    (cs : Children) (entry group : Option String)
    → scan_group cs entry group ≡ outcome (group_children cs) entry group
unfolding scan_group group_children
scan_group_lem no_children entry group = rw (or_insert-none entry, or_insert-none group) refl
scan_group_lem (children name es rest) entry group =
    (elim (Bool-cases (str_eq name "description")) [
      | inl e ↦ rw e (and_then-of_groups (scan_group rest) entry group (take_description es))
      | inr e ↦ rw e (elim (Bool-cases (str_eq name "content")) [
        | inl c ↦
            rw (c, take_content_description-described es)
              (and_then-of_content (scan_group rest) entry group (leading (described es)))
        | inr c ↦ rw c (and_then-nowhere (scan_group rest) entry group)
      ])
    ])
    ∙ and_then-outcome (outcome (in_group name es) entry group) (scan_group rest) (in_group name es)
        (group_children rest) entry group refl (λ x. λ y. scan_group_lem rest x y)

scan_groups_lem :
    (es : Elements) (entry group : Option String)
    → scan_groups es entry group ≡ outcome (groups es) entry group
unfolding scan_groups groups
scan_groups_lem no_elements entry group = rw (or_insert-none entry, or_insert-none group) refl
scan_groups_lem (element (extension v attrs inner) es) entry group =
    and_then-outcome (scan_group inner entry group) (scan_groups es) (group_children inner)
      (groups es) entry group (scan_group_lem inner entry group) (λ x. λ y. scan_groups_lem es x y)

scan_map_lem :
    (m : List (String × Elements)) (entry group : Option String)
    → scan_map m entry group ≡ outcome (map_elements m) entry group
unfolding scan_map map_elements
scan_map_lem [] entry group = rw (or_insert-none entry, or_insert-none group) refl
scan_map_lem ((name, es) ∷ rest) entry group =
    (elim (Bool-cases (str_eq name "description")) [
      | inl e ↦ rw e (and_then-of_entry (scan_map rest) entry group (take_description es))
      | inr e ↦ rw e (elim (Bool-cases (str_eq name "content")) [
        | inl c ↦
            rw (c, take_content_description-described es)
              (and_then-of_content (scan_map rest) entry group (leading (described es)))
        | inr c ↦ rw c (elim (Bool-cases (str_eq name "group")) [
          | inl g ↦ rw g (ap (λ s. and_then s (scan_map rest)) (scan_groups_lem es entry group))
          | inr g ↦ rw g (and_then-nowhere (scan_map rest) entry group)
        ])
      ])
    ])
    ∙ and_then-outcome (outcome (in_entry name es) entry group) (scan_map rest) (in_entry name es)
        (map_elements rest) entry group refl (λ x. λ y. scan_map_lem rest x y)

scan_lem :
    (namespaces : List (String × String)) (m : ExtensionMap) (entry group : Option String)
    → scan namespaces m entry group ≡ outcome (descriptions namespaces m) entry group
unfolding scan descriptions
scan_lem namespaces [] entry group = rw (or_insert-none entry, or_insert-none group) refl
scan_lem namespaces ((prefix, m) ∷ rest) entry group =
    elim (Bool-cases (is_some_of ns_mrss (get prefix namespaces))) [
      | inl e ↦ rw e (
          and_then-outcome (scan_map m entry group) (scan namespaces rest) (map_elements m)
            (descriptions namespaces rest) entry group (scan_map_lem m entry group)
            (λ x. λ y. scan_lem namespaces rest x y))
      | inr e ↦ rw e (scan_lem namespaces rest entry group)
    ]

settle-outcome_of :
    (c es gs : List String)
    → settle (outcome_of c es gs none none) ≡ or_insert (or_insert (first c) (first gs)) (first es)
settle-outcome_of (v ∷ c) es gs = refl
settle-outcome_of [] es gs = refl

-- The description of an entry is the first one of its `media:content` elements, in groups or not, if
-- any has one, else the first one of its groups, and else the first one of the entry itself, whatever
-- order they stand in; only prefixes of the namespace of Media RSS count. Of the `media:content`
-- elements of one parent only the first `description` child counts: if it has no text, they have no
-- description, though a later one may have a text.
pub take_media_description_lem :
    (m : ExtensionMap) (namespaces : List (String × String))
    → take_media_description m namespaces ≡ (
        let d : Descriptions = descriptions namespaces m in
        or_insert (or_insert (first d.of_content) (first d.of_groups)) (first d.of_entry))
unfolding take_media_description
take_media_description_lem m namespaces =
    let d : Descriptions = descriptions namespaces m in
    ap settle (scan_lem namespaces m none none)
    ∙ settle-outcome_of d.of_content d.of_entry d.of_groups
